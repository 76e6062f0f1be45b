-- ===== src/Linker/Tests.antt =====
-- The theorems on the linker (services/linker.py) at two accounts and two cards of one bank.
use financial_dashboard.Prelude.{◌≡◌, refl, true, false, none, some, List, [], ◌∷◌}
use financial_dashboard.Masks.Chars.{Text, normalize_mask}
use financial_dashboard.Linker.Texts.{bank_key}
use financial_dashboard.Linker.Context.{
  Account, Card, credit_card, bank_account, build_link_context,
}
use financial_dashboard.Linker.Link.{
  Transaction, usable, link_transaction, card_matches, account_matches,
}
use financial_dashboard.Linker.Found.{stored_cards, stored_masks}
use financial_dashboard.Linker.Sound.{is_account_of}
use financial_dashboard.Linker.Hits.{linked_account_of_bank}
use financial_dashboard.Linker.Refused.{masked_row_needs_one_match}

-- "Ab " and "aB".
abbrev bank : Text
bank = 65 ∷ 98 ∷ 32 ∷ []

abbrev same_bank : Text
same_bank = 97 ∷ 66 ∷ []

abbrev savings : Account
savings = record {
  id = 1;
  bank = bank;
  type = bank_account;
  account_number = some (48 ∷ 48 ∷ 53 ∷ 54 ∷ 55 ∷ 56 ∷ []);
}

abbrev cards_account : Account
cards_account = record { id = 2; bank = same_bank; type = credit_card; account_number = none }

abbrev accounts : List Account
accounts = savings ∷ cards_account ∷ []

-- Two cards that end in 4321, and differ before.
abbrev cards : List Card
cards =
    record { id = 10; account_id = 2; card_mask = 49 ∷ 52 ∷ 51 ∷ 50 ∷ 49 ∷ [] }
    ∷ record { id = 11; account_id = 2; card_mask = 50 ∷ 52 ∷ 51 ∷ 50 ∷ 49 ∷ [] }
    ∷ []

-- A row with the mask "1 4321", one with "XX4321", and one without a mask, of a card's email.
abbrev row : Transaction
row = record {
  account_id = none;
  card_id = none;
  bank = same_bank;
  email_type = [];
  card_mask = some (49 ∷ 32 ∷ 52 ∷ 51 ∷ 50 ∷ 49 ∷ []);
  account_mask = none;
}

abbrev ambiguous : Transaction
ambiguous = record row { card_mask = some (88 ∷ 88 ∷ 52 ∷ 51 ∷ 50 ∷ 49 ∷ []) }

abbrev maskless : Transaction
maskless = record row { card_mask = none; email_type = 97 ∷ 95 ∷ 99 ∷ 99 ∷ 95 ∷ 98 ∷ [] }

row_linked :
    link_transaction (build_link_context accounts cards) row
    ≡ (true, record row { account_id = some 2; card_id = some 10 })
unfolding link_transaction build_link_context
row_linked = refl

maskless_linked :
    link_transaction (build_link_context accounts cards) maskless
    ≡ (true, record maskless { account_id = some 2 })
unfolding link_transaction build_link_context
maskless_linked = refl

row_account : (link_transaction (build_link_context accounts cards) row).1.account_id ≡ some 2
unfolding link_transaction build_link_context
row_account = refl

linked_account_of_bank_example : is_account_of (bank_key same_bank) accounts 2 ≡ true
linked_account_of_bank_example = linked_account_of_bank accounts cards row 2 refl row_account

masked_row_needs_one_match_example :
    link_transaction (build_link_context accounts cards) ambiguous ≡ (false, ambiguous)
unfolding stored_cards stored_masks card_matches account_matches normalize_mask bank_key usable
masked_row_needs_one_match_example =
    masked_row_needs_one_match accounts cards ambiguous refl refl refl refl refl
