-- ===== src/Linker/Context.antt =====
-- `build_link_context` and `expected_account_type` of services/linker.py.
use financial_dashboard.Prelude.{
  ℕ, Bool, true, false, ◌||◌, Option, none, some, List, [], ◌∷◌, ◌==◌, if◌then◌else◌,
}
use financial_dashboard.Masks.Chars.{Text, normalize_mask}
use financial_dashboard.Linker.Texts.{bank_key, contains, append_to}

abbrev pub is_blank : Text → Bool
is_blank [] = true
is_blank (c ∷ s) = false

-- `not s` of an optional text.
abbrev pub is_missing : Option Text → Bool
is_missing none = true
is_missing (some s) = is_blank s

-- The columns that the linker reads.
pub record Account : Type 0 where
  pub id : ℕ
  pub bank : Text
  pub type : Text
  pub account_number : Option Text

pub record Card : Type 0 where
  pub id : ℕ
  pub account_id : ℕ
  pub card_mask : Text

-- A card of the context is its normalized mask, its account and its id.
pub record LinkContext : Type 0 where
  pub cards_by_bank : List (Text × List (Text × ℕ × ℕ))
  pub accounts_by_bank_with_masks : List (Text × List (Text × ℕ))
  pub accounts_by_bank : List (Text × List ℕ)
  pub account_types : List (ℕ × Text)

-- "credit_card" and "bank_account", and "_cc_", "_account_" and "_dc_".
abbrev pub credit_card : Text
credit_card = 99 ∷ 114 ∷ 101 ∷ 100 ∷ 105 ∷ 116 ∷ 95 ∷ 99 ∷ 97 ∷ 114 ∷ 100 ∷ []

abbrev pub bank_account : Text
bank_account = 98 ∷ 97 ∷ 110 ∷ 107 ∷ 95 ∷ 97 ∷ 99 ∷ 99 ∷ 111 ∷ 117 ∷ 110 ∷ 116 ∷ []

abbrev pub cc_part : Text
cc_part = 95 ∷ 99 ∷ 99 ∷ 95 ∷ []

abbrev pub account_part : Text
account_part = 95 ∷ 97 ∷ 99 ∷ 99 ∷ 111 ∷ 117 ∷ 110 ∷ 116 ∷ 95 ∷ []

abbrev pub dc_part : Text
dc_part = 95 ∷ 100 ∷ 99 ∷ 95 ∷ []

unfoldable pub expected_account_type : Text → Option Text
unfolding contains
expected_account_type email_type =
    if is_blank email_type
    then none
    else (if contains cc_part email_type
        then some credit_card
        else (if contains account_part email_type || contains dc_part email_type
            then some bank_account
            else none))

-- `ctx.account_types[id] = type`
unfoldable pub set_type : ℕ → Text → List (ℕ × Text) → List (ℕ × Text)
set_type i t [] = (i, t) ∷ []
set_type i t (e ∷ d) = let rest = set_type i t d in if e.0 == i then (i, t) ∷ d else e ∷ rest

-- One round of the loop over the accounts.
unfoldable pub add_account : LinkContext → Account → LinkContext
unfolding bank_key append_to set_type normalize_mask
add_account ctx acct =
    let key = bank_key acct.bank in
    let stored = normalize_mask acct.account_number in
    record ctx {
      accounts_by_bank = append_to key acct.id ctx.accounts_by_bank;
      account_types =
          if is_blank acct.type
          then ctx.account_types
          else set_type acct.id acct.type ctx.account_types;
      accounts_by_bank_with_masks =
          if is_blank stored
          then ctx.accounts_by_bank_with_masks
          else append_to key (stored, acct.id) ctx.accounts_by_bank_with_masks;
    }

unfoldable pub add_accounts : LinkContext → List Account → LinkContext
unfolding add_account
add_accounts ctx [] = ctx
add_accounts ctx (a ∷ rest) = add_accounts (add_account ctx a) rest

-- `next((a for a in accounts if a.id == card.account_id), None)`
unfoldable pub get_account : ℕ → List Account → Option Account
get_account i [] = none
get_account i (a ∷ rest) = if a.id == i then some a else get_account i rest

-- One round of the loop over the cards.
unfoldable pub add_card : List Account → LinkContext → Card → LinkContext
unfolding get_account normalize_mask bank_key append_to
add_card accounts ctx card =
    let stored = normalize_mask (some card.card_mask) in
    if is_blank stored then ctx else elim (get_account card.account_id accounts) [
      | none ↦ ctx
      | some acct ↦ record ctx {
        cards_by_bank =
            append_to (bank_key acct.bank) (stored, card.account_id, card.id) ctx.cards_by_bank;
      }
    ]

unfoldable pub add_cards : List Account → LinkContext → List Card → LinkContext
unfolding add_card
add_cards accounts ctx [] = ctx
add_cards accounts ctx (c ∷ rest) = add_cards accounts (add_card accounts ctx c) rest

abbrev pub empty_context : LinkContext
empty_context = record {
  cards_by_bank = [];
  accounts_by_bank_with_masks = [];
  accounts_by_bank = [];
  account_types = [];
}

unfoldable pub build_link_context : List Account → List Card → LinkContext
unfolding add_accounts add_cards
build_link_context accounts cards = add_cards accounts (add_accounts empty_context accounts) cards
