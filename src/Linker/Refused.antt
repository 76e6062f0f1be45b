-- ===== src/Linker/Refused.antt =====
-- The rows that `link_transaction` (services/linker.py) leaves unlinked.
use financial_dashboard.Prelude.{
  ℕ, ◌≡◌, refl, Bool, true, false, ◌&&◌, Option, none, List, [], ◌∷◌, ◌==◌, is_some, length, arith,
  if◌then◌else◌, ap, ◌∙◌,
}
use financial_dashboard.Masks.Chars.{Text, normalize_mask}
use financial_dashboard.Linker.Texts.{bank_key, get_list}
use financial_dashboard.Linker.Context.{
  Account, Card, LinkContext, is_missing, expected_account_type, build_link_context,
}
use financial_dashboard.Linker.Link.{
  Transaction, usable, sole, card_matches, find_card_match, account_matches, find_account_match,
  of_type, only_account, find_link, first_hit, assign, link_transaction, when,
}
use financial_dashboard.Linker.Found.{stored_masks, stored_cards, build_link_context_lem}

-- Whether a usable mask has exactly one match.
abbrev pub has_one : {A : Type 0} → Text → List A → Bool
has_one mask matches = usable mask && length matches == 1

when-none : {A : Type 0} (b : Bool) → when {A = A} b none ≡ none
when-none true = refl
when-none false = refl

sole-eq-none :
    {A : Type 0} (mask : Text) (l : List A)
    → has_one mask l ≡ false
    → when (usable mask) (sole l) ≡ none
sole-eq-none mask [] h = when-none (usable mask)
sole-eq-none mask (x ∷ []) h = ground (arith, h)
sole-eq-none mask (x ∷ y ∷ l) h = when-none (usable mask)

first_hit-eq-none :
    (o1 : Option (ℕ × ℕ)) (o2 o3 o4 : Option ℕ)
    → o1 ≡ none
    → o2 ≡ none
    → o3 ≡ none
    → o4 ≡ none
    → first_hit o1 o2 o3 o4 ≡ none
first_hit-eq-none o1 o2 o3 o4 e f g h = ground (arith, e, f, g, h)

link_transaction-eq-false :
    (ctx : LinkContext) (txn : Transaction)
    → txn.account_id ≡ none
    → find_link ctx txn ≡ none
    → link_transaction ctx txn ≡ (false, txn)
unfolding link_transaction assign
link_transaction-eq-false ctx txn u h =
    ap (λ o. if is_some o then (true, txn) else assign (find_link ctx txn) txn) u
    ∙ ap (λ o. assign o txn) h

abbrev only_of : LinkContext → Transaction → Option ℕ
only_of ctx txn = sole (
    of_type (expected_account_type txn.email_type) ctx.account_types
      (get_list (bank_key txn.bank) ctx.accounts_by_bank))

-- A row with a mask is linked by a mask or not at all: if no lookup by a usable mask has exactly one
-- match among the stored masks of the row's bank (none, or several, or a mask with too few digits
-- at its right end), the row is left as it is, and the only account of the bank is not taken.
pub masked_row_needs_one_match :
    (accounts : List Account) (cards : List Card) (txn : Transaction)
    → txn.account_id ≡ none
    → (is_missing txn.card_mask && is_missing txn.account_mask) ≡ false
    → let key = bank_key txn.bank in
      let mask = normalize_mask txn.card_mask in
      let account_mask = normalize_mask txn.account_mask in
      has_one mask (card_matches mask (stored_cards key accounts cards)) ≡ false
      → has_one mask (account_matches mask (stored_masks key accounts)) ≡ false
      → has_one account_mask (account_matches account_mask (stored_masks key accounts)) ≡ false
      → link_transaction (build_link_context accounts cards) txn ≡ (false, txn)
unfolding find_link find_card_match find_account_match only_account
masked_row_needs_one_match accounts cards txn u m f g h =
    let ctx = build_link_context accounts cards in
    let key = bank_key txn.bank in
    let mask = normalize_mask txn.card_mask in
    let account_mask = normalize_mask txn.account_mask in
    let r = build_link_context_lem key accounts cards in
    link_transaction-eq-false ctx txn u (
      first_hit-eq-none (when (usable mask) (find_card_match ctx key mask))
        (when (usable mask) (find_account_match ctx key mask))
        (when (usable account_mask) (find_account_match ctx key account_mask))
        (only_account ctx txn)
        (ap (λ l. when (usable mask) (sole (card_matches mask l))) r.0
          ∙ sole-eq-none mask (card_matches mask (stored_cards key accounts cards)) f)
        (ap (λ l. when (usable mask) (sole (account_matches mask l))) r.1
          ∙ sole-eq-none mask (account_matches mask (stored_masks key accounts)) g)
        (ap (λ l. when (usable account_mask) (sole (account_matches account_mask l))) r.1
          ∙ sole-eq-none account_mask (account_matches account_mask (stored_masks key accounts)) h)
        (ap (λ b. if b then only_of ctx txn else none) m))
