-- ===== src/Linker/Link.antt =====
-- `link_transaction` of services/linker.py.
use financial_dashboard.Prelude.{
  ℕ, Bool, true, false, ◌&&◌, Option, none, some, List, [], ◌∷◌, ◌==◌, leb, is_some, if◌then◌else◌,
}
use financial_dashboard.Masks.Chars.{Text, normalize_mask}
use financial_dashboard.Masks.Match.{mask_matches, trailing_visible_digits}
use financial_dashboard.Linker.Texts.{same_text, bank_key, get_list}
use financial_dashboard.Linker.Context.{LinkContext, is_missing, expected_account_type}

pub record Transaction : Type 0 where
  pub account_id : Option ℕ
  pub card_id : Option ℕ
  pub bank : Text
  pub email_type : Text
  pub card_mask : Option Text
  pub account_mask : Option Text

-- `_usable`, with `MIN_MASK_DIGITS`.
unfoldable pub usable : Text → Bool
unfolding trailing_visible_digits
usable normalized = leb 3 (trailing_visible_digits normalized)

-- The only item, if there is exactly one.
abbrev pub sole {ℓ} : {A : Type ℓ} → List A → Option A
sole [] = none
sole (x ∷ []) = some x
sole (x ∷ y ∷ xs) = none

unfoldable pub card_matches : Text → List (Text × ℕ × ℕ) → List (ℕ × ℕ)
unfolding mask_matches
card_matches incoming [] = []
card_matches incoming (e ∷ es) =
    let rest = card_matches incoming es in
    if mask_matches incoming e.0 then (e.1, e.2) ∷ rest else rest

unfoldable pub find_card_match : LinkContext → Text → Text → Option (ℕ × ℕ)
unfolding card_matches get_list
find_card_match ctx key incoming = sole (card_matches incoming (get_list key ctx.cards_by_bank))

unfoldable pub account_matches : Text → List (Text × ℕ) → List ℕ
unfolding mask_matches
account_matches incoming [] = []
account_matches incoming (e ∷ es) =
    let rest = account_matches incoming es in if mask_matches incoming e.0 then e.1 ∷ rest else rest

unfoldable pub find_account_match : LinkContext → Text → Text → Option ℕ
unfolding account_matches get_list
find_account_match ctx key incoming =
    sole (account_matches incoming (get_list key ctx.accounts_by_bank_with_masks))

-- `ctx.account_types.get(a) == expected_type`
unfoldable pub has_type : ℕ → Text → List (ℕ × Text) → Bool
unfolding same_text
has_type i t [] = false
has_type i t (e ∷ d) = if e.0 == i then same_text e.1 t else has_type i t d

unfoldable pub of_type : Option Text → List (ℕ × Text) → List ℕ → List ℕ
unfolding has_type
of_type none types is = is
of_type (some t) types [] = []
of_type (some t) types (i ∷ is) =
    let rest = of_type (some t) types is in if has_type i t types then i ∷ rest else rest

-- The fallback on the bank alone, for a row without a mask.
unfoldable pub only_account : LinkContext → Transaction → Option ℕ
unfolding get_list bank_key of_type expected_account_type
only_account ctx txn =
    if is_missing txn.card_mask && is_missing txn.account_mask
    then sole (
        of_type (expected_account_type txn.email_type) ctx.account_types
          (get_list (bank_key txn.bank) ctx.accounts_by_bank))
    else none

abbrev pub when {ℓ} : {A : Type ℓ} → Bool → Option A → Option A
when true o = o
when false o = none

-- The four lookups in the order of precedence: an account, with its card or none.
abbrev pub first_hit : Option (ℕ × ℕ) → Option ℕ → Option ℕ → Option ℕ → Option (ℕ × Option ℕ)
first_hit (some (a, c)) o2 o3 o4 = some (a, some c)
first_hit none (some a) o3 o4 = some (a, none)
first_hit none none (some a) o4 = some (a, none)
first_hit none none none (some a) = some (a, none)
first_hit none none none none = none

unfoldable pub find_link : LinkContext → Transaction → Option (ℕ × Option ℕ)
unfolding usable find_card_match find_account_match only_account normalize_mask bank_key
find_link ctx txn =
    let key = bank_key txn.bank in
    let card_mask = normalize_mask txn.card_mask in
    let account_mask = normalize_mask txn.account_mask in
    first_hit (when (usable card_mask) (find_card_match ctx key card_mask))
      (when (usable card_mask) (find_account_match ctx key card_mask))
      (when (usable account_mask) (find_account_match ctx key account_mask)) (only_account ctx txn)

-- The assignments of a hit: only a card sets `card_id`.
unfoldable pub assign : Option (ℕ × Option ℕ) → Transaction → Bool × Transaction
assign none txn = (false, txn)
assign (some (a, none)) txn = (true, record txn { account_id = some a })
assign (some (a, some c)) txn = (true, record txn { account_id = some a; card_id = some c })

unfoldable pub link_transaction : LinkContext → Transaction → Bool × Transaction
unfolding find_link assign
link_transaction ctx txn =
    if is_some txn.account_id then (true, txn) else assign (find_link ctx txn) txn
