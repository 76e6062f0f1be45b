-- ===== src/Masks/Digits.antt =====
-- `mask_digits`, `mask_last4` and `display_mask` of core/masks.py.
use financial_dashboard.Prelude.{
  ℕ, zero, suc, ◌-◌, Bool, true, Option, none, some, [], ◌∷◌, leb, length, if◌then◌else◌,
}
use financial_dashboard.Masks.Chars.{Text, is_digit}
use financial_dashboard.Masks.Match.{is_empty}

unfoldable pub digits_of : Text → Text
unfolding is_digit
digits_of [] = []
digits_of (c ∷ s) = let rest = digits_of s in if is_digit c then c ∷ rest else rest

unfoldable pub mask_digits : Option Text → Text
unfolding digits_of
mask_digits none = []
mask_digits (some s) = digits_of s

unfoldable pub drop : ℕ → Text → Text
drop zero s = s
drop (suc n) [] = []
drop (suc n) (c ∷ s) = drop n s

-- `digits[-4:]`
unfoldable pub last_four : Text → Text
unfolding drop
last_four s = drop (length s - 4) s

-- `digits or None`
abbrev pub or_none : Text → Option Text
or_none s = if is_empty s then none else some s

unfoldable pub mask_last4 : Option Text → Bool → Option Text
unfolding mask_digits last_four
mask_last4 s partial =
    let digits = mask_digits s in
    if leb 4 (length digits)
    then some (last_four digits)
    else (if partial then or_none digits else none)

-- The text XXXX before the digits.
unfoldable pub display_mask : Option Text → Option Text
unfolding mask_last4
display_mask value = elim (mask_last4 value true) [
  | none ↦ none
  | some ds ↦ if is_empty ds then none else some (88 ∷ 88 ∷ 88 ∷ 88 ∷ ds)
]
