-- ===== src/Masks/Match.antt =====
-- `trailing_visible_digits` and `mask_matches` of core/masks.py.
use financial_dashboard.Prelude.{
  ℕ, zero, suc, ◌-◌, min, Bool, true, false, ◌||◌, not, [], ◌∷◌, ◌==◌, length, get_or,
  if◌then◌else◌,
}
use mathlib.Core.List.{reverse}
use financial_dashboard.Masks.Chars.{Text, wildcard, is_digit}

unfoldable pub leading_digits : Text → ℕ
unfolding is_digit
leading_digits [] = 0
leading_digits (c ∷ s) = let rest = leading_digits s in if is_digit c then suc rest else 0

unfoldable pub trailing_visible_digits : Text → ℕ
unfolding leading_digits
trailing_visible_digits s = leading_digits (reverse s)

-- `s[-i]`, for an i from 1 to the length.
unfoldable pub from_end : ℕ → Text → ℕ
from_end i s = get_or s (length s - i) 0

-- The rounds of the loop that are left, from the index i.
unfoldable pub overlap_matches : ℕ → ℕ → Text → Text → Bool
unfolding from_end
overlap_matches zero i pattern stored = true
overlap_matches (suc n) i pattern stored =
    let rest = overlap_matches n (suc i) pattern stored in
    let p = from_end i pattern in
    let s = from_end i stored in
    if p == wildcard || s == wildcard then rest else (if not (p == s) then false else rest)

abbrev pub is_empty : Text → Bool
is_empty [] = true
is_empty (c ∷ s) = false

unfoldable pub mask_matches : Text → Text → Bool
unfolding overlap_matches
mask_matches pattern stored =
    if is_empty pattern || is_empty stored
    then false
    else overlap_matches (min (length pattern) (length stored)) 1 pattern stored
