-- ===== src/Masks/Tests.antt =====
-- The theorems on masks (core/masks.py) at masks of its comments.
use financial_dashboard.Prelude.{◌≤◌, ◌≡◌, refl, true, ◌&&◌, not, some, [], ◌∷◌, arith}
use mathlib.Core.List.{reverse}
use financial_dashboard.Masks.Chars.{Text, normalize_mask}
use financial_dashboard.Masks.Match.{mask_matches, is_empty, trailing_visible_digits}
use financial_dashboard.Masks.Walk.{aligned, mask_matches_lem}

-- "x*43-21", "XX4321" and "900004321".
abbrev raw : Text
raw = 120 ∷ 42 ∷ 52 ∷ 51 ∷ 45 ∷ 50 ∷ 49 ∷ []

abbrev mask : Text
mask = 88 ∷ 88 ∷ 52 ∷ 51 ∷ 50 ∷ 49 ∷ []

abbrev number : Text
number = 57 ∷ 48 ∷ 48 ∷ 48 ∷ 48 ∷ 52 ∷ 51 ∷ 50 ∷ 49 ∷ []

normalized_mask : normalize_mask (some raw) ≡ mask
unfolding normalize_mask
normalized_mask = refl

-- "12A3456" is rejected.
stray_letter : normalize_mask (some (49 ∷ 50 ∷ 65 ∷ 51 ∷ 52 ∷ 53 ∷ 54 ∷ [])) ≡ []
unfolding normalize_mask
stray_letter = refl

mask-matches_number : mask_matches mask number ≡ true
unfolding mask_matches
mask-matches_number = refl

mask_matches_lem_example :
    (mask_matches mask number
      ≡ (not (is_empty mask) && (not (is_empty number) && aligned (reverse mask) (reverse number))))
    × (mask_matches mask number ≡ mask_matches number mask)
    × (mask_matches mask mask ≡ not (is_empty mask))
mask_matches_lem_example = mask_matches_lem mask number

mask_digits_at_end : 4 ≤ trailing_visible_digits mask
unfolding trailing_visible_digits
mask_digits_at_end = omega arith

number_digits_at_end : 4 ≤ trailing_visible_digits number
unfolding trailing_visible_digits
number_digits_at_end = omega arith
