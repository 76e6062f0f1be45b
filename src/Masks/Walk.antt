-- ===== src/Masks/Walk.antt =====
-- `mask_matches` of core/masks.py against a walk of the two masks from their right edges.
use financial_dashboard.Prelude.{
  ℕ, zero, suc, ◌+◌, ◌≡◌, min, refl, Bool, true, ◌&&◌, ◌||◌, not, [], ◌∷◌, ◌==◌, length, get_or,
  arith,
}
use mathlib.Core.List.{reverse, reverse_aux, reverse-reverse}
use financial_dashboard.Masks.Chars.{Text, wildcard}
use financial_dashboard.Masks.Match.{from_end, overlap_matches, mask_matches, is_empty}

-- Two masks from their right edges: each pair of characters has a wildcard or is one digit twice.
unfoldable pub aligned : Text → Text → Bool
aligned [] s = true
aligned (a ∷ p) [] = true
aligned (a ∷ p) (b ∷ s) = (a == wildcard || (b == wildcard || a == b)) && aligned p s

pub length-reverse_aux : (p t : Text) → length (reverse_aux p t) ≡ length p + length t
length-reverse_aux [] t = omega arith
length-reverse_aux (a ∷ p) t = omega (arith, length-reverse_aux p (a ∷ t))

get_or-reverse_aux : (p t : Text) (k : ℕ) → get_or (reverse_aux p t) (length p + k) 0 ≡ get_or t k 0
get_or-reverse_aux [] t k = ground arith
get_or-reverse_aux (a ∷ p) t k = ground (arith, get_or-reverse_aux p (a ∷ t) (suc k))

from_end-reverse_aux : (p t : Text) (a : ℕ) → from_end (suc (length t)) (reverse_aux p (a ∷ t)) ≡ a
unfolding from_end
from_end-reverse_aux p t a =
    ground (arith, length-reverse_aux p (a ∷ t), get_or-reverse_aux p (a ∷ t) 0)

overlap_matches_lem :
    (n : ℕ) (p s t u : Text)
    → n ≡ min (length p) (length s)
    → length t ≡ length u
    → overlap_matches n (suc (length t)) (reverse_aux p t) (reverse_aux s u) ≡ aligned p s
unfolding overlap_matches aligned
overlap_matches_lem zero [] s t u e h = refl
overlap_matches_lem zero (a ∷ p) [] t u e h = refl
overlap_matches_lem zero (a ∷ p) (b ∷ s) t u e h = absurd (omega arith)
overlap_matches_lem (suc n) [] s t u e h = absurd (omega arith)
overlap_matches_lem (suc n) (a ∷ p) [] t u e h = absurd (omega arith)
overlap_matches_lem (suc n) (a ∷ p) (b ∷ s) t u e h = ground (
  arith,
  from_end-reverse_aux p t a,
  from_end-reverse_aux s u b,
  overlap_matches_lem n p s (a ∷ t) (b ∷ u) (omega arith) (omega arith),
)

aligned-sym : (p s : Text) → aligned p s ≡ aligned s p
unfolding aligned
aligned-sym [] [] = refl
aligned-sym [] (b ∷ s) = refl
aligned-sym (a ∷ p) [] = refl
aligned-sym (a ∷ p) (b ∷ s) = ground (arith, aligned-sym p s)

aligned_refl : (p : Text) → aligned p p ≡ true
unfolding aligned
aligned_refl [] = refl
aligned_refl (a ∷ p) = ground (arith, aligned_refl p)

-- The masks given by their reverses.
reversed_walk :
    (p s : Text)
    → mask_matches (reverse_aux p []) (reverse_aux s [])
      ≡ (not (is_empty (reverse_aux p [])) && (not (is_empty (reverse_aux s [])) && aligned p s))
unfolding mask_matches
reversed_walk p s = ground (
  arith,
  overlap_matches_lem (min (length p) (length s)) p s [] [] refl refl,
  length-reverse_aux p [],
  length-reverse_aux s [],
)

pub walk :
    (p s : Text)
    → mask_matches p s ≡ (not (is_empty p) && (not (is_empty s) && aligned (reverse p) (reverse s)))
walk p s = cc (reversed_walk (reverse p) (reverse s), reverse-reverse p, reverse-reverse s)

-- `mask_matches` is the walk from the right edges, and takes no mask that is empty. So it is
-- symmetric, and a mask matches itself unless it is empty.
pub mask_matches_lem :
    (p s : Text)
    → (mask_matches p s
        ≡ (not (is_empty p) && (not (is_empty s) && aligned (reverse p) (reverse s))))
      × (mask_matches p s ≡ mask_matches s p)
      × (mask_matches p p ≡ not (is_empty p))
mask_matches_lem p s = (
  walk p s,
  ground (arith, walk p s, walk s p, aligned-sym (reverse p) (reverse s)),
  ground (arith, walk p p, aligned_refl (reverse p)),
)
