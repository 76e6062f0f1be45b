-- ===== src/Masks/Last4.antt =====
-- `mask_last4` and `display_mask` of core/masks.py: which digits they show.
use financial_dashboard.Prelude.{
  ℕ, zero, suc, ◌+◌, ◌-◌, ◌≤◌, ◌≡◌, ◌⊎◌, ap, ◌∙◌, subst, refl, true, false, Option, none, some, [],
  ◌∷◌, ◌++◌, length, arith,
}
use mathlib.Core.List.{reverse, reverse_aux, reverse-reverse}
use financial_dashboard.Masks.Chars.{Text, is_digit}
use financial_dashboard.Masks.Digits.{
  digits_of, mask_digits, drop, last_four, mask_last4, display_mask,
}
use financial_dashboard.Masks.Match.{mask_matches, leading_digits, trailing_visible_digits}
use financial_dashboard.Masks.Walk.{aligned, length-reverse_aux, walk}

digits_of-reverse_aux :
    (p t : Text) → digits_of (reverse_aux p t) ≡ reverse_aux (digits_of p) (digits_of t)
unfolding digits_of
digits_of-reverse_aux [] t = refl
digits_of-reverse_aux (a ∷ p) t = ground (arith, digits_of-reverse_aux p (a ∷ t))

drop-reverse_aux : (p t : Text) (k : ℕ) → drop (length p + k) (reverse_aux p t) ≡ drop k t
unfolding drop
drop-reverse_aux [] t k = ground arith
drop-reverse_aux (a ∷ p) t k = ground (arith, drop-reverse_aux p (a ∷ t) (suc k))

-- The last four digits of a text by its reverse.
last_four_lem :
    (ds : Text) (a b c d : ℕ)
    → last_four (reverse_aux (a ∷ b ∷ c ∷ d ∷ ds) []) ≡ (d ∷ c ∷ b ∷ a ∷ [])
unfolding last_four drop
last_four_lem ds a b c d =
    ground (
      arith,
      length-reverse_aux ds (d ∷ c ∷ b ∷ a ∷ []),
      drop-reverse_aux ds (d ∷ c ∷ b ∷ a ∷ []) 0,
    )

last4_of_reverse :
    (p : Text) (a b c d : ℕ)
    → 4 ≤ leading_digits (a ∷ b ∷ c ∷ d ∷ p)
    → mask_last4 (some (reverse_aux (a ∷ b ∷ c ∷ d ∷ p) [])) false ≡ some (d ∷ c ∷ b ∷ a ∷ [])
unfolding mask_last4 mask_digits leading_digits digits_of
last4_of_reverse p a b c d h = ground (
  arith,
  digits_of-reverse_aux (a ∷ b ∷ c ∷ d ∷ p) [],
  last_four_lem (digits_of p) a b c d,
  length-reverse_aux (digits_of p) (d ∷ c ∷ b ∷ a ∷ []),
)

four_digits :
    (p : Text) → 4 ≤ leading_digits p → (a b c d : ℕ) × (q : Text) × (p ≡ (a ∷ b ∷ c ∷ d ∷ q))
unfolding leading_digits
four_digits [] h = absurd (omega arith)
four_digits (a ∷ []) h = absurd (ground arith)
four_digits (a ∷ b ∷ []) h = absurd (ground arith)
four_digits (a ∷ b ∷ c ∷ []) h = absurd (ground arith)
four_digits (a ∷ b ∷ c ∷ d ∷ q) h = (a, b, c, d, q, refl)

-- Two aligned runs of four digits are one.
aligned_digits :
    (p q : Text) (a b c d a' b' c' d' : ℕ)
    → 4 ≤ leading_digits (a ∷ b ∷ c ∷ d ∷ p)
    → 4 ≤ leading_digits (a' ∷ b' ∷ c' ∷ d' ∷ q)
    → aligned (a ∷ b ∷ c ∷ d ∷ p) (a' ∷ b' ∷ c' ∷ d' ∷ q) ≡ true
    → (d ∷ c ∷ b ∷ a ∷ []) ≡ (d' ∷ c' ∷ b' ∷ a' ∷ [])
unfolding leading_digits is_digit aligned
aligned_digits p q a b c d a' b' c' d' h k e = ground arith

ends_in :
    (p : Text)
    → 4 ≤ leading_digits p
    → (a b c d : ℕ) × (q : Text) × (p ≡ (a ∷ b ∷ c ∷ d ∷ q))
      × (4 ≤ leading_digits (a ∷ b ∷ c ∷ d ∷ q))
      × (mask_last4 (some (reverse p)) false ≡ some (d ∷ c ∷ b ∷ a ∷ []))
ends_in p h =
    let (a, b, c, d, q, e) = four_digits p h in
    let k = subst (λ x. 4 ≤ leading_digits x) e h in
    (
      a,
      b,
      c,
      d,
      q,
      e,
      k,
      ap (λ x. mask_last4 (some (reverse x)) false) e ∙ last4_of_reverse q a b c d k,
    )

-- Masks that match and show at least four digits at their right ends have the same last four digits.
pub match_last4 :
    (p s : Text)
    → 4 ≤ trailing_visible_digits p
    → 4 ≤ trailing_visible_digits s
    → mask_matches p s ≡ true
    → (ds : Text) × (mask_last4 (some p) false ≡ some ds)
      × (mask_last4 (some s) false ≡ some ds)
      × (length ds ≡ 4)
unfolding trailing_visible_digits
match_last4 p s h k e =
    let (a, b, c, d, q, u, h', f) = ends_in (reverse p) h in
    let (a', b', c', d', q', v, k', g) = ends_in (reverse s) k in
    let al : aligned (reverse p) (reverse s) ≡ true = ground (arith, walk p s, e) in
    (
      d ∷ c ∷ b ∷ a ∷ [],
      cc (f, reverse-reverse p),
      cc (g, reverse-reverse s, aligned_digits q q' a b c d a' b' c' d' h' k' (cc (al, u, v))),
      refl,
    )

drop_lem :
    (n : ℕ) (s : Text)
    → (front : Text) × (s ≡ front ++ drop n s) × (length (drop n s) ≡ length s - n)
unfolding drop
drop_lem zero s = ([], refl, omega arith)
drop_lem (suc n) [] = ([], refl, omega arith)
drop_lem (suc n) (c ∷ s) =
    let r = drop_lem n s in (c ∷ r.0, ap (λ x. c ∷ x) r.1, ground (arith, r.2))

-- A value is shown as XXXX before its last digits, at most four of them, and a value without a digit
-- is not shown.
pub display_mask_lem :
    (s : Option Text)
    → ((display_mask s ≡ none) × (mask_digits s ≡ []))
      ⊎ ((front ds : Text) × (display_mask s ≡ some (88 ∷ 88 ∷ 88 ∷ 88 ∷ ds))
          × (mask_digits s ≡ front ++ ds)
          × (1 ≤ length ds)
          × (length ds ≤ 4))
unfolding display_mask mask_last4 last_four
display_mask_lem s = ground (arith, drop_lem (length (mask_digits s) - 4) (mask_digits s))
