-- ===== src/Masks/Laws.antt =====
-- What normalizing and matching masks (core/masks.py) keep.
use financial_dashboard.Prelude.{
  ℕ, suc, ◌≡◌, Bool, true, false, ◌&&◌, ◌||◌, none, some, [], ◌∷◌, length, if◌then◌else◌, arith,
  Option-cases, inl, inr,
}
use financial_dashboard.Masks.Chars.{
  Text, is_digit, is_wildcard, is_separator, is_space, put_before, normalize, normalize_mask,
}
use financial_dashboard.Masks.Digits.{digits_of, mask_digits}

-- The number of characters that stand for a digit.
unfoldable pub places : Text → ℕ
unfolding is_separator
places [] = 0
places (c ∷ s) = let rest = places s in if is_separator c then rest else suc rest

-- Whether every character is a digit, a wildcard or a separator.
unfoldable pub is_readable : Text → Bool
unfolding is_digit is_wildcard is_separator
is_readable [] = true
is_readable (c ∷ s) = (is_digit c || (is_wildcard c || is_separator c)) && is_readable s

digit_char : (c : ℕ) → is_digit c ≡ true → is_separator c ≡ false
unfolding is_digit is_separator is_space
digit_char c h = ground arith

wildcard_char : (c : ℕ) → is_wildcard c ≡ true → (is_separator c ≡ false) × (is_digit c ≡ false)
unfolding is_wildcard is_separator is_space is_digit
wildcard_char c h = ground arith

normalize_again :
    (s out : Text)
    → normalize s ≡ some out
    → (normalize out ≡ some out)
      × (digits_of out ≡ digits_of s)
      × (length out ≡ places s)
      × (is_readable s ≡ true)
unfolding normalize put_before digits_of places is_readable
normalize_again [] out h = ground (arith, h)
normalize_again (c ∷ s) out h = elim (Option-cases (normalize s)) [
  | inl e ↦ ground (arith, h, e, digit_char c, wildcard_char c)
  | inr (o, e) ↦ ground (arith, h, e, digit_char c, wildcard_char c, normalize_again s o e)
]

unread : (s : Text) → normalize s ≡ none → is_readable s ≡ false
unfolding normalize put_before is_readable
unread [] h = ground (arith, h)
unread (c ∷ s) h = elim (Option-cases (normalize s)) [
  | inl e ↦ ground (arith, h, e, unread s e)
  | inr (o, e) ↦ ground (arith, h, e)
]

-- Normalizing keeps what a mask says: a text of digits, wildcards and separators keeps its digits in
-- order and gets one character for each that is not a separator, any other text is rejected whole,
-- and to normalize again changes nothing.
pub normalize_mask_lem :
    (s : Text)
    → let m = normalize_mask (some s) in
      (mask_digits (some m) ≡ (if is_readable s then mask_digits (some s) else []))
      × (length m ≡ (if is_readable s then places s else 0))
      × (normalize_mask (some m) ≡ m)
unfolding normalize_mask mask_digits digits_of
normalize_mask_lem s = elim (Option-cases (normalize s)) [
  | inl e ↦ ground (arith, e, unread s e)
  | inr (o, e) ↦ ground (arith, e, normalize_again s o e)
]
