-- ===== src/Callbacks/Split.antt =====
-- `str.split` at the colons of a callback (services/telegram.py).
use financial_dashboard.Prelude.{
  ℕ, zero, suc, ◌≡◌, refl, true, false, List, [], ◌∷◌, ◌++◌, All, ◌==◌, arith, if◌then◌else◌,
}
use financial_dashboard.Masks.Chars.{Text, is_digit}
use financial_dashboard.Callbacks.Numbers.{IsDigits}

abbrev pub colon : ℕ
colon = 58

abbrev put_first : ℕ → List Text → List Text
put_first c [] = (c ∷ []) ∷ []
put_first c (part ∷ parts) = (c ∷ part) ∷ parts

-- `data.split(":")`
unfoldable pub split : Text → List Text
split [] = [] ∷ []
split (c ∷ s) = let rest = split s in if c == colon then [] ∷ rest else put_first c rest

-- `data.split(":", n)`
unfoldable pub split_at_most : ℕ → Text → List Text
split_at_most zero s = s ∷ []
split_at_most (suc n) [] = [] ∷ []
split_at_most (suc n) (c ∷ s) =
    let rest = split_at_most n s in
    let longer = split_at_most (suc n) s in if c == colon then [] ∷ rest else put_first c longer

abbrev pub LacksColon : Text → Type 0
LacksColon = All (λ c. (c == colon) ≡ false)

pub split-part : (p s : Text) → LacksColon p → split (p ++ colon ∷ s) ≡ p ∷ split s
unfolding split
split-part [] s h = refl
split-part (c ∷ p) s h = rw (h.0, split-part p s h.1) refl

pub split-last : (p : Text) → LacksColon p → split p ≡ p ∷ []
unfolding split
split-last [] h = refl
split-last (c ∷ p) h = rw (h.0, split-last p h.1) refl

pub split_at_most-part :
    (n : ℕ) (p s : Text)
    → LacksColon p
    → split_at_most (suc n) (p ++ colon ∷ s) ≡ p ∷ split_at_most n s
unfolding split_at_most
split_at_most-part n [] s h = refl
split_at_most-part n (c ∷ p) s h = rw (h.0, split_at_most-part n p s h.1) refl

digit_no_colon : (c : ℕ) → is_digit c ≡ true → (c == colon) ≡ false
unfolding is_digit
digit_no_colon c h = ground (arith, h)

pub IsDigits-LacksColon : (s : Text) → IsDigits s → LacksColon s
IsDigits-LacksColon [] h = tt
IsDigits-LacksColon (c ∷ s) h = (digit_no_colon c h.0, IsDigits-LacksColon s h.1)
