-- ===== src/Callbacks/Numbers.antt =====
-- `str` and `int` of Python on the numbers of a callback (services/telegram.py). The digits that
-- `int` and `isdigit` read are those of ASCII.
use financial_dashboard.Prelude.{
  ℕ, zero, suc, ◌+◌, ◌-◌, ◌*◌, ◌/◌, ◌%◌, ◌≤◌, ◌<◌, ◌≡◌, refl, ◌∙◌, sym, ap, Bool, true, false, ◌&&◌,
  Bool-cases, inl, inr, Option, none, some, [], ◌∷◌, length, All, ◌==◌, ltb, ltb→lt, lt→ltb, subst,
  arith, if◌then◌else◌,
}
use mathlib.Core.List.{reverse, reverse_aux, reverse-reverse}
use financial_dashboard.Prelude.Int.{ℤ, pos, negsuc}
use financial_dashboard.Masks.Chars.{Text, is_digit, is_space}
use financial_dashboard.Linker.Texts.{strip_left}

-- The digits of a number before those in `out`; the first argument bounds how many.
digits_before : ℕ → ℕ → Text → Text
digits_before zero n out = out
digits_before (suc k) n out = elim (ltb n 10) [
  | true ↦ (48 + n) ∷ out
  | false ↦ digits_before k (n / 10) ((48 + n % 10) ∷ out)
]

-- `str(n)`
unfoldable pub str_of : ℕ → Text
unfolding digits_before
str_of n = digits_before (suc n) n []

-- Digits, with single underscores between them.
unfoldable pub read_digits : Text → ℕ → Bool → Option ℕ
unfolding is_digit
read_digits [] n after_digit = if after_digit then some n else none
read_digits (c ∷ s) n after_digit = elim (is_digit c) [
  | true ↦ read_digits s (n * 10 + (c - 48)) true
  | false ↦ elim (c == 95 && after_digit) [ true ↦ read_digits s n false | false ↦ none ]
]

abbrev positive : Option ℕ → Option ℤ
positive none = none
positive (some n) = some (pos n)

abbrev negated : Option ℕ → Option ℤ
negated none = none
negated (some zero) = some (pos 0)
negated (some (suc n)) = some (negsuc n)

-- A number with an optional sign.
unfoldable pub read_signed : Text → Option ℤ
unfolding read_digits
read_signed [] = none
read_signed (c ∷ s) =
    if c == 45
    then negated (read_digits s 0 false)
    else if c == 43
    then positive (read_digits s 0 false)
    else positive (read_digits (c ∷ s) 0 false)

abbrev trim : Text → Text
trim s = reverse (strip_left (reverse (strip_left s)))

-- `int(text)`, none where it raises.
unfoldable pub int_of : Text → Option ℤ
unfolding read_signed strip_left
int_of s = read_signed (trim s)

abbrev pub IsDigits : Text → Type 0
IsDigits = All (λ c. is_digit c ≡ true)

digits_last :
    (k n : ℕ) (out : Text) → ltb n 10 ≡ true → digits_before (suc k) n out ≡ (48 + n) ∷ out
unfolding digits_before
digits_last k n out e =
    ap
      (λ (b : Bool). elim b [
        | true ↦ (48 + n) ∷ out
        | false ↦ digits_before k (n / 10) ((48 + n % 10) ∷ out)
      ])
      e

digits_more :
    (k n : ℕ) (out : Text)
    → ltb n 10 ≡ false
    → digits_before (suc k) n out ≡ digits_before k (n / 10) ((48 + n % 10) ∷ out)
unfolding digits_before
digits_more k n out e =
    ap
      (λ (b : Bool). elim b [
        | true ↦ (48 + n) ∷ out
        | false ↦ digits_before k (n / 10) ((48 + n % 10) ∷ out)
      ])
      e

digit_char : (d : ℕ) → d < 10 → is_digit (48 + d) ≡ true
unfolding is_digit
digit_char d h = ground (arith, h)

mod_digit : (n : ℕ) → n % 10 < 10
mod_digit n = omega arith

digits_before-IsDigits : (k n : ℕ) (out : Text) → IsDigits out → IsDigits (digits_before k n out)
unfolding digits_before
digits_before-IsDigits zero n out h = h
digits_before-IsDigits (suc k) n out h = elim (Bool-cases (ltb n 10)) [
  | inl e ↦ subst IsDigits (sym (digits_last k n out e)) (digit_char n (ltb→lt n 10 e), h)
  | inr e ↦ subst IsDigits (sym (digits_more k n out e)) (
      digits_before-IsDigits k (n / 10) ((48 + n % 10) ∷ out)
        (digit_char (n % 10) (mod_digit n), h))
]

read_digit :
    (d m : ℕ) (s : Text) (b : Bool)
    → d < 10
    → read_digits ((48 + d) ∷ s) m b ≡ read_digits s (m * 10 + d) true
unfolding read_digits
read_digit d m s b h =
    ap
      (λ (x : Bool). elim x [
        | true ↦ read_digits s (m * 10 + (48 + d - 48)) true
        | false ↦ elim (48 + d == 95 && b) [ true ↦ read_digits s m false | false ↦ none ]
      ])
      (digit_char d h)
    ∙ ap (λ z. read_digits s z true) (omega arith)

read_digits-digits :
    (k n : ℕ) (out : Text)
    → n < k
    → read_digits (digits_before k n out) 0 false ≡ read_digits out n true
read_digits-digits zero n out h = absurd (omega (arith, h))
read_digits-digits (suc k) n out h = elim (Bool-cases (ltb n 10)) [
  | inl e ↦
      ap (λ s. read_digits s 0 false) (digits_last k n out e)
      ∙ read_digit n 0 out false (ltb→lt n 10 e)
      ∙ ap (λ m. read_digits out m true) (omega arith)
  | inr e ↦
      ap (λ s. read_digits s 0 false) (digits_more k n out e)
      ∙ read_digits-digits k (n / 10) ((48 + n % 10) ∷ out) (ground (arith, e, h))
      ∙ read_digit (n % 10) (n / 10) out true (mod_digit n)
      ∙ ap (λ m. read_digits out m true) (omega arith)
]

-- A power of ten.
abbrev pub pow10 : ℕ → ℕ
pow10 zero = 1
pow10 (suc j) = 10 * pow10 j

tenth : (j n : ℕ) → n < pow10 (suc (suc j)) → n / 10 < pow10 (suc j)
tenth j n h = omega (arith, h)

-- A number below a power of ten has at most as many digits.
digits_before_short :
    (k j n : ℕ) (out : Text)
    → n < pow10 (suc j)
    → length (digits_before k n out) ≤ suc j + length out
unfolding digits_before
digits_before_short zero j n out h = omega arith
digits_before_short (suc k) zero n out h =
    subst (λ s. length s ≤ 1 + length out) (sym (digits_last k n out (lt→ltb n 10 h))) (omega arith)
digits_before_short (suc k) (suc j) n out h = elim (Bool-cases (ltb n 10)) [
  | inl e ↦
      subst (λ s. length s ≤ suc (suc j) + length out) (sym (digits_last k n out e)) (omega arith)
  | inr e ↦
      subst (λ s. length s ≤ suc (suc j) + length out) (sym (digits_more k n out e))
        (omega (arith, digits_before_short k j (n / 10) ((48 + n % 10) ∷ out) (tenth j n h)))
]

digit_no_space : (c : ℕ) → is_digit c ≡ true → is_space c ≡ false
unfolding is_digit is_space
digit_no_space c h = ground (arith, h)

no_minus : (c : ℕ) → is_digit c ≡ true → (c == 45) ≡ false
unfolding is_digit
no_minus c h = ground (arith, h)

no_plus : (c : ℕ) → is_digit c ≡ true → (c == 43) ≡ false
unfolding is_digit
no_plus c h = ground (arith, h)

strip_left-IsDigits : (s : Text) → IsDigits s → strip_left s ≡ s
unfolding strip_left is_space is_digit
strip_left-IsDigits [] h = refl
strip_left-IsDigits (c ∷ s) h = rw (digit_no_space c h.0) refl

reverse_aux-IsDigits : (s t : Text) → IsDigits s → IsDigits t → IsDigits (reverse_aux s t)
reverse_aux-IsDigits [] t h k = k
reverse_aux-IsDigits (c ∷ s) t h k = reverse_aux-IsDigits s (c ∷ t) h.1 (h.0, k)

trim-IsDigits : (s : Text) → IsDigits s → trim s ≡ s
trim-IsDigits s h =
    ap (λ t. reverse (strip_left (reverse t))) (strip_left-IsDigits s h)
    ∙ ap reverse (strip_left-IsDigits (reverse s) (reverse_aux-IsDigits s [] h tt))
    ∙ reverse-reverse s

unsigned : (s : Text) → IsDigits s → read_signed s ≡ positive (read_digits s 0 false)
unfolding read_signed is_digit
unsigned [] h = unfold read_digits in refl
unsigned (c ∷ s) h = rw (no_minus c h.0, no_plus c h.0) refl

-- A number is read back from its text.
pub int_of-str_of : (n : ℕ) → int_of (str_of n) ≡ some (pos n)
unfolding int_of str_of read_digits
int_of-str_of n =
    let digits = digits_before-IsDigits (suc n) n [] tt in
    ap read_signed (trim-IsDigits _ digits)
    ∙ unsigned _ digits
    ∙ ap positive (read_digits-digits (suc n) n [] (omega arith))

pub str_of-IsDigits : (n : ℕ) → IsDigits (str_of n)
unfolding str_of
str_of-IsDigits n = digits_before-IsDigits (suc n) n [] tt

pub length-str_of : (j n : ℕ) → n < pow10 (suc j) → length (str_of n) ≤ suc j
unfolding str_of
length-str_of j n h = omega (arith, digits_before_short (suc n) j n [] h)
