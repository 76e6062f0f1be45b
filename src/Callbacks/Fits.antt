-- ===== src/Callbacks/Fits.antt =====
-- The data of a button is within the limit of Telegram (services/telegram.py).
use financial_dashboard.Prelude.{ℕ, ◌+◌, ◌<◌, ◌≤◌, ◌≡◌, refl, [], ◌∷◌, ◌++◌, length, arith}
use financial_dashboard.Masks.Chars.{Text, is_digit}
use financial_dashboard.Callbacks.{
  codes, Button, settle, merge_sms, new_sms, link_receivable, dismiss_receivable, pick_account,
  skip_account, mark_paid,
}
use financial_dashboard.Callbacks.Numbers.{str_of, str_of-IsDigits, IsDigits, length-str_of, pow10}
use financial_dashboard.Callbacks.Split.{colon}
use financial_dashboard.Callbacks.Render.{callback_data}
use financial_dashboard.Callbacks.Read.{encoded_length}

encoded-append : (s t : Text) → encoded_length (s ++ t) ≡ encoded_length s + encoded_length t
unfolding encoded_length
encoded-append [] t = omega arith
encoded-append (c ∷ s) t = omega (arith, encoded-append s t)

encoded-IsDigits : (s : Text) → IsDigits s → encoded_length s ≡ length s
unfolding encoded_length is_digit
encoded-IsDigits [] h = refl
encoded-IsDigits (c ∷ s) h = ground (arith, h.0, encoded-IsDigits s h.1)

-- An id of at most fourteen digits.
abbrev pub IsShort : ℕ → Type 0
IsShort n = n < pow10 14

short_bytes : (n : ℕ) → IsShort n → encoded_length (str_of n) ≤ 14
short_bytes n h =
    omega (arith, encoded-IsDigits (str_of n) (str_of-IsDigits n), length-str_of 13 n h)

-- The ids of a button are short, and a digest is of twelve bytes at most.
abbrev pub HasShortIds : Button → Type 0
HasShortIds (settle u i d t) = IsShort u × IsShort i × (encoded_length d ≤ 12) × IsShort t
HasShortIds (merge_sms a b) = IsShort a × IsShort b
HasShortIds (new_sms a) = IsShort a
HasShortIds (link_receivable p r) = IsShort p × IsShort r
HasShortIds (dismiss_receivable p) = IsShort p
HasShortIds (pick_account t a) = IsShort t × IsShort a
HasShortIds (skip_account t) = IsShort t
HasShortIds (mark_paid u) = IsShort u

-- A button's data fits: with ids of at most fourteen digits, and the twelve characters of a row's
-- digest, the data of every kind of button is at most the 64 bytes that Telegram allows.
pub button_fits : (b : Button) → HasShortIds b → encoded_length (callback_data b) ≤ 64
unfolding callback_data encoded_length
button_fits (settle u i d t) h = omega (
  arith,
  encoded-append (str_of u) (colon ∷ (str_of i ++ colon ∷ (d ++ colon ∷ str_of t))),
  encoded-append (str_of i) (colon ∷ (d ++ colon ∷ str_of t)),
  encoded-append d (colon ∷ str_of t),
  short_bytes u h.0,
  short_bytes i h.1,
  h.2,
  short_bytes t h.3,
)
button_fits (merge_sms a b) h =
    omega
      (arith, encoded-append (str_of a) (colon ∷ str_of b), short_bytes a h.0, short_bytes b h.1)
button_fits (new_sms a) h = omega (arith, short_bytes a h)
button_fits (link_receivable p r) h =
    omega
      (arith, encoded-append (str_of p) (colon ∷ str_of r), short_bytes p h.0, short_bytes r h.1)
button_fits (dismiss_receivable p) h = omega (arith, short_bytes p h)
button_fits (pick_account t a) h =
    omega
      (arith, encoded-append (str_of t) (colon ∷ str_of a), short_bytes t h.0, short_bytes a h.1)
button_fits (skip_account t) h =
    omega (arith, encoded-append (str_of t) (codes ":skip"), short_bytes t h)
button_fits (mark_paid u) h = omega (arith, short_bytes u h)
