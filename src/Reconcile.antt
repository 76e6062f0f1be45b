-- ===== src/Reconcile.antt =====
-- The rows of the reconciliation report (services/reconcile.py, schemas/reconcile.py) and the texts
-- that it compares (`_normalized_currency` and `_shortened_reference_match` of
-- services/txn_merge.py). A date is a number of days, an amount a number of minor units. Upper case
-- and `isalnum` are those of ASCII.
pub mod Balance
pub mod Pairs
pub mod Duplicates
pub mod Report
pub mod Paired
pub mod Left
pub mod Candidates
pub mod Missing
mod Tests
use financial_dashboard.Prelude.{
  ℕ, ◌-◌, Bool, true, false, ◌&&◌, ◌||◌, not, Option, none, some, String, ◌==◌, List, [], ◌∷◌,
  length, ltb, leb, if◌then◌else◌,
}
use mathlib.Core.List.{reverse}
use financial_dashboard.Prelude.Int.{ℤ, pos, sub_ℕ}
use financial_dashboard.Masks.Chars.{Text}
use financial_dashboard.Linker.Texts.{strip_left, starts_with, same_text}
use financial_dashboard.Receivables.Store.{Direction, debit, credit}

-- The fields of a `TransactionRead` that the report reads, its date apart.
pub record TransactionRead : Type 0 where
  pub id : ℕ
  pub account_id : Option ℕ
  pub direction : Direction
  pub currency : Option Text
  pub amount : ℕ
  pub voided : Bool
  pub category : Option String
  pub reference_number : Option Text
  pub email_type : String

-- A row with its date.
pub record Row : Type 0 where
  pub day : ℕ
  pub read : TransactionRead

-- The distance of two numbers, `abs(a - b)`.
abbrev pub distance : ℕ → ℕ → ℕ
distance a b = if leb a b then b - a else a - b

-- Three days, and one rupee.
abbrev pub pair_window : ℕ
pair_window = 3

abbrev pub self_transfer_amount_tolerance : ℕ
self_transfer_amount_tolerance = 100

unfoldable pub upper : Text → Text
upper [] = []
upper (c ∷ s) = (if leb 97 c && leb c 122 then c - 32 else c) ∷ upper s

unfoldable pub strip : Text → Text
unfolding strip_left
strip s = reverse (strip_left (reverse (strip_left s)))

abbrev pub inr_code : Text
inr_code = 73 ∷ 78 ∷ 82 ∷ []

-- `str(value or "INR").strip().upper()`
unfoldable pub normalized_currency : Option Text → Text
unfolding upper strip
normalized_currency none = inr_code
normalized_currency (some []) = inr_code
normalized_currency (some (c ∷ s)) = upper (strip (c ∷ s))

unfoldable pub is_alnum : ℕ → Bool
is_alnum c = leb 48 c && leb c 57 || leb 65 c && leb c 90 || leb 97 c && leb c 122

unfoldable pub keep_alnum : Text → Text
unfolding is_alnum
keep_alnum [] = []
keep_alnum (c ∷ s) = let rest = keep_alnum s in if is_alnum c then c ∷ rest else rest

-- `"".join(ch for ch in (ref or "").upper() if ch.isalnum())`
unfoldable pub normalized_reference : Option Text → Text
unfolding keep_alnum upper
normalized_reference none = []
normalized_reference (some s) = keep_alnum (upper s)

unfoldable pub is_short : Text → Text → Bool
is_short first second = ltb (length first) 4 || ltb (length second) 4

unfoldable pub ends_with : Text → Text → Bool
unfolding starts_with
ends_with p s = starts_with (reverse p) (reverse s)

unfoldable pub shortened_reference_match : Option Text → Option Text → Bool
unfolding normalized_reference is_short starts_with ends_with
shortened_reference_match first second =
    let a = normalized_reference first in
    let b = normalized_reference second in
    not (is_short a b) && (starts_with b a || starts_with a b || ends_with b a || ends_with a b)

-- The second normalization of `_shortened_reference_match` works on texts that are normal.
unfoldable pub distinct_references : Option Text → Option Text → Bool
unfolding normalized_reference is_short same_text shortened_reference_match
distinct_references first second =
    let a = normalized_reference first in
    let b = normalized_reference second in
    if is_short a b || same_text a b
    then false
    else not (shortened_reference_match (some a) (some b))

unfoldable pub signed : Row → ℤ
signed r = elim r.read.direction [ credit ↦ pos r.read.amount | debit ↦ sub_ℕ 0 r.read.amount ]

unfoldable pub is_inr : Row → Bool
unfolding normalized_currency same_text
is_inr r = same_text (normalized_currency r.read.currency) inr_code

-- `a == b` on ids that may be missing.
unfoldable pub same_account : Option ℕ → Option ℕ → Bool
same_account none none = true
same_account none (some b) = false
same_account (some a) none = false
same_account (some a) (some b) = a == b

-- `date_from <= day <= date_to`
unfoldable pub in_range : ℕ → ℕ → ℕ → Bool
in_range date_from date_to day = leb date_from day && leb day date_to
