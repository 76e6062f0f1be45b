-- ===== src/Reconcile/Missing.antt =====
-- Which months `_missing_statements` (services/reconcile.py) lists.
use financial_dashboard.Prelude.{
  ℕ, ◌≡◌, refl, ◌∙◌, Bool, false, ◌&&◌, ◌||◌, not, Bool-cases, inl, inr, Option-cases, none, some,
  List, [], ◌∷◌, ◌==◌, arith,
}
use financial_dashboard.Reconcile.{Row, in_range}
use financial_dashboard.Reconcile.Balance.{Period}
use financial_dashboard.Reconcile.Report.{
  is_covered, MissingStatementMonths, add_sorted, add_month, add_uncovered, missing_statements,
}

unfoldable pub has_number : ℕ → List ℕ → Bool
has_number m [] = false
has_number m (n ∷ ns) = n == m || has_number m ns

-- The months that are listed for the account.
unfoldable pub lists_month : ℕ → ℕ → List MissingStatementMonths → Bool
unfolding has_number
lists_month a m [] = false
lists_month a m (e ∷ es) = e.account_id == a && has_number m e.months || lists_month a m es

-- A row of the account in the range and the month, on a date that no period covers.
unfoldable pub is_uncovered : (ℕ → ℕ) → ℕ → ℕ → List (ℕ × Period) → ℕ → ℕ → Row → Bool
unfolding in_range is_covered
is_uncovered month_key date_from date_to periods a m r = elim r.read.account_id [
  | none ↦ false
  | some b ↦
      b == a
      && month_key r.day == m
      && in_range date_from date_to r.day
      && not (is_covered b r.day periods)
]

unfoldable pub any_uncovered : (ℕ → ℕ) → ℕ → ℕ → List (ℕ × Period) → ℕ → ℕ → List Row → Bool
unfolding is_uncovered
any_uncovered month_key date_from date_to periods a m [] = false
any_uncovered month_key date_from date_to periods a m (r ∷ rows) =
    is_uncovered month_key date_from date_to periods a m r
    || any_uncovered month_key date_from date_to periods a m rows

has_number-add_sorted :
    (m n : ℕ) (ns : List ℕ) → has_number m (add_sorted n ns) ≡ (n == m || has_number m ns)
unfolding has_number add_sorted
has_number-add_sorted m n [] = refl
has_number-add_sorted m n (k ∷ ns) = ground (arith, has_number-add_sorted m n ns)

lists_month-add_month :
    (a m b n : ℕ) (es : List MissingStatementMonths)
    → lists_month a m (add_month b n es) ≡ (b == a && n == m || lists_month a m es)
unfolding lists_month add_month has_number
lists_month-add_month a m b n [] = ground arith
lists_month-add_month a m b n (e ∷ es) =
    ground (arith, lists_month-add_month a m b n es, has_number-add_sorted m n e.months)

module _ (month_key : ℕ → ℕ) (date_from date_to : ℕ) (periods : List (ℕ × Period)) (a m : ℕ) where
  add_uncovered_lem :
      (r : Row) (es : List MissingStatementMonths)
      → lists_month a m (add_uncovered month_key date_from date_to periods r es)
        ≡ (is_uncovered month_key date_from date_to periods a m r || lists_month a m es)
  unfolding add_uncovered is_uncovered
  add_uncovered_lem r es = elim (Option-cases r.read.account_id) [
    | inl e ↦ rw e refl
    | inr (b, e) ↦
        elim (Bool-cases (in_range date_from date_to r.day && not (is_covered b r.day periods))) [
          | inl t ↦ rw (e, t, lists_month-add_month a m b (month_key r.day) es) (ground (arith, t))
          | inr t ↦ rw (e, t) (ground (arith, t))
        ]
  ]

  missing_from_lem :
      (rows : List Row) (es : List MissingStatementMonths)
      → lists_month a m (missing_statements month_key date_from date_to periods rows es)
        ≡ (any_uncovered month_key date_from date_to periods a m rows || lists_month a m es)
  unfolding missing_statements any_uncovered
  missing_from_lem [] es = refl
  missing_from_lem (r ∷ rows) es =
      missing_from_lem rows (add_uncovered month_key date_from date_to periods r es)
      ∙ ground (arith, add_uncovered_lem r es)

-- A month is listed for an account exactly when some row of that account, dated in the range and in
-- that month, falls on a date that no statement period of the account covers.
pub missing_months_lem :
    (month_key : ℕ → ℕ) (date_from date_to : ℕ) (periods : List (ℕ × Period)) (a m : ℕ)
    (rows : List Row)
    → lists_month a m (missing_statements month_key date_from date_to periods rows [])
      ≡ any_uncovered month_key date_from date_to periods a m rows
unfolding lists_month
missing_months_lem month_key date_from date_to periods a m rows =
    missing_from_lem month_key date_from date_to periods a m rows [] ∙ ground arith
