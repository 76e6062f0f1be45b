-- ===== src/Reconcile/Report.antt =====
-- `_missing_statements` and `build_report` of services/reconcile.py. `month_key` stands for the
-- year and month of a date, as a number that orders as the text does. The mapping of the uncovered
-- months is kept in the order in which it is listed, and so is each set of months.
use financial_dashboard.Prelude.{
  ℕ, Bool, false, ◌&&◌, ◌||◌, not, Option, none, some, String, List, [], ◌∷◌, ◌==◌, ltb, leb,
  if◌then◌else◌,
}
use financial_dashboard.Prelude.Int.{ℤ}
use financial_dashboard.Reconcile.{TransactionRead, Row, in_range}
use financial_dashboard.Reconcile.Balance.{
  BankStatementUpload, Period, StatementBalance, period_of, statement_balance,
}
use financial_dashboard.Reconcile.Pairs.{UnpairedSelfTransfers, unpaired_self_transfers}
use financial_dashboard.Reconcile.Duplicates.{duplicate_candidates}

-- `any(p.start <= day <= p.end for p in periods.get(account_id, []))`
unfoldable pub is_covered : ℕ → ℕ → List (ℕ × Period) → Bool
unfolding in_range
is_covered account_id day [] = false
is_covered account_id day (p ∷ periods) =
    p.0 == account_id && in_range p.1.start p.1.end day || is_covered account_id day periods

pub record MissingStatementMonths : Type 0 where
  pub account_id : ℕ
  pub months : List ℕ

-- `set.add`, in order.
unfoldable pub add_sorted : ℕ → List ℕ → List ℕ
add_sorted m [] = m ∷ []
add_sorted m (n ∷ ns) =
    let rest = add_sorted m ns in
    if ltb m n then m ∷ n ∷ ns else if m == n then n ∷ ns else n ∷ rest

-- `uncovered[account_id].add(month)`, in the order of the accounts.
unfoldable pub add_month : ℕ → ℕ → List MissingStatementMonths → List MissingStatementMonths
unfolding add_sorted
add_month a m [] = record { account_id = a; months = m ∷ [] } ∷ []
add_month a m (e ∷ es) =
    let rest = add_month a m es in
    if ltb a e.account_id
    then record { account_id = a; months = m ∷ [] } ∷ e ∷ es
    else if a == e.account_id
    then record e { months = add_sorted m e.months } ∷ es
    else e ∷ rest

module _ (month_key : ℕ → ℕ) (date_from date_to : ℕ) (periods : List (ℕ × Period)) where
  -- One round of the loop.
  unfoldable pub add_uncovered : Row → List MissingStatementMonths → List MissingStatementMonths
  unfolding in_range is_covered add_month
  add_uncovered r uncovered = elim r.read.account_id [
    | none ↦ uncovered
    | some account_id ↦
        if in_range date_from date_to r.day && not (is_covered account_id r.day periods)
        then add_month account_id (month_key r.day) uncovered
        else uncovered
  ]

  unfoldable pub missing_statements :
      List Row → List MissingStatementMonths → List MissingStatementMonths
  unfolding add_uncovered
  missing_statements [] uncovered = uncovered
  missing_statements (r ∷ rows) uncovered = missing_statements rows (add_uncovered r uncovered)

-- `[r for r in rows if r.transaction_date is not None and not r.voided]`, from rows with the date
-- that they may have.
unfoldable pub dated_rows : List (Option ℕ × TransactionRead) → List Row
dated_rows [] = []
dated_rows (r ∷ rows) =
    let rest = dated_rows rows in
    elim r.0 [
      | none ↦ rest
      | some day ↦ if r.1.voided then rest else record { day = day; read = r.1 } ∷ rest
    ]

-- `(s.account_id, s.period_start, s.statement_id)`, compared.
unfoldable pub is_before : StatementBalance → StatementBalance → Bool
is_before a b =
    ltb a.account_id b.account_id
    || a.account_id == b.account_id
      && (ltb a.period.start b.period.start
          || a.period.start == b.period.start && leb a.statement_id b.statement_id)

unfoldable pub insert_balance : StatementBalance → List StatementBalance → List StatementBalance
unfolding is_before
insert_balance a [] = a ∷ []
insert_balance a (b ∷ bs) =
    let rest = insert_balance a bs in if is_before a b then a ∷ b ∷ bs else b ∷ rest

pub record ReconcileReport : Type 0 where
  pub date_from : ℕ
  pub date_to : ℕ
  pub statements : List StatementBalance
  pub missing : List MissingStatementMonths
  pub transfers : UnpairedSelfTransfers
  pub candidates : List (Row × Row)

module _ (parse_amount : String → Option ℤ) (parse_date : String → Option ℕ) where
  -- The periods that are read, with their accounts.
  unfoldable pub periods_of : List BankStatementUpload → List (ℕ × Period)
  unfolding period_of
  periods_of [] = []
  periods_of (s ∷ statements) =
      let rest = periods_of statements in
      elim (period_of parse_amount parse_date s) [
        | none ↦ rest
        | some period ↦ (s.account_id, period) ∷ rest
      ]

  -- `checked`, sorted: the statements whose whole period falls inside the range.
  unfoldable pub checked_of : ℕ → ℕ → List BankStatementUpload → List Row → List StatementBalance
  unfolding period_of statement_balance insert_balance
  checked_of date_from date_to [] rows = []
  checked_of date_from date_to (s ∷ statements) rows =
      let rest = checked_of date_from date_to statements rows in
      elim (period_of parse_amount parse_date s) [
        | none ↦ rest
        | some period ↦
            if leb date_from period.start && leb period.end date_to
            then insert_balance (statement_balance parse_amount parse_date s period rows) rest
            else rest
      ]

  unfoldable pub build_report :
      (ℕ → ℕ)
      → ℕ
      → ℕ
      → List BankStatementUpload
      → List (Option ℕ × TransactionRead)
      → ReconcileReport
  unfolding dated_rows checked_of periods_of missing_statements unpaired_self_transfers
      duplicate_candidates
  build_report month_key date_from date_to statements reads =
      let rows = dated_rows reads in
      record {
        date_from = date_from;
        date_to = date_to;
        statements = checked_of date_from date_to statements rows;
        missing = missing_statements month_key date_from date_to (periods_of statements) rows [];
        transfers = unpaired_self_transfers date_from date_to rows;
        candidates = duplicate_candidates date_from date_to rows;
      }

  -- The gap that `statement_gap` returns, from the rows of the account in the period.
  unfoldable pub statement_gap : BankStatementUpload → List Row → Option ℤ
  unfolding period_of statement_balance
  statement_gap s rows = elim (period_of parse_amount parse_date s) [
    | none ↦ none
    | some period ↦ (statement_balance parse_amount parse_date s period rows).gap
  ]
