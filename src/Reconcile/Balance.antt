-- ===== src/Reconcile/Balance.antt =====
-- `_statement_balance` and `_period` of services/reconcile.py. The parsers of an amount and of a
-- date are arguments, which have no result where the source's raise.
use financial_dashboard.Prelude.{
  ℕ, Bool, ◌&&◌, Option, none, some, String, List, [], ◌∷◌, leb, if◌then◌else◌,
}
use financial_dashboard.Prelude.Int.{ℤ, pos, ◌+ℤ◌, ◌-ℤ◌}
use financial_dashboard.Reconcile.{Row, signed, is_inr, same_account, in_range}

pub record BankStatementUpload : Type 0 where
  pub id : ℕ
  pub account_id : ℕ
  pub statement_period_start : Option String
  pub statement_period_end : Option String
  pub opening_balance : Option String
  pub closing_balance : Option String

pub record Period : Type 0 where
  pub start : ℕ
  pub end : ℕ

pub record StatementBalance : Type 0 where
  pub statement_id : ℕ
  pub account_id : ℕ
  pub period : Period
  pub opening_balance : Option ℤ
  pub closing_balance : Option ℤ
  pub statement_delta : Option ℤ
  pub db_net : ℤ
  pub gap : Option ℤ

-- `text or ""`
abbrev pub or_empty : Option String → String
or_empty none = ""
or_empty (some text) = text

-- A row that counts for the statement.
unfoldable pub counts_for : ℕ → Period → Row → Bool
unfolding same_account in_range is_inr
counts_for account_id period r =
    same_account r.read.account_id (some account_id)
    && in_range period.start period.end r.day
    && is_inr r

-- `db_net`
unfoldable pub db_net_of : ℕ → Period → List Row → ℤ
unfolding counts_for signed
db_net_of account_id period [] = pos 0
db_net_of account_id period (r ∷ rows) =
    let rest = db_net_of account_id period rows in
    if counts_for account_id period r then signed r +ℤ rest else rest

-- `None` if either is.
unfoldable pub minus : Option ℤ → Option ℤ → Option ℤ
minus none b = none
minus (some a) none = none
minus (some a) (some b) = some (a -ℤ b)

module _ (parse_amount : String → Option ℤ) (parse_date : String → Option ℕ) where
  unfoldable pub period_of : BankStatementUpload → Option Period
  period_of s = elim (parse_date (or_empty s.statement_period_start)) [
    | none ↦ none
    | some start ↦ elim (parse_date (or_empty s.statement_period_end)) [
      | none ↦ none
      | some end ↦ if leb start end then some (record { start = start; end = end }) else none
    ]
  ]

  unfoldable pub statement_balance : BankStatementUpload → Period → List Row → StatementBalance
  unfolding db_net_of minus
  statement_balance s period rows =
      let opening = parse_amount (or_empty s.opening_balance) in
      let closing = parse_amount (or_empty s.closing_balance) in
      let delta = minus closing opening in
      let net = db_net_of s.account_id period rows in
      record {
        statement_id = s.id;
        account_id = s.account_id;
        period = period;
        opening_balance = opening;
        closing_balance = closing;
        statement_delta = delta;
        db_net = net;
        gap = minus (some net) delta;
      }
