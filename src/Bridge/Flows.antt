-- ===== src/Bridge/Flows.antt =====
-- `_bank_flows` and `_flow_between` of services/cashflow/bridge.py: the dictionaries as functions of
-- the rows, in the order of the query.
use financial_dashboard.Prelude.{
  ℕ, Bool, true, false, ◌&&◌, Option, none, some, List, [], ◌∷◌, ◌==◌, ltb, leb, if◌then◌else◌,
}
use financial_dashboard.Prelude.Int.{ℤ, pos, ◌+ℤ◌}
use financial_dashboard.Bridge.{FlowKind, excluded, family, report, non_inr, FlowRow}

-- `daily[day] += flow`
unfoldable pub add_day : ℕ → ℤ → List (ℕ × ℤ) → List (ℕ × ℤ)
add_day day flow [] = (day, flow) ∷ []
add_day day flow (e ∷ es) =
    let rest = add_day day flow es in if e.0 == day then (e.0, e.1 +ℤ flow) ∷ es else e ∷ rest

-- `daily` of one account.
unfoldable pub daily_of : ℕ → List FlowRow → List (ℕ × ℤ) → List (ℕ × ℤ)
unfolding add_day
daily_of account_id [] daily = daily
daily_of account_id (r ∷ rows) daily =
    daily_of account_id rows
      (if r.account_id == account_id then add_day r.day r.flow daily else daily)

-- `date_from <= day <= date_to`
unfoldable pub in_dates : ℕ → ℕ → FlowRow → Bool
in_dates date_from date_to r = leb date_from r.day && leb r.day date_to

-- `net_flow` of one account.
unfoldable pub net_flow_of : ℕ → ℕ → ℕ → List FlowRow → ℤ
unfolding in_dates
net_flow_of date_from date_to account_id [] = pos 0
net_flow_of date_from date_to account_id (r ∷ rows) =
    let rest = net_flow_of date_from date_to account_id rows in
    if r.account_id == account_id && in_dates date_from date_to r then r.flow +ℤ rest else rest

unfoldable pub same_kind : FlowKind → FlowKind → Bool
same_kind excluded excluded = true
same_kind family family = true
same_kind report report = true
same_kind non_inr non_inr = true
same_kind _ _ = false

-- `extra` of one kind.
unfoldable pub extra_of : ℕ → ℕ → FlowKind → List FlowRow → ℤ
unfolding in_dates same_kind
extra_of date_from date_to kind [] = pos 0
extra_of date_from date_to kind (r ∷ rows) =
    let rest = extra_of date_from date_to kind rows in
    if same_kind r.kind kind && in_dates date_from date_to r then r.flow +ℤ rest else rest

-- `day_end` at one account and day: the last balance of the day, moved by the rows after it.
unfoldable pub day_end_of : ℕ → ℕ → List FlowRow → Option ℤ → Option ℤ
day_end_of account_id day [] found = found
day_end_of account_id day (r ∷ rows) found = day_end_of account_id day rows (
    if r.account_id == account_id && r.day == day
    then elim r.balance [
      | some balance ↦ some balance
      | none ↦ elim found [ none ↦ none | some balance ↦ some (balance +ℤ r.flow) ]
    ]
    else found)

-- The signed flow of the days in `(after, upto]`.
unfoldable pub flow_between : List (ℕ × ℤ) → ℕ → ℕ → ℤ
flow_between [] after upto = pos 0
flow_between (e ∷ daily) after upto =
    let rest = flow_between daily after upto in
    if ltb after e.0 && leb e.0 upto then e.1 +ℤ rest else rest
