-- ===== src/Bridge/Total.antt =====
-- `cash_bridge` of services/cashflow/bridge.py: the accounts and the totals. The statements and the
-- point balances of an account (`_known`) are arguments, as are the figures of the cashflow summary.
-- Labels and warnings are left out.
use financial_dashboard.Prelude.{
  ℕ, ◌-◌, Bool, true, false, Option, none, some, List, [], ◌∷◌, ◌==◌, ◌||◌, ◌&&◌, not,
  if◌then◌else◌,
}
use financial_dashboard.Prelude.Int.{ℤ, pos, ◌+ℤ◌, ◌-ℤ◌}
use financial_dashboard.Bridge.{
  excluded, family, non_inr, FlowRow, Anchor, Period, BridgeBalance, BridgeAccount,
}
use financial_dashboard.Bridge.Flows.{daily_of, net_flow_of, extra_of}
use financial_dashboard.Bridge.At.{balance_at}

-- The bank-scope figures of a `CashflowSummary` that the bridge uses.
pub record Summary : Type 0 where
  pub net_cash_retained : ℤ
  pub internal_net : ℤ
  pub uncategorized : ℤ

pub record CashBridge : Type 0 where
  pub opening : ℤ
  pub expected_closing : ℤ
  pub actual_closing : ℤ
  pub gap : ℤ
  pub accounts : List BridgeAccount

-- `sum(f(x) for x in xs)`
unfoldable pub sum_by : {A : Type 0} → (A → ℤ) → List A → ℤ
sum_by f [] = pos 0
sum_by f (x ∷ xs) = f x +ℤ sum_by f xs

-- `closing.amount - opening.amount - flow`, if both amounts are known.
unfoldable pub gap_of : Option ℤ → Option ℤ → ℤ → Option ℤ
gap_of none closing flow = none
gap_of (some opening) none flow = none
gap_of (some opening) (some closing) flow = some (closing -ℤ opening -ℤ flow)

-- `account.id in daily`
unfoldable pub has_rows : ℕ → List FlowRow → Bool
has_rows account_id [] = false
has_rows account_id (r ∷ rows) = r.account_id == account_id || has_rows account_id rows

unfoldable pub is_nil : List Anchor → Bool
is_nil [] = true
is_nil (a ∷ rest) = false

-- What a line adds to a total over the accounts with a known gap.
abbrev pub when_known : (BridgeAccount → ℤ) → BridgeAccount → ℤ
when_known f a = elim a.gap [ none ↦ pos 0 | some gap ↦ f a ]

abbrev pub amount_or_zero : BridgeBalance → ℤ
amount_or_zero b = elim b.amount [ none ↦ pos 0 | some amount ↦ amount ]

abbrev pub opening_amount : BridgeAccount → ℤ
opening_amount a = amount_or_zero a.opening

abbrev pub closing_amount : BridgeAccount → ℤ
closing_amount a = amount_or_zero a.closing

abbrev pub flow_if_unknown : BridgeAccount → ℤ
flow_if_unknown a = elim a.gap [ none ↦ a.net_flow | some gap ↦ pos 0 ]

-- The first date, `datetime.date.min`, is day 0, so the day before it is the date itself.
module _ (date_from date_to : ℕ) (rows : List FlowRow) (periods : ℕ → List Period)
    (anchors : ℕ → List Anchor) where
  unfoldable pub bridge_account : ℕ → BridgeAccount
  unfolding balance_at daily_of net_flow_of gap_of
  bridge_account account_id =
      let daily = daily_of account_id rows [] in
      let opening =
        (balance_at (date_from - 1) (periods account_id) (anchors account_id) daily).balance in
      let closing = (balance_at date_to (periods account_id) (anchors account_id) daily).balance in
      let flow = net_flow_of date_from date_to account_id rows in
      record {
        account_id = account_id;
        opening = opening;
        closing = closing;
        net_flow = flow;
        gap = gap_of opening.amount closing.amount flow;
      }

  -- An account with no balance and no row is passed over.
  unfoldable pub bridge_lines : List ℕ → List BridgeAccount
  unfolding bridge_account is_nil has_rows
  bridge_lines [] = []
  bridge_lines (account_id ∷ accounts) =
      let rest = bridge_lines accounts in
      if is_nil (anchors account_id) && not (has_rows account_id rows)
      then rest
      else bridge_account account_id ∷ rest

  unfoldable pub cash_bridge : Summary → List ℕ → CashBridge
  unfolding bridge_lines sum_by extra_of
  cash_bridge summary accounts =
      let lines = bridge_lines accounts in
      let opening_total = sum_by (when_known opening_amount) lines in
      let actual = sum_by (when_known closing_amount) lines in
      let other =
        summary.internal_net
        +ℤ extra_of date_from date_to family rows
        +ℤ extra_of date_from date_to excluded rows
        +ℤ summary.uncategorized
        +ℤ extra_of date_from date_to non_inr rows
        +ℤ (pos 0 -ℤ sum_by flow_if_unknown lines) in
      let expected = opening_total +ℤ summary.net_cash_retained +ℤ other in
      record {
        opening = opening_total;
        expected_closing = expected;
        actual_closing = actual;
        gap = actual -ℤ expected;
        accounts = lines;
      }
