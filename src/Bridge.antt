-- ===== src/Bridge.antt =====
-- The data of the cash bridge (services/cashflow/bridge.py, schemas/cashflow.py). A date is a number
-- of days, an amount an integer number of minor units.
pub mod Flows
pub mod At
pub mod Total
pub mod Ends
pub mod Sums
pub mod Gaps
pub mod Lines
pub mod Tests
use financial_dashboard.Prelude.{ℕ, Bool, Option, List}
use financial_dashboard.Prelude.Int.{ℤ}

-- `FLOW_KIND`: what of a row's flow the summary sums.
pub data FlowKind : Type 0 where
  excluded family report non_inr : FlowKind

-- A dated bank row, as the query of `_bank_flows` returns it.
pub record FlowRow : Type 0 where
  pub account_id : ℕ
  pub day : ℕ
  pub kind : FlowKind
  pub flow : ℤ
  pub balance : Option ℤ

pub data AnchorKind : Type 0 where
  statement snapshot transaction : AnchorKind

-- A known balance at the end of a day.
pub record Anchor : Type 0 where
  pub day : ℕ
  pub value : ℤ
  pub kind : AnchorKind

-- A statement: the day before it starts, its last day, and both balances.
pub record Period : Type 0 where
  pub start : ℕ
  pub end : ℕ
  pub opening : ℤ
  pub closing : ℤ

pub data BalanceSource : Type 0 where
  from_statement estimated not_known : BalanceSource

pub record BridgeBalance : Type 0 where
  pub amount : Option ℤ
  pub source : BalanceSource
  pub as_of : Option ℕ

-- A balance, and what each covering statement implies.
pub record Balance : Type 0 where
  pub balance : BridgeBalance
  pub implied : List ℤ

pub record BridgeAccount : Type 0 where
  pub account_id : ℕ
  pub opening : BridgeBalance
  pub closing : BridgeBalance
  pub net_flow : ℤ
  pub gap : Option ℤ
