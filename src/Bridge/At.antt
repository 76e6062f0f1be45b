-- ===== src/Bridge/At.antt =====
-- `_from_period` and `balance_at` of services/cashflow/bridge.py.
use financial_dashboard.Prelude.{
  ℕ, ◌-◌, Bool, true, false, ◌&&◌, none, some, List, [], ◌∷◌, map, keep_if, ◌==◌, ltb, leb,
  if◌then◌else◌,
}
use financial_dashboard.Prelude.Int.{ℤ, ◌+ℤ◌, ◌-ℤ◌}
use financial_dashboard.Bridge.{
  Anchor, AnchorKind, statement, snapshot, transaction, Period, from_statement, estimated,
  not_known, BridgeBalance, Balance,
}
use financial_dashboard.Bridge.Flows.{flow_between}

-- The day is in the period, so neither difference is below zero.
unfoldable pub from_period : Period → ℕ → List (ℕ × ℤ) → Anchor
unfolding flow_between
from_period p day daily =
    if leb (day - p.start) (p.end - day)
    then record {
      day = p.start;
      value = p.opening +ℤ flow_between daily p.start day;
      kind = statement;
    }
    else record { day = p.end; value = p.closing -ℤ flow_between daily day p.end; kind = statement }

unfoldable pub covers : ℕ → Period → Bool
covers day p = leb p.start day && leb day p.end

unfoldable pub days_apart : ℕ → Anchor → ℕ
days_apart day a = if leb a.day day then day - a.day else a.day - day

-- `min(anchors, key=…)`: the first of the nearest.
unfoldable pub nearest_anchor : ℕ → Anchor → List Anchor → Anchor
unfolding days_apart
nearest_anchor day best [] = best
nearest_anchor day best (a ∷ anchors) =
    nearest_anchor day (if ltb (days_apart day a) (days_apart day best) then a else best) anchors

-- The amount of an anchor, moved to the day.
unfoldable pub moved : Anchor → ℕ → List (ℕ × ℤ) → ℤ
unfolding flow_between
moved a day daily =
    if leb a.day day
    then a.value +ℤ flow_between daily a.day day
    else a.value -ℤ flow_between daily day a.day

unfoldable pub is_statement : AnchorKind → Bool
is_statement statement = true
is_statement snapshot = false
is_statement transaction = false

unfoldable pub known_balance : ℕ → Anchor → ℤ → BridgeBalance
unfolding is_statement
known_balance day best amount = record {
  amount = some amount;
  source = if is_statement best.kind && best.day == day then from_statement else estimated;
  as_of = some best.day;
}

unfoldable pub from_anchors : ℕ → List Anchor → List (ℕ × ℤ) → BridgeBalance
unfolding nearest_anchor moved known_balance
from_anchors day [] daily = record { amount = none; source = not_known; as_of = none }
from_anchors day (a ∷ anchors) daily =
    let best = nearest_anchor day a anchors in known_balance day best (moved best day daily)

abbrev pub value_of : Anchor → ℤ
value_of a = a.value

unfoldable pub balance_from : ℕ → List Anchor → List Anchor → List (ℕ × ℤ) → Balance
unfolding from_anchors known_balance
balance_from day [] anchors daily = record {
  balance = from_anchors day anchors daily;
  implied = [];
}
balance_from day (best ∷ covering) anchors daily = record {
  balance = known_balance day best best.value;
  implied = map value_of (best ∷ covering);
}

unfoldable pub balance_at : ℕ → List Period → List Anchor → List (ℕ × ℤ) → Balance
unfolding keep_if covers from_period balance_from
balance_at day periods anchors daily =
    balance_from day (map (λ p. from_period p day daily) (keep_if (covers day) periods)) anchors
      daily
