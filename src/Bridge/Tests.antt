-- ===== src/Bridge/Tests.antt =====
-- Runs of the cash bridge and the witnesses of its theorems (services/cashflow/bridge.py).
use financial_dashboard.Prelude.{
  ℕ, ◌≡◌, refl, inl, inr, ◌⊎◌, none, some, List, [], ◌∷◌, ◌==◌, map, keep_if, All, if◌then◌else◌,
}
use financial_dashboard.Prelude.Int.{pos, negsuc, ◌+ℤ◌, ◌-ℤ◌}
use financial_dashboard.Bridge.{family, report, FlowRow, Anchor, snapshot, Period}
use financial_dashboard.Bridge.Flows.{daily_of}
use financial_dashboard.Bridge.At.{covers, from_period, balance_at}
use financial_dashboard.Bridge.Total.{Summary, sum_by, cash_bridge}
use financial_dashboard.Bridge.Lines.{gap_or_zero, gaps_add_up}
use financial_dashboard.Bridge.Ends.{ledger, balance_follows_ledger}

-- Account 1 earns 50 and pays 20 to family, account 2 has no balance and spends 5.
abbrev rows : List FlowRow
rows =
    record { account_id = 1; day = 12; kind = report; flow = pos 50; balance = none }
    ∷ record { account_id = 1; day = 15; kind = family; flow = negsuc 19; balance = none }
    ∷ record { account_id = 2; day = 16; kind = report; flow = negsuc 4; balance = none }
    ∷ record { account_id = 1; day = 25; kind = report; flow = pos 7; balance = none }
    ∷ []

abbrev periods : ℕ → List Period
periods a =
    if a == 1 then record { start = 9; end = 14; opening = pos 100; closing = pos 150 } ∷ [] else []

-- The balance of day 26 is 3 above what the rows say.
abbrev anchors : ℕ → List Anchor
anchors a = if a == 1 then record { day = 26; value = pos 140; kind = snapshot } ∷ [] else []

abbrev no_anchors : List Anchor
no_anchors = []

abbrev summary : Summary
summary = record { net_cash_retained = pos 40; internal_net = pos 5; uncategorized = pos 0 }

two_accounts_gap : (cash_bridge 10 20 rows periods anchors summary (1 ∷ 2 ∷ 3 ∷ [])).gap ≡ pos 3
unfolding cash_bridge daily_of balance_at ◌-ℤ◌ ◌+ℤ◌
two_accounts_gap = refl

gaps_add_up_example :
    (cash_bridge 10 20 rows periods anchors summary (1 ∷ 2 ∷ 3 ∷ [])).gap
    ≡ sum_by gap_or_zero (cash_bridge 10 20 rows periods anchors summary (1 ∷ 2 ∷ 3 ∷ [])).accounts
unfolding cash_bridge ◌+ℤ◌
gaps_add_up_example =
    gaps_add_up 10 20 rows periods anchors summary (1 ∷ 2 ∷ 3 ∷ [])
      ((refl, (refl, tt)), ((refl, tt), (tt, tt)))
      (inl refl, (inl refl, (inr (inl refl), (inl refl, tt)))) refl

balance_follows_ledger_example :
    let daily = daily_of 1 rows [] in
    All (λ x. x ≡ ledger (pos 100) daily 13) (balance_at 13 (periods 1) no_anchors daily).implied
    × (((balance_at 13 (periods 1) no_anchors daily).balance.amount
          ≡ some (ledger (pos 100) daily 13))
        ⊎ ((balance_at 13 (periods 1) no_anchors daily).balance.amount ≡ none)
          × (map (λ p. from_period p 13 daily) (keep_if (covers 13) (periods 1)) ≡ [])
          × (no_anchors ≡ []))
unfolding ledger daily_of ◌+ℤ◌
balance_follows_ledger_example =
    balance_follows_ledger (pos 100) (daily_of 1 rows []) 13 (periods 1) no_anchors
      ((refl, refl), tt) tt
