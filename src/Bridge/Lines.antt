-- ===== src/Bridge/Lines.antt =====
-- The gap of the cash bridge and the gaps of its accounts (services/cashflow/bridge.py).
use financial_dashboard.Prelude.{
  AreDistinct, ℕ, ◌≡◌, refl, sym, ap, ◌∙◌, Bool, true, false, ◌&&◌, ◌||◌, not, Bool-cases, inl, inr,
  none, some, Option-cases, List, [], ◌∷◌, ◌==◌, All, In, arith,
}
use financial_dashboard.Prelude.Int.{ℤ, pos, ◌+ℤ◌, ◌-ℤ◌, int_laws}
use financial_dashboard.Bridge.{report, FlowRow, Anchor, Period, BridgeAccount}
use financial_dashboard.Bridge.Flows.{net_flow_of, extra_of}
use financial_dashboard.Bridge.Total.{
  Summary, sum_by, gap_of, has_rows, is_nil, when_known, opening_amount, closing_amount,
  flow_if_unknown, bridge_account, bridge_lines, cash_bridge,
}
use financial_dashboard.Bridge.Sums.{zero_add}
use financial_dashboard.Bridge.Gaps.{flows_of_accounts, flows_of_kinds}

abbrev pub gap_or_zero : BridgeAccount → ℤ
gap_or_zero a = elim a.gap [ none ↦ pos 0 | some gap ↦ gap ]

abbrev line_flow : BridgeAccount → ℤ
line_flow a = a.net_flow

-- A line's gap is what its amounts and its flow say.
abbrev HasGap : BridgeAccount → Type 0
HasGap a = a.gap ≡ gap_of a.opening.amount a.closing.amount a.net_flow

line_gap :
    (a : BridgeAccount)
    → HasGap a
    → when_known closing_amount a
      ≡ (when_known opening_amount a +ℤ gap_or_zero a +ℤ (line_flow a -ℤ flow_if_unknown a))
unfolding gap_of
line_gap a h = elim (Option-cases a.opening.amount) [
  | inl e ↦ rw (h, e) (grind int_laws)
  | inr (o, e) ↦ elim (Option-cases a.closing.amount) [
    | inl f ↦ rw (h, e, f) (grind int_laws)
    | inr (c, f) ↦ rw (h, e, f) (grind int_laws)
  ]
]

add_line :
    (a b c d x y z w v u : ℤ)
    → x ≡ (y +ℤ z +ℤ (w -ℤ v))
    → a ≡ (b +ℤ c +ℤ (d -ℤ u))
    → (x +ℤ a) ≡ ((y +ℤ b) +ℤ (z +ℤ c) +ℤ ((w +ℤ d) -ℤ (v +ℤ u)))
add_line a b c d x y z w v u h k = rw (h, k) (grind int_laws)

lines_gap :
    (lines : List BridgeAccount)
    → All HasGap lines
    → sum_by (when_known closing_amount) lines ≡ (
        sum_by (when_known opening_amount) lines
        +ℤ sum_by gap_or_zero lines
        +ℤ (sum_by line_flow lines -ℤ sum_by flow_if_unknown lines))
unfolding sum_by
lines_gap [] h = grind int_laws
lines_gap (a ∷ lines) h = add_line _ _ _ _ _ _ _ _ _ _ (line_gap a h.0) (lines_gap lines h.1)

both_false : (x y : Bool) → (x || y) ≡ false → (x ≡ false) × (y ≡ false)
both_false false y h = (refl, h)
both_false true y h = ground arith

no_rows_no_flow :
    (date_from date_to a : ℕ) (rows : List FlowRow)
    → has_rows a rows ≡ false
    → net_flow_of date_from date_to a rows ≡ pos 0
unfolding has_rows net_flow_of
no_rows_no_flow date_from date_to a [] h = refl
no_rows_no_flow date_from date_to a (r ∷ rows) h =
    let both = both_false (r.account_id == a) (has_rows a rows) h in
    rw both.0 (no_rows_no_flow date_from date_to a rows both.1)

passed_over : (x y : Bool) → (x && not y) ≡ true → y ≡ false
passed_over x false h = refl
passed_over true true h = ground arith
passed_over false true h = ground arith

module _ (date_from date_to : ℕ) (rows : List FlowRow) (periods : ℕ → List Period)
    (anchors : ℕ → List Anchor) where
  bridge_lines-HasGap :
      (ids : List ℕ) → All HasGap (bridge_lines date_from date_to rows periods anchors ids)
  unfolding bridge_lines bridge_account
  bridge_lines-HasGap [] = tt
  bridge_lines-HasGap (a ∷ ids) = elim (Bool-cases (is_nil (anchors a) && not (has_rows a rows))) [
    | inl e ↦ rw e (bridge_lines-HasGap ids)
    | inr e ↦ rw e (refl, bridge_lines-HasGap ids)
  ]

  line_flows :
      (ids : List ℕ)
      → sum_by line_flow (bridge_lines date_from date_to rows periods anchors ids)
        ≡ sum_by (λ a. net_flow_of date_from date_to a rows) ids
  unfolding bridge_lines bridge_account sum_by
  line_flows [] = refl
  line_flows (a ∷ ids) = elim (Bool-cases (is_nil (anchors a) && not (has_rows a rows))) [
    | inl e ↦
        rw
          (
            e,
            no_rows_no_flow date_from date_to a rows
                (passed_over (is_nil (anchors a)) (has_rows a rows) e),
          )
          (line_flows ids ∙ sym (zero_add _))
    | inr e ↦ rw e (ap (λ s. net_flow_of date_from date_to a rows +ℤ s) (line_flows ids))
  ]

-- The totals of the bridge, with the sums over the lines as variables.
gap_sum :
    (actual opening gaps flows unknown kept internal uncategorized fam exc foreign rep : ℤ)
    → actual ≡ (opening +ℤ gaps +ℤ (flows -ℤ unknown))
    → flows ≡ (rep +ℤ fam +ℤ exc +ℤ foreign)
    → (kept +ℤ internal +ℤ uncategorized) ≡ rep
    → (actual
        -ℤ (opening
            +ℤ kept
            +ℤ (internal +ℤ fam +ℤ exc +ℤ uncategorized +ℤ foreign +ℤ (pos 0 -ℤ unknown))))
      ≡ gaps
gap_sum actual opening gaps flows unknown kept internal uncategorized fam exc foreign rep h k l =
    rw (h, k, sym l) (grind int_laws)

-- The bridge is off by what its accounts are off by: the gap of the bridge is the sum of the known
-- gaps of its lines. The accounts are distinct, each row is of one of them, and the summary's
-- figures add up to the flow of the rows in the range that the report counts.
pub gaps_add_up :
    (date_from date_to : ℕ) (rows : List FlowRow) (periods : ℕ → List Period)
    (anchors : ℕ → List Anchor) (summary : Summary) (ids : List ℕ)
    → AreDistinct ids
    → All (λ r. In r.account_id ids) rows
    → (summary.net_cash_retained +ℤ summary.internal_net +ℤ summary.uncategorized)
      ≡ extra_of date_from date_to report rows
    → let bridge = cash_bridge date_from date_to rows periods anchors summary ids in
      bridge.gap ≡ sum_by gap_or_zero bridge.accounts
unfolding cash_bridge
gaps_add_up date_from date_to rows periods anchors summary ids d h k =
    gap_sum _ _ _ _ _ _ _ _ _ _ _ _
      (lines_gap _ (bridge_lines-HasGap date_from date_to rows periods anchors ids))
      (line_flows date_from date_to rows periods anchors ids
        ∙ flows_of_accounts date_from date_to ids rows d h
        ∙ flows_of_kinds date_from date_to rows)
      k
