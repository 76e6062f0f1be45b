-- ===== src/Bridge/Gaps.antt =====
-- The flow of the rows, over accounts and over kinds (services/cashflow/bridge.py).
use financial_dashboard.Prelude.{
  AreDistinct, ℕ, ◌≡◌, refl, sym, ap, ◌∙◌, Bool-cases, inl, inr, List, [], ◌∷◌, ◌==◌, All, In,
  if◌then◌else◌,
}
use financial_dashboard.Prelude.Int.{ℤ, pos, ◌+ℤ◌, int_laws}
use financial_dashboard.Bridge.{FlowKind, excluded, family, report, non_inr, FlowRow}
use financial_dashboard.Bridge.Flows.{in_dates, same_kind, net_flow_of, extra_of}
use financial_dashboard.Bridge.Total.{sum_by}
use financial_dashboard.Bridge.Sums.{sum_by-+ℤ, sum_by-ext, sum_by-zeros, sum_one, zero_add}

-- The flow of a row in the range.
abbrev pub flow_in : ℕ → ℕ → FlowRow → ℤ
flow_in date_from date_to r = if in_dates date_from date_to r then r.flow else pos 0

one_kind :
    (k : FlowKind) (x e f g h : ℤ)
    → (x +ℤ (e +ℤ f +ℤ g +ℤ h)) ≡ (
        ((if same_kind k report then x else pos 0) +ℤ e)
        +ℤ ((if same_kind k family then x else pos 0) +ℤ f)
        +ℤ ((if same_kind k excluded then x else pos 0) +ℤ g)
        +ℤ ((if same_kind k non_inr then x else pos 0) +ℤ h))
unfolding same_kind
one_kind excluded x e f g h = grind int_laws
one_kind family x e f g h = grind int_laws
one_kind report x e f g h = grind int_laws
one_kind non_inr x e f g h = grind int_laws

module _ (date_from date_to : ℕ) where
  net_flow_step :
      (r : FlowRow) (rows : List FlowRow) (a : ℕ)
      → net_flow_of date_from date_to a (r ∷ rows) ≡ (
          (if r.account_id == a then flow_in date_from date_to r else pos 0)
          +ℤ net_flow_of date_from date_to a rows)
  unfolding net_flow_of
  net_flow_step r rows a = elim (Bool-cases (r.account_id == a)) [
    | inl e ↦ elim (Bool-cases (in_dates date_from date_to r)) [
      | inl f ↦ rw (e, f) refl
      | inr f ↦ rw (e, f) (sym (zero_add _))
    ]
    | inr e ↦ rw e (sym (zero_add _))
  ]

  -- Every row counts for one account.
  pub flows_of_accounts :
      (ids : List ℕ) (rows : List FlowRow)
      → AreDistinct ids
      → All (λ r. In r.account_id ids) rows
      → sum_by (λ a. net_flow_of date_from date_to a rows) ids
        ≡ sum_by (flow_in date_from date_to) rows
  unfolding net_flow_of sum_by
  flows_of_accounts ids [] d h = sum_by-zeros ids
  flows_of_accounts ids (r ∷ rows) d h =
      sum_by-ext _ _ (net_flow_step r rows) ids
      ∙ sum_by-+ℤ (λ a. if r.account_id == a then flow_in date_from date_to r else pos 0)
          (λ a. net_flow_of date_from date_to a rows) ids
      ∙ ap (λ s. s +ℤ sum_by (λ a. net_flow_of date_from date_to a rows) ids)
          (sum_one r.account_id (flow_in date_from date_to r) ids d h.0)
      ∙ ap (λ s. flow_in date_from date_to r +ℤ s) (flows_of_accounts ids rows d h.1)

  extra_step :
      (k : FlowKind) (r : FlowRow) (rows : List FlowRow)
      → extra_of date_from date_to k (r ∷ rows) ≡ (
          (if same_kind r.kind k then flow_in date_from date_to r else pos 0)
          +ℤ extra_of date_from date_to k rows)
  unfolding extra_of
  extra_step k r rows = elim (Bool-cases (same_kind r.kind k)) [
    | inl e ↦ elim (Bool-cases (in_dates date_from date_to r)) [
      | inl f ↦ rw (e, f) refl
      | inr f ↦ rw (e, f) (sym (zero_add _))
    ]
    | inr e ↦ rw e (sym (zero_add _))
  ]

  -- Every row is of one kind.
  pub flows_of_kinds :
      (rows : List FlowRow)
      → sum_by (flow_in date_from date_to) rows ≡ (
          extra_of date_from date_to report rows
          +ℤ extra_of date_from date_to family rows
          +ℤ extra_of date_from date_to excluded rows
          +ℤ extra_of date_from date_to non_inr rows)
  unfolding sum_by extra_of
  flows_of_kinds [] = grind int_laws
  flows_of_kinds (r ∷ rows) =
      ap (λ s. flow_in date_from date_to r +ℤ s) (flows_of_kinds rows)
      ∙ one_kind r.kind (flow_in date_from date_to r) _ _ _ _
      ∙ rw
          (
            extra_step report r rows,
            extra_step family r rows,
            extra_step excluded r rows,
            extra_step non_inr r rows,
          )
          refl
