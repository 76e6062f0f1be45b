-- ===== src/Decisions/Lifecycle.antt =====
-- `supersede_active_decisions` of services/categorization/decision_lifecycle.py.
use financial_dashboard.Prelude.{
  ℕ, Bool, true, false, ◌&&◌, ◌||◌, not, Option, none, some, List, [], ◌∷◌, ◌==◌, if◌then◌else◌,
}
use financial_dashboard.Outbox.Rows.{
  Delivery, Store, is_pending, is_delivering, is_unknown, update_where,
}
use financial_dashboard.Outbox.Sweep.{refresh_interaction_delivery_status, cancelled_row}
use financial_dashboard.Decisions.{
  DecisionStatus, active, consumed, superseded, Decision, DecisionStore,
}

abbrev pub is_active : DecisionStatus → Bool
is_active active = true
is_active consumed = false
is_active superseded = false

abbrev pub is_preserved : Option ℕ → Decision → Bool
is_preserved preserve d = elim preserve [ none ↦ false | some id ↦ d.id == id ]

-- The active decisions of the transaction, but the one that is preserved.
unfoldable pub is_expiring : ℕ → Option ℕ → Decision → Bool
is_expiring transaction_id preserve d =
    d.transaction_id == transaction_id && (is_active d.status && not (is_preserved preserve d))

unfoldable pub superseded_row : Decision → Decision
superseded_row d = record d { status = superseded }

-- `source_interaction_ids`
unfoldable pub sources_of : ℕ → Option ℕ → List Decision → List ℕ
unfolding is_expiring
sources_of transaction_id preserve [] = []
sources_of transaction_id preserve (d ∷ ds) =
    let rest = sources_of transaction_id preserve ds in
    if is_expiring transaction_id preserve d
    then elim d.source_interaction_id [ none ↦ rest | some i ↦ i ∷ rest ]
    else rest

abbrev pub is_one_of : Option ℕ → ℕ → Bool
is_one_of o id = elim o [ none ↦ false | some x ↦ x == id ]

unfoldable pub among : Option ℕ → List ℕ → Bool
among o [] = false
among o (id ∷ ids) = is_one_of o id || among o ids

unfoldable pub owned_by_expiring : ℕ → Option ℕ → List Decision → Delivery → Bool
unfolding is_expiring
owned_by_expiring transaction_id preserve [] m = false
owned_by_expiring transaction_id preserve (d ∷ ds) m =
    is_expiring transaction_id preserve d && is_one_of m.category_review_decision_id d.id
    || owned_by_expiring transaction_id preserve ds m

-- The messages that are cancelled: undelivered ones that an expiring decision, or the interaction
-- that it is of, owns.
unfoldable pub is_withdrawn : ℕ → Option ℕ → List Decision → Delivery → Bool
unfolding owned_by_expiring sources_of among
is_withdrawn transaction_id preserve ds m =
    (owned_by_expiring transaction_id preserve ds m
      || among m.interaction_id (sources_of transaction_id preserve ds)
        && is_one_of m.transaction_id transaction_id)
    && (is_pending m.status || (is_delivering m.status || is_unknown m.status))

unfoldable pub refresh_all : List ℕ → ℕ → Store → Store
unfolding refresh_interaction_delivery_status
refresh_all [] now outbox = outbox
refresh_all (i ∷ ids) now outbox =
    refresh_all ids now (refresh_interaction_delivery_status i now outbox).1

unfoldable pub supersede_active_decisions : ℕ → Option ℕ → ℕ → DecisionStore → DecisionStore
unfolding is_expiring superseded_row sources_of is_withdrawn update_where cancelled_row refresh_all
supersede_active_decisions transaction_id preserve now s = record s {
  decisions = update_where (is_expiring transaction_id preserve) superseded_row s.decisions;
  outbox = refresh_all (sources_of transaction_id preserve s.decisions) now (record s.outbox {
    deliveries =
        update_where (is_withdrawn transaction_id preserve s.decisions) cancelled_row
          s.outbox.deliveries;
  });
}
