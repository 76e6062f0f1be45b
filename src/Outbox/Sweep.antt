-- ===== src/Outbox/Sweep.antt =====
-- What services/assistant/delivery.py does to the messages of an interaction, and its sweeps.
use financial_dashboard.Prelude.{
  ℕ, Bool, true, false, ◌&&◌, ◌||◌, Option, none, some, List, [], ◌∷◌, ◌==◌, leb, if◌then◌else◌,
}
use financial_dashboard.Outbox.Rows.{
  DeliveryStatus, abandoned, cancelled, InteractionStatus, claimed, processing, ready_to_send,
  delivery_partial, delivery_failed, all_delivered, Delivery, Interaction, Store, is_pending,
  is_delivering, is_unknown, is_delivered, is_abandoned, is_cancelled, update_where, count_where,
  get_delivery, is_of,
}
use financial_dashboard.Outbox.Calls.{delivered_row, is_over, max_delivery_attempts, unknown_row}

-- The rows of one interaction, and whether all or any of a list have a status.
unfoldable pub rows_of : ℕ → List Delivery → List Delivery
rows_of i [] = []
rows_of i (d ∷ ds) = let rest = rows_of i ds in if is_of i d then d ∷ rest else rest

unfoldable pub all_of : (DeliveryStatus → Bool) → List Delivery → Bool
all_of p [] = true
all_of p (d ∷ ds) = p d.status && all_of p ds

unfoldable pub any_of : (DeliveryStatus → Bool) → List Delivery → Bool
any_of p [] = false
any_of p (d ∷ ds) = p d.status || any_of p ds

-- The status of an interaction by those of its messages.
unfoldable pub delivery_status : List Delivery → InteractionStatus
unfolding all_of any_of
delivery_status rows =
    if all_of is_delivered rows
    then all_delivered
    else (if any_of (λ s. is_abandoned s || is_cancelled s) rows
        then delivery_failed
        else (if any_of (λ s. is_delivering s || is_unknown s) rows
            then delivery_partial
            else ready_to_send))

abbrev pub is_complete : InteractionStatus → Bool
is_complete all_delivered = true
is_complete delivery_failed = true
is_complete _ = false

unfoldable pub refreshed : InteractionStatus → ℕ → Interaction → Interaction
refreshed status now i = record i {
  status = status;
  completed_at = if is_complete status then some now else none;
}

-- The refresh by the rows of the interaction, and nothing where it has none.
unfoldable pub refresh_by : ℕ → ℕ → Store → List Delivery → Option InteractionStatus × Store
unfolding delivery_status refreshed update_where
refresh_by i now s [] = (none, s)
refresh_by i now s (d ∷ ds) =
    let status = delivery_status (d ∷ ds) in
    (
      some status,
      record s {
        interactions = update_where (λ x. x.id == i) (refreshed status now) s.interactions;
      },
    )

unfoldable pub refresh_interaction_delivery_status :
    ℕ → ℕ → Store → Option InteractionStatus × Store
unfolding rows_of refresh_by
refresh_interaction_delivery_status i now s = refresh_by i now s (rows_of i s.deliveries)

-- What a callback can settle: every row that is neither delivered nor cancelled.
unfoldable pub is_settleable : ℕ → Delivery → Bool
is_settleable id d =
    d.id == id
    && (is_pending d.status
        || (is_delivering d.status || (is_unknown d.status || is_abandoned d.status)))

unfoldable pub settled_owner : Option Delivery → Option ℕ
settled_owner none = none
settled_owner (some d) = if is_delivered d.status then d.interaction_id else none

abbrev pub is_settled : Option Delivery → Bool
is_settled none = false
is_settled (some d) = is_delivered d.status

unfoldable pub refresh_owner : Option ℕ → ℕ → Store → Store
unfolding refresh_interaction_delivery_status
refresh_owner none now s = s
refresh_owner (some i) now s = (refresh_interaction_delivery_status i now s).1

unfoldable pub settle_delivery_from_callback : ℕ → ℕ → Store → Bool × Store
unfolding is_settleable delivered_row update_where get_delivery settled_owner refresh_owner
settle_delivery_from_callback id now s =
    let ds = update_where (is_settleable id) (delivered_row now) s.deliveries in
    (
      is_settled (get_delivery id ds),
      refresh_owner (settled_owner (get_delivery id ds)) now (record s { deliveries = ds }),
    )

-- `abandon_exhausted`
unfoldable pub is_exhausted : Delivery → Bool
is_exhausted d =
    (is_pending d.status || is_unknown d.status) && leb max_delivery_attempts d.delivery_attempts

unfoldable pub owns_exhausted : List Delivery → ℕ → Bool
unfolding is_exhausted
owns_exhausted [] i = false
owns_exhausted (d ∷ ds) i = is_exhausted d && is_of i d || owns_exhausted ds i

abbrev pub awaits_delivery : InteractionStatus → Bool
awaits_delivery ready_to_send = true
awaits_delivery delivery_partial = true
awaits_delivery _ = false

unfoldable pub abandon_exhausted : ℕ → Store → ℕ × Store
unfolding is_exhausted owns_exhausted update_where count_where
abandon_exhausted now s = (
  count_where is_exhausted s.deliveries,
  record {
    deliveries = update_where is_exhausted (λ d. record d { status = abandoned }) s.deliveries;
    interactions =
        update_where (λ i. owns_exhausted s.deliveries i.id && awaits_delivery i.status)
          (λ i. record i { status = delivery_failed; completed_at = some now }) s.interactions;
  },
)

unfoldable pub is_stale_work : ℕ → Interaction → Bool
is_stale_work now i = elim i.status [
  | processing ↦ is_over now i.processing_lease_until
  | _ ↦ false
]

unfoldable pub is_stale_delivery : ℕ → Delivery → Bool
is_stale_delivery now d = is_delivering d.status && is_over now d.delivery_lease_until

unfoldable pub recover_assistant_work : ℕ → Store → Store
unfolding is_stale_work is_stale_delivery unknown_row update_where abandon_exhausted
recover_assistant_work now s =
    (abandon_exhausted now (record {
      deliveries = update_where (is_stale_delivery now) unknown_row s.deliveries;
      interactions =
          update_where (is_stale_work now)
            (λ i. record i { status = claimed; worker_token = none; processing_lease_until = none })
            s.interactions;
    })).1

unfoldable pub is_cancellable : ℕ → Delivery → Bool
is_cancellable i d =
    is_of i d && (is_pending d.status || (is_delivering d.status || is_unknown d.status))

unfoldable pub cancelled_row : Delivery → Delivery
cancelled_row d = record d { status = cancelled; worker_token = none; delivery_lease_until = none }

unfoldable pub cancel_for_authorization_change : ℕ → Store → ℕ × Store
unfolding is_cancellable cancelled_row update_where count_where
cancel_for_authorization_change i s = (
  count_where (is_cancellable i) s.deliveries,
  record s { deliveries = update_where (is_cancellable i) cancelled_row s.deliveries },
)
