-- ===== src/Outbox/Recovery.antt =====
-- `recover_assistant_work` of services/assistant/delivery.py.
use financial_dashboard.Prelude.{
  ℕ, ◌≤◌, ◌<◌, ◌≡◌, ◌≢◌, ◌⊎◌, ◌||◌, inl, inr, false, Bool-cases, none, some, Option-cases, leb,
  List, [], ◌∷◌, All, if◌then◌else◌, arith,
}
use financial_dashboard.Outbox.Rows.{
  DeliveryStatus, delivering, delivered, abandoned, cancelled, Delivery, Store, is_pending,
  is_delivering, is_unknown, update_where,
}
use financial_dashboard.Outbox.Calls.{max_delivery_attempts, unknown_row}
use financial_dashboard.Outbox.Sweep.{
  is_exhausted, abandon_exhausted, is_stale_delivery, recover_assistant_work,
}

-- What a recovery at a time makes of a row.
abbrev recovered : ℕ → Delivery → Delivery
recovered now d =
    let e : Delivery = if is_stale_delivery now d then unknown_row d else d in
    if is_exhausted e then record e { status = abandoned } else e

recovered_lem :
    (now : ℕ) (d : Delivery)
    → (is_stale_delivery now (recovered now d) ≡ false) × (is_exhausted (recovered now d) ≡ false)
unfolding is_stale_delivery is_exhausted unknown_row
recovered_lem now d = ground arith

-- The message is not in delivery, or is under a lease that is not over.
abbrev pub IsRunning : ℕ → Delivery → Type 0
IsRunning now d =
    (d.status ≢ delivering)
    ⊎ (d.delivery_lease_until ≡ none)
    ⊎ ((end : ℕ) × ((d.delivery_lease_until ≡ some end) × now ≤ end))

-- The message has an attempt left, or does not wait for one.
abbrev pub HasChance : Delivery → Type 0
HasChance d =
    (d.delivery_attempts < max_delivery_attempts)
    ⊎ (d.status ≡ delivering)
    ⊎ (d.status ≡ delivered)
    ⊎ (d.status ≡ abandoned)
    ⊎ (d.status ≡ cancelled)

delivering_lem : (s : DeliveryStatus) → is_delivering s ≡ false → s ≢ delivering
delivering_lem s h k = ground (arith, h, k)

running_lem : (now : ℕ) (d : Delivery) → is_stale_delivery now d ≡ false → IsRunning now d
unfolding is_stale_delivery
running_lem now d h = elim (Bool-cases (is_delivering d.status)) [
  | inr e ↦ inl (delivering_lem d.status e)
  | inl e ↦ elim (Option-cases d.delivery_lease_until) [
    | inl f ↦ inr (inl f)
    | inr (end, f) ↦ inr (inr (end, (f, ground (arith, e, f, h))))
  ]
]

waiting_lem :
    (s : DeliveryStatus)
    → (is_pending s || is_unknown s) ≡ false
    → (s ≡ delivering) ⊎ (s ≡ delivered) ⊎ (s ≡ abandoned) ⊎ (s ≡ cancelled)
waiting_lem s h = ground (arith, h)

pending_lem : (d : Delivery) → is_exhausted d ≡ false → HasChance d
unfolding is_exhausted
pending_lem d h = elim (Bool-cases (leb max_delivery_attempts d.delivery_attempts)) [
  | inr e ↦ inl (ground (arith, e))
  | inl e ↦ inr (waiting_lem d.status (ground (arith, e, h)))
]

recovered-All :
    (now : ℕ) (ds : List Delivery)
    → All
        (λ d. IsRunning now d × HasChance d)
        (update_where is_exhausted
          (λ d. record d { status = abandoned })
          (update_where (is_stale_delivery now) unknown_row ds))
unfolding update_where
recovered-All now [] = tt
recovered-All now (d ∷ ds) =
    let (fresh, left) = recovered_lem now d in
    (
      (running_lem now (recovered now d) fresh, pending_lem (recovered now d) left),
      recovered-All now ds,
    )

-- After a recovery no message is stuck: each one that is in delivery is under a lease that is not over
-- (or without one), and each one that has used all its attempts is in delivery, delivered, abandoned
-- or cancelled.
pub recovery_leaves_none_stuck :
    (now : ℕ) (s : Store)
    → All (λ d. IsRunning now d × HasChance d) (recover_assistant_work now s).deliveries
unfolding recover_assistant_work abandon_exhausted
recovery_leaves_none_stuck now s = recovered-All now s.deliveries
