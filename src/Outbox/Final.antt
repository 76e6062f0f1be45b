-- ===== src/Outbox/Final.antt =====
-- The final states of a message of the outbox (services/assistant/delivery.py, and the writes of
-- Outbox/Cancels).
use financial_dashboard.Prelude.{
  ℕ, ◌≡◌, refl, ap, ◌∙◌, Bool, true, false, ◌&&◌, ◌||◌, some, String, List, [], ◌∷◌, inl, inr, ◌==◌,
  if◌then◌else◌, arith,
}
use financial_dashboard.Outbox.Rows.{
  DeliveryStatus, pending, delivering, delivery_unknown, delivered, abandoned, cancelled, Delivery,
  Store, is_pending, is_delivering, is_unknown, is_delivered, is_abandoned, is_cancelled,
  update_where, get_delivery,
}
use financial_dashboard.Outbox.Calls.{
  is_claimable, claimed_row, claim_delivery, is_held, delivered_row, mark_delivery_delivered,
  unknown_row, mark_delivery_unknown,
}
use financial_dashboard.Outbox.Sweep.{
  is_settleable, is_exhausted, abandon_exhausted, is_stale_delivery, recover_assistant_work,
  is_cancellable, cancelled_row, cancel_for_authorization_change,
}
use financial_dashboard.Outbox.Valid.{refresh_deliveries, settle_deliveries}
use financial_dashboard.Outbox.Cancels.{
  is_open, is_redirected, redirected_row, redirected_owner, mark_owner_changed, cancel_redirected,
  is_prompt, cancel_prompts,
}
use financial_dashboard.Outbox.Owners.{
  CancelsOf, mark_owner_changed-cases, supersede_deliveries, cancellable_is_open,
  redirected_is_open, prompt_is_open, withdrawn_is_open,
}
use financial_dashboard.Decisions.Lifecycle.{is_withdrawn}
use financial_dashboard.Outbox.Steps.{Step, Steps, here, next}

-- Whether a row of the id has a status of a kind.
unfoldable pub has_status : (DeliveryStatus → Bool) → ℕ → List Delivery → Bool
has_status q i [] = false
has_status q i (d ∷ ds) = d.id == i && q d.status || has_status q i ds

-- Delivered, or cancelled.
abbrev pub is_final : DeliveryStatus → Bool
is_final s = is_delivered s || is_cancelled s

or_right : (a b : Bool) → b ≡ true → (a || b) ≡ true
or_right a b h = ground (arith, h)

or_step : (a q b b' : Bool) → q ≡ false → (b ≡ true → b' ≡ true) → (a && q || b) ≡ true → b' ≡ true
or_step a q b b' e f h = ground (arith, e, f, h)

or_weaken : (a b b' : Bool) → (b ≡ true → b' ≡ true) → (a || b) ≡ true → (a || b') ≡ true
or_weaken a b b' f h = ground (arith, f, h)

keeps_status :
    (q : DeliveryStatus → Bool) (i : ℕ) (b : Bool) (d e : Delivery) (ds es : List Delivery)
    → (b ≡ true → q d.status ≡ false)
    → (has_status q i ds ≡ true → has_status q i es ≡ true)
    → has_status q i (d ∷ ds) ≡ true
    → has_status q i ((if b then e else d) ∷ es) ≡ true
unfolding has_status
keeps_status q i true d e ds es h k j =
    or_right (e.id == i && q e.status) (has_status q i es)
      (or_step (d.id == i) (q d.status) (has_status q i ds) (has_status q i es) (h refl) k j)
keeps_status q i false d e ds es h k j =
    or_weaken (d.id == i && q d.status) (has_status q i ds) (has_status q i es) k j

update_where-has_status :
    (q : DeliveryStatus → Bool) (p : Delivery → Bool) (f : Delivery → Delivery) (i : ℕ)
    (ds : List Delivery)
    → ((d : Delivery) → p d ≡ true → q d.status ≡ false)
    → has_status q i ds ≡ true
    → has_status q i (update_where p f ds) ≡ true
unfolding update_where
update_where-has_status q p f i [] h k = k
update_where-has_status q p f i (d ∷ ds) h k =
    keeps_status q i (p d) d (f d) ds (update_where p f ds) (h d)
      (update_where-has_status q p f i ds h) k

has_status-cons :
    (q : DeliveryStatus → Bool) (i : ℕ) (d : Delivery) (ds : List Delivery)
    → has_status q i ds ≡ true
    → has_status q i (d ∷ ds) ≡ true
unfolding has_status
has_status-cons q i d ds h = or_right (d.id == i && q d.status) (has_status q i ds) h

-- No update of the outbox admits a row in a final state.
module _ (d : Delivery) where
  claimable_open : (id now : ℕ) → is_claimable id now d ≡ true → is_final d.status ≡ false
  unfolding is_claimable
  claimable_open id now h = ground (arith, h)

  held_open : (id : ℕ) (token : String) → is_held id token d ≡ true → is_final d.status ≡ false
  unfolding is_held
  held_open id token h = ground (arith, h)

  settleable_open : (id : ℕ) → is_settleable id d ≡ true → is_final d.status ≡ false
  unfolding is_settleable
  settleable_open id h = ground (arith, h)

  exhausted_open : is_exhausted d ≡ true → is_final d.status ≡ false
  unfolding is_exhausted
  exhausted_open h = ground (arith, h)

  stale_open : (now : ℕ) → is_stale_delivery now d ≡ true → is_final d.status ≡ false
  unfolding is_stale_delivery
  stale_open now h = ground (arith, h)

  open_is_no_end : is_open d.status ≡ true → is_final d.status ≡ false
  open_is_no_end h = ground (arith, h)

abbrev pub same_status : DeliveryStatus → DeliveryStatus → Bool
same_status pending s = is_pending s
same_status delivering s = is_delivering s
same_status delivery_unknown s = is_unknown s
same_status delivered s = is_delivered s
same_status abandoned s = is_abandoned s
same_status cancelled s = is_cancelled s

open_differs :
    (x s : DeliveryStatus) → is_final x ≡ true → is_final s ≡ false → same_status x s ≡ false
open_differs x s h k = ground (arith, h, k)

-- Cancels keep the final statuses.
CancelsOf-has_status :
    (x : DeliveryStatus) (i : ℕ)
    → is_final x ≡ true
    → (ds es : List Delivery) → CancelsOf ds es
    → has_status (same_status x) i ds ≡ true
    → has_status (same_status x) i es ≡ true
CancelsOf-has_status x i f ds es (inl e) v = ap (has_status (same_status x) i) e ∙ v
CancelsOf-has_status x i f ds es (inr (a, e)) v =
    ap (has_status (same_status x) i) e
    ∙ update_where-has_status (same_status x) (is_cancellable a) cancelled_row i ds
        (λ d h. open_differs x d.status f (open_is_no_end d (cancellable_is_open d a h))) v

Step-has_status :
    {s t : Store} (x : DeliveryStatus) (i : ℕ)
    → is_final x ≡ true
    → Step s t
    → has_status (same_status x) i s.deliveries ≡ true
    → has_status (same_status x) i t.deliveries ≡ true
unfolding claim_delivery mark_delivery_delivered mark_delivery_unknown abandon_exhausted
    recover_assistant_work cancel_for_authorization_change cancel_redirected mark_owner_changed
    cancel_prompts
Step-has_status {s} x i f (Step.store d id chat a b t h) v =
    has_status-cons (same_status x) i d s.deliveries v
Step-has_status {s} x i f (Step.claim token now id) v =
    update_where-has_status (same_status x) (is_claimable id now) (claimed_row token now) i
      s.deliveries (λ d h. open_differs x d.status f (claimable_open d id now h)) v
Step-has_status {s} x i f (Step.deliver id token now) v =
    update_where-has_status (same_status x) (is_held id token) (delivered_row now) i s.deliveries
      (λ d h. open_differs x d.status f (held_open d id token h)) v
Step-has_status {s} x i f (Step.lose id token) v =
    update_where-has_status (same_status x) (is_held id token) unknown_row i s.deliveries
      (λ d h. open_differs x d.status f (held_open d id token h)) v
Step-has_status {s} x i f (Step.settle id now) v =
    ap (has_status (same_status x) i) (settle_deliveries id now s)
    ∙ update_where-has_status (same_status x) (is_settleable id) (delivered_row now) i s.deliveries
        (λ d h. open_differs x d.status f (settleable_open d id h)) v
Step-has_status {s} x i f (Step.refresh a now) v =
    ap (has_status (same_status x) i) (refresh_deliveries a now s) ∙ v
Step-has_status {s} x i f (Step.abandon now) v =
    update_where-has_status (same_status x) is_exhausted (λ d. record d { status = abandoned }) i
      s.deliveries (λ d h. open_differs x d.status f (exhausted_open d h)) v
Step-has_status {s} x i f (Step.recover now) v =
    update_where-has_status (same_status x) is_exhausted (λ d. record d { status = abandoned }) i
      (update_where (is_stale_delivery now) unknown_row s.deliveries)
      (λ d h. open_differs x d.status f (exhausted_open d h))
      (update_where-has_status (same_status x) (is_stale_delivery now) unknown_row i s.deliveries
        (λ d h. open_differs x d.status f (stale_open d now h)) v)
Step-has_status {s} x i f (Step.cancel a) v =
    CancelsOf-has_status x i f s.deliveries _ (inr (a, refl)) v
Step-has_status {s} x i f (Step.redirect chat id now) v =
    CancelsOf-has_status x i f _ _
      (mark_owner_changed-cases (redirected_owner chat id (get_delivery id s.deliveries)) now _)
      (update_where-has_status (same_status x) (is_redirected chat id) redirected_row i s.deliveries
        (λ d h. open_differs x d.status f (open_is_no_end d (redirected_is_open d chat id h))) v)
Step-has_status {s} x i f (Step.revoke a now) v =
    CancelsOf-has_status x i f s.deliveries _ (mark_owner_changed-cases (some a) now s) v
Step-has_status {s} x i f (Step.supersede t preserve now ds ts) v =
    ap (has_status (same_status x) i) (supersede_deliveries t preserve now _)
    ∙ update_where-has_status (same_status x) (is_withdrawn t preserve ds) cancelled_row i
        s.deliveries
        (λ d h. open_differs x d.status f (open_is_no_end d (withdrawn_is_open d t preserve ds h)))
        v
Step-has_status {s} x i f (Step.drop ids) v =
    update_where-has_status (same_status x) (is_prompt ids) cancelled_row i s.deliveries
      (λ d h. open_differs x d.status f (open_is_no_end d (prompt_is_open d ids h))) v

-- A message that is delivered or cancelled stays so, whatever calls of the outbox and other writes of
-- a message's status follow, in any order: it is not claimed again, so it is not sent again, and a
-- late callback does not revive a cancelled one.
pub final_status_stays :
    {s t : Store} (x : DeliveryStatus) (i : ℕ)
    → is_final x ≡ true
    → has_status (same_status x) i s.deliveries ≡ true
    → Steps s t
    → has_status (same_status x) i t.deliveries ≡ true
final_status_stays x i f v here = v
final_status_stays x i f v (next r step) = Step-has_status x i f step (final_status_stays x i f v r)
