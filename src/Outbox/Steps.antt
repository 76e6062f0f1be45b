-- ===== src/Outbox/Steps.antt =====
-- The calls of the outbox (services/assistant/delivery.py) in any order, with every other write of a
-- message's status: the start of a send (services/telegram.py), a superseded review
-- (services/categorization/decision_lifecycle.py) and a transaction that goes away
-- (services/receivables.py).
use financial_dashboard.Prelude.{
  ℕ, ◌≡◌, refl, sym, subst, ap, true, Option, none, some, String, List, ◌∷◌, All, inl, inr, arith,
}
use financial_dashboard.Outbox.Rows.{
  abandoned, Delivery, Store, is_delivering, update_where, get_delivery,
}
use financial_dashboard.Outbox.Calls.{
  make_delivery, is_claimable, claimed_row, claim_delivery, is_held, delivered_row,
  mark_delivery_delivered, unknown_row, mark_delivery_unknown,
}
use financial_dashboard.Outbox.Sweep.{
  refresh_interaction_delivery_status, is_settleable, settle_delivery_from_callback, is_exhausted,
  abandon_exhausted, is_stale_delivery, recover_assistant_work, is_cancellable, cancelled_row,
  cancel_for_authorization_change,
}
use financial_dashboard.Outbox.Valid.{
  IsValid, update_where-All, refresh_deliveries, settle_deliveries, claimed_row-IsValid,
  delivered_row-IsValid, unknown_row-IsValid, cancelled_row-IsValid, redirected_row-IsValid,
  abandoned-IsValid,
}
use financial_dashboard.Outbox.Cancels.{
  mark_authorization_changed, is_redirected, redirected_row, redirected_owner, mark_owner_changed,
  cancel_redirected, is_prompt, cancel_prompts,
}
use financial_dashboard.Outbox.Owners.{
  CancelsOf, mark_owner_changed-cases, supersede_deliveries, cancellable_is_open,
  redirected_is_open, prompt_is_open, withdrawn_is_open,
}
use financial_dashboard.Decisions.{Decision, ReviewedTransaction}
use financial_dashboard.Decisions.Lifecycle.{is_withdrawn, supersede_active_decisions}

-- A call, or a message that the assistant stores.
pub data Step (s : Store) : Store → Type 0 where
  store :
      (d : Delivery) (id chat : ℕ) (i j t : Option ℕ)
      → make_delivery id chat i j t ≡ some d
      → Step s (record s { deliveries = d ∷ s.deliveries })
  claim : (token : String) (now id : ℕ) → Step s (claim_delivery token now id s).1
  deliver : (id : ℕ) (token : String) (now : ℕ) → Step s (mark_delivery_delivered id token now s).1
  lose : (id : ℕ) (token : String) → Step s (mark_delivery_unknown id token s).1
  settle : (id now : ℕ) → Step s (settle_delivery_from_callback id now s).1
  refresh : (i now : ℕ) → Step s (refresh_interaction_delivery_status i now s).1
  abandon : (now : ℕ) → Step s (abandon_exhausted now s).1
  recover : (now : ℕ) → Step s (recover_assistant_work now s)
  cancel : (i : ℕ) → Step s (cancel_for_authorization_change i s).1
  redirect : (chat id now : ℕ) → Step s (cancel_redirected chat id now s)
  revoke : (i now : ℕ) → Step s (mark_authorization_changed i now s).1
  supersede :
      (t : ℕ) (preserve : Option ℕ) (now : ℕ) (ds : List Decision) (ts : List ReviewedTransaction)
      → Step s
          (supersede_active_decisions t preserve now
            (record { decisions = ds; transactions = ts; outbox = s })).outbox
  drop : (ids : List ℕ) → Step s (cancel_prompts ids s)

pub data Steps (s : Store) : Store → Type 0 where
  here : Steps s s
  next : {t u : Store} → Steps s t → Step t u → Steps s u

abbrev pub AllValid : Store → Type 0
AllValid s = All IsValid s.deliveries

some_inj : {A : Type 0} {x y : A} → some x ≡ some y → x ≡ y
some_inj {x} h = ap (λ o. elim o [ none ↦ x | some z ↦ z ]) h

make_delivery-IsValid :
    (d : Delivery) (id chat : ℕ) (i j t : Option ℕ)
    → make_delivery id chat i j t ≡ some d
    → IsValid d
unfolding make_delivery
make_delivery-IsValid d id chat none none t h = absurd (ground arith)
make_delivery-IsValid d id chat none (some j) t h =
    subst IsValid (some_inj h)
      (record { token = refl; lease = refl; attempts = omega arith; time = refl })
make_delivery-IsValid d id chat (some i) none t h =
    subst IsValid (some_inj h)
      (record { token = refl; lease = refl; attempts = omega arith; time = refl })
make_delivery-IsValid d id chat (some i) (some j) t h = absurd (ground arith)

held_is_delivering :
    (id : ℕ) (token : String) (d : Delivery)
    → is_held id token d ≡ true
    → is_delivering d.status ≡ true
unfolding is_held
held_is_delivering id token d h = ground (arith, h)

stale_is_delivering :
    (now : ℕ) (d : Delivery) → is_stale_delivery now d ≡ true → is_delivering d.status ≡ true
unfolding is_stale_delivery
stale_is_delivering now d h = ground (arith, h)

-- Cancels keep the rows valid.
CancelsOf-AllValid : (ds es : List Delivery) → CancelsOf ds es → All IsValid ds → All IsValid es
CancelsOf-AllValid ds es (inl e) v = subst (All IsValid) (sym e) v
CancelsOf-AllValid ds es (inr (i, e)) v = subst (All IsValid) (sym e) (
    update_where-All IsValid (is_cancellable i) cancelled_row ds
      (λ d h. cancelled_row-IsValid d (cancellable_is_open d i h)) v)

Step-AllValid : {s t : Store} → Step s t → AllValid s → AllValid t
unfolding claim_delivery mark_delivery_delivered mark_delivery_unknown abandon_exhausted
    recover_assistant_work cancel_for_authorization_change cancel_redirected mark_owner_changed
    cancel_prompts
Step-AllValid {s} (Step.store d id chat i j t h) v = (make_delivery-IsValid d id chat i j t h, v)
Step-AllValid {s} (Step.claim token now id) v =
    update_where-All IsValid (is_claimable id now) (claimed_row token now) s.deliveries
      (claimed_row-IsValid id now token) v
Step-AllValid {s} (Step.deliver id token now) v =
    update_where-All IsValid (is_held id token) (delivered_row now) s.deliveries
      (λ d h. delivered_row-IsValid now d) v
Step-AllValid {s} (Step.lose id token) v =
    update_where-All IsValid (is_held id token) unknown_row s.deliveries
      (λ d h. unknown_row-IsValid d (held_is_delivering id token d h)) v
Step-AllValid {s} (Step.settle id now) v = subst (All IsValid) (sym (settle_deliveries id now s)) (
    update_where-All IsValid (is_settleable id) (delivered_row now) s.deliveries
      (λ d h. delivered_row-IsValid now d) v)
Step-AllValid {s} (Step.refresh i now) v = subst (All IsValid) (sym (refresh_deliveries i now s)) v
Step-AllValid {s} (Step.abandon now) v =
    update_where-All IsValid is_exhausted (λ d. record d { status = abandoned }) s.deliveries
      abandoned-IsValid v
Step-AllValid {s} (Step.recover now) v =
    update_where-All IsValid is_exhausted (λ d. record d { status = abandoned })
      (update_where (is_stale_delivery now) unknown_row s.deliveries) abandoned-IsValid
      (update_where-All IsValid (is_stale_delivery now) unknown_row s.deliveries
        (λ d h. unknown_row-IsValid d (stale_is_delivering now d h)) v)
Step-AllValid {s} (Step.cancel i) v = CancelsOf-AllValid s.deliveries _ (inr (i, refl)) v
Step-AllValid {s} (Step.redirect chat id now) v =
    CancelsOf-AllValid _ _
      (mark_owner_changed-cases (redirected_owner chat id (get_delivery id s.deliveries)) now _)
      (update_where-All IsValid (is_redirected chat id) redirected_row s.deliveries
        (λ d h. redirected_row-IsValid d (redirected_is_open d chat id h)) v)
Step-AllValid {s} (Step.revoke i now) v =
    CancelsOf-AllValid s.deliveries _ (mark_owner_changed-cases (some i) now s) v
Step-AllValid {s} (Step.supersede t preserve now ds ts) v =
    subst (All IsValid) (sym (supersede_deliveries t preserve now _)) (
      update_where-All IsValid (is_withdrawn t preserve ds) cancelled_row s.deliveries
        (λ d h. cancelled_row-IsValid d (withdrawn_is_open d t preserve ds h)) v)
Step-AllValid {s} (Step.drop ids) v =
    update_where-All IsValid (is_prompt ids) cancelled_row s.deliveries
      (λ d h. cancelled_row-IsValid d (prompt_is_open d ids h)) v

-- Through every sequence of the outbox's calls (messages are stored, claimed, delivered, lost,
-- settled, refreshed, abandoned, recovered and cancelled) and of the other writes of a message's
-- status (by a send to a chat that is no longer the configured one, by a revoked authorization, by a
-- superseded review and by a transaction that goes away), in any order, from rows that are valid,
-- every row stays valid: unless it is cancelled, it has a worker's token exactly while it is being
-- delivered; it has a lease exactly with a token; it is sent at most five times; and it has a time
-- of delivery exactly when it is delivered.
pub outbox_stays_in_shape :
    {s t : Store} → All IsValid s.deliveries → Steps s t → All IsValid t.deliveries
outbox_stays_in_shape v here = v
outbox_stays_in_shape v (next r step) = Step-AllValid step (outbox_stays_in_shape v r)
