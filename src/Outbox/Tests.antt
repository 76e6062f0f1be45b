-- ===== src/Outbox/Tests.antt =====
-- The theorems on the outbox (services/assistant/delivery.py) at one message.
use financial_dashboard.Prelude.{
  is_some, ◌≡◌, refl, true, false, ◌&&◌, none, some, [], ◌∷◌, map, All,
}
use financial_dashboard.Outbox.Rows.{count_where, Delivery, Store, delivered, pending, is_cancelled}
use financial_dashboard.Outbox.Calls.{
  mark_delivery_unknown, make_delivery, claim_delivery, mark_delivery_delivered,
}
use financial_dashboard.Outbox.Sweep.{recover_assistant_work}
use financial_dashboard.Outbox.Valid.{IsValid}
use financial_dashboard.Outbox.Cancels.{cancel_redirected}
use financial_dashboard.Outbox.Steps.{Step, Steps, here, next, outbox_stays_in_shape}
use financial_dashboard.Outbox.Final.{has_status, same_status, final_status_stays}
use financial_dashboard.Outbox.Late.{has_id, late_worker_refused}
use financial_dashboard.Outbox.Recovery.{IsRunning, HasChance, recovery_leaves_none_stuck}

abbrev empty : Store
empty = record { deliveries = []; interactions = [] }

abbrev message : Delivery
message = record {
  id = 1;
  interaction_id = some 7;
  category_review_decision_id = none;
  recipient_chat_id = 3;
  transaction_id = none;
  status = pending;
  delivery_attempts = 0;
  worker_token = none;
  delivery_lease_until = none;
  last_attempt_at = none;
  delivered_at = none;
}

abbrev stored : Store
stored = record empty { deliveries = message ∷ [] }

abbrev claimed_store : Store
claimed_store = (claim_delivery "a" 10 1 stored).1

abbrev sent : Store
sent = (mark_delivery_delivered 1 "a" 20 claimed_store).1

message_made : make_delivery 1 3 (some 7) none none ≡ some message
unfolding make_delivery
message_made = refl

-- The chat is no longer the configured one, while the message is being delivered: the row is
-- cancelled, and keeps its token.
abbrev redirected_store : Store
redirected_store = cancel_redirected 4 1 15 claimed_store

redirected_keeps_token :
    map (λ d. (is_cancelled d.status && is_some d.worker_token)) redirected_store.deliveries
    ≡ true ∷ []
unfolding cancel_redirected claim_delivery
redirected_keeps_token = refl

redirected_calls : Steps empty redirected_store
redirected_calls =
    next
      (next (next here (Step.store message 1 3 (some 7) none none message_made))
        (Step.claim "a" 10 1))
      (Step.redirect 4 1 15)

outbox_stays_in_shape_example : All IsValid redirected_store.deliveries
outbox_stays_in_shape_example = outbox_stays_in_shape tt redirected_calls

sent_delivered : has_status (same_status delivered) 1 sent.deliveries ≡ true
unfolding has_status mark_delivery_delivered claim_delivery
sent_delivered = refl

final_status_stays_example :
    has_status (same_status delivered) 1 (claim_delivery "b" 900000000 1 sent).1.deliveries ≡ true
final_status_stays_example =
    final_status_stays delivered 1 refl sent_delivered (next here (Step.claim "b" 900000000 1))

-- The lease of the first claim is over.
recovery_leaves_none_stuck_example :
    All
      (λ d. IsRunning 900000000 d × HasChance d)
      (recover_assistant_work 900000000 claimed_store).deliveries
recovery_leaves_none_stuck_example = recovery_leaves_none_stuck 900000000 claimed_store

one_message : count_where (has_id 1) claimed_store.deliveries ≡ 1
unfolding count_where claim_delivery
one_message = refl

claimed_again : is_some (claim_delivery "b" 900000000 1 claimed_store).0 ≡ true
unfolding claim_delivery
claimed_again = refl

late_worker_refused_example :
    let t = (claim_delivery "b" 900000000 1 claimed_store).1 in
    (mark_delivery_delivered 1 "a" 900000009 t ≡ (false, t))
    × (mark_delivery_unknown 1 "a" t ≡ (false, t))
late_worker_refused_example =
    late_worker_refused 1 900000000 900000009 "a" "b" claimed_store refl one_message claimed_again
