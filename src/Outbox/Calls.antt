-- ===== src/Outbox/Calls.antt =====
-- The calls of services/assistant/delivery.py. The tokens that `secrets` mints are arguments.
use financial_dashboard.Prelude.{
  ℕ, ◌+◌, Bool, true, false, ◌&&◌, ◌||◌, Option, none, some, String, ◌==◌, ltb, str_eq,
  if◌then◌else◌,
}
use financial_dashboard.Outbox.Rows.{
  DeliveryStatus, pending, delivering, delivery_unknown, delivered, cancelled, Delivery, Store,
  is_pending, is_delivering, is_unknown, update_where, count_where, get_delivery,
}

-- `DELIVERY_LEASE`, of two minutes, and `MAX_DELIVERY_ATTEMPTS`.
abbrev pub delivery_lease : ℕ
delivery_lease = 120000000

abbrev pub max_delivery_attempts : ℕ
max_delivery_attempts = 5

-- `make_delivery`, with the id that the table gives: none where not exactly one owner is named.
unfoldable pub make_delivery : ℕ → ℕ → Option ℕ → Option ℕ → Option ℕ → Option Delivery
make_delivery id recipient_chat_id interaction_id decision_id transaction_id =
    let row : Delivery = record {
      id = id;
      interaction_id = interaction_id;
      category_review_decision_id = decision_id;
      recipient_chat_id = recipient_chat_id;
      transaction_id = transaction_id;
      status = pending;
      delivery_attempts = 0;
      worker_token = none;
      delivery_lease_until = none;
      last_attempt_at = none;
      delivered_at = none;
    } in
    elim interaction_id [
      | none ↦ elim decision_id [ none ↦ none | some j ↦ some row ]
      | some i ↦ elim decision_id [ none ↦ some row | some j ↦ none ]
    ]

-- Whether an expected value is absent or the one given.
abbrev pub agrees : Option ℕ → Option ℕ → Bool
agrees none value = true
agrees (some x) none = false
agrees (some x) (some y) = y == x

abbrev pub is_provable : DeliveryStatus → Bool
is_provable cancelled = false
is_provable _ = true

unfoldable pub validate_delivery_proof :
    ℕ → Option ℕ → Option ℕ → Option ℕ → Option ℕ → Store → Bool
unfolding get_delivery
validate_delivery_proof id recipient_chat_id transaction_id interaction_id decision_id s =
    elim (get_delivery id s.deliveries) [
      | none ↦ false
      | some d ↦
          agrees recipient_chat_id (some d.recipient_chat_id)
          && (agrees transaction_id d.transaction_id
              && (agrees interaction_id d.interaction_id
                  && (agrees decision_id d.category_review_decision_id && is_provable d.status)))
    ]

-- Whether a lease is absent or over, for a claim; and over, for the recovery.
abbrev pub is_lapsed : ℕ → Option ℕ → Bool
is_lapsed now none = true
is_lapsed now (some t) = ltb t now

abbrev pub is_over : ℕ → Option ℕ → Bool
is_over now none = false
is_over now (some t) = ltb t now

unfoldable pub is_claimable : ℕ → ℕ → Delivery → Bool
is_claimable id now d =
    d.id == id
    && (ltb d.delivery_attempts max_delivery_attempts
        && (is_pending d.status
            || (is_unknown d.status || is_delivering d.status)
              && is_lapsed now d.delivery_lease_until))

unfoldable pub claimed_row : String → ℕ → Delivery → Delivery
claimed_row token now d = record d {
  status = delivering;
  worker_token = some token;
  delivery_lease_until = some (now + delivery_lease);
  delivery_attempts = d.delivery_attempts + 1;
  last_attempt_at = some now;
}

-- The claimed row, or none where the update did not change exactly one.
unfoldable pub claim_delivery : String → ℕ → ℕ → Store → Option Delivery × Store
unfolding is_claimable claimed_row update_where count_where get_delivery
claim_delivery token now id s =
    let ds = update_where (is_claimable id now) (claimed_row token now) s.deliveries in
    (
      if count_where (is_claimable id now) s.deliveries == 1 then get_delivery id ds else none,
      record s { deliveries = ds },
    )

-- `status = delivering AND worker_token = :token`
unfoldable pub is_held : ℕ → String → Delivery → Bool
is_held id token d =
    d.id == id
    && (is_delivering d.status && elim d.worker_token [ none ↦ false | some t ↦ str_eq t token ])

unfoldable pub delivered_row : ℕ → Delivery → Delivery
delivered_row now d = record d {
  status = delivered;
  worker_token = none;
  delivery_lease_until = none;
  delivered_at = some now;
}

unfoldable pub mark_delivery_delivered : ℕ → String → ℕ → Store → Bool × Store
unfolding is_held delivered_row update_where count_where
mark_delivery_delivered id token now s = (
  count_where (is_held id token) s.deliveries == 1,
  record s { deliveries = update_where (is_held id token) (delivered_row now) s.deliveries },
)

unfoldable pub unknown_row : Delivery → Delivery
unknown_row d = record d {
  status = delivery_unknown;
  worker_token = none;
  delivery_lease_until = none;
}

unfoldable pub mark_delivery_unknown : ℕ → String → Store → Bool × Store
unfolding is_held unknown_row update_where count_where
mark_delivery_unknown id token s = (
  count_where (is_held id token) s.deliveries == 1,
  record s { deliveries = update_where (is_held id token) unknown_row s.deliveries },
)
