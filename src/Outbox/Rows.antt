-- ===== src/Outbox/Rows.antt =====
-- The rows of the outbox and of its interactions (db/models.py), and an UPDATE of a table. Instants
-- are microseconds.
use financial_dashboard.Prelude.{
  ℕ, suc, Bool, true, false, Option, none, some, String, List, [], ◌∷◌, ◌==◌, if◌then◌else◌,
}

pub data DeliveryStatus : Type 0 where
  pending delivering delivery_unknown delivered abandoned cancelled : DeliveryStatus

pub data InteractionStatus : Type 0 where
  claimed processing ready_to_send delivery_partial delivery_failed all_delivered failed :
      InteractionStatus

-- The columns of `TelegramOutboundDelivery` that the calls read or write.
pub record Delivery : Type 0 where
  pub id : ℕ
  pub interaction_id : Option ℕ
  pub category_review_decision_id : Option ℕ
  pub recipient_chat_id : ℕ
  pub transaction_id : Option ℕ
  pub status : DeliveryStatus
  pub delivery_attempts : ℕ
  pub worker_token : Option String
  pub delivery_lease_until : Option ℕ
  pub last_attempt_at : Option ℕ
  pub delivered_at : Option ℕ

-- The columns of `AuditInteraction` that the calls read or write.
pub record Interaction : Type 0 where
  pub id : ℕ
  pub status : InteractionStatus
  pub worker_token : Option String
  pub processing_lease_until : Option ℕ
  pub completed_at : Option ℕ

pub record Store : Type 0 where
  pub deliveries : List Delivery
  pub interactions : List Interaction

abbrev pub is_pending : DeliveryStatus → Bool
is_pending pending = true
is_pending _ = false

abbrev pub is_delivering : DeliveryStatus → Bool
is_delivering delivering = true
is_delivering _ = false

abbrev pub is_unknown : DeliveryStatus → Bool
is_unknown delivery_unknown = true
is_unknown _ = false

abbrev pub is_delivered : DeliveryStatus → Bool
is_delivered delivered = true
is_delivered _ = false

abbrev pub is_abandoned : DeliveryStatus → Bool
is_abandoned abandoned = true
is_abandoned _ = false

abbrev pub is_cancelled : DeliveryStatus → Bool
is_cancelled cancelled = true
is_cancelled _ = false

-- The rows after `UPDATE … SET f WHERE p`, and the number of rows that p admits.
module _ {A : Type 0} where
  unfoldable pub update_where : (A → Bool) → (A → A) → List A → List A
  update_where p f [] = []
  update_where p f (x ∷ xs) = (if p x then f x else x) ∷ update_where p f xs

  unfoldable pub count_where : (A → Bool) → List A → ℕ
  count_where p [] = 0
  count_where p (x ∷ xs) = let rest = count_where p xs in if p x then suc rest else rest

unfoldable pub get_delivery : ℕ → List Delivery → Option Delivery
get_delivery i [] = none
get_delivery i (d ∷ ds) = if d.id == i then some d else get_delivery i ds

abbrev pub is_of : ℕ → Delivery → Bool
is_of i d = elim d.interaction_id [ none ↦ false | some j ↦ j == i ]
