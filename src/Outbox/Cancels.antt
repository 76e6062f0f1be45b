-- ===== src/Outbox/Cancels.antt =====
-- The cancels of messages outside services/assistant/delivery.py: by a send whose recipient is no
-- longer the configured chat (services/telegram.py, with services/assistant/audit.py), and by a
-- transaction that goes away (services/receivables.py).
use financial_dashboard.Prelude.{
  ℕ, Bool, true, false, ◌&&◌, ◌||◌, not, Option, none, some, List, [], ◌∷◌, ◌==◌, if◌then◌else◌,
}
use financial_dashboard.Outbox.Rows.{
  DeliveryStatus, cancelled, InteractionStatus, claimed, processing, delivery_failed, failed,
  Delivery, Store, is_pending, is_delivering, is_unknown, update_where, count_where, get_delivery,
}
use financial_dashboard.Outbox.Sweep.{
  awaits_delivery, cancelled_row, cancel_for_authorization_change,
}

-- Neither delivered nor abandoned nor cancelled.
abbrev pub is_open : DeliveryStatus → Bool
is_open s = is_pending s || (is_delivering s || is_unknown s)

abbrev pub is_in_work : InteractionStatus → Bool
is_in_work claimed = true
is_in_work processing = true
is_in_work _ = false

unfoldable pub fail_work : ℕ → ℕ → Store → Store
unfolding update_where
fail_work i now s = record s {
  interactions =
      update_where (λ x. x.id == i && is_in_work x.status)
        (λ x. record x { status = failed; completed_at = some now }) s.interactions;
}

unfoldable pub fail_delivery : ℕ → ℕ → Store → Store
unfolding update_where
fail_delivery i now s = record s {
  interactions =
      update_where (λ x. x.id == i && awaits_delivery x.status)
        (λ x. record x { status = delivery_failed; completed_at = some now }) s.interactions;
}

-- An interaction that is in work fails; one that has its answers fails with its open messages.
unfoldable pub mark_authorization_changed : ℕ → ℕ → Store → Bool × Store
unfolding fail_work fail_delivery cancel_for_authorization_change count_where
mark_authorization_changed i now s =
    if count_where (λ x. x.id == i && is_in_work x.status) s.interactions == 1
    then (true, fail_work i now s)
    else if count_where (λ x. x.id == i && awaits_delivery x.status) s.interactions == 1
    then (true, (cancel_for_authorization_change i (fail_delivery i now s)).1)
    else (false, fail_delivery i now s)

-- `saved.recipient_chat_id != get_telegram_chat_id()`, on a row that is open.
unfoldable pub is_redirected : ℕ → ℕ → Delivery → Bool
is_redirected chat id d = d.id == id && (is_open d.status && not (d.recipient_chat_id == chat))

-- Only the status is set: a row that is being delivered keeps its token and its lease.
unfoldable pub redirected_row : Delivery → Delivery
redirected_row d = record d { status = cancelled }

unfoldable pub redirected_owner : ℕ → ℕ → Option Delivery → Option ℕ
unfolding is_redirected
redirected_owner chat id none = none
redirected_owner chat id (some d) = if is_redirected chat id d then d.interaction_id else none

unfoldable pub mark_owner_changed : Option ℕ → ℕ → Store → Store
unfolding mark_authorization_changed
mark_owner_changed none now s = s
mark_owner_changed (some i) now s = (mark_authorization_changed i now s).1

-- The start of `dispatch_saved_delivery`, before its claim.
unfoldable pub cancel_redirected : ℕ → ℕ → ℕ → Store → Store
unfolding is_redirected redirected_row redirected_owner mark_owner_changed update_where get_delivery
cancel_redirected chat id now s =
    mark_owner_changed (redirected_owner chat id (get_delivery id s.deliveries)) now
      (record s { deliveries = update_where (is_redirected chat id) redirected_row s.deliveries })

unfoldable pub is_listed : List ℕ → ℕ → Bool
is_listed [] id = false
is_listed (i ∷ ids) id = i == id || is_listed ids id

unfoldable pub is_prompt : List ℕ → Delivery → Bool
unfolding is_listed
is_prompt ids d = is_listed ids d.id && is_open d.status

-- The messages of the prompts of a transaction that goes away.
unfoldable pub cancel_prompts : List ℕ → Store → Store
unfolding is_prompt cancelled_row update_where
cancel_prompts ids s = record s {
  deliveries = update_where (is_prompt ids) cancelled_row s.deliveries;
}
