-- ===== src/Outbox/Owners.antt =====
-- What the cancels of a message's owner (services/assistant/audit.py,
-- services/categorization/decision_lifecycle.py and services/receivables.py) do to the messages.
use financial_dashboard.Prelude.{
  ℕ, ◌≡◌, refl, true, Bool-cases, ◌&&◌, ◌⊎◌, inl, inr, Option, none, some, List, ◌==◌, arith,
}
use financial_dashboard.Outbox.Rows.{Delivery, Store, update_where, count_where}
use financial_dashboard.Outbox.Sweep.{
  awaits_delivery, is_cancellable, cancelled_row, cancel_for_authorization_change,
}
use financial_dashboard.Outbox.Cancels.{
  is_open, is_in_work, fail_work, fail_delivery, mark_authorization_changed, is_redirected,
  mark_owner_changed, is_prompt,
}
use financial_dashboard.Decisions.{Decision, DecisionStore}
use financial_dashboard.Decisions.Lifecycle.{is_withdrawn, sources_of, supersede_active_decisions}
use financial_dashboard.Decisions.Superseded.{refresh_all_deliveries}

-- The messages as they were, or with the open ones of an interaction cancelled.
abbrev pub CancelsOf : List Delivery → List Delivery → Type 0
CancelsOf ds es = (es ≡ ds) ⊎ ((i : ℕ) × (es ≡ update_where (is_cancellable i) cancelled_row ds))

mark_authorization_changed-cases :
    (i now : ℕ) (s : Store)
    → CancelsOf s.deliveries (mark_authorization_changed i now s).1.deliveries
unfolding mark_authorization_changed fail_work fail_delivery cancel_for_authorization_change
mark_authorization_changed-cases i now s =
    elim (Bool-cases (count_where (λ x. x.id == i && is_in_work x.status) s.interactions == 1)) [
      | inl e ↦ rw e (inl refl)
      | inr e ↦
          elim (Bool-cases
            (count_where (λ x. x.id == i && awaits_delivery x.status) s.interactions == 1)) [
              | inl f ↦ rw (e, f) (inr (i, refl))
              | inr f ↦ rw (e, f) (inl refl)
            ]
    ]

pub mark_owner_changed-cases :
    (o : Option ℕ) (now : ℕ) (s : Store)
    → CancelsOf s.deliveries (mark_owner_changed o now s).deliveries
unfolding mark_owner_changed
mark_owner_changed-cases none now s = inl refl
mark_owner_changed-cases (some i) now s = mark_authorization_changed-cases i now s

pub supersede_deliveries :
    (t : ℕ) (preserve : Option ℕ) (now : ℕ) (s : DecisionStore)
    → (supersede_active_decisions t preserve now s).outbox.deliveries
      ≡ update_where (is_withdrawn t preserve s.decisions) cancelled_row s.outbox.deliveries
unfolding supersede_active_decisions
supersede_deliveries t preserve now s =
    refresh_all_deliveries (sources_of t preserve s.decisions) now _

-- Every cancel admits open messages only.
module _ (d : Delivery) where
  pub cancellable_is_open : (i : ℕ) → is_cancellable i d ≡ true → is_open d.status ≡ true
  unfolding is_cancellable
  cancellable_is_open i h = ground (arith, h)

  pub redirected_is_open : (chat id : ℕ) → is_redirected chat id d ≡ true → is_open d.status ≡ true
  unfolding is_redirected
  redirected_is_open chat id h = ground (arith, h)

  pub prompt_is_open : (ids : List ℕ) → is_prompt ids d ≡ true → is_open d.status ≡ true
  unfolding is_prompt
  prompt_is_open ids h = ground (arith, h)

  pub withdrawn_is_open :
      (t : ℕ) (preserve : Option ℕ) (ds : List Decision)
      → is_withdrawn t preserve ds d ≡ true
      → is_open d.status ≡ true
  unfolding is_withdrawn
  withdrawn_is_open t preserve ds h = ground (arith, h)
