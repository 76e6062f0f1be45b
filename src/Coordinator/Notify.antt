-- ===== src/Coordinator/Notify.antt =====
-- The notifications of failed attempts (services/paisa/coordinator.py).
use financial_dashboard.Prelude.{
  ℕ, ◌≡◌, refl, true, false, ◌&&◌, not, Option, String, str_eq, List, ==_iff,
}
use financial_dashboard.Masks.Chars.{Text}
use financial_dashboard.Coordinator.{OutcomeName, AttemptResult}
use financial_dashboard.Coordinator.Audit.{
  ExtensionRun, Notifier, notify_fp_from_last, maybe_notify_failure, is_same_fp, complete_run,
  stamp_notify_sent, should_notify, finish_attempt,
}

-- A failure right after a failure is notified exactly when its fingerprint differs and the notifier
-- sends at all, so the same failure is notified once. Both attempts ask for a notification, and the
-- first's fingerprint is no empty text.
pub same_failure_notifies_once :
    (digest : OutcomeName → Option Text → String) (m n : Notifier) (first second : AttemptResult)
    (i j : ℕ) (previous_fp : Option String) (runs : List ExtensionRun)
    (others : List ExtensionRun → List ExtensionRun)
    → first.notify_failure ≡ true
    → second.notify_failure ≡ true
    → str_eq (digest first.outcome first.failed_with) "" ≡ false
    → (finish_attempt digest n others j
        (notify_fp_from_last (finish_attempt digest m (λ rs. rs) i previous_fp first runs).1)
        second
        (finish_attempt digest m (λ rs. rs) i previous_fp first runs).1).0
      ≡ (not (
            str_eq
              (digest first.outcome first.failed_with)
              (digest second.outcome second.failed_with))
          && maybe_notify_failure n)
unfolding finish_attempt should_notify notify_fp_from_last complete_run stamp_notify_sent is_same_fp
same_failure_notifies_once digest m n first second i j previous_fp runs others f s ne =
    rw (f, s, (==_iff i i).1 refl, ne) refl
