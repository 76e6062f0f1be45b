-- ===== src/Coordinator/Guard.antt =====
-- What a guard of the preflight does to the row (services/paisa/coordinator.py).
use financial_dashboard.Prelude.{ℕ, ◌<◌, ◌≡◌, refl, true, some, String, arith}
use financial_dashboard.Sync.Row.{SyncStateSnapshot, holds}
use financial_dashboard.Sync.Complete.{
  record_guard_caught_up, apply_caught_up, guarded_update, caught_up_row, applied_through,
}
use financial_dashboard.Sync.Valid.{IsValid}
use financial_dashboard.Coordinator.{PreflightReport, is_guard}
use financial_dashboard.Coordinator.Stages.{outcome_or_error, record_preflight_outcome}

-- A guard whose target was read before someone else applied a later revision moves the row back:
-- the applied revision becomes the older target, and a row that was caught up is dirty again with
-- no dirty window, which no valid row is.
pub stale_guard_moves_back :
    (token : String) (now target : ℕ) (pre : PreflightReport) (s : SyncStateSnapshot)
    → is_guard (outcome_or_error pre.outcome) ≡ true
    → holds s token ≡ true
    → target < s.applied_revision
    → IsValid s
    → s.applied_revision ≡ s.desired_revision
    → (s' : SyncStateSnapshot) × (((record_preflight_outcome token now pre target (some s)).1
          ≡ some s')
        × ((s'.applied_revision ≡ target) × ((IsValid s') → ⊥)))
unfolding record_preflight_outcome record_guard_caught_up apply_caught_up guarded_update
    caught_up_row applied_through
stale_guard_moves_back token now target pre s guard held behind valid caught_up =
    rw (guard, held)
      (
        applied_through target s,
        (refl, (ground arith, λ v. ground (arith, v.first_dirty, valid.first_dirty))),
      )
