-- ===== src/Coordinator/Tick.antt =====
-- `PaisaCoordinator._tick` and `_remote_floor_satisfied` of services/paisa/coordinator.py. The
-- settings that `load_config` and `get_setting_bool` read are the record `Settings`.
use financial_dashboard.Prelude.{
  ℕ, ◌*◌, max, Bool, true, false, ◌&&◌, ◌||◌, not, Option, none, some, String, if◌then◌else◌,
}
use financial_dashboard.Sync.Row.{SyncStateSnapshot, Table, read_sync_state, ensure_sync_state}
use financial_dashboard.Sync.Backoff.{minute}
use financial_dashboard.Sync.Eligibility.{
  Reason, periodic_reload, max_latency, dirty, default_policy, elapsed, reconcile_eligibility,
}
use financial_dashboard.Coordinator.{AttemptResult, Surroundings}
use financial_dashboard.Coordinator.Attempt.{attempt}

pub data Mode : Type 0 where
  disabled connect project : Mode

pub record Settings : Type 0 where
  pub mode : Mode
  pub auto_sync_enabled : Bool
  pub min_interval_minutes : ℕ

unfoldable pub can_project : Mode → Bool
can_project project = true
can_project connect = false
can_project disabled = false

unfoldable pub remote_floor_satisfied : SyncStateSnapshot → ℕ → ℕ → Bool
remote_floor_satisfied s now min_interval_minutes = elim s.last_remote_attempt_at [
  | none ↦ true
  | some t ↦ elapsed now (some t) (max 1 min_interval_minutes * minute)
]

-- `eligibility.reason in ("dirty", "max_latency")`
unfoldable pub is_floored : Reason → Bool
is_floored dirty = true
is_floored max_latency = true
is_floored _ = false

unfoldable pub is_periodic : Reason → Bool
is_periodic periodic_reload = true
is_periodic _ = false

-- The snapshot of the tick, and the table with the row that is seeded when there is none.
unfoldable pub tick_snapshot : ℕ → Table → SyncStateSnapshot × Table
unfolding read_sync_state ensure_sync_state
tick_snapshot now table = elim (read_sync_state table) [
  | none ↦ ensure_sync_state now table
  | some s ↦ (s, table)
]

-- Whether the tick goes on to an attempt, and then whether it forces the remote reload.
unfoldable pub tick_decision : Settings → ℕ → SyncStateSnapshot → Option Bool
unfolding can_project reconcile_eligibility is_floored is_periodic remote_floor_satisfied
tick_decision settings now s =
    let eligibility = reconcile_eligibility default_policy now s in
    if not (can_project settings.mode) || not settings.auto_sync_enabled
    then none
    else if not eligibility.due
    then none
    else if is_floored eligibility.reason
        && not s.force_reload
        && not (remote_floor_satisfied s now settings.min_interval_minutes)
    then none
    else some (s.force_reload || is_periodic eligibility.reason)

-- What others commit between the tick's read and the claim is `meanwhile`. The attempt reads the
-- clock again.
unfoldable pub tick :
    Surroundings
    → (Table → Table)
    → Settings
    → String
    → String
    → ℕ
    → ℕ
    → ℕ
    → Table
    → Option AttemptResult × Table
unfolding tick_snapshot tick_decision attempt
tick env meanwhile settings owner minted ttl now claim_now table =
    let (s, seeded) = tick_snapshot now table in
    elim (tick_decision settings now s) [
      | none ↦ (none, seeded)
      | some force_remote ↦
          attempt env owner minted ttl claim_now force_remote s.desired_revision (meanwhile seeded)
    ]
