-- ===== src/Sync/Admin.antt =====
-- The operator primitives of services/paisa/sync_state.py, which hold no lease, and the triggers
-- of db/init_db.py that record a core write or a settings write.
use financial_dashboard.Prelude.{ℕ, ◌+◌, Bool, true, false, Option, none, some}
use financial_dashboard.Sync.Row.{
  SyncStateSnapshot, Table, seed, read_sync_state, ensure_sync_state,
}

pub record ForceReloadUpdate : Type 0 where
  pub force_reload : Bool
  pub snapshot : SyncStateSnapshot

-- The UPDATE, or the INSERT of a seed with the flag where there is no row.
unfoldable pub set_force_reload : Bool → ℕ → Table → ForceReloadUpdate × Table
unfolding seed
set_force_reload enabled now none =
    (record { force_reload = enabled; snapshot = seed now enabled }, some (seed now enabled))
set_force_reload enabled now (some s) =
    let s' = record s { force_reload = enabled } in
    (record { force_reload = enabled; snapshot = s' }, some s')

-- The row that the reset's UPDATE writes: the assignments name every column of the row.
unfoldable pub reset_row : ℕ → SyncStateSnapshot → SyncStateSnapshot
reset_row now s = record s {
  desired_revision = 1;
  applied_revision = 0;
  first_dirty_at = some now;
  last_dirty_at = some now;
  last_published_hash = none;
  last_remote_hash = none;
  last_healthy_hash = none;
  last_remote_attempt_at = none;
  next_attempt_at = none;
  failure_count = 0;
  diagnosis_state = none;
  force_reload = true;
  lease_owner = none;
  lease_token = none;
  lease_expires_at = none;
}

unfoldable pub reset_sync_state : ℕ → Table → SyncStateSnapshot × Table
unfolding reset_row ensure_sync_state read_sync_state
reset_sync_state now none = ensure_sync_state now none
reset_sync_state now (some s) = (reset_row now s, some (reset_row now s))

-- `COALESCE(first_dirty_at, CURRENT_TIMESTAMP)`
unfoldable pub first_of_window : Option ℕ → ℕ → ℕ
first_of_window none now = now
first_of_window (some t) now = t

-- `_extension_sync_bump_body`: with `reset_backoff` for a write to a `paisa.` setting.
unfoldable pub bump_row : Bool → ℕ → SyncStateSnapshot → SyncStateSnapshot
unfolding first_of_window
bump_row false now s = record s {
  desired_revision = s.desired_revision + 1;
  first_dirty_at = some (first_of_window s.first_dirty_at now);
  last_dirty_at = some now;
}
bump_row true now s = record s {
  desired_revision = s.desired_revision + 1;
  first_dirty_at = some (first_of_window s.first_dirty_at now);
  last_dirty_at = some now;
  failure_count = 0;
  next_attempt_at = none;
  last_remote_attempt_at = none;
}

-- A write to a core table or to a setting. Without the row the trigger changes nothing.
unfoldable pub bump : Bool → ℕ → Table → Table
unfolding bump_row
bump reset_backoff now none = none
bump reset_backoff now (some s) = some (bump_row reset_backoff now s)
