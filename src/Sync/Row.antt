-- ===== src/Sync/Row.antt =====
-- The singleton row of `extension_sync_state`, its seed and the plain reads
-- (services/paisa/sync_state.py, db/models.py). A time is a number of microseconds, a text that is
-- only compared stays a `String`. `created_at` and `updated_at` are bookkeeping that nothing reads.
use financial_dashboard.Prelude.{ℕ, Bool, true, false, Option, none, some, String, str_eq}

pub data DiagnosisState : Type 0 where
  healthy accepted fatal unknown : DiagnosisState

pub record SyncStateSnapshot : Type 0 where
  pub desired_revision : ℕ
  pub applied_revision : ℕ
  pub first_dirty_at : Option ℕ
  pub last_dirty_at : Option ℕ
  pub last_published_hash : Option String
  pub last_remote_hash : Option String
  pub last_healthy_hash : Option String
  pub last_remote_attempt_at : Option ℕ
  pub next_attempt_at : Option ℕ
  pub failure_count : ℕ
  pub diagnosis_state : Option DiagnosisState
  pub force_reload : Bool
  pub lease_owner : Option String
  pub lease_token : Option String
  pub lease_expires_at : Option ℕ

-- The table, cut to the row of one extension id: every statement of the module is keyed by it.
abbrev pub Table : Type 0
Table = Option SyncStateSnapshot

pub data Error : Type 0 where
  lease_stale value_error : Error

pub data Result (A : Type 0) : Type 0 where
  ok : A → Result A
  err : Error → Result A

-- `WHERE lease_token = :token`, which no NULL meets.
unfoldable pub holds : SyncStateSnapshot → String → Bool
holds s token = elim s.lease_token [ none ↦ false | some t ↦ str_eq t token ]

-- The row that `ensure_sync_state`, `set_force_reload` and `init_db` insert.
unfoldable pub seed : ℕ → Bool → SyncStateSnapshot
seed now force = record {
  desired_revision = 1;
  applied_revision = 0;
  first_dirty_at = some now;
  last_dirty_at = some now;
  last_published_hash = none;
  last_remote_hash = none;
  last_healthy_hash = none;
  last_remote_attempt_at = none;
  next_attempt_at = none;
  failure_count = 0;
  diagnosis_state = none;
  force_reload = force;
  lease_owner = none;
  lease_token = none;
  lease_expires_at = none;
}

unfoldable pub read_sync_state : Table → Option SyncStateSnapshot
read_sync_state table = table

-- `INSERT … ON CONFLICT DO NOTHING`, then the read.
unfoldable pub ensure_sync_state : ℕ → Table → SyncStateSnapshot × Table
ensure_sync_state now none = (seed now true, some (seed now true))
ensure_sync_state now (some s) = (s, some s)

-- The row, if the token holds its lease.
unfoldable pub fetch_guarded : String → Table → Result SyncStateSnapshot
fetch_guarded token none = err lease_stale
fetch_guarded token (some s) = elim (holds s token) [ true ↦ ok s | false ↦ err lease_stale ]

-- The reconcile target `R`: the desired revision, of a fresh seed if there is no row.
unfoldable pub capture_target : ℕ → Table → (ℕ × SyncStateSnapshot) × Table
capture_target now none =
    let (s, table) = ensure_sync_state now none in ((s.desired_revision, s), table)
capture_target now (some s) = ((s.desired_revision, s), some s)
