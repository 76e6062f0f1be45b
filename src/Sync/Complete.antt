-- ===== src/Sync/Complete.antt =====
-- The token-guarded completion primitives of services/paisa/sync_state.py. Each returns its result
-- and the table; an error leaves the table as it was.
use financial_dashboard.Prelude.{
  ℕ, ◌+◌, ◌/◌, Bool, true, false, Option, none, some, String, List, ltb, leb, if◌then◌else◌,
}
use financial_dashboard.Sync.Backoff.{backoff_delta}
use financial_dashboard.Sync.Lease.{second}
use financial_dashboard.Sync.Row.{
  DiagnosisState, healthy, accepted, fatal, unknown, SyncStateSnapshot, Table, lease_stale,
  value_error, Result, ok, err, holds, fetch_guarded,
}

pub record HashUpdate : Type 0 where
  pub last_published_hash : String
  pub snapshot : SyncStateSnapshot

pub record AppliedUpdate : Type 0 where
  pub target_revision : ℕ
  pub applied_revision : ℕ
  pub desired_revision : ℕ
  pub caught_up : Bool
  pub cleared_dirty : Bool
  pub remote_hash : Option String
  pub snapshot : SyncStateSnapshot

pub record DiagnosisUpdate : Type 0 where
  pub state : DiagnosisState
  pub last_healthy_hash : Option String
  pub failure_count : ℕ
  pub next_attempt_at : Option ℕ
  pub snapshot : SyncStateSnapshot

pub record FailureUpdate : Type 0 where
  pub failure_count : ℕ
  pub next_attempt_at : ℕ
  pub backoff_seconds : ℕ
  pub last_remote_attempt_at : ℕ
  pub snapshot : SyncStateSnapshot

-- One `UPDATE … WHERE lease_token = :token RETURNING`, or `LeaseStaleError`.
unfoldable pub guarded_update :
    (SyncStateSnapshot → SyncStateSnapshot) → String → Table → Result SyncStateSnapshot × Table
guarded_update f token none = (err lease_stale, none)
guarded_update f token (some s) =
    if holds s token then (ok (f s), some (f s)) else (err lease_stale, some s)

-- The result of a call made from the row that its update returned.
abbrev pub reply :
    {A : Type 0} → (SyncStateSnapshot → A) → Result SyncStateSnapshot × Table → Result A × Table
reply f (ok s, table) = (ok (f s), table)
reply f (err e, table) = (err e, table)

unfoldable pub published_row : String → SyncStateSnapshot → SyncStateSnapshot
published_row body_hash s = record s { last_published_hash = some body_hash }

unfoldable pub record_published_hash : String → String → Table → Result HashUpdate × Table
unfolding guarded_update published_row
record_published_hash body_hash token table =
    reply (λ s. record { last_published_hash = body_hash; snapshot = s })
      (guarded_update (published_row body_hash) token table)

-- The revision, the force flag and the dirty window of `_apply_caught_up`'s UPDATE.
unfoldable pub applied_through : ℕ → SyncStateSnapshot → SyncStateSnapshot
applied_through target s = record s {
  applied_revision = if ltb target s.desired_revision then target else s.desired_revision;
  force_reload = if leb s.desired_revision target then false else s.force_reload;
  first_dirty_at = if leb s.desired_revision target then none else s.first_dirty_at;
  last_dirty_at = if leb s.desired_revision target then none else s.last_dirty_at;
}

-- The further assignments, where the POST was accepted (`set_remote_hash`).
unfoldable pub remote_accepted : Option String → ℕ → SyncStateSnapshot → SyncStateSnapshot
remote_accepted remote_hash now s = record s {
  last_remote_hash = remote_hash;
  last_remote_attempt_at = some now;
  failure_count = 0;
  next_attempt_at = none;
}

unfoldable pub caught_up_row : ℕ → Bool → Option String → ℕ → SyncStateSnapshot → SyncStateSnapshot
unfolding applied_through remote_accepted
caught_up_row target true remote_hash now s =
    applied_through target (remote_accepted remote_hash now s)
caught_up_row target false remote_hash now s = applied_through target s

unfoldable pub applied_update : ℕ → SyncStateSnapshot → AppliedUpdate
applied_update target s = record {
  target_revision = target;
  applied_revision = s.applied_revision;
  desired_revision = s.desired_revision;
  caught_up = leb s.desired_revision s.applied_revision;
  cleared_dirty = leb s.desired_revision s.applied_revision;
  remote_hash = s.last_remote_hash;
  snapshot = s;
}

unfoldable pub apply_caught_up :
    ℕ → String → ℕ → Bool → Option String → Table → Result AppliedUpdate × Table
unfolding guarded_update caught_up_row applied_update
apply_caught_up target token now set_remote_hash remote_hash table =
    reply (applied_update target)
      (guarded_update (caught_up_row target set_remote_hash remote_hash now) token table)

unfoldable pub record_hash_noop : ℕ → String → ℕ → Table → Result AppliedUpdate × Table
unfolding apply_caught_up
record_hash_noop target token now = apply_caught_up target token now false none

unfoldable pub record_guard_caught_up : ℕ → String → ℕ → Table → Result AppliedUpdate × Table
unfolding apply_caught_up
record_guard_caught_up target token now = apply_caught_up target token now false none

unfoldable pub record_accepted_post : ℕ → String → String → ℕ → Table → Result AppliedUpdate × Table
unfolding apply_caught_up
record_accepted_post target remote_hash token now =
    apply_caught_up target token now true (some remote_hash)

-- The state that a caller names: one of the four, or another text.
pub data StateName : Type 0 where
  known : DiagnosisState → StateName
  other : String → StateName

unfoldable pub diagnosis_update : DiagnosisState → SyncStateSnapshot → DiagnosisUpdate
diagnosis_update state s = record {
  state = state;
  last_healthy_hash = s.last_healthy_hash;
  failure_count = s.failure_count;
  next_attempt_at = s.next_attempt_at;
  snapshot = s;
}

-- `COALESCE(a, b)`
unfoldable pub coalesce : Option String → Option String → Option String
coalesce none b = b
coalesce (some a) b = some a

unfoldable pub fatal_row : ℕ → ℕ → SyncStateSnapshot → SyncStateSnapshot
fatal_row count next s = record s {
  diagnosis_state = some fatal;
  failure_count = count;
  next_attempt_at = some next;
}

unfoldable pub unknown_row : SyncStateSnapshot → SyncStateSnapshot
unknown_row s = record s { diagnosis_state = some unknown }

unfoldable pub failure_row : ℕ → ℕ → ℕ → SyncStateSnapshot → SyncStateSnapshot
failure_row count next now s = record s {
  failure_count = count;
  next_attempt_at = some next;
  last_remote_attempt_at = some now;
}

unfoldable pub healthy_row : DiagnosisState → Option String → SyncStateSnapshot → SyncStateSnapshot
unfolding coalesce
healthy_row state healthy_hash s = record s {
  diagnosis_state = some state;
  last_healthy_hash = coalesce healthy_hash s.last_healthy_hash;
  failure_count = 0;
  next_attempt_at = none;
}

-- The `fatal` branch, with the row that `_fetch_guarded` read.
unfoldable pub record_fatal :
    Result SyncStateSnapshot → String → ℕ → List ℕ → Table → Result DiagnosisUpdate × Table
unfolding guarded_update fatal_row diagnosis_update
record_fatal (err e) token now schedule table = (err e, table)
record_fatal (ok pre) token now schedule table =
    let count = pre.failure_count + 1 in
    reply (diagnosis_update fatal)
      (guarded_update (fatal_row count (now + backoff_delta count schedule)) token table)

unfoldable pub record_known :
    DiagnosisState → String → Option String → ℕ → List ℕ → Table → Result DiagnosisUpdate × Table
unfolding record_fatal fetch_guarded healthy_row unknown_row guarded_update diagnosis_update
record_known fatal token healthy_hash now schedule table =
    record_fatal (fetch_guarded token table) token now schedule table
record_known healthy token healthy_hash now schedule table =
    reply (diagnosis_update healthy) (guarded_update (healthy_row healthy healthy_hash) token table)
record_known accepted token healthy_hash now schedule table =
    reply (diagnosis_update accepted)
      (guarded_update (healthy_row accepted healthy_hash) token table)
record_known unknown token healthy_hash now schedule table =
    reply (diagnosis_update unknown) (guarded_update unknown_row token table)

unfoldable pub record_diagnosis :
    StateName → String → Option String → ℕ → List ℕ → Table → Result DiagnosisUpdate × Table
unfolding record_known
record_diagnosis (other name) token healthy_hash now schedule table = (err value_error, table)
record_diagnosis (known state) token healthy_hash now schedule table =
    record_known state token healthy_hash now schedule table

-- `value or default`, on a time
abbrev or_time : Option ℕ → ℕ → ℕ
or_time none d = d
or_time (some t) d = t

-- `record_pre_post_failure`, with the row that `_fetch_guarded` read.
unfoldable pub record_failure :
    Result SyncStateSnapshot → String → ℕ → List ℕ → Table → Result FailureUpdate × Table
unfolding guarded_update failure_row
record_failure (err e) token now schedule table = (err e, table)
record_failure (ok pre) token now schedule table =
    let count = pre.failure_count + 1 in
    let delay = backoff_delta count schedule in
    reply
      (λ s. record {
        failure_count = s.failure_count;
        next_attempt_at = or_time s.next_attempt_at (now + delay);
        backoff_seconds = delay / second;
        last_remote_attempt_at = or_time s.last_remote_attempt_at now;
        snapshot = s;
      })
      (guarded_update (failure_row count (now + delay) now) token table)

unfoldable pub record_pre_post_failure : String → ℕ → List ℕ → Table → Result FailureUpdate × Table
unfolding record_failure fetch_guarded
record_pre_post_failure token now schedule table =
    record_failure (fetch_guarded token table) token now schedule table
