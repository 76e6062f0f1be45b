-- ===== src/Sync/Fencing.antt =====
-- The fencing token of services/paisa/sync_state.py: what a run can do once its lease is lost.
use financial_dashboard.Prelude.{
  ℕ, ◌≡◌, refl, Bool, true, false, Option, none, some, String, List, arith, ◌≢◌, eq_iff,
  Option-cases, inl, inr,
}
use financial_dashboard.Sync.Row.{
  DiagnosisState, healthy, accepted, fatal, unknown, SyncStateSnapshot, Table, err, lease_stale,
  holds, fetch_guarded,
}
use financial_dashboard.Sync.Lease.{heartbeat_lease, release_lease}
use financial_dashboard.Sync.Complete.{
  known, guarded_update, record_published_hash, record_hash_noop, record_guard_caught_up,
  record_accepted_post, record_known, record_diagnosis, record_fatal, record_failure,
  record_pre_post_failure, apply_caught_up,
}

-- The token does not hold the lease: there is no row, no holder, or another one.
abbrev pub IsStale : String → Table → Type 0
IsStale token none = Unit
IsStale token (some s) = s.lease_token ≢ some token

pub holds-eq-false :
    (s : SyncStateSnapshot) (token : String) → s.lease_token ≢ some token → holds s token ≡ false
unfolding holds
holds-eq-false s token h = elim (Option-cases s.lease_token) [
  | inl e ↦ rw e
  | inr (t, e) ↦ ground (arith, eq_iff t token, h)
]

fetch_guarded_stale :
    (token : String) (table : Table)
    → IsStale token table
    → fetch_guarded token table ≡ err lease_stale
unfolding fetch_guarded
fetch_guarded_stale token none h = refl
fetch_guarded_stale token (some s) h = rw (fetch_guarded, holds-eq-false s token h)

guarded_update_stale :
    (f : SyncStateSnapshot → SyncStateSnapshot) (token : String) (table : Table)
    → IsStale token table
    → guarded_update f token table ≡ (err lease_stale, table)
unfolding guarded_update
guarded_update_stale f token none h = refl
guarded_update_stale f token (some s) h = rw (holds-eq-false s token h)

apply_caught_up_stale :
    (target : ℕ) (token : String) (now : ℕ) (b : Bool) (hash : Option String) (table : Table)
    → IsStale token table
    → apply_caught_up target token now b hash table ≡ (err lease_stale, table)
unfolding apply_caught_up
apply_caught_up_stale target token now b hash table h = rw (guarded_update_stale _ token table h)

record_known_stale :
    (state : DiagnosisState) (token : String) (hash : Option String) (now : ℕ) (schedule : List ℕ)
    (table : Table)
    → IsStale token table
    → record_known state token hash now schedule table ≡ (err lease_stale, table)
unfolding record_known record_fatal
record_known_stale healthy token hash now schedule table h =
    rw (guarded_update_stale _ token table h)
record_known_stale accepted token hash now schedule table h =
    rw (guarded_update_stale _ token table h)
record_known_stale fatal token hash now schedule table h = rw (fetch_guarded_stale token table h)
record_known_stale unknown token hash now schedule table h =
    rw (guarded_update_stale _ token table h)

pub heartbeat_stale :
    (token : String) (ttl now : ℕ) (table : Table)
    → IsStale token table
    → ((heartbeat_lease token ttl now table).0.is_renewed ≡ false)
      × ((heartbeat_lease token ttl now table).1 ≡ table)
unfolding heartbeat_lease
heartbeat_stale token ttl now none h = (refl, refl)
heartbeat_stale token ttl now (some s) h = rw (holds-eq-false s token h) (refl, refl)

pub release_stale :
    (token : String) (table : Table)
    → IsStale token table
    → ((release_lease token table).0.is_released ≡ false) × ((release_lease token table).1 ≡ table)
unfolding release_lease
release_stale token none h = (refl, refl)
release_stale token (some s) h = rw (holds-eq-false s token h) (refl, refl)

-- A run whose lease is lost can change nothing: with a token that does not hold the lease every
-- completion (published hash, hash no-op, guard, accepted POST, diagnosis, failure) raises
-- `LeaseStaleError`, the heartbeat renews nothing and the release releases nothing, and the table
-- stays as it is.
pub stale_run_is_fenced :
    (token hash : String) (target ttl now : ℕ) (state : DiagnosisState)
    (healthy_hash : Option String) (schedule : List ℕ) (table : Table)
    → IsStale token table
    → (record_published_hash hash token table ≡ (err lease_stale, table))
      × (record_hash_noop target token now table ≡ (err lease_stale, table))
      × (record_guard_caught_up target token now table ≡ (err lease_stale, table))
      × (record_accepted_post target hash token now table ≡ (err lease_stale, table))
      × (record_diagnosis (known state) token healthy_hash now schedule table
          ≡ (err lease_stale, table))
      × (record_pre_post_failure token now schedule table ≡ (err lease_stale, table))
      × ((heartbeat_lease token ttl now table).0.is_renewed ≡ false)
      × ((heartbeat_lease token ttl now table).1 ≡ table)
      × ((release_lease token table).0.is_released ≡ false)
      × ((release_lease token table).1 ≡ table)
unfolding record_published_hash record_hash_noop record_guard_caught_up record_accepted_post
    record_diagnosis record_pre_post_failure record_failure
stale_run_is_fenced token hash target ttl now state healthy_hash schedule table h = (
  rw (guarded_update_stale _ token table h),
  apply_caught_up_stale target token now false none table h,
  apply_caught_up_stale target token now false none table h,
  apply_caught_up_stale target token now true (some hash) table h,
  record_known_stale state token healthy_hash now schedule table h,
  rw (fetch_guarded_stale token table h),
  (heartbeat_stale token ttl now table h).0,
  (heartbeat_stale token ttl now table h).1,
  (release_stale token table h).0,
  (release_stale token table h).1,
)
