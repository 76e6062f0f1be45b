-- ===== src/Sync/Tests.antt =====
-- The sync state of services/paisa/sync_state.py on concrete rows.
use financial_dashboard.Prelude.{◌+◌, ◌*◌, ◌<◌, ◌≡◌, refl, true, false, none, some, [], ◌∷◌, arith}
use financial_dashboard.Sync.Row.{
  SyncStateSnapshot, Table, ok, err, lease_stale, holds, seed, healthy, capture_target,
  ensure_sync_state,
}
use financial_dashboard.Sync.Backoff.{minute, backoff_minutes, backoff_delta}
use financial_dashboard.Sync.Eligibility.{default_policy, reconcile_eligibility}
use financial_dashboard.Sync.Lease.{claim_lease, held, heartbeat_lease, release_lease}
use financial_dashboard.Sync.Complete.{
  known, AppliedUpdate, record_published_hash, record_hash_noop, record_guard_caught_up,
  record_accepted_post, record_diagnosis, record_pre_post_failure,
}
use financial_dashboard.Sync.Valid.{IsValid}
use financial_dashboard.Sync.World.{World, Step, Reach, here, next, start, note}
use financial_dashboard.Sync.World.Safe.{IsSafe, Reach-IsSafe}
use financial_dashboard.Sync.Admin.{bump}
use financial_dashboard.Sync.Fencing.{IsStale, stale_run_is_fenced}
use financial_dashboard.Sync.Exclusion.{HeldUntil, Foreigns, Foreign, lease_is_exclusive}
use financial_dashboard.Sync.Due.{debounce_oversleeps}
use financial_dashboard.Sync.Drift.{writes, no_lost_write}

-- The seed, leased to the coordinator "c" with the token "t" until the time 100.
abbrev base : SyncStateSnapshot
base = record {
  desired_revision = 1;
  applied_revision = 0;
  first_dirty_at = some 10;
  last_dirty_at = some 10;
  last_published_hash = none;
  last_remote_hash = none;
  last_healthy_hash = none;
  last_remote_attempt_at = none;
  next_attempt_at = none;
  failure_count = 0;
  diagnosis_state = none;
  force_reload = false;
  lease_owner = some "c";
  lease_token = some "t";
  lease_expires_at = some 100;
}

base-IsValid : IsValid base
base-IsValid = ground arith

base-holds : holds base "t" ≡ true
unfolding holds
base-holds = refl

schedule :
    (backoff_delta 1 backoff_minutes ≡ minute)
    × (backoff_delta 4 backoff_minutes ≡ 10 * minute)
    × (backoff_delta 9 backoff_minutes ≡ 15 * minute)
unfolding backoff_delta
schedule = (refl, refl, refl)

-- A claim, the capture, a write, the accepted POST of the captured revision.
abbrev claimed_world : World
claimed_world = record (start 5) { table = (claim_lease "c" none "t" 90 10 (start 5).table).1 }

abbrev captured_world : World
captured_world = record claimed_world {
  table = (capture_target 11 claimed_world.table).1;
  captured = note "t" (capture_target 11 claimed_world.table).0.0 claimed_world.captured;
}

abbrev written_world : World
written_world = record captured_world { table = bump false 12 captured_world.table }

abbrev posted_world : World
posted_world = record written_world {
  table = (record_accepted_post 1 "h" "t" 13 written_world.table).1;
}

reached : Reach (start 5) posted_world
unfolding claim_lease capture_target seed note ensure_sync_state
reached =
    next
      (next (next (next here (Step.claim "c" none "t" 90 10 refl)) (Step.capture "t" 11))
        (Step.core_write 12))
      (Step.accepted_post 1 "h" "t" 13 refl)

Reach-IsSafe_example : IsSafe posted_world
Reach-IsSafe_example = Reach-IsSafe 5 reached

not_old : IsStale "old" (some base)
not_old = λ e. cc

stale_run_is_fenced_example :
    (record_published_hash "h" "old" (some base) ≡ (err lease_stale, some base))
    × (record_hash_noop 1 "old" 20 (some base) ≡ (err lease_stale, some base))
    × (record_guard_caught_up 1 "old" 20 (some base) ≡ (err lease_stale, some base))
    × (record_accepted_post 1 "h" "old" 20 (some base) ≡ (err lease_stale, some base))
    × (record_diagnosis (known healthy) "old" none 20 backoff_minutes (some base)
        ≡ (err lease_stale, some base))
    × (record_pre_post_failure "old" 20 backoff_minutes (some base) ≡ (err lease_stale, some base))
    × ((heartbeat_lease "old" 90 20 (some base)).0.is_renewed ≡ false)
    × ((heartbeat_lease "old" 90 20 (some base)).1 ≡ some base)
    × ((release_lease "old" (some base)).0.is_released ≡ false)
    × ((release_lease "old" (some base)).1 ≡ some base)
stale_run_is_fenced_example =
    stale_run_is_fenced "old" "h" 1 90 20 healthy none backoff_minutes (some base) not_old

-- Another coordinator tries to claim, and a core write lands.
abbrev tried : Table
tried = (claim_lease "d" none "u" 90 50 (some base)).1

lease_is_exclusive_example :
    HeldUntil "t" 100 (bump false 55 tried)
    × ((claim_lease "d" none "u" 90 60 (bump false 55 tried)).0.reason ≡ held)
    × ((claim_lease "d" none "u" 90 60 (bump false 55 tried)).1 ≡ bump false 55 tried)
lease_is_exclusive_example =
    lease_is_exclusive "t" 100 "d" none "u" 90 60 (refl, refl)
      (Foreigns.next (Foreigns.next Foreigns.here (Foreign.claim "d" none "u" 90 50 (omega arith)))
        (Foreign.write false 55))
      (omega arith)

abbrev failing : SyncStateSnapshot
failing = record base { failure_count = 1; next_attempt_at = some 500 }

-- A burst of writes: the last is 2 seconds old, the first nearly 30.
abbrev burst : SyncStateSnapshot
burst = record base { first_dirty_at = some 0; last_dirty_at = some 27000000 }

debounce_oversleeps_example :
    ((reconcile_eligibility default_policy 29000000 burst).eligible_at ≡ some 32000000)
    × (29000000 < 30000000)
    × ((reconcile_eligibility default_policy 30000000 burst).due ≡ true)
unfolding reconcile_eligibility
debounce_oversleeps_example =
    debounce_oversleeps default_policy 29000000 burst refl refl refl (omega arith)

written_holds : holds (writes ((false, 20) ∷ (true, 30) ∷ []) base) "t" ≡ true
unfolding writes holds
written_holds = refl

no_lost_write_example :
    (r : AppliedUpdate) × (record_accepted_post
        (capture_target 15 (some base)).0.0
        "h"
        "t"
        50
        (some (writes ((false, 20) ∷ (true, 30) ∷ []) base))
      ≡ (ok r, some r.snapshot))
    × (r.applied_revision ≡ 1)
    × (r.desired_revision ≡ r.applied_revision + 2)
    × (r.caught_up ≡ false)
    × (r.snapshot.first_dirty_at ≡ (writes ((false, 20) ∷ (true, 30) ∷ []) base).first_dirty_at)
    × (r.snapshot.last_dirty_at ≡ (writes ((false, 20) ∷ (true, 30) ∷ []) base).last_dirty_at)
    × (r.snapshot.force_reload ≡ false)
no_lost_write_example = no_lost_write (false, 20) ((true, 30) ∷ []) "h" "t" 50 15 base written_holds
