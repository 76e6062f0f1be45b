-- ===== src/Sync/Quality.antt =====
-- Diagnosis, failure and the hash no-op of services/paisa/sync_state.py, by what the coordinator
-- sees afterwards.
use financial_dashboard.Prelude.{
  ℕ, ◌+◌, ◌/◌, ◌≤◌, ◌<◌, ◌≡◌, refl, true, false, Option, some, String, List, arith, eq_iff, ◌↔◌,
}
use financial_dashboard.Sync.Row.{SyncStateSnapshot, ok, holds, fatal, fetch_guarded}
use financial_dashboard.Sync.Backoff.{backoff_delta}
use financial_dashboard.Sync.Lease.{second}
use financial_dashboard.Sync.Complete.{
  known, FailureUpdate, guarded_update, caught_up_row, record_accepted_post, record_diagnosis,
  record_known, record_fatal, record_failure, record_pre_post_failure, fatal_row, failure_row,
}
use financial_dashboard.Sync.Eligibility.{
  Policy, backoff, reconcile_eligibility, should_skip_remote_post,
}
use financial_dashboard.Sync.Drift.{posted, record_accepted_post_lem}

record_fatal_lem :
    (token : String) (hash : Option String) (now : ℕ) (schedule : List ℕ) (s : SyncStateSnapshot)
    → holds s token ≡ true
    → (record_diagnosis (known fatal) token hash now schedule (some s)).1
      ≡ some
          (fatal_row (s.failure_count + 1) (now + backoff_delta (s.failure_count + 1) schedule) s)
unfolding record_diagnosis record_known record_fatal fetch_guarded guarded_update
record_fatal_lem token hash now schedule s h = rw (h, fetch_guarded) (rw h refl)

posted-holds :
    (target : ℕ) (hash token : String) (now : ℕ) (s : SyncStateSnapshot)
    → holds s token ≡ true
    → holds (posted target hash now s) token ≡ true
unfolding caught_up_row holds
posted-holds target hash token now s h = h

fatal_not_due :
    (p : Policy) (target : ℕ) (hash : String) (post later next : ℕ) (s : SyncStateSnapshot)
    → s.desired_revision ≤ target
    → later < post + p.force_reload_interval
    → (reconcile_eligibility p later (fatal_row 1 next (posted target hash post s))).due ≡ false
unfolding reconcile_eligibility fatal_row caught_up_row
fatal_not_due p target hash post later next s full early = ground arith

-- A fatal diagnosis starts no reload loop: after an accepted POST that caught up with the desired
-- revision and a fatal diagnosis of it, both by the lease's holder, the row that is left is due at
-- no time before the periodic interval has passed since the POST.
pub fatal_makes_no_loop :
    (p : Policy) (target : ℕ) (hash token : String) (healthy_hash : Option String)
    (post now later : ℕ) (schedule : List ℕ) (s : SyncStateSnapshot)
    → holds s token ≡ true
    → s.desired_revision ≤ target
    → later < post + p.force_reload_interval
    → (s' : SyncStateSnapshot) × ((record_diagnosis
          (known fatal)
          token
          healthy_hash
          now
          schedule
          (record_accepted_post target hash token post (some s)).1).1
        ≡ some s')
      × ((reconcile_eligibility p later s').due ≡ false)
unfolding caught_up_row
fatal_makes_no_loop p target hash token healthy_hash post now later schedule s h full early = (
  fatal_row 1 (now + backoff_delta 1 schedule) (posted target hash post s),
  rw (record_accepted_post_lem target hash token post s h) (
      record_fatal_lem token healthy_hash now schedule (posted target hash post s)
        (posted-holds target hash token post s h)),
  fatal_not_due p target hash post later (now + backoff_delta 1 schedule) s full early,
)

failed : ℕ → List ℕ → SyncStateSnapshot → FailureUpdate
failed now schedule s =
    let delay = backoff_delta (s.failure_count + 1) schedule in
    record {
      failure_count = s.failure_count + 1;
      next_attempt_at = now + delay;
      backoff_seconds = delay / second;
      last_remote_attempt_at = now;
      snapshot = failure_row (s.failure_count + 1) (now + delay) now s;
    }

failure_lem :
    (token : String) (now : ℕ) (schedule : List ℕ) (s : SyncStateSnapshot)
    → holds s token ≡ true
    → record_pre_post_failure token now schedule (some s)
      ≡ (ok (failed now schedule s), some (failed now schedule s).snapshot)
unfolding record_pre_post_failure record_failure fetch_guarded guarded_update failed
failure_lem token now schedule s h = rw (h, fetch_guarded) (rw h refl)

failed_waits :
    (p : Policy) (now later : ℕ) (schedule : List ℕ) (s : SyncStateSnapshot)
    → later < now + backoff_delta (s.failure_count + 1) schedule
    → (reconcile_eligibility p later (failed now schedule s).snapshot).reason ≡ backoff
unfolding reconcile_eligibility failed failure_row
failed_waits p now later schedule s early = ground arith

-- A failure before the POST keeps the work: the holder's call counts one more failure, schedules
-- the retry by the backoff of the new count, and leaves the revisions, the dirty window, the force
-- flag and the lease; until the retry the row is held back for the backoff.
pub failure_keeps_work :
    (p : Policy) (token : String) (now later : ℕ) (schedule : List ℕ) (s : SyncStateSnapshot)
    → holds s token ≡ true
    → later < now + backoff_delta (s.failure_count + 1) schedule
    → (r : FailureUpdate) × (record_pre_post_failure token now schedule (some s)
        ≡ (ok r, some r.snapshot))
      × (r.failure_count ≡ s.failure_count + 1)
      × (r.next_attempt_at ≡ now + backoff_delta (s.failure_count + 1) schedule)
      × (r.last_remote_attempt_at ≡ now)
      × (r.snapshot ≡ record s {
        failure_count = r.failure_count;
        next_attempt_at = some r.next_attempt_at;
        last_remote_attempt_at = some now;
      })
      × ((reconcile_eligibility p later r.snapshot).reason ≡ backoff)
unfolding failed failure_row
failure_keeps_work p token now later schedule s h early = (
  failed now schedule s,
  failure_lem token now schedule s h,
  refl,
  refl,
  refl,
  refl,
  failed_waits p now later schedule s early,
)

-- The next POST of the same bytes is skipped, and of no others: after an accepted POST of a hash a
-- published hash is skipped exactly if it is that hash.
pub skip_after_post :
    (target now : ℕ) (hash published : String) (s : SyncStateSnapshot)
    → (should_skip_remote_post (some published) (posted target hash now s) ≡ true)
      ↔ (published ≡ hash)
unfolding should_skip_remote_post caught_up_row
skip_after_post target now hash published s = (
  λ h. ground (arith, (eq_iff hash published).0 h),
  λ e. (eq_iff hash published).1 (ground (arith, e)),
)
