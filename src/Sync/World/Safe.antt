-- ===== src/Sync/World/Safe.antt =====
-- The invariant of the sync state over every reachable world (services/paisa/sync_state.py).
use financial_dashboard.Prelude.{
  ℕ, true, false, none, some, String, str_eq, Bool-cases, inl, inr, arith,
}
use financial_dashboard.Sync.Row.{Table, ensure_sync_state, fetch_guarded, capture_target}
use financial_dashboard.Sync.Complete.{
  known, other, record_hash_noop, record_guard_caught_up, record_accepted_post, record_diagnosis,
  record_pre_post_failure,
}
use financial_dashboard.Sync.World.{World, note, Step, Reach, here, next, start}
use financial_dashboard.Sync.World.Rows.{
  Captured, SafeTable, seed-safe, claim-safe, heartbeat-safe, release-safe, published-safe,
  apply_caught_up-safe, known-safe, failure_row-safe, force-safe, reset-safe, bump-safe,
  ensure-safe,
}

abbrev pub IsSafe : World → Type 0
IsSafe w = SafeTable w.captured w.table

-- The capture of the run's target, at which no more than the desired revision is applied.
capture-safe :
    (c : Captured) (token : String) (now : ℕ) (table : Table)
    → SafeTable c table
    → SafeTable (note token (capture_target now table).0.0 c) (capture_target now table).1
unfolding capture_target ensure_sync_state note
capture-safe c token now none v = seed-safe _ now true
capture-safe c token now (some s) v = record {
  valid = v.valid;
  fenced = λ t r e held. elim (Bool-cases (str_eq token t)) [
    | inl same ↦ ground (arith, v.valid.applied_le)
    | inr ne ↦ v.fenced t r (ground (arith)) held
  ];
}

Step-IsSafe : {w w' : World} → Step w w' → IsSafe w → IsSafe w'
unfolding record_hash_noop record_guard_caught_up record_accepted_post record_diagnosis
    record_pre_post_failure
Step-IsSafe {w} (Step.ensure now) v = ensure-safe w.captured now w.table v
Step-IsSafe {w} (Step.claim owner token minted ttl now fresh) v =
    claim-safe w.captured owner token minted ttl now w.table fresh v
Step-IsSafe {w} (Step.heartbeat token ttl now) v = heartbeat-safe w.captured token ttl now w.table v
Step-IsSafe {w} (Step.release token) v = release-safe w.captured token w.table v
Step-IsSafe {w} (Step.capture token now) v = capture-safe w.captured token now w.table v
Step-IsSafe {w} (Step.published hash token) v = published-safe w.captured hash token w.table v
Step-IsSafe {w} (Step.noop target token now h) v =
    apply_caught_up-safe w.captured target token now false none w.table h v
Step-IsSafe {w} (Step.guard_caught_up target token now h) v =
    apply_caught_up-safe w.captured target token now false none w.table h v
Step-IsSafe {w} (Step.accepted_post target hash token now h) v =
    apply_caught_up-safe w.captured target token now true (some hash) w.table h v
Step-IsSafe {w} (Step.diagnosis (other name) token hash now schedule) v = v
Step-IsSafe {w} (Step.diagnosis (known state) token hash now schedule) v =
    known-safe w.captured state token hash now schedule w.table v
Step-IsSafe {w} (Step.failure token now schedule) v =
    failure_row-safe w.captured (fetch_guarded token w.table) token now schedule w.table v
Step-IsSafe {w} (Step.force enabled now) v = force-safe w.captured enabled now w.table v
Step-IsSafe {w} (Step.reset now) v = reset-safe w.captured now w.table v
Step-IsSafe {w} (Step.core_write now) v = bump-safe w.captured false now w.table v
Step-IsSafe {w} (Step.settings_write now) v = bump-safe w.captured true now w.table v

-- Whatever coordinators, operators and writers do, in any order, from the table that `init_db`
-- seeds: in every reachable world the row is valid (`IsValid`: the applied revision does not pass
-- the desired one, the dirty window is open exactly while it is behind, a retry is scheduled
-- exactly after a failure, the lease columns are set together), and while a run that has captured a
-- target holds the lease no more than that target is applied. A claim's token is fresh, and a
-- completion names the target that its token captured.
pub Reach-IsSafe : (now : ℕ) {w : World} → Reach (start now) w → IsSafe w
Reach-IsSafe now here = seed-safe _ now true
Reach-IsSafe now (next r step) = Step-IsSafe step (Reach-IsSafe now r)
