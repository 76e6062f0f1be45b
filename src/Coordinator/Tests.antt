-- ===== src/Coordinator/Tests.antt =====
-- The coordinator of services/paisa/coordinator.py on concrete rows.
use financial_dashboard.Prelude.{
  ◌+◌, ◌*◌, ℕ, ◌<◌, ◌≡◌, ◌≢◌, eq_iff, refl, ◌⊎◌, true, false, not, ◌&&◌, none, some, Option, String,
  str_eq, [], arith,
}
use financial_dashboard.Masks.Chars.{Text}
use financial_dashboard.Sync.Row.{SyncStateSnapshot, Table, holds, seed, ensure_sync_state}
use financial_dashboard.Sync.Lease.{claim_lease, is_free, leased}
use financial_dashboard.Sync.Admin.{bump}
use financial_dashboard.Sync.Eligibility.{should_skip_remote_post}
use financial_dashboard.Sync.Valid.{IsValid}
use financial_dashboard.Sync.Fencing.{IsStale}
use financial_dashboard.Sync.World.{start, here, next, Step}
use financial_dashboard.Coordinator.{
  OutcomeName, connect_only, unreachable, failure, AttemptResult, PreflightReport, done, raised,
  Exception, Surroundings, before_release, is_guard,
}
use financial_dashboard.Coordinator.Audit.{Notifier, maybe_notify_failure, finish_attempt}
use financial_dashboard.Coordinator.Stages.{
  outcome_or_error, published_of, record_preflight_outcome,
}
use financial_dashboard.Coordinator.Attempt.{attempt}
use financial_dashboard.Coordinator.Tick.{Settings, project, tick}
use financial_dashboard.Coordinator.Manual.{ManualClaim, Polls, claim_manual_lease}
use financial_dashboard.Coordinator.Refines.{Others, Reaches}
use financial_dashboard.Coordinator.Refined.{Proceeds, attempt_refines_world}
use financial_dashboard.Coordinator.Guard.{stale_guard_moves_back}
use financial_dashboard.Coordinator.Wait.{Answers, Waited, manual_claim_settles}
use financial_dashboard.Coordinator.Release.{RunsUntil, attempt_gives_up_lease}
use financial_dashboard.Coordinator.Rest.{smooth, success_comes_to_rest}

abbrev on_project : Settings
on_project = record { mode = project; auto_sync_enabled = true; min_interval_minutes = 1 }

-- A smooth run during which a transaction is written at every place.
abbrev busy_env : Surroundings
busy_env = record (smooth "hash" 3) { between = λ site table. bump false 12 table }

busy_env-Proceeds : Proceeds busy_env
unfolding published_of
busy_env-Proceeds = record {
  at_preflight = λ pre e bad. ground arith;
  at_generate = λ g e h. ground arith;
}

busy_env-Others : Others busy_env "t"
busy_env-Others site w =
    (record w { table = bump false 12 w.table }, (next here (Step.core_write 12), refl, refl))

attempt_refines_world_example :
    Reaches (start 5) (attempt busy_env "c" "t" 90 10 false 1 (start 5).table).1
attempt_refines_world_example =
    attempt_refines_world busy_env "c" "t" 90 10 false 1 (start 5) busy_env-Proceeds busy_env-Others
      refl

tokens_differ : ◌≢◌ {A = String} "u" "t"
tokens_differ h = ground (arith, h, eq_iff "u" "t")

-- The release of the run fails, so that its lease has to run out.
abbrev unreleased_env : Surroundings
unreleased_env = record busy_env {
  strike = λ site. elim site [ before_release ↦ some (raised []) | _ ↦ none ];
}

attempt_gives_up_lease_example :
    ((claim_lease "c" none "t" 90 10 (some (seed 5 true))).0.is_claimed ≡ true)
      × (((unreleased_env.strike before_release ≡ none)
            × IsStale "t" (attempt unreleased_env "c" "t" 90 10 false 1 (some (seed 5 true))).1)
          ⊎ (((e : Exception) × (unreleased_env.strike before_release ≡ some e))
              × (RunsUntil 200000000
                    (attempt unreleased_env "c" "t" 90 10 false 1 (some (seed 5 true))).1
                  ⊎ IsStale "t"
                      (claim_lease "p" none "u" 90 200000000
                        (attempt unreleased_env "c" "t" 90 10 false 1 (some (seed 5 true))).1).1)))
    ⊎ ((claim_lease "c" none "t" 90 10 (some (seed 5 true))).0.is_claimed ≡ false)
      × (attempt unreleased_env "c" "t" 90 10 false 1 (some (seed 5 true))
          ≡ (none, some (seed 5 true)))
attempt_gives_up_lease_example =
    attempt_gives_up_lease unreleased_env "c" "t" 90 10 false 1 (some (seed 5 true)) "p" "u" 90
      200000000 tokens_differ

-- A row at revision 7, caught up, under the lease of "t".
abbrev ahead : SyncStateSnapshot
ahead = record (leased "c" "t" 100 (seed 5 false)) {
  desired_revision = 7;
  applied_revision = 7;
  first_dirty_at = none;
  last_dirty_at = none;
}

ahead-IsValid : IsValid ahead
unfolding leased seed
ahead-IsValid = ground arith

abbrev guarded : PreflightReport
guarded = record { is_ok = false; outcome = some connect_only; reason = none }

stale_guard_moves_back_example :
    (s' : SyncStateSnapshot) × (((record_preflight_outcome "t" 20 guarded 5 (some ahead)).1
        ≡ some s')
      × ((s'.applied_revision ≡ 5) × ((IsValid s') → ⊥)))
unfolding is_guard outcome_or_error holds leased seed
stale_guard_moves_back_example =
    stale_guard_moves_back "t" 20 5 guarded ahead refl refl (omega arith) ahead-IsValid refl

-- The tick reads revision 5; before it claims, someone else applies revision 7; its preflight then
-- answers a guard.
abbrev guard_env : Surroundings
guard_env = record (smooth "hash" 3) { preflight = done guarded }

abbrev behind : SyncStateSnapshot
behind = record (seed 5 true) { desired_revision = 5; applied_revision = 4 }

abbrev overtaken : SyncStateSnapshot
overtaken = record (seed 5 false) {
  desired_revision = 7;
  applied_revision = 7;
  first_dirty_at = none;
  last_dirty_at = none;
}

guard_race :
    (tick guard_env (λ t. some overtaken) on_project "c" "t" 90 20 30 (some behind)).1
    ≡ some (record overtaken { applied_revision = 5 })
unfolding tick seed holds
guard_race = refl

-- Sixty polls of half a second wait out thirty seconds of a lease that others hold.
abbrev polls : Polls
polls = record {
  stamp = λ i. 1000 + i * 500000;
  check = λ i. 1000 + i * 500000;
  minted = λ i. "m";
  between = λ i table. some (leased "c" "t" 900000000 (seed 5 false));
}

manual_claim_settles_example :
    let run = claim_manual_lease polls "o" 90 30000000 1000 61 none in
    (c : ManualClaim) × ((run.0 ≡ some c)
      × ((k : ℕ) × ((last : Table) × ((k < 61)
              × Waited polls "o" 90 30001000 k last 0 (ensure_sync_state 1000 none).1
              × Answers polls "o" 90 30001000 k last c run.1))))
manual_claim_settles_example =
    manual_claim_settles polls "o" 90 30000000 1000 500000 60 none (λ i. omega arith) (omega arith)

abbrev lost_network : AttemptResult
lost_network = record {
  status = failure;
  outcome = unreachable;
  output_hash = none;
  emitted_count = none;
  failed_with = none;
  notify_failure = true;
}

abbrev digest : OutcomeName → Option Text → String
digest outcome text = elim outcome [ unreachable ↦ "u" | _ ↦ "x" ]

abbrev on : Notifier
on = record { is_enabled = true; is_configured = true; sends = true }

notifies_once :
    ((finish_attempt digest on (λ rs. rs) 1 none lost_network []).0 ≡ true)
    × (not (str_eq "u" "u") && maybe_notify_failure on ≡ false)
unfolding finish_attempt maybe_notify_failure
notifies_once = (refl, refl)

success_comes_to_rest_example :
    (s' : SyncStateSnapshot) × (((attempt
          (smooth "hash" 3)
          "c"
          "t"
          90
          10
          false
          1
          (some (seed 5 true))).1
        ≡ some s')
      × ((s'.applied_revision ≡ s'.desired_revision)
          × (tick busy_env (λ t. t) on_project "c" "u" 90 5000 5001 (some s') ≡ (none, some s'))))
unfolding is_free seed should_skip_remote_post
success_comes_to_rest_example =
    success_comes_to_rest "hash" "c" "t" "c" "u" 3 90 10 1 90 5000 5001 false busy_env (λ t. t)
      on_project (seed 5 true) refl refl (omega arith)
