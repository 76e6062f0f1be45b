-- ===== src/Coordinator/Rest.antt =====
-- An attempt that succeeds brings the coordinator to rest (services/paisa/coordinator.py).
use financial_dashboard.Prelude.{
  ℕ, ◌+◌, ◌<◌, ◌≡◌, refl, Bool, true, false, ◌&&◌, not, none, some, String, arith, eq_iff, str_eq,
  Bool-cases, inl, inr, ◌||◌,
}
use financial_dashboard.Sync.Row.{SyncStateSnapshot, Table, holds, read_sync_state, capture_target}
use financial_dashboard.Sync.Lease.{
  leased, cleared, is_free, claim_lease, release_lease, token_or_new,
}
use financial_dashboard.Sync.Complete.{
  record_published_hash, record_accepted_post, record_diagnosis, record_known, apply_caught_up,
  guarded_update, published_row, caught_up_row, applied_through, remote_accepted, healthy_row,
  coalesce,
}
use financial_dashboard.Sync.Eligibility.{
  default_policy, reconcile_eligibility, should_skip_remote_post,
}
use financial_dashboard.Coordinator.{
  synced, any_accepted, classify_diagnosis, ◌>>◌, commit, pure, done, pause, Surroundings,
}
use financial_dashboard.Coordinator.Stages.{
  record_remote_outcome, post_and_record, decide_remote, deliver, published_of, after_generate,
  capture_and_generate, run_attempt_stages,
}
use financial_dashboard.Coordinator.Attempt.{finally_release, claimed_attempt, attempt}
use financial_dashboard.Coordinator.Tick.{Settings, can_project, tick_snapshot, tick_decision, tick}

-- The stages of an attempt that nothing disturbs: the preflight passes, the body is published, the
-- POST is accepted and the diagnosis healthy.
abbrev pub smooth : String → ℕ → Surroundings
smooth body_hash emitted = record {
  preflight = done (record { is_ok = true; outcome = none; reason = none });
  generate = done (record { is_ok = true; published = some (body_hash, emitted); reason = none });
  sync_remote = done (record {
    is_ok = true;
    outcome = synced;
    post_accepted = true;
    diagnosis_ok = some true;
    reason = none;
    diagnosis_accepted = none;
  });
  between = λ site table. table;
  strike = λ site. none;
}

-- The row is caught up, with no retry and no forced reload pending.
pub record IsRested (now : ℕ) (s : SyncStateSnapshot) : Type 0 where
  pub caught_up : s.applied_revision ≡ s.desired_revision
  pub no_retry : s.next_attempt_at ≡ none
  pub no_force : s.force_reload ≡ false
  pub attempted : s.last_remote_attempt_at ≡ some now

same_str : (t : String) → str_eq t t ≡ true
same_str t = (eq_iff t t).1 refl

undisturbed_run_lem :
    (body_hash owner minted : String) (emitted ttl now guard_target : ℕ) (force : Bool)
    (s : SyncStateSnapshot)
    → is_free now s ≡ true
    → (not force && should_skip_remote_post (some body_hash) s) ≡ false
    → (s' : SyncStateSnapshot) × (((attempt
            (smooth body_hash emitted)
            owner
            minted
            ttl
            now
            force
            guard_target
            (some s)).1
          ≡ some s')
        × IsRested now s')
unfolding attempt claim_lease token_or_new leased claimed_attempt finally_release run_attempt_stages
    capture_and_generate after_generate published_of deliver decide_remote post_and_record
    record_remote_outcome pause capture_target record_published_hash guarded_update published_row
    holds read_sync_state record_accepted_post apply_caught_up caught_up_row applied_through
    remote_accepted classify_diagnosis any_accepted record_diagnosis record_known healthy_row
    coalesce release_lease cleared should_skip_remote_post
undisturbed_run_lem body_hash owner minted emitted ttl now guard_target force s free post =
    rw
      (
        free,
        same_str minted,
        post,
        ◌>>◌,
        commit,
        pure,
        same_str minted,
        same_str minted,
        same_str minted,
      )
      (_, (refl, ground arith))

rested_due :
    (at now : ℕ) (s : SyncStateSnapshot)
    → IsRested now s
    → at < now + default_policy.force_reload_interval
    → (reconcile_eligibility default_policy at s).due ≡ false
unfolding reconcile_eligibility
rested_due at now s r early =
    rw (r.caught_up, r.no_retry, r.no_force, r.attempted) (ground (arith, early))

rested_decision :
    (settings : Settings) (at : ℕ) (s : SyncStateSnapshot)
    → (reconcile_eligibility default_policy at s).due ≡ false
    → tick_decision settings at s ≡ none
unfolding tick_decision
rested_decision settings at s h =
    elim (Bool-cases (not (can_project settings.mode) || not settings.auto_sync_enabled)) [
      | inl e ↦ rw (h, e) refl
      | inr e ↦ rw (h, e) refl
    ]

rested_tick :
    (env : Surroundings) (meanwhile : Table → Table) (settings : Settings) (owner minted : String)
    (ttl at claim_now now : ℕ) (s : SyncStateSnapshot)
    → IsRested now s
    → at < now + default_policy.force_reload_interval
    → tick env meanwhile settings owner minted ttl at claim_now (some s) ≡ (none, some s)
unfolding tick tick_snapshot read_sync_state
rested_tick env meanwhile settings owner minted ttl at claim_now now s r early =
    rw (rested_decision settings at s (rested_due at now s r early), tick) refl

-- A successful attempt brings the coordinator to rest: an attempt that claims the lease and that
-- nothing disturbs, with an accepted POST and a healthy diagnosis, leaves a row that is caught up,
-- and every later tick within the reload interval of six hours then does nothing at all, whatever
-- its settings, unless a write marks the row dirty in between.
pub success_comes_to_rest :
    (body_hash owner minted owner' minted' : String)
    (emitted ttl now guard_target ttl' at claim_now : ℕ) (force : Bool) (env : Surroundings)
    (meanwhile : Table → Table) (settings : Settings) (s : SyncStateSnapshot)
    → is_free now s ≡ true
    → (not force && should_skip_remote_post (some body_hash) s) ≡ false
    → at < now + default_policy.force_reload_interval
    → (s' : SyncStateSnapshot) × (((attempt
            (smooth body_hash emitted)
            owner
            minted
            ttl
            now
            force
            guard_target
            (some s)).1
          ≡ some s')
        × ((s'.applied_revision ≡ s'.desired_revision)
            × (tick env meanwhile settings owner' minted' ttl' at claim_now (some s')
                ≡ (none, some s'))))
success_comes_to_rest body_hash owner minted owner' minted' emitted ttl now guard_target ttl' at
      claim_now force env meanwhile settings s free post early =
    let (s', e) =
      undisturbed_run_lem body_hash owner minted emitted ttl now guard_target force s free post in
    (
      s',
      (
        e.0,
        (
          e.1.caught_up,
          rested_tick env meanwhile settings owner' minted' ttl' at claim_now now s' e.1 early,
        ),
      ),
    )
