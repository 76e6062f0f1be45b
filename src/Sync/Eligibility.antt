-- ===== src/Sync/Eligibility.antt =====
-- `reconcile_eligibility` and `should_skip_remote_post` of services/paisa/sync_state.py.
-- `now - t >= d` on datetimes is `t + d ≤ now` here.
use financial_dashboard.Prelude.{
  ℕ, ◌+◌, Bool, true, false, Option, none, some, String, str_eq, ltb, leb, if◌then◌else◌,
}
use financial_dashboard.Sync.Row.{SyncStateSnapshot}

pub data Reason : Type 0 where
  backoff force_reload periodic_reload caught_up max_latency debounce dirty : Reason

pub record ReconcileEligibility : Type 0 where
  pub due : Bool
  pub reason : Reason
  pub eligible_at : Option ℕ

-- The three intervals, which the runtime leaves at their defaults.
pub record Policy : Type 0 where
  pub quiet_debounce : ℕ
  pub max_dirty_latency : ℕ
  pub force_reload_interval : ℕ

abbrev pub default_policy : Policy
default_policy = record {
  quiet_debounce = 5000000;
  max_dirty_latency = 30000000;
  force_reload_interval = 21600000000;
}

-- `t is not None and now < t`
abbrev pub before : ℕ → Option ℕ → Bool
before now none = false
before now (some t) = ltb now t

-- `t is not None and now - t >= d`
abbrev pub elapsed : ℕ → Option ℕ → ℕ → Bool
elapsed now none d = false
elapsed now (some t) d = leb (t + d) now

-- `t is not None and now - t < d`
abbrev pub within : ℕ → Option ℕ → ℕ → Bool
within now none d = false
within now (some t) d = ltb now (t + d)

abbrev pub plus : Option ℕ → ℕ → Option ℕ
plus none d = none
plus (some t) d = some (t + d)

unfoldable pub reconcile_eligibility : Policy → ℕ → SyncStateSnapshot → ReconcileEligibility
reconcile_eligibility p now s =
    if before now s.next_attempt_at
    then record { due = false; reason = backoff; eligible_at = s.next_attempt_at }
    else if s.force_reload
    then record { due = true; reason = force_reload; eligible_at = some now }
    else if elapsed now s.last_remote_attempt_at p.force_reload_interval
    then record { due = true; reason = periodic_reload; eligible_at = some now }
    else if leb s.desired_revision s.applied_revision
    then record { due = false; reason = caught_up; eligible_at = none }
    else if elapsed now s.first_dirty_at p.max_dirty_latency
    then record { due = true; reason = max_latency; eligible_at = some now }
    else if within now s.last_dirty_at p.quiet_debounce
    then record {
      due = false;
      reason = debounce;
      eligible_at = plus s.last_dirty_at p.quiet_debounce;
    }
    else record { due = true; reason = dirty; eligible_at = some now }

unfoldable pub should_skip_remote_post : Option String → SyncStateSnapshot → Bool
should_skip_remote_post none s = false
should_skip_remote_post (some published) s = elim s.last_remote_hash [
  | none ↦ false
  | some remote ↦ str_eq remote published
]
