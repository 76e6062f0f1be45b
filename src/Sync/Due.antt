-- ===== src/Sync/Due.antt =====
-- When `reconcile_eligibility` of services/paisa/sync_state.py lets the coordinator run.
use financial_dashboard.Prelude.{
  ℕ, ◌+◌, ◌≤◌, ◌<◌, ◌≡◌, ◌↔◌, true, false, ◌&&◌, ◌||◌, not, some, ltb, arith,
}
use financial_dashboard.Sync.Row.{SyncStateSnapshot}
use financial_dashboard.Sync.Eligibility.{
  Policy, backoff, debounce, before, elapsed, within, reconcile_eligibility,
}
use financial_dashboard.Sync.Valid.{IsValid}

-- A reconcile is due exactly if no backoff is running, and one of these holds: a reload is forced;
-- the periodic interval has passed since the last remote attempt; or the row is behind, and the
-- latency bound has passed or the writes have gone quiet.
pub due_lem :
    (p : Policy) (now : ℕ) (s : SyncStateSnapshot)
    → (reconcile_eligibility p now s).due ≡ (
        not (before now s.next_attempt_at)
        && (s.force_reload
            || (elapsed now s.last_remote_attempt_at p.force_reload_interval
                || (ltb s.applied_revision s.desired_revision
                    && (elapsed now s.first_dirty_at p.max_dirty_latency
                        || not (within now s.last_dirty_at p.quiet_debounce))))))
unfolding reconcile_eligibility
due_lem p now s = ground arith

-- A valid row that is behind waits no longer than the latency bound, however many writes keep
-- landing and whatever else the row holds: unless its first dirty write is more recent than the
-- bound, or a backoff is running, a reconcile is due.
pub due_by_latency :
    (p : Policy) (now : ℕ) (s : SyncStateSnapshot)
    → IsValid s
    → s.applied_revision < s.desired_revision
    → before now s.next_attempt_at ≡ false
    → within now s.first_dirty_at p.max_dirty_latency ≡ false
    → (reconcile_eligibility p now s).due ≡ true
unfolding reconcile_eligibility
due_by_latency p now s v behind calm late = ground (arith, v.first_dirty)

-- A refusal for a backoff names the end of the backoff: the row is refused for it at exactly the
-- times before `eligible_at`.
pub backoff_until :
    (p : Policy) (now later : ℕ) (s : SyncStateSnapshot) {at : ℕ}
    → (reconcile_eligibility p now s).reason ≡ backoff
    → (reconcile_eligibility p now s).eligible_at ≡ some at
    → ((reconcile_eligibility p later s).reason ≡ backoff) ↔ (later < at)
unfolding reconcile_eligibility
backoff_until p now later s b e = ground arith

-- A refusal for the debounce names a time from which on the row is due.
pub debounce_over :
    (p : Policy) (now later : ℕ) (s : SyncStateSnapshot) {at : ℕ}
    → (reconcile_eligibility p now s).reason ≡ debounce
    → (reconcile_eligibility p now s).eligible_at ≡ some at
    → at ≤ later
    → (reconcile_eligibility p later s).due ≡ true
unfolding reconcile_eligibility
debounce_over p now later s b e h = ground arith

-- `eligible_at` of a debounce is not always when the row next becomes due: if the latency bound of
-- the first dirty write falls before the quiet time of the last one, the row is due at that bound,
-- before `eligible_at`.
pub debounce_oversleeps :
    (p : Policy) (now : ℕ) {first last : ℕ} (s : SyncStateSnapshot)
    → s.first_dirty_at ≡ some first
    → s.last_dirty_at ≡ some last
    → (reconcile_eligibility p now s).reason ≡ debounce
    → first + p.max_dirty_latency < last + p.quiet_debounce
    → let at = first + p.max_dirty_latency in
      ((reconcile_eligibility p now s).eligible_at ≡ some (last + p.quiet_debounce))
      × (now < at)
      × ((reconcile_eligibility p at s).due ≡ true)
unfolding reconcile_eligibility
debounce_oversleeps p now s ef el e early = ground arith
