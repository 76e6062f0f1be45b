-- ===== src/Sync/Drift.antt =====
-- What a completion of services/paisa/sync_state.py settles, and what a write during the run keeps.
use financial_dashboard.Prelude.{
  ℕ, ◌+◌, ◌≤◌, ◌≡◌, refl, Bool, true, false, none, some, String, List, [], ◌∷◌, min, leb, length,
  arith, if◌then◌else◌,
}
use financial_dashboard.Sync.Row.{SyncStateSnapshot, ok, holds, capture_target}
use financial_dashboard.Sync.Complete.{
  AppliedUpdate, guarded_update, caught_up_row, applied_update, record_accepted_post,
}
use financial_dashboard.Sync.Admin.{bump_row}
use financial_dashboard.Sync.Valid.{IsValid}

-- The row after an accepted POST, of a token that holds the lease.
abbrev pub posted : ℕ → String → ℕ → SyncStateSnapshot → SyncStateSnapshot
posted target hash now s = caught_up_row target true (some hash) now s

pub record_accepted_post_lem :
    (target : ℕ) (hash token : String) (now : ℕ) (s : SyncStateSnapshot)
    → holds s token ≡ true
    → record_accepted_post target hash token now (some s)
      ≡ (ok (applied_update target (posted target hash now s)), some (posted target hash now s))
unfolding record_accepted_post guarded_update
record_accepted_post_lem target hash token now s h = rw h

-- The holder's accepted POST for a captured target, which a valid row is not ahead of, returns the
-- row that it leaves: what is applied is the target, cut at the desired revision, and never falls;
-- the run has caught up exactly if the target is not behind the desired revision; then the dirty
-- window and the force flag are cleared, else all three stay; the retry is cleared, the hash and
-- the time of the attempt are stored; the lease and the desired revision stay.
pub accepted_post_settles :
    (target : ℕ) (hash token : String) (now : ℕ) (s : SyncStateSnapshot)
    → IsValid s
    → holds s token ≡ true
    → s.applied_revision ≤ target
    → (r : AppliedUpdate) × (record_accepted_post target hash token now (some s)
        ≡ (ok r, some r.snapshot))
      × (r.applied_revision ≡ min target s.desired_revision)
      × (s.applied_revision ≤ r.applied_revision)
      × (r.caught_up ≡ leb s.desired_revision target)
      × (r.snapshot.first_dirty_at ≡ (if r.caught_up then none else s.first_dirty_at))
      × (r.snapshot.last_dirty_at ≡ (if r.caught_up then none else s.last_dirty_at))
      × (r.snapshot.force_reload ≡ (if r.caught_up then false else s.force_reload))
      × (r.snapshot.failure_count ≡ 0)
      × (r.snapshot.next_attempt_at ≡ none)
      × (r.snapshot.last_remote_hash ≡ some hash)
      × (r.snapshot.last_remote_attempt_at ≡ some now)
      × (r.snapshot.lease_token ≡ s.lease_token)
      × (r.snapshot.desired_revision ≡ s.desired_revision)
unfolding caught_up_row applied_update
accepted_post_settles target hash token now s v h le = (
  applied_update target (posted target hash now s),
  record_accepted_post_lem target hash token now s h,
  ground arith,
  ground arith,
  ground arith,
  ground arith,
  ground arith,
  ground arith,
  refl,
  refl,
  refl,
  refl,
  refl,
  refl,
)

-- A write during a run, to a core table or to a setting (`true`), with its time.
abbrev pub Write : Type 0
Write = Bool × ℕ

unfoldable pub writes : List Write → SyncStateSnapshot → SyncStateSnapshot
unfolding bump_row
writes [] s = s
writes ((b, now) ∷ ws) s = writes ws (bump_row b now s)

writes_lem :
    (ws : List Write) (s : SyncStateSnapshot)
    → ((writes ws s).desired_revision ≡ s.desired_revision + length ws)
      × ((writes ws s).force_reload ≡ s.force_reload)
      × ((writes ws s).lease_token ≡ s.lease_token)
unfolding writes
writes_lem [] s = (omega arith, refl, refl)
writes_lem ((true, now) ∷ ws) s = ground (arith, writes_lem ws (bump_row true now s))
writes_lem ((false, now) ∷ ws) s = ground (arith, writes_lem ws (bump_row false now s))

-- No write is lost: if core or settings writes land between the capture of the target and the
-- accepted POST of the lease's holder, the POST applies exactly the captured revision, the row stays
-- behind by the number of writes, the run has not caught up, and the dirty window and the force flag
-- stay as the writes left them.
pub no_lost_write :
    (w : Write) (ws : List Write) (hash token : String) (now t : ℕ) (s : SyncStateSnapshot)
    → holds (writes (w ∷ ws) s) token ≡ true
    → let target = (capture_target t (some s)).0.0 in
      let dirty = writes (w ∷ ws) s in
      (r : AppliedUpdate) × (record_accepted_post target hash token now (some dirty)
        ≡ (ok r, some r.snapshot))
      × (r.applied_revision ≡ s.desired_revision)
      × (r.desired_revision ≡ r.applied_revision + length (w ∷ ws))
      × (r.caught_up ≡ false)
      × (r.snapshot.first_dirty_at ≡ dirty.first_dirty_at)
      × (r.snapshot.last_dirty_at ≡ dirty.last_dirty_at)
      × (r.snapshot.force_reload ≡ s.force_reload)
unfolding capture_target caught_up_row applied_update
no_lost_write w ws hash token now t s h =
    let dirty = writes (w ∷ ws) s in
    let facts = writes_lem (w ∷ ws) s in
    (
      applied_update s.desired_revision (posted s.desired_revision hash now dirty),
      record_accepted_post_lem s.desired_revision hash token now dirty h,
      ground (arith, facts),
      ground (arith, facts),
      ground (arith, facts),
      ground (arith, facts),
      ground (arith, facts),
      ground (arith, facts),
    )
