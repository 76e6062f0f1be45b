-- ===== src/Sync/Valid.antt =====
-- The invariant of the sync-state row (services/paisa/sync_state.py) under each statement that
-- writes it.
use financial_dashboard.Prelude.{
  ℕ, ◌+◌, ◌≤◌, ◌≡◌, Bool, true, false, Option, String, ltb, is_some, arith,
}
use financial_dashboard.Sync.Row.{SyncStateSnapshot, DiagnosisState, seed, holds}
use financial_dashboard.Sync.Lease.{leased, extended, cleared}
use financial_dashboard.Sync.Complete.{
  applied_through, remote_accepted, caught_up_row, fatal_row, failure_row, healthy_row, unknown_row,
  published_row,
}
use financial_dashboard.Sync.Admin.{reset_row, bump_row}

-- The applied revision never passes the desired one; the dirty window is open exactly while it is
-- behind; a retry is scheduled exactly after a failure; the lease columns are set together.
pub record IsValid (s : SyncStateSnapshot) : Type 0 where
  pub applied_le : s.applied_revision ≤ s.desired_revision
  pub first_dirty : is_some s.first_dirty_at ≡ ltb s.applied_revision s.desired_revision
  pub last_dirty : is_some s.last_dirty_at ≡ ltb s.applied_revision s.desired_revision
  pub retry : is_some s.next_attempt_at ≡ ltb 0 s.failure_count
  pub owned : is_some s.lease_owner ≡ is_some s.lease_token
  pub expires : is_some s.lease_expires_at ≡ is_some s.lease_token

pub seed-IsValid : (now : ℕ) (force : Bool) → IsValid (seed now force)
unfolding seed
seed-IsValid now force = ground arith

module _ {s : SyncStateSnapshot} (v : IsValid s) where
  pub leased-IsValid : (owner token : String) (expires : ℕ) → IsValid (leased owner token expires s)
  unfolding leased
  leased-IsValid owner token expires = ground arith

  pub extended-IsValid :
      (token : String) (expires : ℕ) → holds s token ≡ true → IsValid (extended expires s)
  unfolding extended holds
  extended-IsValid token expires h = ground arith

  pub cleared-IsValid : IsValid (cleared s)
  unfolding cleared
  cleared-IsValid = ground arith

  pub applied_through-IsValid :
      (target : ℕ) → s.applied_revision ≤ target → IsValid (applied_through target s)
  unfolding applied_through
  applied_through-IsValid target h = ground arith

  pub remote_accepted-IsValid :
      (remote_hash : Option String) (now : ℕ) → IsValid (remote_accepted remote_hash now s)
  unfolding remote_accepted
  remote_accepted-IsValid remote_hash now = ground arith

  pub fatal_row-IsValid : (count next : ℕ) → IsValid (fatal_row (count + 1) next s)
  unfolding fatal_row
  fatal_row-IsValid count next = ground arith

  pub failure_row-IsValid : (count next now : ℕ) → IsValid (failure_row (count + 1) next now s)
  unfolding failure_row
  failure_row-IsValid count next now = ground arith

  pub unknown_row-IsValid : IsValid (unknown_row s)
  unfolding unknown_row
  unknown_row-IsValid = ground arith

  pub published_row-IsValid : (hash : String) → IsValid (published_row hash s)
  unfolding published_row
  published_row-IsValid hash = ground arith

  pub healthy_row-IsValid :
      (state : DiagnosisState) (hash : Option String) → IsValid (healthy_row state hash s)
  unfolding healthy_row
  healthy_row-IsValid state hash = ground arith

  pub reset_row-IsValid : (now : ℕ) → IsValid (reset_row now s)
  unfolding reset_row
  reset_row-IsValid now = ground arith

  pub bump_row-IsValid : (reset_backoff : Bool) (now : ℕ) → IsValid (bump_row reset_backoff now s)
  unfolding bump_row
  bump_row-IsValid false now = ground arith
  bump_row-IsValid true now = ground arith

pub caught_up_row-IsValid :
    {s : SyncStateSnapshot} (target : ℕ) (b : Bool) (hash : Option String) (now : ℕ)
    → IsValid s
    → s.applied_revision ≤ target
    → IsValid (caught_up_row target b hash now s)
unfolding caught_up_row remote_accepted
caught_up_row-IsValid target true hash now v h =
    applied_through-IsValid (remote_accepted-IsValid v hash now) target h
caught_up_row-IsValid target false hash now v h = applied_through-IsValid v target h
