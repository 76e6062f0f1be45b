-- ===== src/Sync/Keeps.antt =====
-- A rule for what every completion of services/paisa/sync_state.py keeps: each is at most one
-- guarded UPDATE by one of a few row functions.
use financial_dashboard.Prelude.{
  ℕ, ◌≡◌, refl, Bool, true, false, Option, none, some, String, List, Bool-cases, inl, inr,
}
use financial_dashboard.Sync.Row.{
  DiagnosisState, healthy, accepted, fatal, unknown, SyncStateSnapshot, Table, Result, ok, err,
  holds, fetch_guarded,
}
use financial_dashboard.Sync.Complete.{
  StateName, known, other, guarded_update, reply, published_row, caught_up_row, fatal_row,
  failure_row, healthy_row, unknown_row, record_published_hash, record_hash_noop,
  record_guard_caught_up, record_accepted_post, record_diagnosis, record_fatal, record_failure,
  record_pre_post_failure,
}

-- The row functions that a completion may write by.
pub data Written : (SyncStateSnapshot → SyncStateSnapshot) → Type 0 where
  published_with : (hash : String) → Written (published_row hash)
  caught_up :
      (target : ℕ) (b : Bool) (hash : Option String) (now : ℕ)
      → Written (caught_up_row target b hash now)
  fatal_at : (count at : ℕ) → Written (fatal_row count at)
  failure_at : (count at now : ℕ) → Written (failure_row count at now)
  healthy_as : (state : DiagnosisState) (hash : Option String) → Written (healthy_row state hash)
  unknown_state : Written unknown_row

pub reply-table :
    {A : Type 0} (f : SyncStateSnapshot → A) (x : Result SyncStateSnapshot × Table)
    → (reply f x).1 ≡ x.1
reply-table f (ok s, table) = refl
reply-table f (err e, table) = refl

module _ (P : Table → Type 0)
    (keep : (f : SyncStateSnapshot → SyncStateSnapshot)
      → Written f
      → (s : SyncStateSnapshot) → P (some s)
      → P (some (f s))) where
  update :
      {A : Type 0} (g : SyncStateSnapshot → A) (f : SyncStateSnapshot → SyncStateSnapshot)
      (token : String) (table : Table)
      → Written f
      → P table
      → P (reply g (guarded_update f token table)).1
  unfolding guarded_update
  update g f token none w p = p
  update g f token (some s) w p = elim (Bool-cases (holds s token)) [
    | inl e ↦ rw e (keep f w s p)
    | inr e ↦ rw e p
  ]

  pub published :
      (hash token : String) (table : Table) → P table → P (record_published_hash hash token table).1
  unfolding record_published_hash
  published hash token table = update _ _ token table (Written.published_with hash)

  pub noop :
      (target : ℕ) (token : String) (now : ℕ) (table : Table)
      → P table
      → P (record_hash_noop target token now table).1
  unfolding record_hash_noop
  noop target token now table = update _ _ token table (Written.caught_up target false none now)

  pub guard_caught_up :
      (target : ℕ) (token : String) (now : ℕ) (table : Table)
      → P table
      → P (record_guard_caught_up target token now table).1
  unfolding record_guard_caught_up
  guard_caught_up target token now table =
      update _ _ token table (Written.caught_up target false none now)

  pub accepted_post :
      (target : ℕ) (hash token : String) (now : ℕ) (table : Table)
      → P table
      → P (record_accepted_post target hash token now table).1
  unfolding record_accepted_post
  accepted_post target hash token now table =
      update _ _ token table (Written.caught_up target true (some hash) now)

  fatal_from :
      (pre : Result SyncStateSnapshot) (token : String) (now : ℕ) (schedule : List ℕ)
      (table : Table)
      → P table
      → P (record_fatal pre token now schedule table).1
  unfolding record_fatal
  fatal_from (err e) token now schedule table p = p
  fatal_from (ok pre) token now schedule table p = update _ _ token table (Written.fatal_at _ _) p

  failure_from :
      (pre : Result SyncStateSnapshot) (token : String) (now : ℕ) (schedule : List ℕ)
      (table : Table)
      → P table
      → P (record_failure pre token now schedule table).1
  unfolding record_failure
  failure_from (err e) token now schedule table p = p
  failure_from (ok pre) token now schedule table p =
      update _ _ token table (Written.failure_at _ _ now) p

  pub failure :
      (token : String) (now : ℕ) (schedule : List ℕ) (table : Table)
      → P table
      → P (record_pre_post_failure token now schedule table).1
  unfolding record_pre_post_failure
  failure token now schedule table =
      failure_from (fetch_guarded token table) token now schedule table

  pub diagnosis :
      (state : StateName) (token : String) (hash : Option String) (now : ℕ) (schedule : List ℕ)
      (table : Table)
      → P table
      → P (record_diagnosis state token hash now schedule table).1
  unfolding record_diagnosis
  diagnosis (other name) token hash now schedule table p = p
  diagnosis (known fatal) token hash now schedule table p =
      fatal_from (fetch_guarded token table) token now schedule table p
  diagnosis (known healthy) token hash now schedule table p =
      update _ _ token table (Written.healthy_as healthy hash) p
  diagnosis (known accepted) token hash now schedule table p =
      update _ _ token table (Written.healthy_as accepted hash) p
  diagnosis (known unknown) token hash now schedule table p =
      update _ _ token table Written.unknown_state p
