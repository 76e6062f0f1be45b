-- ===== src/Sync/World.antt =====
-- The sync state under every interleaving of its writers: coordinators with their lease tokens,
-- operators, and the triggers of core writes (services/paisa/sync_state.py). `captured` holds the
-- target that each run has read (`capture_target`), under the run's token.
pub mod Rows
pub mod Safe
use financial_dashboard.Prelude.{
  ℕ, ◌≡◌, Bool, true, false, Option, none, some, String, List, str_eq, if◌then◌else◌,
}
use financial_dashboard.Sync.Row.{Table, seed, ensure_sync_state, capture_target}
use financial_dashboard.Sync.Lease.{token_or_new, claim_lease, heartbeat_lease, release_lease}
use financial_dashboard.Sync.Complete.{
  StateName, record_published_hash, record_hash_noop, record_guard_caught_up, record_accepted_post,
  record_diagnosis, record_pre_post_failure,
}
use financial_dashboard.Sync.Admin.{set_force_reload, reset_sync_state, bump}

pub record World : Type 0 where
  pub table : Table
  pub captured : String → Option ℕ

unfoldable pub note : String → ℕ → (String → Option ℕ) → String → Option ℕ
note token target captured t = if str_eq token t then some target else captured t

-- One call by anyone. A claim's token is fresh: nothing was captured under it. A completion passes
-- on the target that its run captured.
pub data Step (w : World) : World → Type 0 where
  ensure : (now : ℕ) → Step w (record w { table = (ensure_sync_state now w.table).1 })
  claim :
      (owner : String) (token : Option String) (minted : String) (ttl now : ℕ)
      → w.captured (token_or_new token minted) ≡ none
      → Step w (record w { table = (claim_lease owner token minted ttl now w.table).1 })
  heartbeat :
      (token : String) (ttl now : ℕ)
      → Step w (record w { table = (heartbeat_lease token ttl now w.table).1 })
  release : (token : String) → Step w (record w { table = (release_lease token w.table).1 })
  capture :
      (token : String) (now : ℕ)
      → Step w (record w {
        table = (capture_target now w.table).1;
        captured = note token (capture_target now w.table).0.0 w.captured;
      })
  published :
      (hash token : String)
      → Step w (record w { table = (record_published_hash hash token w.table).1 })
  noop :
      (target : ℕ) (token : String) (now : ℕ)
      → w.captured token ≡ some target
      → Step w (record w { table = (record_hash_noop target token now w.table).1 })
  guard_caught_up :
      (target : ℕ) (token : String) (now : ℕ)
      → w.captured token ≡ some target
      → Step w (record w { table = (record_guard_caught_up target token now w.table).1 })
  accepted_post :
      (target : ℕ) (hash token : String) (now : ℕ)
      → w.captured token ≡ some target
      → Step w (record w { table = (record_accepted_post target hash token now w.table).1 })
  diagnosis :
      (state : StateName) (token : String) (hash : Option String) (now : ℕ) (schedule : List ℕ)
      → Step w (record w { table = (record_diagnosis state token hash now schedule w.table).1 })
  failure :
      (token : String) (now : ℕ) (schedule : List ℕ)
      → Step w (record w { table = (record_pre_post_failure token now schedule w.table).1 })
  force :
      (enabled : Bool) (now : ℕ)
      → Step w (record w { table = (set_force_reload enabled now w.table).1 })
  reset : (now : ℕ) → Step w (record w { table = (reset_sync_state now w.table).1 })
  core_write : (now : ℕ) → Step w (record w { table = bump false now w.table })
  settings_write : (now : ℕ) → Step w (record w { table = bump true now w.table })

pub data Reach (w : World) : World → Type 0 where
  here : Reach w w
  next : {u v : World} → Reach w u → Step u v → Reach w v

-- The table that `init_db` leaves: the row is seeded, and no run has begun.
abbrev pub start : ℕ → World
start now = record { table = some (seed now true); captured = λ _. none }
