-- ===== src/Sync/Exclusion.antt =====
-- The mutual exclusion of the lease of services/paisa/sync_state.py.
use financial_dashboard.Prelude.{
  ℕ, ◌≤◌, ◌≡◌, refl, ◌≢◌, Bool, true, false, Option, none, some, String, List, arith,
}
use financial_dashboard.Sync.Row.{SyncStateSnapshot, Table, ensure_sync_state, capture_target}
use financial_dashboard.Sync.Lease.{held, is_free, claim_lease, heartbeat_lease, release_lease}
use financial_dashboard.Sync.Complete.{
  StateName, record_published_hash, record_hash_noop, record_guard_caught_up, record_accepted_post,
  record_diagnosis, record_pre_post_failure, caught_up_row, published_row, fatal_row, failure_row,
  healthy_row, unknown_row,
}
use financial_dashboard.Sync.Admin.{set_force_reload, bump}
use financial_dashboard.Sync.Keeps
use financial_dashboard.Sync.Keeps.{Written}
use financial_dashboard.Sync.Fencing.{IsStale, heartbeat_stale, release_stale}

-- The token holds the lease until that time.
abbrev pub HeldUntil : String → ℕ → Table → Type 0
HeldUntil token at none = ⊥
HeldUntil token at (some s) = (s.lease_token ≡ some token) × (s.lease_expires_at ≡ some at)

-- A call, up to the time `at`, by anyone but the holder of the token: claims and renewals by
-- others, completions under any token, operators' force flags, and core and settings writes.
pub data Foreign (token : String) (at : ℕ) (table : Table) : Table → Type 0 where
  ensure : (now : ℕ) → Foreign token at table (ensure_sync_state now table).1
  claim :
      (owner : String) (t : Option String) (minted : String) (ttl now : ℕ)
      → now ≤ at
      → Foreign token at table (claim_lease owner t minted ttl now table).1
  heartbeat :
      (t : String) (ttl now : ℕ)
      → t ≢ token
      → Foreign token at table (heartbeat_lease t ttl now table).1
  release : (t : String) → t ≢ token → Foreign token at table (release_lease t table).1
  capture : (now : ℕ) → Foreign token at table (capture_target now table).1
  published : (hash t : String) → Foreign token at table (record_published_hash hash t table).1
  noop :
      (target : ℕ) (t : String) (now : ℕ)
      → Foreign token at table (record_hash_noop target t now table).1
  guard_caught_up :
      (target : ℕ) (t : String) (now : ℕ)
      → Foreign token at table (record_guard_caught_up target t now table).1
  accepted_post :
      (target : ℕ) (hash t : String) (now : ℕ)
      → Foreign token at table (record_accepted_post target hash t now table).1
  diagnosis :
      (state : StateName) (t : String) (hash : Option String) (now : ℕ) (schedule : List ℕ)
      → Foreign token at table (record_diagnosis state t hash now schedule table).1
  failure :
      (t : String) (now : ℕ) (schedule : List ℕ)
      → Foreign token at table (record_pre_post_failure t now schedule table).1
  force : (enabled : Bool) (now : ℕ) → Foreign token at table (set_force_reload enabled now table).1
  write : (reset_backoff : Bool) (now : ℕ) → Foreign token at table (bump reset_backoff now table)

pub data Foreigns (token : String) (at : ℕ) (table : Table) : Table → Type 0 where
  here : Foreigns token at table table
  next :
      {u v : Table} → Foreigns token at table u → Foreign token at u v → Foreigns token at table v

is_free-eq-false :
    (now at : ℕ) (s : SyncStateSnapshot)
    → now ≤ at
    → s.lease_expires_at ≡ some at
    → is_free now s ≡ false
unfolding is_free
is_free-eq-false now at s h e = ground arith

others-IsStale :
    (token t : String) (at : ℕ) (table : Table)
    → t ≢ token
    → HeldUntil token at table
    → IsStale t table
others-IsStale token t at none ne h = tt
others-IsStale token t at (some s) ne h = λ e. ne (ground (arith, h.0, e))

Written-keeps :
    (token : String) (at : ℕ) (f : SyncStateSnapshot → SyncStateSnapshot)
    → Written f
    → (s : SyncStateSnapshot) → HeldUntil token at (some s)
    → HeldUntil token at (some (f s))
unfolding caught_up_row published_row fatal_row failure_row healthy_row unknown_row
Written-keeps token at f (Written.published_with hash) s h = h
Written-keeps token at f (Written.caught_up target true hash now) s h = h
Written-keeps token at f (Written.caught_up target false hash now) s h = h
Written-keeps token at f (Written.fatal_at count t) s h = h
Written-keeps token at f (Written.failure_at count t now) s h = h
Written-keeps token at f (Written.healthy_as state hash) s h = h
Written-keeps token at f Written.unknown_state s h = h

module _ (token : String) (at : ℕ) where
  ensure_keeps :
      (now : ℕ) (table : Table)
      → HeldUntil token at table
      → HeldUntil token at (ensure_sync_state now table).1
  unfolding ensure_sync_state
  ensure_keeps now none h = absurd h
  ensure_keeps now (some s) h = h

  capture_keeps :
      (now : ℕ) (table : Table)
      → HeldUntil token at table
      → HeldUntil token at (capture_target now table).1
  unfolding capture_target
  capture_keeps now none h = absurd h
  capture_keeps now (some s) h = h

  force_keeps :
      (enabled : Bool) (now : ℕ) (table : Table)
      → HeldUntil token at table
      → HeldUntil token at (set_force_reload enabled now table).1
  unfolding set_force_reload
  force_keeps enabled now none h = absurd h
  force_keeps enabled now (some s) h = h

  bump_keeps :
      (b : Bool) (now : ℕ) (table : Table)
      → HeldUntil token at table
      → HeldUntil token at (bump b now table)
  unfolding bump
  bump_keeps b now none h = absurd h
  bump_keeps true now (some s) h = h
  bump_keeps false now (some s) h = h

-- A claim while another token holds the lease is refused.
claim_refused :
    (owner : String) (t : Option String) (minted : String) (ttl now : ℕ) (token : String) (at : ℕ)
    (table : Table)
    → now ≤ at
    → HeldUntil token at table
    → ((claim_lease owner t minted ttl now table).0.reason ≡ held)
      × ((claim_lease owner t minted ttl now table).1 ≡ table)
unfolding claim_lease
claim_refused owner t minted ttl now token at none h k = absurd k
claim_refused owner t minted ttl now token at (some s) h k =
    rw (is_free-eq-false now at s h k.1) (refl, refl)

Foreign-HeldUntil :
    (token : String) (at : ℕ) {table u : Table}
    → Foreign token at table u
    → HeldUntil token at table
    → HeldUntil token at u
Foreign-HeldUntil token at {table} (Foreign.ensure now) h = ensure_keeps token at now table h
Foreign-HeldUntil token at {table} (Foreign.claim owner t minted ttl now early) h =
    rw ((claim_refused owner t minted ttl now token at table early h).1) h
Foreign-HeldUntil token at {table} (Foreign.heartbeat t ttl now ne) h =
    rw ((heartbeat_stale t ttl now table (others-IsStale token t at table ne h)).1) h
Foreign-HeldUntil token at {table} (Foreign.release t ne) h =
    rw ((release_stale t table (others-IsStale token t at table ne h)).1) h
Foreign-HeldUntil token at {table} (Foreign.capture now) h = capture_keeps token at now table h
Foreign-HeldUntil token at {table} (Foreign.published hash t) h =
    Keeps.published (HeldUntil token at) (Written-keeps token at) hash t table h
Foreign-HeldUntil token at {table} (Foreign.noop target t now) h =
    Keeps.noop (HeldUntil token at) (Written-keeps token at) target t now table h
Foreign-HeldUntil token at {table} (Foreign.guard_caught_up target t now) h =
    Keeps.guard_caught_up (HeldUntil token at) (Written-keeps token at) target t now table h
Foreign-HeldUntil token at {table} (Foreign.accepted_post target hash t now) h =
    Keeps.accepted_post (HeldUntil token at) (Written-keeps token at) target hash t now table h
Foreign-HeldUntil token at {table} (Foreign.diagnosis state t hash now schedule) h =
    Keeps.diagnosis (HeldUntil token at) (Written-keeps token at) state t hash now schedule table h
Foreign-HeldUntil token at {table} (Foreign.failure t now schedule) h =
    Keeps.failure (HeldUntil token at) (Written-keeps token at) t now schedule table h
Foreign-HeldUntil token at {table} (Foreign.force enabled now) h =
    force_keeps token at enabled now table h
Foreign-HeldUntil token at {table} (Foreign.write b now) h = bump_keeps token at b now table h

Foreigns-HeldUntil :
    (token : String) (at : ℕ) {table u : Table}
    → Foreigns token at table u
    → HeldUntil token at table
    → HeldUntil token at u
Foreigns-HeldUntil token at here h = h
Foreigns-HeldUntil token at (next r f) h =
    Foreign-HeldUntil token at f (Foreigns-HeldUntil token at r h)

-- One holder at a time: while a token holds the lease until the time `at`, whatever others call up
-- to then (claims, renewals and releases under other tokens, completions under any token, force
-- flags, core and settings writes; no admin reset), in any number and order, the token still holds
-- the lease until `at`, and a further claim at a time up to `at` is answered `held` and changes
-- nothing.
pub lease_is_exclusive :
    (token : String) (at : ℕ) {table u : Table} (owner : String) (t : Option String)
    (minted : String) (ttl now : ℕ)
    → HeldUntil token at table
    → Foreigns token at table u
    → now ≤ at
    → HeldUntil token at u
      × ((claim_lease owner t minted ttl now u).0.reason ≡ held)
      × ((claim_lease owner t minted ttl now u).1 ≡ u)
lease_is_exclusive token at {u} owner t minted ttl now h r early =
    let still = Foreigns-HeldUntil token at r h in
    let refused = claim_refused owner t minted ttl now token at u early still in
    (still, refused.0, refused.1)
