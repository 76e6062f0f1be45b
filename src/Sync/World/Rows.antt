-- ===== src/Sync/World/Rows.antt =====
-- The invariant of the sync-state table, with the runs' captured targets, under each operation of
-- services/paisa/sync_state.py.
use financial_dashboard.Prelude.{
  ℕ, ◌≤◌, ◌≡◌, refl, sym, Bool, true, false, Option, none, some, String, List, eq_iff, Bool-cases,
  inl, inr, arith, ◌∙◌, ap, Option-cases,
}
use financial_dashboard.Sync.Row.{
  DiagnosisState, healthy, accepted, fatal, unknown, SyncStateSnapshot, Table, Result, ok, err,
  holds, seed, ensure_sync_state,
}
use financial_dashboard.Sync.Lease.{
  token_or_new, leased, is_free, claim_lease, heartbeat_lease, release_lease,
}
use financial_dashboard.Sync.Complete.{
  guarded_update, reply, caught_up_row, apply_caught_up, record_published_hash, record_known,
  record_fatal, record_failure,
}
use financial_dashboard.Sync.Admin.{set_force_reload, reset_sync_state, bump}
use financial_dashboard.Sync.Keeps.{reply-table}
use financial_dashboard.Sync.Valid.{
  IsValid, seed-IsValid, leased-IsValid, extended-IsValid, cleared-IsValid, caught_up_row-IsValid,
  fatal_row-IsValid, failure_row-IsValid, healthy_row-IsValid, unknown_row-IsValid,
  published_row-IsValid, reset_row-IsValid, bump_row-IsValid,
}

abbrev pub Captured : Type 0
Captured = String → Option ℕ

-- The row is valid, and while a run holds the lease no more is applied than it has captured.
pub record SafeRow (c : Captured) (s : SyncStateSnapshot) : Type 0 where
  pub valid : IsValid s
  pub fenced : (t : String) (r : ℕ) → c t ≡ some r → holds s t ≡ true → s.applied_revision ≤ r

abbrev pub SafeTable : Captured → Table → Type 0
SafeTable c none = Unit
SafeTable c (some s) = SafeRow c s

-- One token holds the lease at a time.
pub holds_same :
    (s : SyncStateSnapshot) (t u : String) → holds s t ≡ true → holds s u ≡ true → t ≡ u
unfolding holds
holds_same s t u h k = elim (Option-cases s.lease_token) [
  | inl e ↦ ground arith
  | inr (x, e) ↦ ground (arith, eq_iff x t, eq_iff x u)
]

caught_up_row_fields :
    (target : ℕ) (b : Bool) (hash : Option String) (now : ℕ) (s : SyncStateSnapshot) (t : String)
    → (holds (caught_up_row target b hash now s) t ≡ holds s t)
      × ((caught_up_row target b hash now s).applied_revision ≤ target)
unfolding caught_up_row holds
caught_up_row_fields target true hash now s t = (refl, ground arith)
caught_up_row_fields target false hash now s t = (refl, ground arith)

module _ (c : Captured) where
  pub guarded_update-safe :
      (f : SyncStateSnapshot → SyncStateSnapshot) (token : String) (table : Table)
      → ((s : SyncStateSnapshot) → holds s token ≡ true → SafeRow c s → SafeRow c (f s))
      → SafeTable c table
      → SafeTable c (guarded_update f token table).1
  unfolding guarded_update
  guarded_update-safe f token none h v = tt
  guarded_update-safe f token (some s) h v = elim (Bool-cases (holds s token)) [
    | inl e ↦ rw e (h s e v)
    | inr e ↦ rw e v
  ]

  pub reply-safe :
      {A : Type 0} (f : SyncStateSnapshot → A) (x : Result SyncStateSnapshot × Table)
      → SafeTable c x.1
      → SafeTable c (reply f x).1
  reply-safe f x h = rw (reply-table f x) h

  -- A statement that leaves the token alone and applies nothing.
  pub record-safe :
      (s s' : SyncStateSnapshot)
      → s'.lease_token ≡ s.lease_token
      → s'.applied_revision ≡ s.applied_revision
      → SafeRow c s
      → IsValid s'
      → SafeRow c s'
  unfolding holds
  record-safe s s' e a v valid = record {
    valid = valid;
    fenced = λ t r h k. rw a (v.fenced t r h (rw e at k));
  }

  -- Where nobody holds the lease nothing is fenced.
  pub unleased-safe : (s : SyncStateSnapshot) → s.lease_token ≡ none → IsValid s → SafeRow c s
  unfolding holds
  unleased-safe s e valid = record { valid = valid; fenced = λ t r h k. absurd (ground (arith, k)) }

  pub seed-safe : (now : ℕ) (force : Bool) → SafeRow c (seed now force)
  unfolding seed
  seed-safe now force = unleased-safe _ refl (seed-IsValid now force)

  pub caught_up-safe :
      (target : ℕ) (token : String) (b : Bool) (hash : Option String) (now : ℕ)
      → c token ≡ some target
      → (s : SyncStateSnapshot) → holds s token ≡ true
      → SafeRow c s
      → SafeRow c (caught_up_row target b hash now s)
  caught_up-safe target token b hash now h s k v = record {
    valid = caught_up_row-IsValid target b hash now v.valid (v.fenced token target h k);
    fenced = λ t r e held.
        let fields = caught_up_row_fields target b hash now s t in
        let same = holds_same s token t k (sym fields.0 ∙ held) in
        let bound = fields.1 in ground (arith, ap c same);
  }

  fatal_row-safe :
      (pre : Result SyncStateSnapshot) (token : String) (now : ℕ) (schedule : List ℕ)
      (table : Table)
      → SafeTable c table
      → SafeTable c (record_fatal pre token now schedule table).1
  unfolding record_fatal
  fatal_row-safe (err e) token now schedule table v = v
  fatal_row-safe (ok pre) token now schedule table v = reply-safe _ _ (
      guarded_update-safe _ token table
        (λ s k w. record-safe s _ refl refl w (fatal_row-IsValid w.valid pre.failure_count _)) v)

  pub failure_row-safe :
      (pre : Result SyncStateSnapshot) (token : String) (now : ℕ) (schedule : List ℕ)
      (table : Table)
      → SafeTable c table
      → SafeTable c (record_failure pre token now schedule table).1
  unfolding record_failure
  failure_row-safe (err e) token now schedule table v = v
  failure_row-safe (ok pre) token now schedule table v = reply-safe _ _ (
      guarded_update-safe _ token table
        (λ s k w. record-safe s _ refl refl w (failure_row-IsValid w.valid pre.failure_count _ now))
        v)

  pub known-safe :
      (state : DiagnosisState) (token : String) (hash : Option String) (now : ℕ) (schedule : List ℕ)
      (table : Table)
      → SafeTable c table
      → SafeTable c (record_known state token hash now schedule table).1
  unfolding record_known
  known-safe fatal token hash now schedule table v = fatal_row-safe _ token now schedule table v
  known-safe healthy token hash now schedule table v = reply-safe _ _ (
      guarded_update-safe _ token table
        (λ s k w. record-safe s _ refl refl w (healthy_row-IsValid w.valid healthy hash)) v)
  known-safe accepted token hash now schedule table v = reply-safe _ _ (
      guarded_update-safe _ token table
        (λ s k w. record-safe s _ refl refl w (healthy_row-IsValid w.valid accepted hash)) v)
  known-safe unknown token hash now schedule table v = reply-safe _ _ (
      guarded_update-safe _ token table
        (λ s k w. record-safe s _ refl refl w (unknown_row-IsValid w.valid)) v)

  pub apply_caught_up-safe :
      (target : ℕ) (token : String) (now : ℕ) (b : Bool) (hash : Option String) (table : Table)
      → c token ≡ some target
      → SafeTable c table
      → SafeTable c (apply_caught_up target token now b hash table).1
  unfolding apply_caught_up
  apply_caught_up-safe target token now b hash table h v =
      reply-safe _ _
        (guarded_update-safe _ token table (caught_up-safe target token b hash now h) v)

  leased-safe :
      (owner token : String) (expires : ℕ) (s : SyncStateSnapshot)
      → c token ≡ none
      → SafeRow c s
      → SafeRow c (leased owner token expires s)
  unfolding holds leased
  leased-safe owner token expires s h v = record {
    valid = leased-IsValid v.valid owner token expires;
    fenced = λ t r e held. absurd (fresh t r e held);
  }
    where
      fresh :
          (t : String) (r : ℕ) → c t ≡ some r → holds (leased owner token expires s) t ≡ true → ⊥
      fresh t r e held = ground (arith, ap c ((eq_iff token t).0 held))

  pub claim-safe :
      (owner : String) (token : Option String) (minted : String) (ttl now : ℕ) (table : Table)
      → c (token_or_new token minted) ≡ none
      → SafeTable c table
      → SafeTable c (claim_lease owner token minted ttl now table).1
  unfolding claim_lease
  claim-safe owner token minted ttl now none h v = tt
  claim-safe owner token minted ttl now (some s) h v = elim (Bool-cases (is_free now s)) [
    | inl e ↦ rw e (leased-safe owner (token_or_new token minted) _ s h v)
    | inr e ↦ rw e v
  ]

  pub heartbeat-safe :
      (token : String) (ttl now : ℕ) (table : Table)
      → SafeTable c table
      → SafeTable c (heartbeat_lease token ttl now table).1
  unfolding heartbeat_lease
  heartbeat-safe token ttl now none v = tt
  heartbeat-safe token ttl now (some s) v = elim (Bool-cases (holds s token)) [
    | inl e ↦ rw e (record-safe s _ refl refl v (extended-IsValid v.valid token _ e))
    | inr e ↦ rw e v
  ]

  pub release-safe :
      (token : String) (table : Table)
      → SafeTable c table
      → SafeTable c (release_lease token table).1
  unfolding release_lease
  release-safe token none v = tt
  release-safe token (some s) v = elim (Bool-cases (holds s token)) [
    | inl e ↦ rw e (unleased-safe _ refl (cleared-IsValid v.valid))
    | inr e ↦ rw e v
  ]

  pub force-safe :
      (enabled : Bool) (now : ℕ) (table : Table)
      → SafeTable c table
      → SafeTable c (set_force_reload enabled now table).1
  unfolding set_force_reload
  force-safe enabled now none v = seed-safe now enabled
  force-safe enabled now (some s) v = record-safe s _ refl refl v (ground (arith, v.valid))

  pub reset-safe :
      (now : ℕ) (table : Table) → SafeTable c table → SafeTable c (reset_sync_state now table).1
  unfolding reset_sync_state
  reset-safe now none v = seed-safe now true
  reset-safe now (some s) v = unleased-safe _ refl (reset_row-IsValid v.valid now)

  pub bump-safe :
      (b : Bool) (now : ℕ) (table : Table) → SafeTable c table → SafeTable c (bump b now table)
  unfolding bump
  bump-safe b now none v = tt
  bump-safe false now (some s) v = record-safe s _ refl refl v (bump_row-IsValid v.valid false now)
  bump-safe true now (some s) v = record-safe s _ refl refl v (bump_row-IsValid v.valid true now)

  pub ensure-safe :
      (now : ℕ) (table : Table) → SafeTable c table → SafeTable c (ensure_sync_state now table).1
  unfolding ensure_sync_state
  ensure-safe now none v = seed-safe now true
  ensure-safe now (some s) v = v

  pub published-safe :
      (hash token : String) (table : Table)
      → SafeTable c table
      → SafeTable c (record_published_hash hash token table).1
  unfolding record_published_hash
  published-safe hash token table v = reply-safe _ _ (
      guarded_update-safe _ token table
        (λ s k u. record-safe s _ refl refl u (published_row-IsValid u.valid hash)) v)
