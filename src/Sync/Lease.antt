-- ===== src/Sync/Lease.antt =====
-- The lease of services/paisa/sync_state.py: claim, heartbeat, release. The fencing token that
-- `secrets` mints is the argument `minted`.
use financial_dashboard.Prelude.{
  ℕ, ◌+◌, ◌*◌, Bool, true, false, Option, none, some, String, ltb, str_eq, if◌then◌else◌,
}
use financial_dashboard.Sync.Row.{SyncStateSnapshot, Table, holds}

pub data ClaimReason : Type 0 where
  claimed no_row held : ClaimReason

pub record LeaseClaim : Type 0 where
  pub is_claimed : Bool
  pub owner : String
  pub token : String
  pub expires_at : Option ℕ
  pub reason : ClaimReason
  pub snapshot : Option SyncStateSnapshot

-- A `timedelta(seconds=…)` in microseconds.
abbrev pub second : ℕ
second = 1000000

-- `token or new_lease_token()`: an empty text is false.
unfoldable pub token_or_new : Option String → String → String
token_or_new none minted = minted
token_or_new (some token) minted = if str_eq token "" then minted else token

-- `lease_expires_at IS NULL OR lease_expires_at < :now`
unfoldable pub is_free : ℕ → SyncStateSnapshot → Bool
is_free now s = elim s.lease_expires_at [ none ↦ true | some t ↦ ltb t now ]

-- The row that the claim's UPDATE writes.
unfoldable pub leased : String → String → ℕ → SyncStateSnapshot → SyncStateSnapshot
leased owner token expires s = record s {
  lease_owner = some owner;
  lease_token = some token;
  lease_expires_at = some expires;
}

unfoldable pub claim_lease : String → Option String → String → ℕ → ℕ → Table → LeaseClaim × Table
unfolding leased is_free token_or_new
claim_lease owner token minted ttl_seconds now none = (
  record {
    is_claimed = false;
    owner = owner;
    token = token_or_new token minted;
    expires_at = none;
    reason = no_row;
    snapshot = none;
  },
  none,
)
claim_lease owner token minted ttl_seconds now (some s) =
    let lease_token = token_or_new token minted in
    let expires = now + ttl_seconds * second in
    if is_free now s
    then (
      record {
        is_claimed = true;
        owner = owner;
        token = lease_token;
        expires_at = some expires;
        reason = claimed;
        snapshot = some (leased owner lease_token expires s);
      },
      some (leased owner lease_token expires s),
    )
    else (
      record {
        is_claimed = false;
        owner = owner;
        token = lease_token;
        expires_at = s.lease_expires_at;
        reason = held;
        snapshot = some s;
      },
      some s,
    )

pub data LeaseReason : Type 0 where
  renewed released stale_token : LeaseReason

pub record LeaseHeartbeat : Type 0 where
  pub is_renewed : Bool
  pub token : String
  pub expires_at : Option ℕ
  pub reason : LeaseReason

unfoldable pub extended : ℕ → SyncStateSnapshot → SyncStateSnapshot
extended expires s = record s { lease_expires_at = some expires }

unfoldable pub cleared : SyncStateSnapshot → SyncStateSnapshot
cleared s = record s { lease_owner = none; lease_token = none; lease_expires_at = none }

-- An UPDATE that no row matches changes nothing, and is reported.
unfoldable pub heartbeat_lease : String → ℕ → ℕ → Table → LeaseHeartbeat × Table
unfolding extended
heartbeat_lease token ttl_seconds now none =
    (record { is_renewed = false; token = token; expires_at = none; reason = stale_token }, none)
heartbeat_lease token ttl_seconds now (some s) =
    let expires = now + ttl_seconds * second in
    if holds s token
    then (
      record { is_renewed = true; token = token; expires_at = some expires; reason = renewed },
      some (extended expires s),
    )
    else (
      record { is_renewed = false; token = token; expires_at = none; reason = stale_token },
      some s,
    )

pub record LeaseRelease : Type 0 where
  pub is_released : Bool
  pub reason : LeaseReason

unfoldable pub release_lease : String → Table → LeaseRelease × Table
unfolding cleared
release_lease token none = (record { is_released = false; reason = stale_token }, none)
release_lease token (some s) =
    if holds s token
    then (record { is_released = true; reason = released }, some (cleared s))
    else (record { is_released = false; reason = stale_token }, some s)
