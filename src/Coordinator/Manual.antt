-- ===== src/Coordinator/Manual.antt =====
-- `claim_manual_lease` of services/paisa/coordinator.py: the claim for a manual operation, which
-- polls a held lease until a deadline.
use financial_dashboard.Prelude.{
  ℕ, zero, suc, ◌+◌, Bool, true, false, Option, none, some, String, leb, if◌then◌else◌,
}
use financial_dashboard.Sync.Row.{Table, ensure_sync_state}
use financial_dashboard.Sync.Lease.{token_or_new, claim_lease}

pub data ManualReason : Type 0 where
  claimed busy : ManualReason

pub record ManualClaim : Type 0 where
  pub is_claimed : Bool
  pub token : Option String
  pub reason : ManualReason

-- The clock and the token of each poll, and what others commit before it. `stamp` is the time that
-- the claim writes by, `check` the wall clock at the test of the deadline.
pub record Polls : Type 0 where
  pub stamp : ℕ → ℕ
  pub check : ℕ → ℕ
  pub minted : ℕ → String
  pub between : ℕ → Table → Table

-- The `while True`, from the poll `i` on, for at most `fuel` polls.
unfoldable pub poll_lease : Polls → String → ℕ → ℕ → ℕ → ℕ → Table → Option ManualClaim × Table
unfolding claim_lease token_or_new
poll_lease polls owner ttl deadline zero i table = (none, table)
poll_lease polls owner ttl deadline (suc fuel) i table =
    let (claim, written) =
      claim_lease owner none (polls.minted i) ttl (polls.stamp i) (polls.between i table) in
    let rest = poll_lease polls owner ttl deadline fuel (suc i) written in
    if claim.is_claimed
    then (some (record { is_claimed = true; token = some claim.token; reason = claimed }), written)
    else if leb deadline (polls.check i)
    then (some (record { is_claimed = false; token = none; reason = busy }), written)
    else rest

-- `start` is the wall clock at the call.
unfoldable pub claim_manual_lease :
    Polls → String → ℕ → ℕ → ℕ → ℕ → Table → Option ManualClaim × Table
unfolding poll_lease ensure_sync_state
claim_manual_lease polls owner ttl wait start fuel table =
    poll_lease polls owner ttl (start + wait) fuel 0 (ensure_sync_state start table).1
