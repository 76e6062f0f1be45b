-- ===== src/Coordinator/Attempt.antt =====
-- `PaisaCoordinator._attempt` of services/paisa/coordinator.py, up to its audit row: the claim, the
-- stages, what each exception becomes, and the release. The heartbeat's renewals are among what
-- happens between the transactions.
use financial_dashboard.Prelude.{
  ℕ, ◌≡◌, refl, ◌⊎◌, inl, inr, Bool, true, false, Bool-cases, Option, Option-cases, none, some,
  String, [], ◌∷◌, if◌then◌else◌,
}
use financial_dashboard.Masks.Chars.{Text}
use financial_dashboard.Sync.Row.{Table}
use financial_dashboard.Sync.Lease.{token_or_new, is_free, claim_lease, release_lease}
use financial_dashboard.Coordinator.{
  error, stale_lease, failure, AttemptResult, stale, timed_out, cancelled, raised, Outcome, done,
  failed, Exception, Surroundings, before_release,
}
use financial_dashboard.Coordinator.Audit.{sanitize_error}
use financial_dashboard.Coordinator.Stages.{skipped_by, run_attempt_stages}

-- "attempt timed out"
abbrev pub attempt_timed_out : Text
attempt_timed_out =
    97 ∷ 116 ∷ 116 ∷ 101 ∷ 109 ∷ 112 ∷ 116 ∷ 32 ∷ 116 ∷ 105 ∷ 109 ∷ 101 ∷ 100 ∷ 32 ∷ 111 ∷ 117 ∷ 116
    ∷ []

unfoldable pub error_result : Text → AttemptResult
unfolding sanitize_error
error_result text = record {
  status = failure;
  outcome = error;
  output_hash = none;
  emitted_count = none;
  failed_with = sanitize_error (some text);
  notify_failure = true;
}

-- The `except` clauses. A cancellation is raised again, so that there is nothing to record.
unfoldable pub result_of : Outcome AttemptResult → Option AttemptResult
unfolding error_result
result_of (done result) = some result
result_of (failed timed_out) = some (error_result attempt_timed_out)
result_of (failed stale) = some (skipped_by stale_lease)
result_of (failed cancelled) = none
result_of (failed (raised text)) = some (error_result text)

-- What a failed release leaves: its exception is logged only, and a cancellation is raised again.
unfoldable pub unreleased : Exception → Option AttemptResult → Option AttemptResult
unreleased cancelled result = none
unreleased stale result = result
unreleased timed_out result = result
unreleased (raised text) result = result

-- The `finally` clause: others' commits up to it, then the release, or what strikes in its place.
unfoldable pub finally_release :
    Surroundings → String → Option AttemptResult → Table → Option AttemptResult × Table
unfolding release_lease unreleased
finally_release env token result table = elim (env.strike before_release) [
  | none ↦ (result, (release_lease token (env.between before_release table)).1)
  | some e ↦ (unreleased e result, env.between before_release table)
]

pub finally_release-cases :
    (env : Surroundings) (token : String) (result : Option AttemptResult) (table : Table)
    → (env.strike before_release ≡ none)
        × (finally_release env token result table
            ≡ (result, (release_lease token (env.between before_release table)).1))
      ⊎ ((e : Exception) × ((env.strike before_release ≡ some e)
            × (finally_release env token result table
                ≡ (unreleased e result, env.between before_release table))))
unfolding finally_release
finally_release-cases env token result table = elim (Option-cases (env.strike before_release)) [
  | inl e ↦ inl (e, rw (e, finally_release) refl)
  | inr (x, e) ↦ inr (x, (e, rw (e, finally_release) refl))
]

-- The attempt under the lease of its token.
unfoldable pub claimed_attempt :
    Surroundings → String → ℕ → Bool → ℕ → Table → Option AttemptResult × Table
unfolding run_attempt_stages result_of finally_release
claimed_attempt env token now force_remote guard_target_revision table =
    let (outcome, ended) =
      run_attempt_stages token now env force_remote guard_target_revision table in
    finally_release env token (result_of outcome) ended

-- The result to record, if there is one, and the table.
unfoldable pub attempt :
    Surroundings → String → String → ℕ → ℕ → Bool → ℕ → Table → Option AttemptResult × Table
unfolding claim_lease token_or_new claimed_attempt
attempt env owner minted ttl now force_remote guard_target_revision table =
    let (claim, after_claim) = claim_lease owner none minted ttl now table in
    if claim.is_claimed
    then claimed_attempt env claim.token now force_remote guard_target_revision after_claim
    else (none, after_claim)

claim-token :
    (owner minted : String) (ttl now : ℕ) (table : Table)
    → (claim_lease owner none minted ttl now table).0.token ≡ minted
unfolding claim_lease token_or_new
claim-token owner minted ttl now none = refl
claim-token owner minted ttl now (some s) = elim (Bool-cases (is_free now s)) [
  | inl e ↦ rw e refl
  | inr e ↦ rw e refl
]

-- An attempt that loses the claim leaves the table alone; one that wins goes on under its own token.
pub attempt-cases :
    (env : Surroundings) (owner minted : String) (ttl now : ℕ) (force : Bool) (guard_target : ℕ)
    (table : Table)
    → ((claim_lease owner none minted ttl now table).0.is_claimed ≡ false)
        × (attempt env owner minted ttl now force guard_target table
            ≡ (none, (claim_lease owner none minted ttl now table).1))
      ⊎ ((claim_lease owner none minted ttl now table).0.is_claimed ≡ true)
        × (attempt env owner minted ttl now force guard_target table
            ≡ claimed_attempt env minted now force guard_target
                (claim_lease owner none minted ttl now table).1)
unfolding attempt
attempt-cases env owner minted ttl now force guard_target table =
    elim (Bool-cases (claim_lease owner none minted ttl now table).0.is_claimed) [
      | inl e ↦ inr (e, rw (e, claim-token owner minted ttl now table) refl)
      | inr e ↦ inl (e, rw e refl)
    ]
