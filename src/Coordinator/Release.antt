-- ===== src/Coordinator/Release.antt =====
-- How an attempt of services/paisa/coordinator.py leaves the lease.
use financial_dashboard.Prelude.{
  ℕ, ◌≤◌, ◌≡◌, ◌≢◌, refl, ◌∙◌, ap, sym, subst, ltb, Option-cases, ◌⊎◌, inl, inr, Bool, true, false,
  Bool-cases, none, some, String, arith, eq_iff,
}
use financial_dashboard.Sync.Row.{Table, holds}
use financial_dashboard.Sync.Lease.{
  token_or_new, leased, cleared, is_free, claim_lease, release_lease,
}
use financial_dashboard.Sync.Fencing.{IsStale}
use financial_dashboard.Coordinator.{Exception, Surroundings, before_release}
use financial_dashboard.Coordinator.Stages.{run_attempt_stages}
use financial_dashboard.Coordinator.Attempt.{
  result_of, finally_release-cases, claimed_attempt, attempt, attempt-cases,
}

release-IsStale : (token : String) (table : Table) → IsStale token (release_lease token table).1
unfolding release_lease cleared holds
release-IsStale token none = tt
release-IsStale token (some s) = elim (Bool-cases (holds s token)) [
  | inl e ↦ rw e (λ h. cc)
  | inr e ↦ rw e (λ h. ground (arith, eq_iff token token))
]

lost-table :
    (owner minted : String) (ttl now : ℕ) (table : Table)
    → (claim_lease owner none minted ttl now table).0.is_claimed ≡ false
    → (claim_lease owner none minted ttl now table).1 ≡ table
unfolding claim_lease
lost-table owner minted ttl now none h = refl
lost-table owner minted ttl now (some s) h = elim (Bool-cases (is_free now s)) [
  | inl e ↦ ground arith
  | inr e ↦ rw e refl
]

-- The lease of the table runs until the time or longer.
abbrev pub RunsUntil : ℕ → Table → Type 0
RunsUntil later none = ⊥
RunsUntil later (some s) = (end : ℕ) × ((s.lease_expires_at ≡ some end) × later ≤ end)

lapse_lem :
    (token peer fresh : String) (ttl later : ℕ) (table : Table)
    → fresh ≢ token
    → RunsUntil later table ⊎ IsStale token (claim_lease peer none fresh ttl later table).1
unfolding claim_lease token_or_new leased is_free
lapse_lem token peer fresh ttl later none h = inr tt
lapse_lem token peer fresh ttl later (some s) h = elim (Option-cases s.lease_expires_at) [
  | inl e ↦ rw e (inr (λ k. ground (arith, k, h)))
  | inr (end, e) ↦ elim (Bool-cases (ltb end later)) [
    | inl past ↦ rw (e, past) (inr (λ k. ground (arith, k, h)))
    | inr runs ↦ inl (end, (e, ground (arith, runs)))
  ]
]

-- An attempt does not keep its lease. One that wins the claim tries to release it, however it ends,
-- whatever the stages answer or raise, wherever it times out or is cancelled, and whatever others
-- commit meanwhile. Where nothing strikes the release, the table that it leaves has no lease of its
-- token. Where the release fails or is cancelled, the lease only runs out: at every later time,
-- either the table's lease has not yet expired, or a peer's claim under another token leaves a table
-- in which the attempt's token holds none. One that loses the claim records nothing and leaves the
-- table as it was.
pub attempt_gives_up_lease :
    (env : Surroundings) (owner minted : String) (ttl now : ℕ) (force : Bool) (guard_target : ℕ)
    (table : Table) (peer fresh : String) (peer_ttl later : ℕ)
    → fresh ≢ minted
    → let left = (attempt env owner minted ttl now force guard_target table).1 in
      ((claim_lease owner none minted ttl now table).0.is_claimed ≡ true)
        × (((env.strike before_release ≡ none) × IsStale minted left)
            ⊎ (((e : Exception) × (env.strike before_release ≡ some e))
                × (RunsUntil later left
                    ⊎ IsStale minted (claim_lease peer none fresh peer_ttl later left).1)))
      ⊎ ((claim_lease owner none minted ttl now table).0.is_claimed ≡ false)
        × (attempt env owner minted ttl now force guard_target table ≡ (none, table))
unfolding claimed_attempt
attempt_gives_up_lease env owner minted ttl now force guard_target table peer fresh peer_ttl later
      other =
    elim (attempt-cases env owner minted ttl now force guard_target table) [
      | inl (lost, e) ↦
          inr (lost, e ∙ ap (λ t. (none, t)) (lost-table owner minted ttl now table lost))
      | inr (won, e) ↦ inl (
        won,
        let claimed = (claim_lease owner none minted ttl now table).1 in
            let (outcome, ended) = run_attempt_stages minted now env force guard_target claimed in
            elim (finally_release-cases env minted (result_of outcome) ended) [
              | inl (quiet, f) ↦ inl (
                quiet,
                subst (IsStale minted) (sym (ap (λ x. x.1) (e ∙ f))) (release-IsStale minted _),
              )
              | inr (x, (strikes, f)) ↦
                  inr ((x, strikes), lapse_lem minted peer fresh peer_ttl later _ other)
            ],
      )
    ]
