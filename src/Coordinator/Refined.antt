-- ===== src/Coordinator/Refined.antt =====
-- The attempt of services/paisa/coordinator.py refines the world of the sync state.
use financial_dashboard.Prelude.{
  ℕ, ◌≡◌, refl, ◌∙◌, sym, ap, Bool, false, Bool-cases, Option, none, some, Option-cases, String,
  inl, inr, eq_iff, arith, ◌&&◌, not,
}
use financial_dashboard.Sync.Row.{
  SyncStateSnapshot, DiagnosisState, capture_target, read_sync_state,
}
use financial_dashboard.Sync.Backoff.{backoff_minutes}
use financial_dashboard.Sync.Complete.{
  known, record_published_hash, record_hash_noop, record_accepted_post, record_diagnosis,
  record_pre_post_failure,
}
use financial_dashboard.Sync.Eligibility.{should_skip_remote_post}
use financial_dashboard.Sync.World.{World, note, Step, here, next}
use financial_dashboard.Coordinator.{
  AttemptResult, PreflightReport, GenerateResult, RemoteSyncReport, is_guard, guard_outcome_token,
  done, pure, commit, ◌>>◌, Surroundings, pause, before_preflight, before_capture, before_generate,
  before_checkpoint, before_read, before_decide, before_post, before_record, before_diagnosis,
  before_release,
}
use financial_dashboard.Coordinator.Stages.{
  outcome_or_error, record_preflight_outcome, record_generate_outcome, record_remote_outcome,
  post_and_record, decide_remote, deliver, published_of, after_generate, capture_and_generate,
  run_attempt_stages, read_row, capture_revision,
}
use financial_dashboard.Coordinator.Attempt.{
  claimed_attempt, attempt, result_of, finally_release-cases, attempt-cases,
}
use financial_dashboard.Sync.Lease.{token_or_new, claim_lease, release_lease}
use financial_dashboard.Coordinator.Refines.{
  Reach-trans, Refines, Others, Refines-pure, Refines-stage, Refines->>=, Refines-commit,
  Refines-pause, Steps, Reaches, Refines-Steps, Steps->>=, Steps-answered,
}

-- The run's outcome is not a guard: an attempt consumes the revision of its tick for a guard, which
-- is no target that it captured.
pub record Proceeds (env : Surroundings) : Type 0 where
  pub at_preflight :
      (pre : PreflightReport)
      → env.preflight ≡ done pre
      → pre.is_ok ≡ false
      → is_guard (outcome_or_error pre.outcome) ≡ false
  pub at_generate :
      (g : GenerateResult)
      → env.generate ≡ done g
      → published_of g ≡ none
      → guard_outcome_token g.reason ≡ none

module _ (token : String) (now : ℕ) (env : Surroundings) (others : Others env token) where
  failure-Refines :
      {o : Option ℕ}
      → Refines token o (commit (record_pre_post_failure token now backoff_minutes)) (λ _. o)
  failure-Refines =
      Refines-commit token (record_pre_post_failure token now backoff_minutes)
        (λ w h. Step.failure token now backoff_minutes)

  diagnosed-Refines :
      (state : DiagnosisState) (hash : Option String) (target : ℕ) (body_hash : String)
      (result : AttemptResult)
      → Refines token
          (some target)
          (do
            commit (record_accepted_post target body_hash token now)
            pause env before_diagnosis
            commit (record_diagnosis (known state) token hash now backoff_minutes)
            pure result)
          (λ _. some target)
  diagnosed-Refines state hash target body_hash result =
      Refines->>= token _ _
        (Refines-commit token (record_accepted_post target body_hash token now)
          (λ w h. Step.accepted_post target body_hash token now h))
        (λ _. Refines->>= token _ _ (Refines-pause token env before_diagnosis others) (λ _.
          Refines->>= token _ _
            (Refines-commit token _
              (λ w h. Step.diagnosis (known state) token hash now backoff_minutes))
            (λ _. Refines-pure token _)))

  read_row-Refines : {o : Option ℕ} → Refines token o read_row (λ _. o)
  read_row-Refines w h = record { world = w; path = here; same = refl; noted = λ a e. h }

  capture_revision-Refines :
      {o : Option ℕ} → Refines token o (capture_revision now) (λ target. some target)
  unfolding note
  capture_revision-Refines w h = record {
    world = record w {
      table = (capture_target now w.table).1;
      captured = note token (capture_target now w.table).0.0 w.captured;
    };
    path = next here (Step.capture token now);
    same = refl;
    noted = λ a e. ground (arith, eq_iff token token);
  }

  record_remote_outcome-Refines :
      (remote : RemoteSyncReport) (body_hash : String) (emitted target : ℕ)
      → Refines token
          (some target)
          (record_remote_outcome token now env remote body_hash emitted target)
          (λ _. some target)
  unfolding record_remote_outcome
  record_remote_outcome-Refines remote body_hash emitted target =
      elim (Bool-cases remote.post_accepted) [
        | inl e ↦ rw e (diagnosed-Refines _ _ target body_hash _)
        | inr e ↦ rw e (Refines->>= token _ _ failure-Refines (λ _. Refines-pure token _))
      ]

  decide_remote-Refines :
      (force : Bool) (body_hash : String) (emitted target : ℕ) (snap : Option SyncStateSnapshot)
      → Refines token
          (some target)
          (decide_remote token now env force body_hash emitted target snap)
          (λ _. some target)
  unfolding decide_remote post_and_record
  decide_remote-Refines force body_hash emitted target none = Refines-pure token _
  decide_remote-Refines force body_hash emitted target (some snap) =
      elim (Bool-cases (not force && should_skip_remote_post (some body_hash) snap)) [
        | inl e ↦ rw e (
            Refines->>= token _ _ (Refines-pause token env before_decide others) (λ _.
              Refines->>= token _ _
                (Refines-commit token (record_hash_noop target token now)
                  (λ w h. Step.noop target token now h))
                (λ _. Refines-pure token _)))
        | inr e ↦ rw e (
            Refines->>= token _ _ (Refines-pause token env before_post others) (λ _.
              Refines->>= token _ _ (Refines-stage token env.sync_remote) (λ remote.
                Refines->>= token _ _ (Refines-pause token env before_record others)
                  (λ _. record_remote_outcome-Refines remote body_hash emitted target))))
      ]

  deliver-Refines :
      (force : Bool) (target : ℕ) (published : String × ℕ)
      → Refines token
          (some target)
          (deliver token now env force target published)
          (λ _. some target)
  unfolding deliver read_sync_state
  deliver-Refines force target (body_hash, emitted) =
      Refines->>= token _ _
        (Refines-commit token (record_published_hash body_hash token)
          (λ w h. Step.published body_hash token))
        (λ _. Refines->>= token _ _ (Refines-pause token env before_read others) (λ _.
          Refines->>= token _ _ read_row-Refines
            (λ snap. decide_remote-Refines force body_hash emitted target snap)))

  record_generate_outcome-Refines :
      (g : GenerateResult) (guard_target : ℕ) {o : Option ℕ}
      → guard_outcome_token g.reason ≡ none
      → Refines token o (record_generate_outcome token now g guard_target) (λ _. o)
  unfolding record_generate_outcome
  record_generate_outcome-Refines g guard_target h =
      rw (h, record_generate_outcome)
        (Refines->>= token _ _ failure-Refines (λ _. Refines-pure token _))

  record_preflight_outcome-Refines :
      (pre : PreflightReport) (guard_target : ℕ) {o : Option ℕ}
      → is_guard (outcome_or_error pre.outcome) ≡ false
      → Refines token o (record_preflight_outcome token now pre guard_target) (λ _. o)
  unfolding record_preflight_outcome
  record_preflight_outcome-Refines pre guard_target h =
      rw h (Refines->>= token _ _ failure-Refines (λ _. Refines-pure token _))

  after_generate-Refines :
      (force : Bool) (guard_target target : ℕ) (g : GenerateResult)
      → (published_of g ≡ none → guard_outcome_token g.reason ≡ none)
      → Refines token
          (some target)
          (after_generate token now env force guard_target target g)
          (λ _. some target)
  unfolding after_generate
  after_generate-Refines force guard_target target g h = elim (Option-cases (published_of g)) [
    | inl e ↦ rw (e, after_generate) (record_generate_outcome-Refines g guard_target (h e))
    | inr (published, e) ↦ rw (e, after_generate) (deliver-Refines force target published)
  ]

  capture_and_generate-Steps :
      (force : Bool) (guard_target : ℕ) {o : Option ℕ}
      → Proceeds env
      → Steps token o (capture_and_generate token now env force guard_target)
  unfolding capture_and_generate
  capture_and_generate-Steps force guard_target p =
      Steps->>= token _ _ capture_revision-Refines (λ target.
        Steps->>= token _ _ (Refines-pause token env before_generate others) (λ _.
          Steps-answered token env.generate _ (λ g e.
            Steps->>= token _ _ (Refines-pause token env before_checkpoint others) (λ _.
              Refines-Steps token _
                (after_generate-Refines force guard_target target g (p.at_generate g e))))))

  pub run_attempt_stages-Steps :
      (force : Bool) (guard_target : ℕ) {o : Option ℕ}
      → Proceeds env
      → Steps token o (run_attempt_stages token now env force guard_target)
  unfolding run_attempt_stages
  run_attempt_stages-Steps force guard_target {o} p =
      Steps->>= token _ _ (Refines-pause token env before_preflight others) (λ _.
        Steps-answered token env.preflight _ (λ pre e.
          Steps->>= token _ _ (Refines-pause token env before_capture others) (λ _.
            elim (Bool-cases pre.is_ok) [
              | inl is_ok ↦ rw is_ok (capture_and_generate-Steps force guard_target p)
              | inr bad ↦ rw bad (
                  Refines-Steps token _
                    (record_preflight_outcome-Refines pre guard_target (p.at_preflight pre e bad)))
            ])))

claimed-Steps :
    (env : Surroundings) (token : String) (now : ℕ) (force : Bool) (guard_target : ℕ) (w : World)
    {o : Option ℕ}
    → Proceeds env
    → Others env token
    → w.captured token ≡ o
    → Reaches w (claimed_attempt env token now force guard_target w.table).1
unfolding claimed_attempt
claimed-Steps env token now force guard_target w p others h =
    let run = run_attempt_stages-Steps token now env others force guard_target p w h in
    let (v, steps) = others before_release run.world in
    let same = steps.1 ∙ ap (env.between before_release) run.same in
    let (outcome, ended) = run_attempt_stages token now env force guard_target w.table in
    elim (finally_release-cases env token (result_of outcome) ended) [
      | inl (none_strikes, e) ↦ (
        record v { table = (release_lease token v.table).1 },
        (
          next (Reach-trans run.path steps.0) (Step.release token),
          ap (λ t. (release_lease token t).1) same ∙ sym (ap (λ x. x.1) e),
        ),
      )
      | inr (x, (strikes, e)) ↦ (v, (Reach-trans run.path steps.0, same ∙ sym (ap (λ x. x.1) e)))
    ]

-- An attempt that no guard ends is a sequence of the sync state's steps: from every world in which
-- nothing is captured under the token that it mints, with what others do between its transactions
-- being such steps too, whatever the stages answer or raise and wherever the attempt is cut off, a
-- world is reached whose table is the one that the attempt leaves. In a world reached from the
-- seeded table, that table is valid by `Reach-IsSafe`.
pub attempt_refines_world :
    (env : Surroundings) (owner minted : String) (ttl now : ℕ) (force : Bool) (guard_target : ℕ)
    (w : World)
    → Proceeds env
    → Others env minted
    → w.captured minted ≡ none
    → Reaches w (attempt env owner minted ttl now force guard_target w.table).1
unfolding token_or_new
attempt_refines_world env owner minted ttl now force guard_target w p others fresh =
    let step = next here (Step.claim owner none minted ttl now fresh) in
    elim (attempt-cases env owner minted ttl now force guard_target w.table) [
      | inl (lost, e) ↦ (_, (step, sym (ap (λ x. x.1) e)))
      | inr (won, e) ↦
          (let (v, steps) =
              claimed-Steps env minted now force guard_target
                (record w { table = (claim_lease owner none minted ttl now w.table).1 }) p others
                fresh in
            (v, (Reach-trans step steps.0, steps.1 ∙ sym (ap (λ x. x.1) e))))
    ]
