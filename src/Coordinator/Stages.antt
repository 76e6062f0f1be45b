-- ===== src/Coordinator/Stages.antt =====
-- `PaisaCoordinator._run_attempt_stages` and the `_record_*_outcome` methods of
-- services/paisa/coordinator.py.
use financial_dashboard.Prelude.{
  ℕ, Bool, true, false, ◌&&◌, not, Option, none, some, String, if◌then◌else◌,
}
use financial_dashboard.Sync.Row.{
  healthy, accepted, fatal, unknown, SyncStateSnapshot, DiagnosisState, read_sync_state,
  capture_target,
}
use financial_dashboard.Sync.Backoff.{backoff_minutes}
use financial_dashboard.Sync.Complete.{
  known, record_published_hash, record_hash_noop, record_guard_caught_up, record_accepted_post,
  record_diagnosis, record_pre_post_failure,
}
use financial_dashboard.Sync.Eligibility.{should_skip_remote_post}
use financial_dashboard.Coordinator.{
  OutcomeName, error, no_state, skipped_unchanged, generate_failed, Status, success, failure,
  skipped, AttemptResult, PreflightReport, GenerateResult, RemoteSyncReport, is_guard, is_failure,
  guard_outcome_token, classify_diagnosis, done, Run, ◌>>=◌, ◌>>◌, pure, commit, stage,
  Surroundings, pause, before_preflight, before_capture, before_generate, before_checkpoint,
  before_read, before_decide, before_post, before_record, before_diagnosis,
}
use financial_dashboard.Coordinator.Audit.{sanitize_error}

-- `pre.outcome or "error"`
unfoldable pub outcome_or_error : Option OutcomeName → OutcomeName
outcome_or_error none = error
outcome_or_error (some o) = o

-- The result of a run that a guard skipped, and of one that failed before its POST.
abbrev pub skipped_by : OutcomeName → AttemptResult
skipped_by guard = record {
  status = skipped;
  outcome = guard;
  output_hash = none;
  emitted_count = none;
  failed_with = none;
  notify_failure = false;
}

-- `remote.ok and diag_state in (DIAGNOSIS_HEALTHY, DIAGNOSIS_ACCEPTED)`
unfoldable pub is_good : RemoteSyncReport → DiagnosisState → Bool
is_good remote healthy = remote.is_ok
is_good remote accepted = remote.is_ok
is_good remote fatal = false
is_good remote unknown = false

unfoldable pub remote_result : RemoteSyncReport → Bool → String → ℕ → AttemptResult
unfolding is_failure sanitize_error
remote_result remote good body_hash emitted = record {
  status = if good then success else failure;
  outcome = remote.outcome;
  output_hash = some body_hash;
  emitted_count = some emitted;
  failed_with = if good then none else sanitize_error remote.reason;
  notify_failure = not good && is_failure remote.outcome;
}

abbrev pub unchanged_result : OutcomeName → Status → String → ℕ → AttemptResult
unchanged_result outcome status body_hash emitted = record {
  status = status;
  outcome = outcome;
  output_hash = some body_hash;
  emitted_count = some emitted;
  failed_with = none;
  notify_failure = false;
}

-- What was generated, if `generated.ok` holds and its report and publish result are there.
unfoldable pub published_of : GenerateResult → Option (String × ℕ)
published_of generated = if generated.is_ok then generated.published else none

-- The two transactions that never raise: the read of the row, and the capture of the target.
abbrev pub read_row : Run (Option SyncStateSnapshot)
read_row table = (done (read_sync_state table), table)

abbrev pub capture_revision : ℕ → Run ℕ
capture_revision now table = (done (capture_target now table).0.0, (capture_target now table).1)

module _ (token : String) (now : ℕ) where
  unfoldable pub record_preflight_outcome : PreflightReport → ℕ → Run AttemptResult
  unfolding outcome_or_error is_guard is_failure sanitize_error record_guard_caught_up
      record_pre_post_failure
  record_preflight_outcome pre guard_target_revision =
      let outcome = outcome_or_error pre.outcome in
      if is_guard outcome
      then (do
        commit (record_guard_caught_up guard_target_revision token now)
        pure (skipped_by outcome))
      else (do
        commit (record_pre_post_failure token now backoff_minutes)
        pure (record {
          status = failure;
          outcome = outcome;
          output_hash = none;
          emitted_count = none;
          failed_with = sanitize_error pre.reason;
          notify_failure = is_failure outcome;
        }))

  unfoldable pub record_generate_outcome : GenerateResult → ℕ → Run AttemptResult
  unfolding guard_outcome_token sanitize_error record_guard_caught_up record_pre_post_failure
  record_generate_outcome generated guard_target_revision =
      elim (guard_outcome_token generated.reason) [
        | some guard ↦ (do
          commit (record_guard_caught_up guard_target_revision token now)
          pure (skipped_by guard))
        | none ↦ (do
          commit (record_pre_post_failure token now backoff_minutes)
          pure (record {
            status = failure;
            outcome = generate_failed;
            output_hash = none;
            emitted_count = none;
            failed_with = sanitize_error generated.reason;
            notify_failure = true;
          }))
      ]

  unfoldable pub record_remote_outcome :
      Surroundings → RemoteSyncReport → String → ℕ → ℕ → Run AttemptResult
  unfolding classify_diagnosis is_good remote_result pause record_accepted_post record_diagnosis
      record_pre_post_failure
  record_remote_outcome env remote body_hash emitted target_revision =
      if remote.post_accepted
      then (let (diag_state, healthy_hash) = classify_diagnosis remote body_hash in
          do
            commit (record_accepted_post target_revision body_hash token now)
            pause env before_diagnosis
            commit (record_diagnosis (known diag_state) token healthy_hash now backoff_minutes)
            pure (remote_result remote (is_good remote diag_state) body_hash emitted))
      else (do
        commit (record_pre_post_failure token now backoff_minutes)
        pure (remote_result remote false body_hash emitted))

  -- Step 6 and what follows it.
  unfoldable pub post_and_record : Surroundings → String → ℕ → ℕ → Run AttemptResult
  unfolding pause record_remote_outcome
  post_and_record env body_hash emitted target = do
    pause env before_post
    remote ← stage env.sync_remote
    pause env before_record
    record_remote_outcome env remote body_hash emitted target

  -- Step 5, from the row that it read.
  unfoldable pub decide_remote :
      Surroundings → Bool → String → ℕ → ℕ → Option SyncStateSnapshot → Run AttemptResult
  unfolding post_and_record record_hash_noop should_skip_remote_post pause
  decide_remote env force_remote body_hash emitted target none =
      pure (unchanged_result no_state skipped body_hash emitted)
  decide_remote env force_remote body_hash emitted target (some snap) =
      if not force_remote && should_skip_remote_post (some body_hash) snap
      then (do
        pause env before_decide
        commit (record_hash_noop target token now)
        pure (unchanged_result skipped_unchanged success body_hash emitted))
      else post_and_record env body_hash emitted target

  -- Steps 4 to 6, from what was published.
  unfoldable pub deliver : Surroundings → Bool → ℕ → String × ℕ → Run AttemptResult
  unfolding decide_remote pause record_published_hash read_sync_state
  deliver env force_remote target (body_hash, emitted) = do
    commit (record_published_hash body_hash token)
    pause env before_read
    snap ← read_row
    decide_remote env force_remote body_hash emitted target snap

  unfoldable pub after_generate : Surroundings → Bool → ℕ → ℕ → GenerateResult → Run AttemptResult
  unfolding published_of deliver record_generate_outcome
  after_generate env force_remote guard_target_revision target generated =
      elim (published_of generated) [
        | none ↦ record_generate_outcome generated guard_target_revision
        | some published ↦ deliver env force_remote target published
      ]

  unfoldable pub capture_and_generate : Surroundings → Bool → ℕ → Run AttemptResult
  unfolding after_generate pause capture_target
  capture_and_generate env force_remote guard_target_revision = do
    target ← capture_revision now
    pause env before_generate
    generated ← stage env.generate
    pause env before_checkpoint
    after_generate env force_remote guard_target_revision target generated

  unfoldable pub run_attempt_stages : Surroundings → Bool → ℕ → Run AttemptResult
  unfolding capture_and_generate record_preflight_outcome pause
  run_attempt_stages env force_remote guard_target_revision = do
    pause env before_preflight
    pre ← stage env.preflight
    pause env before_capture
    (if pre.is_ok
        then capture_and_generate env force_remote guard_target_revision
        else record_preflight_outcome pre guard_target_revision)
