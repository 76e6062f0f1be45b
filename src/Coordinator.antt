-- ===== src/Coordinator.antt =====
-- The data of the coordinator (services/paisa/coordinator.py), the reports of its orchestrator
-- stages (services/paisa/orchestrator.py), and the sequence of short transactions that a run is. A
-- reason is a text as the codes of its characters.
pub mod Audit
pub mod Stages
pub mod Attempt
pub mod Tick
pub mod Manual
pub mod Refines
pub mod Refined
pub mod Release
pub mod Notify
pub mod Rest
mod Tests
pub mod Guard
pub mod Wait
use financial_dashboard.Prelude.{
  ℕ, zero, suc, Bool, true, false, ◌||◌, Option, none, some, String, List, [], ◌∷◌, if◌then◌else◌,
}
use financial_dashboard.Masks.Chars.{Text}
use financial_dashboard.Linker.Texts.{lower, contains}
use financial_dashboard.Sync.Row.{
  DiagnosisState, healthy, accepted, fatal, unknown, Table, Error, lease_stale, value_error, Result,
  ok, err,
}

-- The outcomes of a stage (`SyncOutcome`) and of an attempt.
pub data OutcomeName : Type 0 where
  synced readonly unsupported_backend unreachable publish_failed sync_rejected : OutcomeName
  diagnosis_failed not_configured connect_only disabled : OutcomeName
  error stale_lease no_state skipped_unchanged generate_failed : OutcomeName

pub data Status : Type 0 where
  success failure skipped : Status

unfoldable pub is_guard : OutcomeName → Bool
is_guard disabled = true
is_guard connect_only = true
is_guard not_configured = true
is_guard _ = false

unfoldable pub is_failure : OutcomeName → Bool
is_failure unreachable = true
is_failure readonly = true
is_failure unsupported_backend = true
is_failure publish_failed = true
is_failure sync_rejected = true
is_failure diagnosis_failed = true
is_failure generate_failed = true
is_failure error = true
is_failure _ = false

-- `details` is kept in the audit row only, and is not modelled.
pub record AttemptResult : Type 0 where
  pub status : Status
  pub outcome : OutcomeName
  pub output_hash : Option String
  pub emitted_count : Option ℕ
  pub failed_with : Option Text
  pub notify_failure : Bool

pub record PreflightReport : Type 0 where
  pub is_ok : Bool
  pub outcome : Option OutcomeName
  pub reason : Option Text

-- `published` is there when the report and the publish result both are: the hash of the body and
-- the count of entries.
pub record GenerateResult : Type 0 where
  pub is_ok : Bool
  pub published : Option (String × ℕ)
  pub reason : Option Text

pub record RemoteSyncReport : Type 0 where
  pub is_ok : Bool
  pub outcome : OutcomeName
  pub post_accepted : Bool
  pub diagnosis_ok : Option Bool
  pub reason : Option Text
  pub diagnosis_accepted : Option ℕ

-- The words that `_guard_outcome_token` looks for, as they are spelled in a lowered text.
abbrev pub word_disabled : Text
word_disabled = 100 ∷ 105 ∷ 115 ∷ 97 ∷ 98 ∷ 108 ∷ 101 ∷ 100 ∷ []

abbrev pub word_connect_only : Text
word_connect_only = 99 ∷ 111 ∷ 110 ∷ 110 ∷ 101 ∷ 99 ∷ 116 ∷ 95 ∷ 111 ∷ 110 ∷ 108 ∷ 121 ∷ []

abbrev pub word_not_configured : Text
word_not_configured =
    110 ∷ 111 ∷ 116 ∷ 95 ∷ 99 ∷ 111 ∷ 110 ∷ 102 ∷ 105 ∷ 103 ∷ 117 ∷ 114 ∷ 101 ∷ 100 ∷ []

abbrev pub word_generated_path : Text
word_generated_path =
    103 ∷ 101 ∷ 110 ∷ 101 ∷ 114 ∷ 97 ∷ 116 ∷ 101 ∷ 100 ∷ 95 ∷ 112 ∷ 97 ∷ 116 ∷ 104 ∷ []

abbrev pub word_cutover : Text
word_cutover = 99 ∷ 117 ∷ 116 ∷ 111 ∷ 118 ∷ 101 ∷ 114 ∷ []

abbrev pub word_selected_account : Text
word_selected_account =
    115 ∷ 101 ∷ 108 ∷ 101 ∷ 99 ∷ 116 ∷ 101 ∷ 100 ∷ 32 ∷ 97 ∷ 99 ∷ 99 ∷ 111 ∷ 117 ∷ 110 ∷ 116 ∷ []

-- `(reason or "").lower()`, and an empty text is no token.
unfoldable pub guard_outcome_token : Option Text → Option OutcomeName
unfolding lower contains
guard_outcome_token none = none
guard_outcome_token (some []) = none
guard_outcome_token (some (c ∷ cs)) =
    let text = lower (c ∷ cs) in
    if contains word_disabled text
    then some disabled
    else if contains word_connect_only text
    then some connect_only
    else if contains word_not_configured text
        || contains word_generated_path text
        || contains word_cutover text
        || contains word_selected_account text
    then some not_configured
    else none

-- `(remote.diagnosis_accepted or 0) > 0`
unfoldable pub any_accepted : Option ℕ → Bool
any_accepted none = false
any_accepted (some zero) = false
any_accepted (some (suc n)) = true

unfoldable pub classify_diagnosis : RemoteSyncReport → String → DiagnosisState × Option String
unfolding any_accepted
classify_diagnosis remote body_hash = elim remote.diagnosis_ok [
  | some true ↦
      (if any_accepted remote.diagnosis_accepted then accepted else healthy, some body_hash)
  | some false ↦ (fatal, none)
  | none ↦ (unknown, none)
]

-- What ends a run early: the lease is lost, the attempt's timeout, the cancellation of the task, or
-- another exception, with its type and message.
pub data Exception : Type 0 where
  stale timed_out cancelled : Exception
  raised : Text → Exception

pub data Outcome (A : Type 0) : Type 0 where
  done : A → Outcome A
  failed : Exception → Outcome A

-- A run: transactions on the table, one after the other, until one of them or a stage raises. What
-- is committed by then stays.
abbrev pub Run : Type 0 → Type 0
Run A = Table → Outcome A × Table

abbrev pub then_run : {A B : Type 0} → Outcome A × Table → (A → Run B) → Outcome B × Table
then_run (done a, table) f = f a table
then_run (failed e, table) f = (failed e, table)

infixl 5 ◌>>=◌ ◌>>◌
abbrev pub ◌>>=◌ : {A B : Type 0} → Run A → (A → Run B) → Run B
◌>>=◌ m f table = then_run (m table) f

abbrev pub ◌>>◌ : {A B : Type 0} → Run A → Run B → Run B
m >> k = m >>= λ _. k

abbrev pub pure : {A : Type 0} → A → Run A
pure a table = (done a, table)

-- One transaction, which raises what its statement raises.
abbrev pub committed : {A : Type 0} → Result A × Table → Outcome A × Table
committed (ok a, table) = (done a, table)
committed (err lease_stale, table) = (failed stale, table)
committed (err value_error, table) = (failed (raised []), table)

abbrev pub commit : {A : Type 0} → (Table → Result A × Table) → Run A
commit op table = committed (op table)

-- The places of a run between two of its transactions, where other processes commit, the heartbeat
-- renews the lease, and where the timeout or another exception may strike.
pub data Site : Type 0 where
  before_preflight before_capture before_generate before_checkpoint : Site
  before_read before_decide before_post before_record before_diagnosis before_release : Site

-- What a stage that may raise answers, without touching the table.
abbrev pub stage : {A : Type 0} → Outcome A → Run A
stage o table = (o, table)

-- The orchestrator's stages as they answer in this run, what others commit at each place, and what
-- strikes there.
pub record Surroundings : Type 0 where
  pub preflight : Outcome PreflightReport
  pub generate : Outcome GenerateResult
  pub sync_remote : Outcome RemoteSyncReport
  pub between : Site → Table → Table
  pub strike : Site → Option Exception

unfoldable pub pause : Surroundings → Site → Run Unit
pause env site table =
    (elim (env.strike site) [ none ↦ done tt | some e ↦ failed e ], env.between site table)
