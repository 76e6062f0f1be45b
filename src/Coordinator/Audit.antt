-- ===== src/Coordinator/Audit.antt =====
-- The audit rows of automatic runs (services/paisa/audit.py) and the fingerprint that keeps a
-- failure from being notified twice (services/paisa/coordinator.py). `digest` stands for the
-- SHA-256 of the outcome and the error.
use financial_dashboard.Prelude.{
  ℕ, zero, suc, ◌-◌, Bool, ◌&&◌, not, Option, none, some, String, str_eq, List, [], ◌∷◌, ◌++◌,
  false, length, ltb, ◌==◌, if◌then◌else◌,
}
use financial_dashboard.Masks.Chars.{Text, is_space}
use financial_dashboard.Coordinator.{Status, OutcomeName, AttemptResult}

abbrev pub max_error_len : ℕ
max_error_len = 2000

-- `text[:n]`
unfoldable pub take_text : ℕ → Text → Text
take_text zero s = []
take_text (suc n) [] = []
take_text (suc n) (c ∷ s) = c ∷ take_text n s

unfoldable pub with_word : Text → List Text → List Text
with_word [] ws = ws
with_word (c ∷ w) ws = (c ∷ w) ∷ ws

-- `text.split()`, the words between runs of white space: the word that the text begins with, and
-- the words after it.
unfoldable pub split_words : Text → Text × List Text
unfolding is_space with_word
split_words [] = ([], [])
split_words (c ∷ s) =
    let (word, rest) = split_words s in
    if is_space c then ([], with_word word rest) else (c ∷ word, rest)

unfoldable pub words : Text → List Text
unfolding split_words with_word
words s = with_word (split_words s).0 (split_words s).1

-- `" ".join(words)`
unfoldable pub join_words : List Text → Text
join_words [] = []
join_words (w ∷ []) = w
join_words (w ∷ v ∷ vs) = w ++ 32 ∷ join_words (v ∷ vs)

abbrev pub dots : Text
dots = 46 ∷ 46 ∷ 46 ∷ []

unfoldable pub sanitize_text : Text → Text
unfolding words join_words take_text
sanitize_text text =
    let collapsed = join_words (words text) in
    if ltb max_error_len (length collapsed)
    then take_text (max_error_len - 3) collapsed ++ dots
    else collapsed

unfoldable pub sanitize_error : Option Text → Option Text
unfolding sanitize_text
sanitize_error none = none
sanitize_error (some text) = some (sanitize_text text)

-- A row of `extension_runs` by the coordinator. `notify_fp` and `notify_sent` are the two keys of
-- its `details` that the coordinator reads or writes.
pub record ExtensionRun : Type 0 where
  pub id : ℕ
  pub status : Status
  pub outcome : OutcomeName
  pub output_hash : Option String
  pub emitted_count : Option ℕ
  pub failed_with : Option Text
  pub notify_fp : Option String
  pub notify_sent : Option Bool

-- The automatic runs are a list, the newest first. `last_run` and `_notify_fp_from_run` in one: an
-- empty fingerprint is none.
unfoldable pub notify_fp_from_last : List ExtensionRun → Option String
notify_fp_from_last [] = none
notify_fp_from_last (run ∷ runs) = elim run.notify_fp [
  | none ↦ none
  | some fp ↦ if str_eq fp "" then none else some fp
]

-- What `_maybe_notify_failure` asks: the opt-in, a configured bot, and that the send does not raise.
pub record Notifier : Type 0 where
  pub is_enabled : Bool
  pub is_configured : Bool
  pub sends : Bool

unfoldable pub maybe_notify_failure : Notifier → Bool
maybe_notify_failure n = n.is_enabled && n.is_configured && n.sends

unfoldable pub is_same_fp : String → Option String → Bool
is_same_fp fp none = false
is_same_fp fp (some previous) = str_eq previous fp

-- `start_run` and `complete_run`, in one transaction.
unfoldable pub complete_run :
    ℕ → AttemptResult → Option String → List ExtensionRun → List ExtensionRun
unfolding sanitize_error
complete_run run_id result fp runs =
    record {
      id = run_id;
      status = result.status;
      outcome = result.outcome;
      output_hash = result.output_hash;
      emitted_count = result.emitted_count;
      failed_with = sanitize_error result.failed_with;
      notify_fp = fp;
      notify_sent = none;
    }
    ∷ runs

unfoldable pub stamp_notify_sent : ℕ → Bool → List ExtensionRun → List ExtensionRun
stamp_notify_sent run_id sent [] = []
stamp_notify_sent run_id sent (run ∷ runs) =
    (if run.id == run_id then record run { notify_sent = some sent } else run)
    ∷ stamp_notify_sent run_id sent runs

-- `_failure_fingerprint` is the digest.
module _ (digest : OutcomeName → Option Text → String) where
  unfoldable pub should_notify : AttemptResult → Option String → Bool
  unfolding is_same_fp
  should_notify result previous_fp =
      result.notify_failure
      && not (is_same_fp (digest result.outcome result.failed_with) previous_fp)

  -- The end of `_attempt`: the audit row, the message, and the flag on the row. Other runs that
  -- begin in between are `others`. The first part says whether a message was sent.
  unfoldable pub finish_attempt :
      Notifier
      → (List ExtensionRun → List ExtensionRun)
      → ℕ
      → Option String
      → AttemptResult
      → List ExtensionRun
      → Bool × List ExtensionRun
  unfolding should_notify complete_run maybe_notify_failure stamp_notify_sent
  finish_attempt notifier others run_id previous_fp result runs =
      let fp = digest result.outcome result.failed_with in
      let written =
        others
          (complete_run run_id result (if result.notify_failure then some fp else none) runs) in
      let sent = should_notify result previous_fp && maybe_notify_failure notifier in
      (sent, if result.notify_failure then stamp_notify_sent run_id sent written else written)
