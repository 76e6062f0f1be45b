-- ===== src/Cycles/Window.antt =====
-- `cc_cycle_window` and `transactions_in_cycle` of services/cc_cycle.py.
use financial_dashboard.Prelude.{
  ℕ, ◌*◌, Bool, true, false, ◌&&◌, Option, none, some, String, List, [], ◌∷◌, ◌==◌, ltb, leb,
  if◌then◌else◌,
}
use financial_dashboard.Cycles.Anchors.{
  StatementUpload, CycleWindow, Anchor, day_length, date_of, due, boundary, anchors, sort_anchors,
  due_before, due_after, last_due, first_created, is_empty, earliest, group_created,
}

-- A default for an absent value.
abbrev pub or_else : Option ℕ → ℕ → ℕ
or_else none d = d
or_else (some x) d = x

abbrev pub or_option : Option ℕ → Option ℕ → Option ℕ
or_option none o = o
or_option (some x) o = some x

-- Whether an instant is after another, where SQL's NULL is not.
abbrev pub after : Option ℕ → Option ℕ → Bool
after (some t) (some s) = ltb s t
after _ _ = false

-- The first ingestion in the account after an instant.
unfoldable pub next_created : ℕ → Option ℕ → List StatementUpload → Option ℕ
next_created account t [] = none
next_created account t (u ∷ us) =
    let rest = next_created account t us in
    if u.account_id == account && after u.created_at t then earliest u.created_at rest else rest

abbrev pub date_option : Option ℕ → Option ℕ
date_option none = none
date_option (some t) = some (date_of t)

-- The window of a statement without a due date.
unfoldable pub ingestion_window : StatementUpload → ℕ → List StatementUpload → CycleWindow
unfolding next_created
ingestion_window upload now rows = record {
  start = date_of (or_else upload.created_at now);
  end = date_option (next_created upload.account_id upload.created_at rows);
}

-- The window of a statement with a due date, among the sorted anchors of its account.
unfoldable pub due_window : StatementUpload → ℕ → ℕ → List Anchor → CycleWindow
unfolding boundary due_before due_after last_due group_created
due_window upload this_due now xs =
    let prev_due = last_due (due_before this_due xs) in
    let later = due_after this_due xs in
    let created = or_option (group_created this_due xs) upload.created_at in
    record {
      start = or_else (boundary prev_due created) (date_of (or_else upload.created_at now));
      end = if is_empty later then none else boundary (some this_due) (first_created later);
    }

unfoldable pub cc_cycle_window :
    (String → Option ℕ) → StatementUpload → ℕ → List StatementUpload → CycleWindow
unfolding due ingestion_window due_window sort_anchors anchors
cc_cycle_window parse_date upload now rows = elim (due parse_date upload.due_date) [
  | none ↦ ingestion_window upload now rows
  | some d ↦ due_window upload d now (sort_anchors (anchors parse_date upload.account_id rows))
]

-- The columns of a transaction that the predicate reads.
pub record Payment : Type 0 where
  pub transaction_date : Option ℕ
  pub created_at : ℕ

-- Whether a value lies before the end, if there is one.
abbrev pub before_end : ℕ → Option ℕ → Bool
before_end x none = true
before_end x (some e) = ltb x e

-- `datetime.combine` of a date with midnight.
abbrev pub midnight : Option ℕ → Option ℕ
midnight none = none
midnight (some d) = some (d * day_length)

-- `transactions_in_cycle`
unfoldable pub is_in_cycle : CycleWindow → Payment → Bool
is_in_cycle w t = elim t.transaction_date [
  | some d ↦ leb w.start d && before_end d w.end
  | none ↦ leb (w.start * day_length) t.created_at && before_end t.created_at (midnight w.end)
]
