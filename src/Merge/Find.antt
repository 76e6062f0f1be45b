-- ===== src/Merge/Find.antt =====
-- `find_match` of services/txn_merge.py over the stored rows. The candidates that
-- `_gather_fuzzy_candidates` returns, the row that `_find_am_pm_alias_match` returns and the answers
-- of `qualifies_as_explicit_match` are arguments.
use financial_dashboard.Prelude.{
  ℕ, Bool, false, ◌&&◌, not, Option, none, some, List, [], ◌∷◌, ◌==◌, keep_if, is_some,
  if◌then◌else◌,
}
use financial_dashboard.Prelude.Int.{ℤ}
use financial_dashboard.Masks.Chars.{Text}
use financial_dashboard.Linker.Texts.{same_text}
use financial_dashboard.Receivables.Store.{Direction, same_direction}
use financial_dashboard.Reconcile.{strip}
use financial_dashboard.Merge.{Channel, Transaction, Incoming}
use financial_dashboard.Merge.Diff.{same_balance, is_blank}
use financial_dashboard.Merge.Decide.{
  MatchDecision, insert, matched, defer, reference_amount_mismatch, reference_balance_mismatch,
  multiple_reference_candidates, or_blank, same_option, ids_of, decide,
}

-- A stored row with the columns that its reference is looked up by. An amount is in minor units.
pub record Entry : Type 0 where
  pub bank : Text
  pub direction : Direction
  pub amount : ℕ
  pub row : Transaction

-- `txn_data` with those keys.
pub record Report : Type 0 where
  pub bank : Text
  pub direction : Direction
  pub amount : ℕ
  pub incoming : Incoming

-- What the helpers answer for the message.
pub record Lookups : Type 0 where
  pub gathered : List Transaction
  pub aliased : Option Transaction
  pub qualifies : Entry → Bool

-- The query's WHERE, and its LIMIT 2.
unfoldable pub has_reference : Report → Text → Entry → Bool
unfolding same_text same_option
has_reference report ref e =
    same_text e.bank report.bank
    && same_direction e.direction report.direction
    && same_option e.row.fields.reference_number (some ref)

unfoldable pub first_two : List Entry → List Entry
first_two [] = []
first_two (e ∷ []) = e ∷ []
first_two (e ∷ f ∷ es) = e ∷ f ∷ []

-- Both balances are known, and differ.
unfoldable pub balances_differ : Option ℤ → Option ℤ → Bool
unfolding same_balance
balances_differ none b = false
balances_differ (some a) none = false
balances_differ (some a) (some b) = not (same_balance a b)

-- The only row of the reference.
unfoldable pub decide_hit : Report → Entry → MatchDecision
unfolding balances_differ
decide_hit report e =
    if not (e.amount == report.amount)
    then defer reference_amount_mismatch []
    else if balances_differ report.incoming.fields.balance e.row.fields.balance
    then defer reference_balance_mismatch []
    else matched e.row

unfoldable pub rows_of_entries : List Entry → List Transaction
rows_of_entries [] = []
rows_of_entries (e ∷ es) = e.row ∷ rows_of_entries es

-- The row that the AM/PM retry found.
unfoldable pub decide_alias : Report → Option Transaction → MatchDecision
unfolding balances_differ
decide_alias report none = insert
decide_alias report (some c) =
    if balances_differ report.incoming.fields.balance c.fields.balance then insert else matched c

-- Without candidates, and a message with a date and a time, the retry.
unfoldable pub find_gathered :
    Report → Channel → Option ℕ → Option Transaction → List Transaction → MatchDecision
unfolding decide decide_alias
find_gathered report ch source_id aliased [] =
    if is_some report.incoming.fields.transaction_date
      && is_some report.incoming.fields.transaction_time
    then decide_alias report aliased
    else insert
find_gathered report ch source_id aliased (c ∷ cs) = decide (c ∷ cs) report.incoming ch source_id

-- What the rows of the reference decide, or else the candidates.
unfoldable pub find_by_hits : Report → Channel → Option ℕ → Lookups → List Entry → MatchDecision
unfolding decide_hit find_gathered rows_of_entries keep_if
find_by_hits report ch source_id lookups [] =
    find_gathered report ch source_id lookups.aliased lookups.gathered
find_by_hits report ch source_id lookups (e ∷ []) = decide_hit report e
find_by_hits report ch source_id lookups (e ∷ f ∷ es) =
    defer multiple_reference_candidates
      (ids_of (rows_of_entries (keep_if lookups.qualifies (e ∷ f ∷ es))))

-- `(txn_data.get("reference_number") or "").strip()`
unfoldable pub report_reference : Report → Text
unfolding strip or_blank
report_reference report = strip (or_blank report.incoming.fields.reference_number)

unfoldable pub reference_hits : Report → List Entry → List Entry
unfolding report_reference is_blank first_two has_reference keep_if
reference_hits report entries =
    if is_blank (report_reference report)
    then []
    else first_two (keep_if (has_reference report (report_reference report)) entries)

unfoldable pub find_match : List Entry → Report → Channel → Option ℕ → Lookups → MatchDecision
unfolding find_by_hits reference_hits
find_match entries report ch source_id lookups =
    find_by_hits report ch source_id lookups (reference_hits report entries)
