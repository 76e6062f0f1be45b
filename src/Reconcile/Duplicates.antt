-- ===== src/Reconcile/Duplicates.antt =====
-- `_duplicate_candidates` of services/reconcile.py. The dictionary `alerts` is read at the key of a
-- statement row only, as the rows that are no statement rows and have that key.
use financial_dashboard.Prelude.{
  ℕ, Bool, ◌&&◌, ◌||◌, not, str_eq, List, [], ◌∷◌, ◌++◌, map, keep_if, ◌==◌, leb, if◌then◌else◌,
}
use financial_dashboard.Linker.Texts.{same_text}
use financial_dashboard.Receivables.Store.{same_direction}
use financial_dashboard.Reconcile.{
  Row, distance, pair_window, normalized_currency, same_account, in_range, distinct_references,
}
use financial_dashboard.Reconcile.Pairs.{sort_rows}

-- `r.email_type == "bank_statement"`
unfoldable pub is_statement_row : Row → Bool
is_statement_row r = str_eq r.read.email_type "bank_statement"

-- `key(a) == key(b)`
unfoldable pub same_key : Row → Row → Bool
unfolding same_account normalized_currency same_text
same_key a b =
    same_account a.read.account_id b.read.account_id
    && same_direction a.read.direction b.read.direction
    && same_text (normalized_currency a.read.currency) (normalized_currency b.read.currency)
    && a.read.amount == b.read.amount

unfoldable pub alerts_of : List Row → Row → List Row
unfolding keep_if is_statement_row same_key
alerts_of rows stmt = keep_if (λ r. not (is_statement_row r) && same_key r stmt) rows

unfoldable pub is_candidate : ℕ → ℕ → Row → Row → Bool
unfolding in_range distinct_references
is_candidate date_from date_to stmt alert =
    leb (distance alert.day stmt.day) pair_window
    && (in_range date_from date_to stmt.day || in_range date_from date_to alert.day)
    && not (distinct_references stmt.read.reference_number alert.read.reference_number)

-- The pairs of one statement row.
unfoldable pub candidates_of : ℕ → ℕ → List Row → Row → List (Row × Row)
unfolding alerts_of is_candidate keep_if
candidates_of date_from date_to rows stmt =
    map (λ alert. (stmt, alert))
      (keep_if (is_candidate date_from date_to stmt) (alerts_of rows stmt))

unfoldable pub candidates_in : ℕ → ℕ → List Row → List Row → List (Row × Row)
unfolding candidates_of is_statement_row
candidates_in date_from date_to rows [] = []
candidates_in date_from date_to rows (stmt ∷ rest) =
    let later = candidates_in date_from date_to rows rest in
    if is_statement_row stmt then candidates_of date_from date_to rows stmt ++ later else later

unfoldable pub duplicate_candidates : ℕ → ℕ → List Row → List (Row × Row)
unfolding candidates_in sort_rows
duplicate_candidates date_from date_to rows = candidates_in date_from date_to rows (sort_rows rows)
