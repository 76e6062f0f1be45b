-- ===== src/Reconcile/Tests.antt =====
-- The reconciliation report of services/reconcile.py on concrete rows.
use financial_dashboard.Prelude.{
  ℕ, ◌≡◌, ◌↔◌, refl, true, false, inl, inr, Option, none, some, String, str_eq, List, [], ◌∷◌, In,
  if◌then◌else◌,
}
use financial_dashboard.Prelude.Int.{ℤ, pos, negsuc, ◌+ℤ◌, ◌-ℤ◌}
use financial_dashboard.Receivables.Store.{Direction, debit, credit}
use financial_dashboard.Reconcile.{Row}
use financial_dashboard.Reconcile.Balance.{BankStatementUpload, statement_balance}
use financial_dashboard.Reconcile.Pairs.{pair_legs, is_partner, unpaired_self_transfers}
use financial_dashboard.Reconcile.Duplicates.{is_statement_row, duplicate_candidates}
use financial_dashboard.Reconcile.Paired.{IsMatching, pair_legs_match}
use financial_dashboard.Reconcile.Left.{orphans_have_no_partner}
use financial_dashboard.Reconcile.Candidates.{IsAlert, candidates_lem}

abbrev row : ℕ → ℕ → ℕ → Direction → ℕ → String → Row
row id day account direction amount source = record {
  day = day;
  read = record {
    id = id;
    account_id = some account;
    direction = direction;
    currency = none;
    amount = amount;
    voided = false;
    category = some "self_transfer";
    reference_number = none;
    email_type = source;
  };
}

-- Two debits of account 1 and two credits, of which one is a rupee short and the other too late.
abbrev rows : List Row
rows =
    row 1 10 1 debit 5000 "sms"
    ∷ row 2 11 2 credit 4900 "sms"
    ∷ row 3 12 1 debit 5000 "bank_statement"
    ∷ row 4 20 2 credit 5000 "sms"
    ∷ []

pairs_of_rows : pair_legs rows ≡ (row 1 10 1 debit 5000 "sms", row 2 11 2 credit 4900 "sms") ∷ []
unfolding pair_legs
pairs_of_rows = refl

pair_legs_match_example : IsMatching rows (pair_legs rows)
pair_legs_match_example = pair_legs_match rows

items_of_rows :
    (unpaired_self_transfers 1 30 rows).items
    ≡ row 3 12 1 debit 5000 "bank_statement" ∷ row 4 20 2 credit 5000 "sms" ∷ []
unfolding unpaired_self_transfers
items_of_rows = refl

orphans_have_no_partner_example :
    is_partner (row 3 12 1 debit 5000 "bank_statement") (row 4 20 2 credit 5000 "sms") ≡ false
unfolding unpaired_self_transfers
orphans_have_no_partner_example =
    orphans_have_no_partner 1 30 rows (row 3 12 1 debit 5000 "bank_statement")
      (row 4 20 2 credit 5000 "sms") (inl refl) (inr (inl refl))

abbrev parse_amount : String → Option ℤ
parse_amount text =
    if str_eq text "100.00"
    then some (pos 10000)
    else if str_eq text "1.00"
    then some (pos 100)
    else none

abbrev statement : BankStatementUpload
statement = record {
  id = 1;
  account_id = 1;
  statement_period_start = some "01/01/2026";
  statement_period_end = some "31/01/2026";
  opening_balance = some "100.00";
  closing_balance = some "1.00";
}

-- The debits of 50.00 each leave nothing of the hundred.
gap_of_rows :
    (statement_balance parse_amount (λ t. none) statement (record { start = 1; end = 31 }) rows).gap
    ≡ some (negsuc 99)
unfolding statement_balance ◌-ℤ◌ ◌+ℤ◌
gap_of_rows = refl

candidates_lem_example :
    In {A = Row × Row}
      (row 3 12 1 debit 5000 "bank_statement", row 1 10 1 debit 5000 "sms")
      (duplicate_candidates 1 30 rows)
    ↔ (In (row 3 12 1 debit 5000 "bank_statement") rows
        × (is_statement_row (row 3 12 1 debit 5000 "bank_statement") ≡ true)
        × IsAlert 1 30 rows (row 3 12 1 debit 5000 "bank_statement") (row 1 10 1 debit 5000 "sms"))
candidates_lem_example =
    candidates_lem 1 30 rows (row 3 12 1 debit 5000 "bank_statement") (row 1 10 1 debit 5000 "sms")

candidates_of_rows :
    duplicate_candidates 1 30 rows
    ≡ (row 3 12 1 debit 5000 "bank_statement", row 1 10 1 debit 5000 "sms") ∷ []
unfolding duplicate_candidates
candidates_of_rows = refl
