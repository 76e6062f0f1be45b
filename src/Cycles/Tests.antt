-- ===== src/Cycles/Tests.antt =====
-- The theorems on billing cycles (services/cc_cycle.py) at one card with three statements.
use financial_dashboard.Prelude.{
  ℕ, ◌*◌, ◌≡◌, inl, inr, refl, true, false, ◌&&◌, Option, none, some, String, List, [], ◌∷◌, arith,
  str_eq, if◌then◌else◌,
}
use financial_dashboard.Cycles.Anchors.{StatementUpload, due, anchors, day_length}
use financial_dashboard.Cycles.Window.{cc_cycle_window, Payment, is_in_cycle}
use financial_dashboard.Cycles.Adjacent.{any_due, cycles_are_disjoint, payment_clears_next_bill}

-- Two dates as days from the start of 2026.
abbrev days : String → Option ℕ
days text =
    if str_eq text "05/05/2026"
    then some 124
    else (if str_eq text "05/06/2026" then some 155 else none)

abbrev may : StatementUpload
may = record {
  id = 1;
  account_id = 7;
  created_at = some (110 * day_length);
  due_date = some "05/05/2026";
}

-- The summary of the bill of June, which came before its PDF.
abbrev june : StatementUpload
june = record {
  id = 2;
  account_id = 7;
  created_at = some (140 * day_length);
  due_date = some "05/06/2026";
}

abbrev june_pdf : StatementUpload
june_pdf = record {
  id = 4;
  account_id = 7;
  created_at = some (142 * day_length);
  due_date = some "05/06/2026";
}

-- A statement that could not be read.
abbrev locked : StatementUpload
locked = record { id = 3; account_id = 7; created_at = some (141 * day_length); due_date = none }

abbrev rows : List StatementUpload
rows = june ∷ locked ∷ may ∷ june_pdf ∷ []

abbrev payment_in_june : Payment
payment_in_june = record { transaction_date = some 155; created_at = 160 * day_length }

may_due : due days may.due_date ≡ some 124
unfolding due
may_due = refl

june_due : due days june.due_date ≡ some 155
unfolding due
june_due = refl

june_window : cc_cycle_window days june 0 rows ≡ record { start = 125; end = none }
unfolding cc_cycle_window
june_window = refl

locked_window : cc_cycle_window days locked 0 rows ≡ record { start = 141; end = some 142 }
unfolding cc_cycle_window
locked_window = refl

none_between : any_due 125 155 (anchors days 7 rows) ≡ false
unfolding any_due anchors
none_between = refl

none_from : any_due 130 155 (anchors days 7 rows) ≡ false
unfolding any_due anchors
none_from = refl

cycles_are_disjoint_example :
    (is_in_cycle (cc_cycle_window days may 0 rows) payment_in_june
      && is_in_cycle (cc_cycle_window days june 0 rows) payment_in_june)
    ≡ false
cycles_are_disjoint_example =
    cycles_are_disjoint days may june 0 rows 124 155 payment_in_june (inr (inr (inl refl)))
      (inl refl) refl may_due june_due (omega arith)

payment_clears_next_bill_example :
    is_in_cycle
      (cc_cycle_window days june 0 rows)
      (record { transaction_date = some 130; created_at = 9 })
    ≡ true
payment_clears_next_bill_example =
    payment_clears_next_bill days may june 0 rows 124 155 130 9 (inr (inr (inl refl))) (inl refl)
      refl may_due june_due (omega arith) (omega arith) none_from
