-- ===== src/Receivables/Tests.antt =====
-- The ledger of services/receivables.py on a concrete store.
use financial_dashboard.Prelude.{
  ◌+◌, ◌≡◌, refl, true, false, ◌&&◌, ◌||◌, not, none, some, [], ◌∷◌, arith, leb, if◌then◌else◌,
  ◌==◌,
}
use financial_dashboard.Receivables.Store.{
  receivable, charge, payment, opened, settled, debit, credit, Transaction, Receivable, Link, Store,
  conflict, not_found, ok, err, is_unique, has_link, pays, paid_by, get_receivable, get_transaction,
}
use financial_dashboard.Receivables.Links.{
  linkable, create_receivable, build_links, append_link, add_link,
}
use financial_dashboard.Receivables.Edit.{remove_link}
use financial_dashboard.Receivables.Move.{move_receivable_links, moved_links, is_paid_by}
use financial_dashboard.Receivables.Move.Links.{moved_links_lem}
use financial_dashboard.Receivables.Valid.{IsValid, Holds, Call, Calls, payments_count_once}
use financial_dashboard.Receivables.Outcome.{payment_settles}

abbrev spent : Transaction
spent = record { id = 1; direction = debit; amount = 900; currency = none; voided = false }

abbrev first_back : Transaction
first_back = record {
  id = 2;
  direction = credit;
  amount = 400;
  currency = some "INR";
  voided = false;
}

abbrev second_back : Transaction
second_back = record {
  id = 3;
  direction = credit;
  amount = 500;
  currency = some "";
  voided = false;
}

abbrev owed : Receivable
owed = record {
  id = 1;
  kind = receivable;
  person = "asha";
  amount = 900;
  note = none;
  status = opened;
  closed_at = none;
}

abbrev charged : Link
charged = record { receivable_id = 1; transaction_id = 1; role = charge }

abbrev part_paid : Link
part_paid = record { receivable_id = 1; transaction_id = 2; role = payment }

abbrev ledger : Store
ledger = record {
  transactions = spent ∷ first_back ∷ second_back ∷ [];
  receivables = owed ∷ [];
  links = charged ∷ part_paid ∷ [];
  prompts = [];
  deliveries = [];
  calls = [];
}

program : Unit {0}
unfolding linkable add_link create_receivable remove_link move_receivable_links append_link
    is_unique get_receivable paid_by get_transaction is_paid_by build_links
program = tt

-- The second payment settles the receivable; a second link of the first is a conflict; an unknown
-- row is refused.
settles :
    ((add_link owed 3 payment 7 ledger).0
      ≡ ok (record owed { status = settled; closed_at = some 7 }))
    × (add_link owed 2 payment 7 ledger ≡ (err conflict, ledger))
    × (add_link owed 9 charge 7 ledger ≡ (err not_found, ledger))
unfolding program
settles = (refl, refl, refl)

ledger-IsValid : IsValid ledger
unfolding program
ledger-IsValid = record { unique = refl; stamped = (refl, tt) }

fits_second : linkable 3 receivable payment ledger ≡ ok second_back
unfolding program
fits_second = refl

owed_held : Holds ledger owed
unfolding program
owed_held = refl

abbrev paid_ledger : Store
paid_ledger = (add_link owed 3 payment 7 ledger).1

-- The payment is linked, and then its row is merged into the row 2, which pays already.
paid_by_two : is_paid_by 1 2 (move_receivable_links 3 (some 2) 8 paid_ledger).1.links ≡ true
unfolding program
paid_by_two = refl

payments_count_once_example :
    IsValid (move_receivable_links 3 (some 2) 8 paid_ledger).1
    × ((is_paid_by 1 2 (move_receivable_links 3 (some 2) 8 paid_ledger).1.links
          && is_paid_by 2 2 (move_receivable_links 3 (some 2) 8 paid_ledger).1.links
          && not (1 == 2))
        ≡ false)
payments_count_once_example = payments_count_once 1 2 2 ledger-IsValid (
    Calls.next (Calls.next Calls.here (Call.add owed 3 payment 7 owed_held))
      (Call.merge 3 2 8 (omega arith)))

ledger_unique : is_unique ledger.links ≡ true
ledger_unique = ledger-IsValid.unique

moved_links_lem_example :
    (is_unique (moved_links 1 3 ledger.links) ≡ true)
    × (has_link 1 1 (moved_links 1 3 ledger.links) ≡ false)
    × (has_link 1 3 (moved_links 1 3 ledger.links) ≡ (
        has_link 1 3 ledger.links
        || (has_link 1 1 ledger.links && not (is_paid_by 1 1 ledger.links && pays 3 ledger.links))))
    × (has_link 1 2 (moved_links 1 3 ledger.links) ≡ has_link 1 2 ledger.links)
    × (pays 2 (moved_links 1 3 ledger.links) ≡ pays 2 ledger.links)
moved_links_lem_example =
    moved_links_lem 1 3 1 2 ledger.links (omega arith) (omega arith) (omega arith) ledger_unique

links_built :
    build_links receivable 5 ((1, charge) ∷ (3, payment) ∷ []) ledger
    ≡ ok (
        record charged { receivable_id = 5 }
        ∷ record { receivable_id = 5; transaction_id = 3; role = payment }
        ∷ [])
unfolding program
links_built = refl

fresh_row : (has_link 1 3 ledger.links ≡ false) × (pays 3 ledger.links ≡ false)
unfolding program
fresh_row = (refl, refl)

payment_settles_example :
    (r' : Receivable) × (s' : Store) × (add_link owed 3 payment 7 ledger ≡ (ok r', s'))
    × (paid_by s'.transactions 1 s'.links ≡ paid_by ledger.transactions 1 ledger.links + 500)
    × (r' ≡ (
        if true && leb 900 (paid_by ledger.transactions 1 ledger.links + 500)
        then record owed { status = settled; closed_at = some 7 }
        else owed))
payment_settles_example =
    payment_settles owed 3 7 ledger ledger-IsValid fits_second fresh_row.0 fresh_row.1
