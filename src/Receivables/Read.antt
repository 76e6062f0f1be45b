-- ===== src/Receivables/Read.antt =====
-- The API view of a receivable (`receivable_read` of services/receivables.py).
use financial_dashboard.Prelude.{
  ℕ, Bool, true, false, ◌&&◌, Option, String, List, [], ◌∷◌, ◌==◌, leb, if◌then◌else◌, is_some,
}
use financial_dashboard.Prelude.Int.{ℤ, sub_ℕ}
use financial_dashboard.Receivables.Store.{
  ReceivableKind, ReceivableStatus, is_payment, Transaction, Receivable, Link, Store,
  get_transaction, paid_by,
}

pub record ReceivableRead : Type 0 where
  pub id : ℕ
  pub kind : ReceivableKind
  pub person : String
  pub amount : ℕ
  pub note : Option String
  pub status : ReceivableStatus
  pub closed_at : Option ℕ
  pub paid : ℕ
  pub outstanding : ℤ
  pub charge_transaction_ids : List ℕ
  pub payment_transaction_ids : List ℕ

-- The place of an id in the sorted list.
unfoldable pub insert_id : ℕ → List ℕ → List ℕ
insert_id i [] = i ∷ []
insert_id i (j ∷ is) = if leb i j then i ∷ j ∷ is else j ∷ insert_id i is

-- `role` is asked for payments (`true`) or charges. A link whose row is gone is left out.
abbrev pub shows : List Transaction → ℕ → Bool → Link → Bool
shows ts r pay l =
    l.receivable_id == r
    && ((if pay then is_payment l.role else (if is_payment l.role then false else true))
        && is_some (get_transaction l.transaction_id ts))

unfoldable pub linked_ids : List Transaction → ℕ → Bool → List Link → List ℕ
unfolding insert_id get_transaction
linked_ids ts r pay [] = []
linked_ids ts r pay (l ∷ ls) =
    let rest = linked_ids ts r pay ls in
    if shows ts r pay l then insert_id l.transaction_id rest else rest

unfoldable pub receivable_read : Store → Receivable → ReceivableRead
unfolding paid_by linked_ids
receivable_read s r = record {
  id = r.id;
  kind = r.kind;
  person = r.person;
  amount = r.amount;
  note = r.note;
  status = r.status;
  closed_at = r.closed_at;
  paid = paid_by s.transactions r.id s.links;
  outstanding = sub_ℕ r.amount (paid_by s.transactions r.id s.links);
  charge_transaction_ids = linked_ids s.transactions r.id false s.links;
  payment_transaction_ids = linked_ids s.transactions r.id true s.links;
}
