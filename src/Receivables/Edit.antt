-- ===== src/Receivables/Edit.antt =====
-- Editing a receivable and unlinking a row (services/receivables.py). The request's validator
-- refuses a null amount, person or status, so `none` means that the body does not name the field.
use financial_dashboard.Prelude.{
  ℕ, suc, Bool, false, ◌&&◌, not, Option, none, some, String, List, [], ◌∷◌, ◌++◌, ◌==◌,
  if◌then◌else◌,
}
use financial_dashboard.Receivables.Store.{
  ReceivableStatus, opened, same_status, Receivable, Link, IdentifierCall, rename, Store,
  get_receivable, put_receivable, settle_if_paid,
}

-- `note` is `some none` where the body names a null note.
pub record ReceivableUpdate : Type 0 where
  pub amount : Option ℕ
  pub note : Option (Option String)
  pub status : Option ReceivableStatus
  pub person : Option String

unfoldable pub with_amount : Option ℕ → Receivable → Receivable
with_amount none r = r
with_amount (some a) r = record r { amount = a }

unfoldable pub with_person : Option String → Receivable → Receivable
with_person none r = r
with_person (some p) r = record r { person = p }

unfoldable pub with_note : Option (Option String) → Receivable → Receivable
with_note none r = r
with_note (some n) r = record r { note = n }

-- `payload.amount not in (None, receivable.amount)`
unfoldable pub amount_changed : Option ℕ → Receivable → Bool
amount_changed none r = false
amount_changed (some a) r = not (a == r.amount)

unfoldable pub rename_call : Option String → Receivable → List IdentifierCall
rename_call none r = []
rename_call (some p) r = rename r.id r.person p ∷ []

-- The last step of `apply_update`: a new status stamps or clears `closed_at`; without a status in
-- the body a changed amount may settle.
unfoldable pub update_status : Store → ℕ → Bool → Option ReceivableStatus → Receivable → Receivable
unfolding settle_if_paid
update_status s now changed none r =
    if changed then settle_if_paid s.transactions s.links now r else r
update_status s now changed (some st) r =
    if same_status st r.status
    then r
    else record r { status = st; closed_at = if same_status st opened then none else some now }

unfoldable pub edited : ReceivableUpdate → ℕ → Store → Receivable → Receivable
unfolding with_amount with_person with_note amount_changed update_status
edited p now s r =
    update_status s now (amount_changed p.amount r) p.status
      (with_note p.note (with_person p.person (with_amount p.amount r)))

unfoldable pub apply_update : ReceivableUpdate → ℕ → Receivable → Store → Receivable × Store
unfolding edited rename_call put_receivable
apply_update p now r s =
    let r' = edited p now s r in
    (
      r',
      record s {
        receivables = put_receivable r' s.receivables;
        calls = s.calls ++ rename_call p.person r;
      },
    )

-- `apply_update`, then the commit, which no index refuses: the links stay.
unfoldable pub update_receivable : ReceivableUpdate → ℕ → Receivable → Store → Receivable × Store
unfolding apply_update
update_receivable p now r s = apply_update p now r s

-- `DELETE … WHERE receivable_id AND transaction_id`, and the number of rows deleted.
unfoldable pub delete_links : ℕ → ℕ → List Link → List Link
delete_links r t [] = []
delete_links r t (l ∷ ls) =
    let rest = delete_links r t ls in
    if l.receivable_id == r && l.transaction_id == t then rest else l ∷ rest

unfoldable pub deleted_links : ℕ → ℕ → List Link → ℕ
deleted_links r t [] = 0
deleted_links r t (l ∷ ls) =
    let rest = deleted_links r t ls in
    if l.receivable_id == r && l.transaction_id == t then suc rest else rest

-- `None` and a rollback where the receivable does not link the row. The status stays.
unfoldable pub remove_link : ℕ → ℕ → Store → Option Receivable × Store
unfolding delete_links deleted_links get_receivable
remove_link r t s =
    if deleted_links r t s.links == 0
    then (none, s)
    else (get_receivable r s.receivables, record s { links = delete_links r t s.links })
