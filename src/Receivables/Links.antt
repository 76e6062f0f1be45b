-- ===== src/Receivables/Links.antt =====
-- Creating a receivable, adding and removing a link (services/receivables.py).
use financial_dashboard.Prelude.{
  ℕ, Bool, true, false, ◌&&◌, not, Option, none, some, String, List, [], ◌∷◌, ◌++◌, ◌==◌, str_eq,
  if◌then◌else◌,
}
use financial_dashboard.Receivables.Store.{
  ReceivableKind, ReceivableRole, charge, payment, opened, same_direction, is_payment,
  role_direction, Transaction, Receivable, Link, IdentifierCall, learn, Store, not_found,
  wrong_direction, not_inr, is_voided, listed_twice, conflict, Result, ok, err, get_transaction,
  put_receivable, next_id, is_unique, settle_if_paid,
}

-- `(txn.currency or "INR") != "INR"`: an empty currency counts as INR.
unfoldable pub foreign_currency : Option String → Bool
foreign_currency none = false
foreign_currency (some c) = not (str_eq c "") && not (str_eq c "INR")

-- `_linkable`, once the row is loaded.
unfoldable pub check_row : ReceivableKind → ReceivableRole → Option Transaction → Result Transaction
unfolding role_direction foreign_currency
check_row kind role none = err not_found
check_row kind role (some t) =
    if same_direction t.direction (role_direction kind role)
    then (if foreign_currency t.currency
        then err not_inr
        else (if t.voided then err is_voided else ok t))
    else err wrong_direction

unfoldable pub linkable : ℕ → ReceivableKind → ReceivableRole → Store → Result Transaction
unfolding check_row get_transaction
linkable i kind role s = check_row kind role (get_transaction i s.transactions)

-- The body of a create request.
pub record ReceivableCreate : Type 0 where
  pub kind : ReceivableKind
  pub person : String
  pub amount : ℕ
  pub note : Option String
  pub charge_transaction_ids : List ℕ
  pub payment_transaction_ids : List ℕ

abbrev pub Wanted : Type 0
Wanted = ℕ × ReceivableRole

unfoldable pub with_role : ReceivableRole → List ℕ → List Wanted
with_role role [] = []
with_role role (i ∷ is) = (i, role) ∷ with_role role is

unfoldable pub wanted : ReceivableCreate → List Wanted
unfolding with_role
wanted p = with_role charge p.charge_transaction_ids ++ with_role payment p.payment_transaction_ids

unfoldable pub lists : ℕ → List Wanted → Bool
lists i [] = false
lists i (w ∷ ws) = if w.0 == i then true else lists i ws

-- `len(ids) != len(set(ids))`
unfoldable pub has_repeat : List Wanted → Bool
unfolding lists
has_repeat [] = false
has_repeat (w ∷ ws) = if lists w.0 ws then true else has_repeat ws

unfoldable pub join_link :
    ℕ → ℕ → ReceivableRole → Result Transaction → Result (List Link) → Result (List Link)
join_link r i role (err e) rest = err e
join_link r i role (ok t) (err e) = err e
join_link r i role (ok t) (ok ls) =
    ok (record { receivable_id = r; transaction_id = i; role = role } ∷ ls)

-- The links, or the error of the first row that does not fit.
unfoldable pub build_links : ReceivableKind → ℕ → List Wanted → Store → Result (List Link)
unfolding linkable join_link
build_links kind r [] s = ok []
build_links kind r ((i, role) ∷ ws) s =
    join_link r i role (linkable i kind role s) (build_links kind r ws s)

unfoldable pub learn_payments : String → List Link → List IdentifierCall
learn_payments person [] = []
learn_payments person (l ∷ ls) =
    let rest = learn_payments person ls in
    if is_payment l.role then learn person l.transaction_id ∷ rest else rest

-- The row before it may settle.
unfoldable pub new_receivable : ReceivableCreate → Store → Receivable
unfolding next_id
new_receivable p s = record {
  id = next_id s.receivables;
  kind = p.kind;
  person = p.person;
  amount = p.amount;
  note = p.note;
  status = opened;
  closed_at = none;
}

-- The receivable with its links added to the session.
unfoldable pub add_receivable : ReceivableCreate → ℕ → List Link → Store → Receivable × Store
unfolding settle_if_paid new_receivable learn_payments
add_receivable p now ls s =
    let r = settle_if_paid s.transactions ls now (new_receivable p s) in
    (
      r,
      record s {
        receivables = s.receivables ++ (r ∷ []);
        links = s.links ++ ls;
        calls = s.calls ++ learn_payments p.person ls;
      },
    )

unfoldable pub add_built :
    ReceivableCreate → ℕ → Store → Result (List Link) → Result (Receivable × Store)
unfolding add_receivable
add_built p now s (err e) = err e
add_built p now s (ok ls) = ok (add_receivable p now ls s)

unfoldable pub build_receivable : ReceivableCreate → ℕ → Store → Result (Receivable × Store)
unfolding wanted has_repeat build_links add_built
build_receivable p now s =
    if has_repeat (wanted p)
    then err listed_twice
    else add_built p now s (build_links p.kind (next_id s.receivables) (wanted p) s)

-- `commit_links`: the commit, or the rollback to the store before, if a unique index refuses a link.
unfoldable pub commit_links : {A : Type 0} → Store → A × Store → Result A × Store
unfolding is_unique
commit_links before (a, s) = if is_unique s.links then (ok a, s) else (err conflict, before)

unfoldable pub commit_or_rollback : {A : Type 0} → Store → Result (A × Store) → Result A × Store
unfolding commit_links
commit_or_rollback before (err e) = (err e, before)
commit_or_rollback before (ok r) = commit_links before r

unfoldable pub create_receivable : ReceivableCreate → ℕ → Store → Result Receivable × Store
unfolding build_receivable commit_or_rollback
create_receivable p now s = commit_or_rollback s (build_receivable p now s)

-- The link of a row that fits, appended to the receivable's.
unfoldable pub append_link : Receivable → ℕ → ReceivableRole → ℕ → Store → Receivable × Store
unfolding settle_if_paid put_receivable
append_link r i role now s =
    let ls = s.links ++ (record { receivable_id = r.id; transaction_id = i; role = role } ∷ []) in
    elim role [
      | charge ↦ (r, record s { links = ls })
      | payment ↦
          let r' = settle_if_paid s.transactions ls now r in
          (
            r',
            record s {
              receivables = put_receivable r' s.receivables;
              links = ls;
              calls = s.calls ++ (learn r.person i ∷ []);
            },
          )
    ]

unfoldable pub attach_loaded :
    Receivable → ℕ → ReceivableRole → ℕ → Store → Result Transaction → Result (Receivable × Store)
unfolding append_link
attach_loaded r i role now s (err e) = err e
attach_loaded r i role now s (ok t) = ok (append_link r i role now s)

unfoldable pub attach_link :
    Receivable → ℕ → ReceivableRole → ℕ → Store → Result (Receivable × Store)
unfolding linkable attach_loaded
attach_link r i role now s = attach_loaded r i role now s (linkable i r.kind role s)

unfoldable pub add_link : Receivable → ℕ → ReceivableRole → ℕ → Store → Result Receivable × Store
unfolding attach_link commit_or_rollback
add_link r i role now s = commit_or_rollback s (attach_link r i role now s)
