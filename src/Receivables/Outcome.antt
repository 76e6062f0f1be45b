-- ===== src/Receivables/Outcome.antt =====
-- What each call of services/receivables.py answers and leaves.
use financial_dashboard.Prelude.{
  ℕ, ◌+◌, ◌≡◌, refl, true, false, ◌&&◌, ◌||◌, not, Option, none, some, List, [], ◌∷◌, ◌++◌, All,
  arith, subst, ap, ◌==◌, Bool-cases, inl, inr, leb, if◌then◌else◌, ◌⊎◌,
}
use financial_dashboard.Receivables.Store.{
  ReceivableKind, ReceivableRole, charge, payment, settled, opened, Receivable, Transaction, Link,
  Store, Error, conflict, Result, ok, err, same_status, is_payment, has_link, pays, paid_by,
  link_amount, role_direction, get_transaction, settle_if_paid,
}
use financial_dashboard.Receivables.Links.{
  foreign_currency, check_row, linkable, Wanted, join_link, build_links, commit_or_rollback,
  append_link, attach_loaded, attach_link, add_link,
}
use financial_dashboard.Receivables.Edit.{remove_link, deleted_links}
use financial_dashboard.Receivables.Rules.{
  is_unique-append, paid_by-append, has_link-delete_links_lem,
}
use financial_dashboard.Receivables.Valid.{IsValid}

-- The row meets the role: it is there, has the role's direction, is in INR, and is not voided.
pub record Fits (ts : List Transaction) (kind : ReceivableKind) (l : Link) : Type 0 where
  pub row : Transaction
  pub found : get_transaction l.transaction_id ts ≡ some row
  pub direction : row.direction ≡ role_direction kind l.role
  pub inr : foreign_currency row.currency ≡ false
  pub live : row.voided ≡ false

check_row_lem :
    (kind : ReceivableKind) (role : ReceivableRole) (o : Option Transaction) {t : Transaction}
    → check_row kind role o ≡ ok t
    → (o ≡ some t)
      × (t.direction ≡ role_direction kind role)
      × (foreign_currency t.currency ≡ false)
      × (t.voided ≡ false)
unfolding check_row
check_row_lem kind role none h = absurd (ground arith)
check_row_lem kind role (some u) h = ground arith

abbrev pub as_wanted : Link → Wanted
as_wanted l = (l.transaction_id, l.role)

abbrev pub wanted_of : List Link → List Wanted
wanted_of [] = []
wanted_of (l ∷ ls) = as_wanted l ∷ wanted_of ls

ok_injective : {A : Type 0} {a b : A} → ok a ≡ ok b → a ≡ b
ok_injective h = ground arith

-- One round of the loop, from the row's check and the links of the rest.
add_fit :
    (kind : ReceivableKind) (r i : ℕ) (role : ReceivableRole) (ws : List Wanted) (s : Store)
    (checked : Result Transaction) (rest : Result (List Link)) {ls : List Link}
    → linkable i kind role s ≡ checked
    → ((ms : List Link) → rest ≡ ok ms → All (Fits s.transactions kind) ms × (wanted_of ms ≡ ws))
    → join_link r i role checked rest ≡ ok ls
    → All (Fits s.transactions kind) ls × (wanted_of ls ≡ (i, role) ∷ ws)
unfolding linkable join_link
add_fit kind r i role ws s (err e) rest c ih h = absurd (ground arith)
add_fit kind r i role ws s (ok t) (err e) c ih h = absurd (ground arith)
add_fit kind r i role ws s (ok t) (ok ms) c ih h =
    let facts = check_row_lem kind role (get_transaction i s.transactions) c in
    let rest = ih ms refl in
    subst (λ ls. All (Fits s.transactions kind) ls × (wanted_of ls ≡ (i, role) ∷ ws))
      (ok_injective h)
      (
        (
          record { row = t; found = facts.0; direction = facts.1; inr = facts.2; live = facts.3 },
          rest.0,
        ),
        ap (◌∷◌ (i, role)) rest.1,
      )

-- A create request whose links are built has checked every row: each named row exists, has the
-- direction of its role, is in INR and is not voided; and the links name the wanted rows with their
-- roles, in order.
pub build_links_fit :
    (kind : ReceivableKind) (r : ℕ) (ws : List Wanted) (s : Store) {ls : List Link}
    → build_links kind r ws s ≡ ok ls
    → All (Fits s.transactions kind) ls × (wanted_of ls ≡ ws)
unfolding build_links linkable
build_links_fit kind r [] s h =
    subst (λ ls. All (Fits s.transactions kind) ls × (wanted_of ls ≡ [])) (ok_injective h)
      (tt, refl)
build_links_fit kind r ((i, role) ∷ ws) s {ls} h =
    add_fit kind r i role ws s (linkable i kind role s) (build_links kind r ws s) refl
      (λ ms e. build_links_fit kind r ws s e) h

append_link_links :
    (r : Receivable) (i : ℕ) (role : ReceivableRole) (now : ℕ) (s : Store)
    → (append_link r i role now s).1.links
      ≡ s.links ++ (record { receivable_id = r.id; transaction_id = i; role = role } ∷ [])
unfolding append_link
append_link_links r i charge now s = refl
append_link_links r i payment now s = refl

-- What a valid ledger answers to a new link for a row that fits: a conflict, with nothing written,
-- if the receivable links the row already, or if the row is to pay and pays already; else the link
-- is appended.
pub add_link_lem :
    (r : Receivable) (i : ℕ) (role : ReceivableRole) (now : ℕ) (s : Store) {t : Transaction}
    → IsValid s
    → linkable i r.kind role s ≡ ok t
    → add_link r i role now s ≡ (
        if has_link r.id i s.links || (is_payment role && pays i s.links)
        then (err conflict, s)
        else (ok (append_link r i role now s).0, (append_link r i role now s).1))
unfolding add_link attach_link commit_or_rollback attach_loaded
add_link_lem r i role now s v h =
    let l : Link = record { receivable_id = r.id; transaction_id = i; role = role } in
    rw (h, attach_loaded)
      (ground (arith, append_link_links r i role now s, is_unique-append s.links l, v.unique))

-- A row that does not fit is refused, and nothing is written.
add_link_refused :
    (r : Receivable) (i : ℕ) (role : ReceivableRole) (now : ℕ) (s : Store) (e : Error)
    → linkable i r.kind role s ≡ err e
    → add_link r i role now s ≡ (err e, s)
unfolding add_link attach_link commit_or_rollback attach_loaded
add_link_refused r i role now s e h = rw (h, attach_loaded)

append_link_transactions :
    (r : Receivable) (i : ℕ) (role : ReceivableRole) (now : ℕ) (s : Store)
    → (append_link r i role now s).1.transactions ≡ s.transactions
unfolding append_link
append_link_transactions r i charge now s = refl
append_link_transactions r i payment now s = refl

payment_sum :
    (r : Receivable) (i : ℕ) (s : Store) {t : Transaction}
    → linkable i r.kind payment s ≡ ok t
    → paid_by s.transactions r.id
        (s.links ++ (record { receivable_id = r.id; transaction_id = i; role = payment } ∷ []))
      ≡ paid_by s.transactions r.id s.links + t.amount
unfolding linkable link_amount
payment_sum r i s {t} h =
    let found = (check_row_lem r.kind payment (get_transaction i s.transactions) h).0 in
    let l : Link = record { receivable_id = r.id; transaction_id = i; role = payment } in
    ground (arith, found, paid_by-append s.transactions r.id s.links l)

append_payment :
    (r : Receivable) (i now : ℕ) (s : Store) {paid : ℕ}
    → paid_by s.transactions r.id
        (s.links ++ (record { receivable_id = r.id; transaction_id = i; role = payment } ∷ []))
      ≡ paid
    → (append_link r i payment now s).0 ≡ (
        if same_status r.status opened && leb r.amount paid
        then record r { status = settled; closed_at = some now }
        else r)
unfolding append_link settle_if_paid
append_payment r i now s e = rw e refl

-- A payment that a valid ledger accepts adds the row's amount to the paid sum of its receivable. An
-- open receivable is settled, with the time, exactly if the new sum reaches its amount; another
-- status stays.
pub payment_settles :
    (r : Receivable) (i now : ℕ) (s : Store) {t : Transaction}
    → IsValid s
    → linkable i r.kind payment s ≡ ok t
    → has_link r.id i s.links ≡ false
    → pays i s.links ≡ false
    → let paid = paid_by s.transactions r.id s.links + t.amount in
      (r' : Receivable) × (s' : Store) × (add_link r i payment now s ≡ (ok r', s'))
      × (paid_by s'.transactions r.id s'.links ≡ paid)
      × (r' ≡ (
          if same_status r.status opened && leb r.amount paid
          then record r { status = settled; closed_at = some now }
          else r))
payment_settles r i now s {t} v h fresh unpaid = (
  (append_link r i payment now s).0,
  (append_link r i payment now s).1,
  rw (add_link_lem r i payment now s v h) (rw (fresh, unpaid) refl),
  rw (append_link_links r i payment now s, append_link_transactions r i payment now s)
      (payment_sum r i s h),
  append_payment r i now s (payment_sum r i s h),
)

deleted_links_lem : (r t : ℕ) (ls : List Link) → (deleted_links r t ls == 0) ≡ not (has_link r t ls)
unfolding deleted_links has_link
deleted_links_lem r t [] = refl
deleted_links_lem r t (l ∷ ls) = ground (arith, deleted_links_lem r t ls)

unlinked_stays :
    (r t q u : ℕ) (ls : List Link)
    → (deleted_links r t ls == 0) ≡ true
    → has_link q u ls ≡ (has_link q u ls && not (q == r && u == t))
unlinked_stays r t q u ls e = ground (arith, deleted_links_lem r t ls)

-- An unlink of a row that the receivable does not link changes nothing and answers nothing; any
-- other removes exactly that receivable's links to the row, and leaves the receivables, also their
-- status, as they are.
pub remove_link_lem :
    (r t q u : ℕ) (s : Store)
    → (has_link q u (remove_link r t s).1.links ≡ (has_link q u s.links && not (q == r && u == t)))
      × ((remove_link r t s).1.receivables ≡ s.receivables)
      × ((remove_link r t s ≡ (none, s)) ⊎ (has_link r t s.links ≡ true))
unfolding remove_link
remove_link_lem r t q u s = elim (Bool-cases (deleted_links r t s.links == 0)) [
  | inl e ↦ rw e (ground (arith, unlinked_stays r t q u s.links e), refl, inl refl)
  | inr e ↦ rw e (
    has_link-delete_links_lem r t q u s.links,
    refl,
    inr (ground (arith, deleted_links_lem r t s.links)),
  )
]
