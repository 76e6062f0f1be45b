-- ===== src/Receivables/Valid.antt =====
-- The invariant of the receivables ledger (services/receivables.py) over every sequence of calls.
use financial_dashboard.Prelude.{
  ℕ, ◌≡◌, ◌≢◌, refl, Bool, true, false, ◌&&◌, not, Option, none, some, List, [], All, arith, ◌==◌,
  Bool-cases, inl, inr,
}
use financial_dashboard.Receivables.Store.{
  ReceivableRole, charge, payment, ReceivableStatus, Transaction, next_id, Receivable, Link, Store,
  Result, ok, err, is_unique, get_receivable,
}
use financial_dashboard.Receivables.Links.{
  ReceivableCreate, new_receivable, add_built, attach_loaded, build_receivable, add_receivable,
  commit_or_rollback, create_receivable, append_link, attach_link, add_link, build_links, wanted,
  has_repeat, linkable,
}
use financial_dashboard.Receivables.Edit.{
  ReceivableUpdate, with_amount, with_person, with_note, amount_changed, update_status, edited,
  update_receivable, remove_link, deleted_links,
}
use financial_dashboard.Receivables.Move.{move_receivable_links, is_paid_by}
use financial_dashboard.Receivables.Move.Links.{moved_links-is_unique}
use financial_dashboard.Receivables.Rules.{
  IsStamped, settle_if_paid-IsStamped, settle_paid-IsStamped, put_receivable-All,
  get_receivable-All, All-append, is_unique-delete_links, is_unique-delete_stale, pays_one,
}

pub record IsValid (s : Store) : Type 0 where
  pub unique : is_unique s.links ≡ true
  pub stamped : All IsStamped s.receivables

-- A receivable that the store holds, which its caller has loaded.
abbrev pub Holds : Store → Receivable → Type 0
Holds s r = get_receivable r.id s.receivables ≡ some r

-- One committed call of the ledger, or one that a merge or a delete of transactions makes.
pub data Call (s : Store) : Store → Type 0 where
  create : (p : ReceivableCreate) (now : ℕ) → Call s (create_receivable p now s).1
  add :
      (r : Receivable) (i : ℕ) (role : ReceivableRole) (now : ℕ)
      → Holds s r
      → Call s (add_link r i role now s).1
  update :
      (p : ReceivableUpdate) (now : ℕ) (r : Receivable)
      → Holds s r
      → Call s (update_receivable p now r s).1
  remove : (r t : ℕ) → Call s (remove_link r t s).1
  merge : (old new now : ℕ) → old ≢ new → Call s (move_receivable_links old (some new) now s).1
  delete : (old now : ℕ) → Call s (move_receivable_links old none now s).1

pub data Calls (s : Store) : Store → Type 0 where
  here : Calls s s
  next : {t u : Store} → Calls s t → Call t u → Calls s u

abbrev pub empty : Store
empty = record {
  transactions = [];
  receivables = [];
  links = [];
  prompts = [];
  deliveries = [];
  calls = [];
}

-- What a call writes before its commit has stamped receivables.
abbrev Stamped : {A : Type 0} → Result (A × Store) → Type 0
Stamped (err e) = Unit
Stamped (ok r) = All IsStamped r.1.receivables

commit_or_rollback-IsValid :
    {A : Type 0} (s : Store) (r : Result (A × Store))
    → IsValid s
    → Stamped r
    → IsValid (commit_or_rollback s r).1
unfolding commit_or_rollback
commit_or_rollback-IsValid s (err e) v h = v
commit_or_rollback-IsValid s (ok (a, t)) v h = elim (Bool-cases (is_unique t.links)) [
  | inl e ↦ rw e (record { unique = e; stamped = h })
  | inr e ↦ rw e v
]

add_receivable-IsStamped :
    (p : ReceivableCreate) (now : ℕ) (ls : List Link) (s : Store)
    → IsValid s
    → All IsStamped (add_receivable p now ls s).1.receivables
unfolding add_receivable new_receivable
add_receivable-IsStamped p now ls s v =
    All-append IsStamped s.receivables _ v.stamped
      (settle_if_paid-IsStamped s.transactions ls now (new_receivable p s) refl, tt)

add_built-Stamped :
    (p : ReceivableCreate) (now : ℕ) (s : Store) (r : Result (List Link))
    → IsValid s
    → Stamped (add_built p now s r)
unfolding add_built
add_built-Stamped p now s (err e) v = tt
add_built-Stamped p now s (ok ls) v = add_receivable-IsStamped p now ls s v

build_receivable-Stamped :
    (p : ReceivableCreate) (now : ℕ) (s : Store) → IsValid s → Stamped (build_receivable p now s)
unfolding build_receivable
build_receivable-Stamped p now s v = elim (Bool-cases (has_repeat (wanted p))) [
  | inl e ↦ rw (e, build_receivable) tt
  | inr e ↦
      rw (e, build_receivable)
        (add_built-Stamped p now s (build_links p.kind (next_id s.receivables) (wanted p) s) v)
]

attach_loaded-Stamped :
    (r : Receivable) (i : ℕ) (role : ReceivableRole) (now : ℕ) (s : Store) (t : Result Transaction)
    → IsValid s
    → IsStamped r
    → Stamped (attach_loaded r i role now s t)
unfolding attach_loaded append_link
attach_loaded-Stamped r i role now s (err e) v h = tt
attach_loaded-Stamped r i charge now s (ok t) v h = v.stamped
attach_loaded-Stamped r i payment now s (ok t) v h =
    put_receivable-All IsStamped _ s.receivables (settle_if_paid-IsStamped s.transactions _ now r h)
      v.stamped

update_status-IsStamped :
    (s : Store) (now : ℕ) (changed : Bool) (st : Option ReceivableStatus) (r : Receivable)
    → IsStamped r
    → IsStamped (update_status s now changed st r)
unfolding update_status
update_status-IsStamped s now changed none r h =
    ground (arith, settle_if_paid-IsStamped s.transactions s.links now r h)
update_status-IsStamped s now changed (some st) r h = ground arith

with_fields :
    (p : ReceivableUpdate) (r : Receivable)
    → IsStamped r
    → IsStamped (with_note p.note (with_person p.person (with_amount p.amount r)))
unfolding with_note with_person with_amount
with_fields p r h = ground arith

edited-IsStamped :
    (p : ReceivableUpdate) (now : ℕ) (s : Store) (r : Receivable)
    → IsStamped r
    → IsStamped (edited p now s r)
unfolding edited
edited-IsStamped p now s r h =
    update_status-IsStamped s now (amount_changed p.amount r) p.status _ (with_fields p r h)

Call-IsValid : {s t : Store} → Call s t → IsValid s → IsValid t
unfolding create_receivable add_link attach_link update_receivable remove_link move_receivable_links
Call-IsValid {s} (Call.create p now) v =
    commit_or_rollback-IsValid s (build_receivable p now s) v (build_receivable-Stamped p now s v)
Call-IsValid {s} (Call.add r i role now h) v =
    commit_or_rollback-IsValid s (attach_link r i role now s) v (
      attach_loaded-Stamped r i role now s (linkable i r.kind role s) v
        (get_receivable-All IsStamped r.id s.receivables v.stamped h))
Call-IsValid {s} (Call.update p now r h) v = record {
  unique = v.unique;
  stamped =
      put_receivable-All IsStamped (edited p now s r) s.receivables
        (edited-IsStamped p now s r (get_receivable-All IsStamped r.id s.receivables v.stamped h))
        v.stamped;
}
Call-IsValid {s} (Call.remove r t) v = elim (Bool-cases (deleted_links r t s.links == 0)) [
  | inl e ↦ rw e v
  | inr e ↦
      rw e (record { unique = is_unique-delete_links r t s.links v.unique; stamped = v.stamped })
]
Call-IsValid {s} (Call.merge old new now ne) v = record {
  unique = moved_links-is_unique old new s.links ne v.unique;
  stamped = settle_paid-IsStamped s.transactions _ new now s.receivables v.stamped;
}
Call-IsValid {s} (Call.delete old now) v = record {
  unique = is_unique-delete_stale old s.links v.unique;
  stamped = v.stamped;
}

Calls-IsValid : {s t : Store} → Calls s t → IsValid s → IsValid t
Calls-IsValid here v = v
Calls-IsValid (next r c) v = Call-IsValid c (Calls-IsValid r v)

both_left : (a b c : Bool) → (a && b && c) ≡ true → a ≡ true
both_left a b c h = ground (arith, h)

both_right : (a b c : Bool) → (a && b && c) ≡ true → b ≡ true
both_right a b c h = ground (arith, h)

third : (a b c : Bool) → (a && b && c) ≡ true → c ≡ true
third a b c h = ground (arith, h)

-- Through every sequence of calls from a valid ledger (creates, added and removed links, edits, and
-- merges and deletes of transactions, those that fail included) the ledger stays valid: the links
-- meet both unique indexes, and `closed_at` is set exactly while a receivable is not open. And no row
-- pays two receivables, so its money counts once.
pub payments_count_once :
    {s t : Store} (r q i : ℕ)
    → IsValid s
    → Calls s t
    → IsValid t × ((is_paid_by r i t.links && is_paid_by q i t.links && not (r == q)) ≡ false)
payments_count_once {t} r q i v c =
    let valid = Calls-IsValid c v in
    (
      valid,
      elim (Bool-cases (is_paid_by r i t.links && is_paid_by q i t.links && not (r == q))) [
        | inl h ↦ absurd (
            let a = is_paid_by r i t.links in
            let b = is_paid_by q i t.links in
            let same =
              pays_one r q i t.links valid.unique (both_left a b _ h) (both_right a b _ h) in
            ground (arith, same, third a b _ h))
        | inr h ↦ h
      ],
    )
