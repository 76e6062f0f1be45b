-- ===== src/Settle/Rows.antt =====
-- The stored transactions after an answer (services/statement_settlement.py).
use financial_dashboard.Prelude.{
  ℕ, ◌≡◌, refl, sym, subst, ap, ◌∙◌, inl, inr, true, false, Bool-cases, Option, none, some, String,
  List, [], ◌∷◌, ◌==◌, ==_iff, arith, if◌then◌else◌,
}
use financial_dashboard.Prelude.Int.{ℤ}
use financial_dashboard.Settle.{HeldRow, SettledTransaction}
use financial_dashboard.Settle.Answer.{get_txn, delete_txn, put_txn, merge, ◌>>=◌}

abbrev id_of : ℕ → Option SettledTransaction → ℕ
id_of id none = id
id_of id (some t) = t.id

get_here :
    (id : ℕ) (t : SettledTransaction) (ts : List SettledTransaction)
    → (t.id == id) ≡ true
    → get_txn id (t ∷ ts) ≡ some t
unfolding get_txn
get_here id t ts e = rw e refl

get_later :
    (id : ℕ) (t : SettledTransaction) (ts : List SettledTransaction)
    → (t.id == id) ≡ false
    → get_txn id (t ∷ ts) ≡ get_txn id ts
unfolding get_txn
get_later id t ts e = rw e refl

some_id : (id : ℕ) (x t : SettledTransaction) → some x ≡ some t → x.id ≡ id → t.id ≡ id
some_id id x t h e = sym (ap (id_of id) h) ∙ e

pub id-get_txn :
    (id : ℕ) (ts : List SettledTransaction) (t : SettledTransaction)
    → get_txn id ts ≡ some t
    → t.id ≡ id
unfolding get_txn
id-get_txn id [] t h = ground (arith, h)
id-get_txn id (x ∷ ts) t h = elim (Bool-cases (x.id == id)) [
  | inl e ↦ some_id id x t (sym (get_here id x ts e) ∙ h) ((==_iff x.id id).0 e)
  | inr e ↦ id-get_txn id ts t (sym (get_later id x ts e) ∙ h)
]

bind_some :
    {A : Type 0} (o : Option A) (f : A → Option SettledTransaction) (y : SettledTransaction)
    → (o >>= f) ≡ some y
    → (x : A) × (f x ≡ some y)
bind_some none f y h = absurd (ground (arith, h))
bind_some (some x) f y h = (x, h)

pub id-merge :
    (parse_cc_amount : String → Option ℤ) (parse_cc_date : String → Option ℕ) (entry : HeldRow)
    (target : SettledTransaction) (upload_id : ℕ) (holder : Option String)
    (folded : SettledTransaction)
    → merge parse_cc_amount parse_cc_date entry target upload_id holder ≡ some folded
    → folded.id ≡ target.id
unfolding merge
id-merge parse_cc_amount parse_cc_date entry target upload_id holder folded h =
    let (amount, rest) = bind_some (parse_cc_amount entry.amount) _ folded h in
    let (day, whole) = bind_some (parse_cc_date entry.date) _ folded rest in
    sym (ap (id_of target.id) whole)

same_id : (i a x : ℕ) → (i == a) ≡ true → (i == x) ≡ true → (x == a) ≡ true
same_id i a x e f = ground arith

other_id : (i a x : ℕ) → (i == a) ≡ false → (i == x) ≡ true → (x == a) ≡ false
other_id i a x e f = ground arith

apart_id : (i a x : ℕ) → (i == a) ≡ true → (x == a) ≡ false → (i == x) ≡ false
apart_id i a x e f = ground arith

pub get_txn-delete_txn :
    (x a : ℕ) (ts : List SettledTransaction)
    → get_txn x (delete_txn a ts) ≡ (if x == a then none else get_txn x ts)
unfolding get_txn delete_txn
get_txn-delete_txn x a [] = ground arith
get_txn-delete_txn x a (t ∷ ts) =
    let rec = get_txn-delete_txn x a ts in
    elim (Bool-cases (t.id == a)) [
      | inl e ↦ elim (Bool-cases (t.id == x)) [
        | inl f ↦ rw (e, f) (rec ∙ rw (same_id t.id a x e f) refl)
        | inr f ↦ rw (e, f) rec
      ]
      | inr e ↦ elim (Bool-cases (t.id == x)) [
        | inl f ↦ rw (e, f) (rw (other_id t.id a x e f) refl)
        | inr f ↦ rw (e, f) rec
      ]
    ]

get_other-put_txn :
    (x a : ℕ) (new : SettledTransaction) (ts : List SettledTransaction)
    → (new.id == a) ≡ true
    → (x == a) ≡ false
    → get_txn x (put_txn a new ts) ≡ get_txn x ts
unfolding get_txn put_txn
get_other-put_txn x a new [] h k = refl
get_other-put_txn x a new (t ∷ ts) h k =
    let rec = get_other-put_txn x a new ts h k in
    elim (Bool-cases (t.id == a)) [
      | inl e ↦ rw (e, apart_id t.id a x e k, apart_id new.id a x h k) rec
      | inr e ↦ elim (Bool-cases (t.id == x)) [ inl f ↦ rw (e, f) refl | inr f ↦ rw (e, f) rec ]
    ]

get_same-put_txn :
    (a : ℕ) (new old : SettledTransaction) (ts : List SettledTransaction)
    → (new.id == a) ≡ true
    → get_txn a ts ≡ some old
    → get_txn a (put_txn a new ts) ≡ some new
unfolding get_txn put_txn
get_same-put_txn a new old [] h k = ground (arith, k)
get_same-put_txn a new old (t ∷ ts) h k = elim (Bool-cases (t.id == a)) [
  | inl e ↦ rw (e, h) refl
  | inr e ↦ rw (e, e) (get_same-put_txn a new old ts h (sym (get_later a t ts e) ∙ k))
]

pub get_txn-put_txn :
    (x a : ℕ) (new old : SettledTransaction) (ts : List SettledTransaction)
    → new.id ≡ a
    → get_txn a ts ≡ some old
    → get_txn x (put_txn a new ts) ≡ (if x == a then some new else get_txn x ts)
get_txn-put_txn x a new old ts h k =
    let same = (==_iff new.id a).1 h in
    elim (Bool-cases (x == a)) [
      | inl e ↦ rw e (
          subst (λ z. get_txn z (put_txn a new ts) ≡ some new) (sym ((==_iff x a).0 e))
            (get_same-put_txn a new old ts same k))
      | inr e ↦ rw e (get_other-put_txn x a new ts same e)
    ]
