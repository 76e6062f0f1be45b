-- ===== src/Settle/Search.antt =====
-- The row that `_find_row` finds, among the rows of the reconciliation
-- (services/statement_settlement.py).
use financial_dashboard.Prelude.{
  ℕ, ◌≡◌, refl, sym, ap, ◌∙◌, inl, inr, true, false, Bool-cases, Option, none, some, String, str_eq,
  List, [], ◌∷◌, ◌++◌, ◌==◌, keep_if, arith,
}
use financial_dashboard.Settle.{row_changed, HeldRow}
use financial_dashboard.Settle.Held.{
  Found, found, not_found, find_in, row_digest, is_held, imported_ids, is_in, settle_row, add_some,
}

is_in-add_some :
    (t : ℕ) (o : Option ℕ) (ids : List ℕ) → is_in t ids ≡ true → is_in t (add_some o ids) ≡ true
unfolding is_in
is_in-add_some t none ids h = h
is_in-add_some t (some a) ids h = ground (arith, h)

pub is_in-append : (t : ℕ) (xs ys : List ℕ) → is_in t ys ≡ true → is_in t (xs ++ ys) ≡ true
unfolding is_in
is_in-append t [] ys h = h
is_in-append t (x ∷ xs) ys h = ground (arith, is_in-append t xs ys h)

keep_skip :
    (r : HeldRow) (rows : List HeldRow)
    → is_held r ≡ false
    → keep_if is_held (r ∷ rows) ≡ keep_if is_held rows
unfolding keep_if
keep_skip r rows e = rw e refl

keep_held :
    (r : HeldRow) (rows : List HeldRow)
    → is_held r ≡ true
    → keep_if is_held (r ∷ rows) ≡ r ∷ keep_if is_held rows
unfolding keep_if
keep_held r rows e = rw e refl

find_skip :
    (digest : List String → String) (stmt_idx : ℕ) (expected : String) (r : HeldRow)
    (rows : List HeldRow)
    → (r.stmt_idx == stmt_idx) ≡ false
    → find_in digest stmt_idx expected (r ∷ rows) ≡ find_in digest stmt_idx expected rows
unfolding find_in
find_skip digest stmt_idx expected r rows e = rw e refl

-- The row that is found is the one that is settled.
pub settled_is_in :
    (digest : List String → String) (stmt_idx : ℕ) (expected : String) (t : ℕ) (rows : List HeldRow)
    (entry : HeldRow)
    → find_in digest stmt_idx expected (keep_if is_held rows) ≡ found entry
    → is_in t (imported_ids (settle_row stmt_idx t rows)) ≡ true
unfolding settle_row imported_ids is_in find_in keep_if
settled_is_in digest stmt_idx expected t [] entry h = ground (arith, h)
settled_is_in digest stmt_idx expected t (r ∷ rows) entry h = elim (Bool-cases (is_held r)) [
  | inr e ↦ rw e (
      is_in-add_some t r.imported_txn_id _ (
        settled_is_in digest stmt_idx expected t rows entry
          (ap (find_in digest stmt_idx expected) (sym (keep_skip r rows e)) ∙ h)))
  | inl e ↦ elim (Bool-cases (r.stmt_idx == stmt_idx)) [
    | inl f ↦ rw (e, f) (ground arith)
    | inr f ↦
        rw (e, f)
          (is_in-add_some t r.imported_txn_id _ (
            settled_is_in digest stmt_idx expected t rows entry (
              sym (find_skip digest stmt_idx expected r _ f)
              ∙ ap (find_in digest stmt_idx expected) (sym (keep_held r rows e))
              ∙ h)))
  ]
]

abbrev imported_of : Found → Option ℕ
imported_of (found r) = r.imported_txn_id
imported_of (not_found e) = none

find_match :
    (digest : List String → String) (stmt_idx : ℕ) (expected : String) (r : HeldRow)
    (rows : List HeldRow)
    → (r.stmt_idx == stmt_idx) ≡ true
    → str_eq (row_digest digest r) expected ≡ true
    → find_in digest stmt_idx expected (r ∷ rows) ≡ found r
unfolding find_in
find_match digest stmt_idx expected r rows f e = rw (f, e) refl

find_changed :
    (digest : List String → String) (stmt_idx : ℕ) (expected : String) (r : HeldRow)
    (rows : List HeldRow)
    → (r.stmt_idx == stmt_idx) ≡ true
    → str_eq (row_digest digest r) expected ≡ false
    → find_in digest stmt_idx expected (r ∷ rows) ≡ not_found row_changed
unfolding find_in
find_changed digest stmt_idx expected r rows f e = rw (f, e) refl

find_here :
    (digest : List String → String) (stmt_idx : ℕ) (expected : String) (r : HeldRow)
    (rows : List HeldRow) (entry : HeldRow) (i : ℕ)
    → (r.stmt_idx == stmt_idx) ≡ true
    → find_in digest stmt_idx expected (r ∷ rows) ≡ found entry
    → entry.imported_txn_id ≡ some i
    → r.imported_txn_id ≡ some i
unfolding find_in
find_here digest stmt_idx expected r rows entry i f h k =
    elim (Bool-cases (str_eq (row_digest digest r) expected)) [
      | inl e ↦ ap imported_of (sym (find_match digest stmt_idx expected r rows f e) ∙ h) ∙ k
      | inr e ↦ absurd (ground (arith, sym (find_changed digest stmt_idx expected r rows f e) ∙ h))
    ]

is_in_here : (i : ℕ) (o : Option ℕ) (ids : List ℕ) → o ≡ some i → is_in i (add_some o ids) ≡ true
unfolding is_in
is_in_here i o ids e = rw e (ground arith)

-- The copy of the row that is found is one that the reconciliation uses.
pub found_is_in :
    (digest : List String → String) (stmt_idx : ℕ) (expected : String) (rows : List HeldRow)
    (entry : HeldRow)
    → find_in digest stmt_idx expected (keep_if is_held rows) ≡ found entry
    → (i : ℕ) → entry.imported_txn_id ≡ some i
    → is_in i (imported_ids rows) ≡ true
unfolding imported_ids find_in keep_if
found_is_in digest stmt_idx expected [] entry h i k = ground (arith, h)
found_is_in digest stmt_idx expected (r ∷ rows) entry h i k = elim (Bool-cases (is_held r)) [
  | inr e ↦ is_in-add_some i r.imported_txn_id _ (
      found_is_in digest stmt_idx expected rows entry
        (ap (find_in digest stmt_idx expected) (sym (keep_skip r rows e)) ∙ h) i k)
  | inl e ↦
      let now = ap (find_in digest stmt_idx expected) (sym (keep_held r rows e)) ∙ h in
      elim (Bool-cases (r.stmt_idx == stmt_idx)) [
        | inl f ↦
            is_in_here i r.imported_txn_id _
              (find_here digest stmt_idx expected r _ entry i f now k)
        | inr f ↦ is_in-add_some i r.imported_txn_id _ (
            found_is_in digest stmt_idx expected rows entry
              (sym (find_skip digest stmt_idx expected r _ f) ∙ now) i k)
      ]
]
