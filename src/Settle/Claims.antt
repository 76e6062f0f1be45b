-- ===== src/Settle/Claims.antt =====
-- The transactions that a reconciliation uses, as answers change them
-- (services/statement_settlement.py).
use financial_dashboard.Prelude.{
  ℕ, ◌≡◌, refl, subst, inl, inr, false, ◌&&◌, Bool-cases, Option, none, some, List, [], ◌∷◌, ◌++◌,
  ◌==◌, All, AreDistinct, arith,
}
use financial_dashboard.Settle.{HeldRow, SettlementStore}
use financial_dashboard.Settle.Held.{is_held, claimed, imported_ids, is_in, settle_row, add_some}

-- The transactions that the reconciliation of the store uses.
abbrev pub claims_of : SettlementStore → List ℕ
claims_of s = elim s.upload [
  | none ↦ []
  | some upload ↦ elim upload.reconciliation_data [ none ↦ [] | some recon ↦ claimed recon ]
]

abbrev pub NotIn : ℕ → List ℕ → Type 0
NotIn t ids = All (λ b. (t == b) ≡ false) ids

pub not_in : (t : ℕ) (ids : List ℕ) → is_in t ids ≡ false → NotIn t ids
unfolding is_in
not_in t [] h = tt
not_in t (x ∷ ids) h = (ground (arith, h), not_in t ids (ground (arith, h)))

flip : (a t : ℕ) → (t == a) ≡ false → (a == t) ≡ false
flip a t h = ground (arith, h)

NotIn-add_some :
    (a : ℕ) (o : Option ℕ) (ids more : List ℕ)
    → (NotIn a ids → NotIn a more)
    → NotIn a (add_some o ids)
    → NotIn a (add_some o more)
NotIn-add_some a none ids more f h = f h
NotIn-add_some a (some b) ids more f h = (h.0, f h.1)

NotIn-rest : (a : ℕ) (o : Option ℕ) (ids : List ℕ) → NotIn a (add_some o ids) → NotIn a ids
NotIn-rest a none ids h = h
NotIn-rest a (some b) ids h = h.1

settled-NotIn :
    (stmt_idx t a : ℕ) (rows : List HeldRow)
    → (a == t) ≡ false
    → NotIn a (imported_ids rows)
    → NotIn a (imported_ids (settle_row stmt_idx t rows))
unfolding settle_row imported_ids
settled-NotIn stmt_idx t a [] h k = tt
settled-NotIn stmt_idx t a (r ∷ rows) h k =
    elim (Bool-cases (is_held r && r.stmt_idx == stmt_idx)) [
      | inl e ↦ rw e (h, NotIn-rest a r.imported_txn_id _ k)
      | inr e ↦ rw e (NotIn-add_some a r.imported_txn_id _ _ (settled-NotIn stmt_idx t a rows h) k)
    ]

Distinct-add_some :
    (o : Option ℕ) (ids more : List ℕ)
    → ((a : ℕ) → o ≡ some a → NotIn a ids → NotIn a more)
    → (AreDistinct ids → AreDistinct more)
    → AreDistinct (add_some o ids)
    → AreDistinct (add_some o more)
Distinct-add_some none ids more f g d = g d
Distinct-add_some (some a) ids more f g d = (f a refl d.0, g d.1)

Distinct-rest : (o : Option ℕ) (ids : List ℕ) → AreDistinct (add_some o ids) → AreDistinct ids
Distinct-rest none ids d = d
Distinct-rest (some a) ids d = d.1

some_differs :
    (t a : ℕ) (o : Option ℕ) (ids : List ℕ)
    → o ≡ some a
    → NotIn t (add_some o ids)
    → (a == t) ≡ false
some_differs t a o ids e h = flip a t (subst (λ p. NotIn t (add_some p ids)) e h).0

settled-AreDistinct :
    (stmt_idx t : ℕ) (rows : List HeldRow)
    → AreDistinct (imported_ids rows)
    → NotIn t (imported_ids rows)
    → AreDistinct (imported_ids (settle_row stmt_idx t rows))
unfolding settle_row imported_ids
settled-AreDistinct stmt_idx t [] d h = tt
settled-AreDistinct stmt_idx t (r ∷ rows) d h =
    elim (Bool-cases (is_held r && r.stmt_idx == stmt_idx)) [
      | inl e ↦ rw e (NotIn-rest t r.imported_txn_id _ h, Distinct-rest r.imported_txn_id _ d)
      | inr e ↦ rw e (
          Distinct-add_some r.imported_txn_id _ _
            (λ a i. settled-NotIn stmt_idx t a rows (some_differs t a r.imported_txn_id _ i h))
            (λ k. settled-AreDistinct stmt_idx t rows k (NotIn-rest t r.imported_txn_id _ h)) d)
    ]

NotIn-append :
    (a : ℕ) (xs ys zs : List ℕ)
    → (NotIn a ys → NotIn a zs)
    → NotIn a (xs ++ ys)
    → NotIn a (xs ++ zs)
NotIn-append a [] ys zs f h = f h
NotIn-append a (x ∷ xs) ys zs f h = (h.0, NotIn-append a xs ys zs f h.1)

pub appended-AreDistinct :
    (stmt_idx t : ℕ) (xs : List ℕ) (rows : List HeldRow)
    → AreDistinct (xs ++ imported_ids rows)
    → NotIn t (xs ++ imported_ids rows)
    → AreDistinct (xs ++ imported_ids (settle_row stmt_idx t rows))
appended-AreDistinct stmt_idx t [] rows d h = settled-AreDistinct stmt_idx t rows d h
appended-AreDistinct stmt_idx t (x ∷ xs) rows d h = (
  NotIn-append x xs _ _ (settled-NotIn stmt_idx t x rows (flip x t h.0)) d.0,
  appended-AreDistinct stmt_idx t xs rows d.1 h.1,
)
