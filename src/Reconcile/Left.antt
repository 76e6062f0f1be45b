-- ===== src/Reconcile/Left.antt =====
-- What `_unpaired_self_transfers` (services/reconcile.py) leaves unpaired.
use financial_dashboard.Prelude.{
  ℕ, ◌≡◌, refl, sym, subst, Bool, true, false, ◌||◌, not, Bool-cases, ◌⊎◌, inl, inr, List, [], ◌∷◌,
  In, In-keep_if, keep_if-In, ==_iff, arith,
}
use financial_dashboard.Reconcile.{Row}
use financial_dashboard.Reconcile.Pairs.{
  is_paired, is_partner, partners, shares_reference, rivals, pair_leg, pair_pass, pair_legs,
  orphans_of, transfer_legs, unpaired_self_transfers,
}
use financial_dashboard.Reconcile.Paired.{pair_leg-cases, and_parts, negation_lem}

is_paired-cons :
    (id : ℕ) (leg best : Row) (pairs : List (Row × Row))
    → is_paired id pairs ≡ true
    → is_paired id ((leg, best) ∷ pairs) ≡ true
unfolding is_paired
is_paired-cons id leg best pairs h = ground (arith, h)

paired_now :
    (leg best : Row) (pairs : List (Row × Row)) → is_paired leg.read.id ((leg, best) ∷ pairs) ≡ true
unfolding is_paired
paired_now leg best pairs = rw ((==_iff leg.read.id leg.read.id).1 refl) refl

-- A paired id stays paired.
pair_leg-keeps :
    (b : Bool) (legs : List Row) (pairs : List (Row × Row)) (leg : Row) (id : ℕ)
    → is_paired id pairs ≡ true
    → is_paired id (pair_leg b legs pairs leg) ≡ true
pair_leg-keeps b legs pairs leg id h = elim (pair_leg-cases b legs pairs leg) [
  | inl (paired, e) ↦ rw e h
  | inr (inl (alone, e)) ↦ rw e h
  | inr (inr (best, found)) ↦ rw (found.2) (is_paired-cons id leg best pairs h)
]

pair_pass-keeps :
    (b : Bool) (legs todo : List Row) (pairs : List (Row × Row)) (id : ℕ)
    → is_paired id pairs ≡ true
    → is_paired id (pair_pass b legs todo pairs) ≡ true
unfolding pair_pass
pair_pass-keeps b legs [] pairs id h = h
pair_pass-keeps b legs (leg ∷ rest) pairs id h =
    pair_pass-keeps b legs rest (pair_leg b legs pairs leg) id
      (pair_leg-keeps b legs pairs leg id h)

-- One of the two is paired, or they are no partners.
abbrev IsOver : Row → Row → List (Row × Row) → Type 0
IsOver a r pairs =
    (is_paired a.read.id pairs ≡ true)
    ⊎ (is_paired r.read.id pairs ≡ true)
    ⊎ (is_partner a r ≡ false)

no_rival :
    (legs : List Row) (pairs : List (Row × Row)) (leg r : Row)
    → rivals false legs pairs leg ≡ []
    → In r legs
    → (is_paired r.read.id pairs ≡ true) ⊎ (is_partner leg r ≡ false)
unfolding rivals partners
no_rival legs pairs leg r e i = elim (Bool-cases (is_paired r.read.id pairs)) [
  | inl paired ↦ inl paired
  | inr free ↦ elim (Bool-cases (is_partner leg r)) [
    | inl fits ↦ absurd (
        subst (In r) e (
          keep_if-In (λ x. not false || shares_reference leg x) (partners legs pairs leg) r
            (keep_if-In _ legs r i (rw (free, fits) refl)) refl))
    | inr unfit ↦ inr unfit
  ]
]

pair_leg-IsOver :
    (legs : List Row) (pairs : List (Row × Row)) (leg r : Row)
    → In r legs
    → IsOver leg r (pair_leg false legs pairs leg)
pair_leg-IsOver legs pairs leg r i = elim (pair_leg-cases false legs pairs leg) [
  | inl (paired, e) ↦ rw e (inl paired)
  | inr (inl (alone, e)) ↦ rw e (inr (no_rival legs pairs leg r alone i))
  | inr (inr (best, found)) ↦ rw (found.2) (inl (paired_now leg best pairs))
]

pair_pass-IsOver :
    (legs todo : List Row) (pairs : List (Row × Row)) (a r : Row)
    → In a todo
    → In r legs
    → IsOver a r (pair_pass false legs todo pairs)
unfolding pair_pass
pair_pass-IsOver legs [] pairs a r i j = absurd i
pair_pass-IsOver legs (leg ∷ rest) pairs a r (inr i) j =
    pair_pass-IsOver legs rest (pair_leg false legs pairs leg) a r i j
pair_pass-IsOver legs (leg ∷ rest) pairs a r (inl e) j = elim (pair_leg-IsOver legs pairs leg r j) [
  | inl paired ↦ inl (
      pair_pass-keeps false legs rest _ a.read.id
        (subst (λ x. is_paired x.read.id (pair_leg false legs pairs leg) ≡ true) (sym e) paired))
  | inr (inl paired) ↦ inr (inl (pair_pass-keeps false legs rest _ r.read.id paired))
  | inr (inr unfit) ↦ inr (inr (subst (λ x. is_partner x r ≡ false) (sym e) unfit))
]

orphan-parts :
    (date_from date_to : ℕ) (legs : List Row) (pairs : List (Row × Row)) (r : Row)
    → In r (orphans_of date_from date_to legs pairs)
    → In r legs × (is_paired r.read.id pairs ≡ false)
unfolding orphans_of
orphan-parts date_from date_to legs pairs r i =
    let (member, test) = In-keep_if _ legs r i in (member, negation_lem _ (and_parts _ _ test).0)

-- The pairing leaves nothing that it could pair: no two rows that the report lists as unpaired
-- self-transfers are partners of each other (another account, the opposite direction, the same
-- currency, amounts within one rupee, dates within three days).
pub orphans_have_no_partner :
    (date_from date_to : ℕ) (rows : List Row) (a r : Row)
    → In a (unpaired_self_transfers date_from date_to rows).items
    → In r (unpaired_self_transfers date_from date_to rows).items
    → is_partner a r ≡ false
unfolding unpaired_self_transfers pair_legs
orphans_have_no_partner date_from date_to rows a r i j =
    let legs = transfer_legs rows in
    let first = pair_pass true legs legs [] in
    let mine = orphan-parts date_from date_to legs (pair_legs legs) a i in
    let theirs = orphan-parts date_from date_to legs (pair_legs legs) r j in
    elim (pair_pass-IsOver legs legs first a r mine.0 theirs.0) [
      | inl paired ↦ ground (arith, paired, mine.1)
      | inr (inl paired) ↦ ground (arith, paired, theirs.1)
      | inr (inr unfit) ↦ unfit
    ]
