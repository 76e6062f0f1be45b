-- ===== src/Reconcile/Paired.antt =====
-- The pairs of `_unpaired_self_transfers` (services/reconcile.py): each row is in one pair at most,
-- and a pair is of partners.
use financial_dashboard.Prelude.{
  ◌≡◌, refl, sym, subst, Bool, true, false, ◌&&◌, not, Bool-cases, ◌⊎◌, inl, inr, List, [], ◌∷◌, In,
  All, In-keep_if, In-All, List-cases, arith, if◌then◌else◌,
}
use financial_dashboard.Reconcile.{Row}
use financial_dashboard.Reconcile.Pairs.{
  is_paired, is_partner, partners, rivals, is_nearer, nearest_from, pair_leg, pair_pass, pair_legs,
}

-- Each pair is of two of the legs, which are partners and are in no earlier pair.
abbrev pub IsMatching : List Row → List (Row × Row) → Type 0
IsMatching legs [] = Unit
IsMatching legs (pair ∷ pairs) =
    (In pair.0 legs
      × In pair.1 legs
      × (is_partner pair.0 pair.1 ≡ true)
      × (is_paired pair.0.read.id pairs ≡ false)
      × (is_paired pair.1.read.id pairs ≡ false))
    × IsMatching legs pairs

pub and_parts : (a b : Bool) → (a && b) ≡ true → (a ≡ true) × (b ≡ true)
and_parts true b h = (refl, h)
and_parts false b h = ground arith

pub negation_lem : (a : Bool) → not a ≡ true → a ≡ false
negation_lem true h = ground arith
negation_lem false h = refl

nearest_from-In : (leg best : Row) (rs : List Row) → In (nearest_from leg best rs) (best ∷ rs)
unfolding nearest_from
nearest_from-In leg best [] = inl refl
nearest_from-In leg best (r ∷ rs) =
    let goal = λ (b : Bool). In (nearest_from leg (if b then r else best) rs) (best ∷ r ∷ rs) in
    elim (Bool-cases (is_nearer leg r best)) [
      | inl e ↦ subst goal (sym e) (inr (nearest_from-In leg r rs))
      | inr e ↦
          subst goal (sym e)
            (elim (nearest_from-In leg best rs) [ inl f ↦ inl f | inr i ↦ inr (inr i) ])
    ]

-- A rival is an unpaired partner among the legs.
rival_is_partner :
    (by_reference : Bool) (legs : List Row) (pairs : List (Row × Row)) (leg r : Row)
    → In r (rivals by_reference legs pairs leg)
    → In r legs × (is_paired r.read.id pairs ≡ false) × (is_partner leg r ≡ true)
unfolding rivals partners
rival_is_partner by_reference legs pairs leg r i =
    let inner = In-keep_if _ (partners legs pairs leg) r i in
    let fits = In-keep_if _ legs r inner.0 in
    let both = and_parts _ _ fits.1 in (fits.0, negation_lem _ both.0, both.1)

-- What one round does: nothing for a leg that is paired or has no rival, or one pair.
pub pair_leg-cases :
    (by_reference : Bool) (legs : List Row) (pairs : List (Row × Row)) (leg : Row)
    → ((is_paired leg.read.id pairs ≡ true) × (pair_leg by_reference legs pairs leg ≡ pairs))
      ⊎ ((rivals by_reference legs pairs leg ≡ []) × (pair_leg by_reference legs pairs leg ≡ pairs))
      ⊎ ((best : Row) × ((is_paired leg.read.id pairs ≡ false)
            × In best (rivals by_reference legs pairs leg)
            × (pair_leg by_reference legs pairs leg ≡ (leg, best) ∷ pairs)))
unfolding pair_leg
pair_leg-cases by_reference legs pairs leg = elim (Bool-cases (is_paired leg.read.id pairs)) [
  | inl e ↦ inl (e, rw e refl)
  | inr e ↦ elim (List-cases (rivals by_reference legs pairs leg)) [
    | inl none_left ↦ inr (inl (none_left, rw (e, none_left) refl))
    | inr (r, (rs, some_left)) ↦ inr (
        inr (
          nearest_from leg r rs,
          (
            e,
            subst (In (nearest_from leg r rs)) (sym some_left) (nearest_from-In leg r rs),
            rw (e, some_left) refl,
          ),
        ))
  ]
]

pair_leg-IsMatching :
    (by_reference : Bool) (legs : List Row) (pairs : List (Row × Row)) (leg : Row)
    → In leg legs
    → IsMatching legs pairs
    → IsMatching legs (pair_leg by_reference legs pairs leg)
pair_leg-IsMatching by_reference legs pairs leg i m =
    elim (pair_leg-cases by_reference legs pairs leg) [
      | inl (paired, e) ↦ subst (IsMatching legs) (sym e) m
      | inr (inl (alone, e)) ↦ subst (IsMatching legs) (sym e) m
      | inr (inr (best, (unpaired, found, e))) ↦
          let (member, free, fits) = rival_is_partner by_reference legs pairs leg best found in
          subst (IsMatching legs) (sym e) ((i, member, fits, unpaired, free), m)
    ]

pair_pass-IsMatching :
    (by_reference : Bool) (legs todo : List Row) (pairs : List (Row × Row))
    → All (λ r. In r legs) todo
    → IsMatching legs pairs
    → IsMatching legs (pair_pass by_reference legs todo pairs)
unfolding pair_pass
pair_pass-IsMatching by_reference legs [] pairs a m = m
pair_pass-IsMatching by_reference legs (leg ∷ rest) pairs a m =
    pair_pass-IsMatching by_reference legs rest (pair_leg by_reference legs pairs leg) a.1
      (pair_leg-IsMatching by_reference legs pairs leg a.0 m)

-- The pairing is a matching of the legs: both rows of each pair are among the legs, they are
-- partners (another account, the opposite direction, the same currency, amounts within one rupee,
-- dates within three days), and neither is in another pair.
pub pair_legs_match : (legs : List Row) → IsMatching legs (pair_legs legs)
unfolding pair_legs
pair_legs_match legs =
    let all = In-All (λ r. In r legs) legs (λ r i. i) in
    pair_pass-IsMatching false legs legs (pair_pass true legs legs []) all
      (pair_pass-IsMatching true legs legs [] all tt)
