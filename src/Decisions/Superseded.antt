-- ===== src/Decisions/Superseded.antt =====
-- What a superseded review leaves (services/categorization/decision_lifecycle.py).
use financial_dashboard.Prelude.{
  ℕ, ◌≡◌, refl, ◌∙◌, ap, sym, subst, is_some, ltb, Bool, true, false, ◌&&◌, Bool-cases, ◌⊎◌, inl,
  inr, Option, none, some, String, List, [], ◌∷◌, All, arith,
}
use financial_dashboard.Outbox.Rows.{Delivery, Store, update_where}
use financial_dashboard.Outbox.Sweep.{cancelled_row, refresh_interaction_delivery_status}
use financial_dashboard.Outbox.Valid.{refresh_deliveries}
use financial_dashboard.Decisions.{Decision, ReviewedTransaction, DecisionStore}
use financial_dashboard.Decisions.Lifecycle.{
  is_expiring, superseded_row, is_withdrawn, refresh_all, sources_of, supersede_active_decisions,
}
use financial_dashboard.Decisions.Quiet.{
  AsksNothing, IsQuiet, is_expiring-AsksNothing, is_withdrawn-IsQuiet, All-map,
}
use financial_dashboard.Decisions.Review.{
  create_or_reuse_decision, create_by, newest, newer, is_active_of, new_decision, shows_same_prompt,
  is_fresh,
}

-- An update that takes rows out of its own condition leaves none in it.
pub none_left :
    {A : Type 0} (p : A → Bool) (f : A → A)
    → ((x : A) → p (f x) ≡ false)
    → (xs : List A) → All (λ x. p x ≡ false) (update_where p f xs)
unfolding update_where
none_left p f h [] = tt
none_left p f h (x ∷ xs) = elim (Bool-cases (p x)) [
  | inl e ↦ rw e (h x, none_left p f h xs)
  | inr e ↦ rw e (e, none_left p f h xs)
]

pub refresh_all_deliveries :
    (ids : List ℕ) (now : ℕ) (s : Store) → (refresh_all ids now s).deliveries ≡ s.deliveries
unfolding refresh_all
refresh_all_deliveries [] now s = refl
refresh_all_deliveries (i ∷ ids) now s =
    refresh_all_deliveries ids now (refresh_interaction_delivery_status i now s).1
    ∙ refresh_deliveries i now s

superseded_not_expiring :
    (t : ℕ) (preserve : Option ℕ) (d : Decision) → is_expiring t preserve (superseded_row d) ≡ false
unfolding is_expiring superseded_row
superseded_not_expiring t preserve d = ground arith

and_false : (b : Bool) → (b && false) ≡ false
and_false true = refl
and_false false = refl

cancelled_not_withdrawn :
    (t : ℕ) (preserve : Option ℕ) (ds : List Decision) (m : Delivery)
    → is_withdrawn t preserve ds (cancelled_row m) ≡ false
unfolding is_withdrawn cancelled_row
cancelled_not_withdrawn t preserve ds m = and_false _

-- After the updates, no row meets the condition of either.
supersede_updates :
    (t : ℕ) (preserve : Option ℕ) (now : ℕ) (s : DecisionStore)
    → All
        (λ d. is_expiring t preserve d ≡ false)
        (supersede_active_decisions t preserve now s).decisions
      × All
          (λ m. is_withdrawn t preserve s.decisions m ≡ false)
          (supersede_active_decisions t preserve now s).outbox.deliveries
unfolding supersede_active_decisions
supersede_updates t preserve now s = (
  none_left (is_expiring t preserve) superseded_row (superseded_not_expiring t preserve)
      s.decisions,
  subst (All (λ m. is_withdrawn t preserve s.decisions m ≡ false))
      (sym (refresh_all_deliveries (sources_of t preserve s.decisions) now _))
      (none_left (is_withdrawn t preserve s.decisions) cancelled_row
        (cancelled_not_withdrawn t preserve s.decisions) s.outbox.deliveries),
)

-- A superseded review asks nothing any more: no decision of the transaction is active, but the one
-- that is preserved; and every message that is not yet delivered, abandoned or cancelled is neither
-- of a decision that was active and not preserved, nor a message about the transaction of the
-- interaction that such a decision comes from.
pub supersede_leaves_none :
    (t : ℕ) (preserve : Option ℕ) (now : ℕ) (s : DecisionStore)
    → All (AsksNothing t preserve) (supersede_active_decisions t preserve now s).decisions
      × All
          (IsQuiet t preserve s.decisions)
          (supersede_active_decisions t preserve now s).outbox.deliveries
supersede_leaves_none t preserve now s =
    let (decisions, deliveries) = supersede_updates t preserve now s in
    (
      All-map (is_expiring-AsksNothing t preserve) _ decisions,
      All-map (is_withdrawn-IsQuiet t preserve s.decisions) _ deliveries,
    )

-- A new row that is the only active one of the transaction.
abbrev pub IsOnlyActive : ReviewedTransaction → Decision × DecisionStore → Type 0
IsOnlyActive txn made =
    (rest : List Decision) × ((made.1.decisions ≡ made.0 ∷ rest)
      × (is_active_of txn.id made.0 ≡ true)
      × All (λ d. is_active_of txn.id d ≡ false) rest)

-- The newest active row, used again, with nothing written.
abbrev pub IsReused :
    ReviewedTransaction
    → List String
    → Option String
    → ℕ
    → DecisionStore
    → Decision × DecisionStore
    → Type 0
IsReused txn candidates proposed now s made =
    (newest (is_active_of txn.id) s.decisions ≡ some made.0)
    × (shows_same_prompt made.0 txn.category_input_hash candidates proposed ≡ true)
    × (is_fresh now made.0 ≡ true)
    × (made.1 ≡ s)

newer-is_some : (d : Decision) (o : Option Decision) → is_some (newer d o) ≡ true
newer-is_some d none = refl
newer-is_some d (some e) = elim (Bool-cases (ltb d.id e.id)) [
  | inl h ↦ rw h refl
  | inr h ↦ rw h refl
]

newest_here :
    (p : Decision → Bool) (d : Decision) (ds : List Decision)
    → p d ≡ true
    → newest p (d ∷ ds) ≡ newer d (newest p ds)
unfolding newest
newest_here p d ds h = rw h refl

newest_later :
    (p : Decision → Bool) (d : Decision) (ds : List Decision)
    → p d ≡ false
    → newest p (d ∷ ds) ≡ newest p ds
unfolding newest
newest_later p d ds h = rw h refl

newest-none :
    (p : Decision → Bool) (ds : List Decision) → newest p ds ≡ none → All (λ d. p d ≡ false) ds
newest-none p [] h = tt
newest-none p (d ∷ ds) h = elim (Bool-cases (p d)) [
  | inl e ↦ absurd (
      ground
        (arith, sym (newer-is_some d (newest p ds)) ∙ ap is_some (sym (newest_here p d ds e) ∙ h)))
  | inr e ↦ (e, newest-none p ds (sym (newest_later p d ds e) ∙ h))
]

both_true : (x y : Bool) → (x && y) ≡ true → (x ≡ true) × (y ≡ true)
both_true true y h = (refl, h)
both_true false y h = ground arith

new_is_active :
    (id : ℕ) (txn : ReviewedTransaction) (candidates : List String) (proposed : Option String)
    (source : Option ℕ) (now : ℕ)
    → is_active_of txn.id (new_decision id txn candidates proposed source now) ≡ true
unfolding is_active_of new_decision
new_is_active id txn candidates proposed source now = ground arith

not_preserved :
    (t : ℕ) (ds : List Decision)
    → All (λ d. is_expiring t none d ≡ false) ds
    → All (λ d. is_active_of t d ≡ false) ds
unfolding is_expiring is_active_of
not_preserved t [] h = tt
not_preserved t (d ∷ ds) h = (ground (arith, h.0), not_preserved t ds h.1)

module _ (id : ℕ) (txn : ReviewedTransaction) (candidates : List String) (proposed : Option String)
    (source : Option ℕ) (now : ℕ) (s : DecisionStore) where
  created_by :
      (e : Option Decision)
      → newest (is_active_of txn.id) s.decisions ≡ e
      → let made = create_by id txn candidates proposed source now s e in
        IsReused txn candidates proposed now s made ⊎ IsOnlyActive txn made
  unfolding create_by
  created_by none h = inr (
    s.decisions,
    (
      refl,
      new_is_active id txn candidates proposed source now,
      newest-none (is_active_of txn.id) s.decisions h,
    ),
  )
  created_by (some e) h =
      elim (Bool-cases
        (shows_same_prompt e txn.category_input_hash candidates proposed && is_fresh now e)) [
          | inl k ↦ let both = both_true _ _ k in rw k (inl (h, both.0, both.1, refl))
          | inr k ↦ rw k (
              inr (
                (supersede_active_decisions txn.id none now s).decisions,
                (
                  refl,
                  new_is_active id txn candidates proposed source now,
                  not_preserved txn.id _ (supersede_updates txn.id none now s).0,
                ),
              ))
        ]

  -- A new proposal is the only one: the answer is either the newest active decision of the
  -- transaction, where it shows the same prompt and has not expired, and then nothing is written; or
  -- a new row, which is the only active decision of the transaction.
  pub new_proposal_stays_single :
      let made = create_or_reuse_decision id txn candidates proposed source now s in
      IsReused txn candidates proposed now s made ⊎ IsOnlyActive txn made
  unfolding create_or_reuse_decision
  new_proposal_stays_single = created_by (newest (is_active_of txn.id) s.decisions) refl
