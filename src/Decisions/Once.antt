-- ===== src/Decisions/Once.antt =====
-- A choice of a category is taken once (services/categorization/review_decisions.py).
use financial_dashboard.Prelude.{
  ℕ, ltb, ◌≤◌, ◌≡◌, refl, Bool, true, false, ◌&&◌, Bool-cases, inl, inr, Option, none, some,
  is_some, String, str_eq, List, [], ◌∷◌, All, ◌==◌, arith, if◌then◌else◌,
}
use financial_dashboard.Outbox.Rows.{update_where, count_where}
use financial_dashboard.Decisions.{Decision, ReviewedTransaction, DecisionStore}
use financial_dashboard.Decisions.Lifecycle.{
  is_active, is_expiring, superseded_row, supersede_active_decisions,
}
use financial_dashboard.Decisions.Review.{
  is_takeable, is_fresh, consumed_row, take_choice, after_choice, choose_for, choose_by,
  consume_decision, get_decision, get_reviewed,
}
use financial_dashboard.Decisions.Superseded.{none_left}

-- No row that a claim may take.
abbrev IsTaken : ℕ → String → ℕ → DecisionStore → Type 0
IsTaken id hash now s = All (λ d. is_takeable id hash now d ≡ false) s.decisions

consumed_not_takeable :
    (id : ℕ) (hash slug : String) (now : ℕ) (d : Decision)
    → is_takeable id hash now (consumed_row slug d) ≡ false
unfolding is_takeable consumed_row
consumed_not_takeable id hash slug now d = ground arith

superseded_not_takeable :
    (id : ℕ) (hash : String) (now : ℕ) (d : Decision)
    → is_takeable id hash now (superseded_row d) ≡ false
unfolding is_takeable superseded_row
superseded_not_takeable id hash now d = ground arith

count_none :
    (p : Decision → Bool) (ds : List Decision) → All (λ d. p d ≡ false) ds → count_where p ds ≡ 0
unfolding count_where
count_none p [] h = refl
count_none p (d ∷ ds) h = rw (h.0, count_none p ds h.1) refl

still_taken :
    (id : ℕ) (hash : String) (now t : ℕ) (preserve : Option ℕ) (ds : List Decision)
    → All (λ d. is_takeable id hash now d ≡ false) ds
    → All
        (λ d. is_takeable id hash now d ≡ false)
        (update_where (is_expiring t preserve) superseded_row ds)
unfolding update_where
still_taken id hash now t preserve [] h = tt
still_taken id hash now t preserve (d ∷ ds) h = elim (Bool-cases (is_expiring t preserve d)) [
  | inl e ↦ rw e (superseded_not_takeable id hash now d, still_taken id hash now t preserve ds h.1)
  | inr e ↦ rw e (h.0, still_taken id hash now t preserve ds h.1)
]

fresh_before :
    (now later : ℕ) (o : Option ℕ)
    → now ≤ later
    → (elim o [ none ↦ true | some t ↦ ltb now t ]) ≡ false
    → (elim o [ none ↦ true | some t ↦ ltb later t ]) ≡ false
fresh_before now later none h k = k
fresh_before now later (some t) h k = ground (arith, h, k)

weaken :
    (a b c x y : Bool)
    → (x ≡ false → y ≡ false)
    → (a && (b && (c && x))) ≡ false
    → (a && (b && (c && y))) ≡ false
weaken true true true x y f h = f h
weaken false b c x y f h = refl
weaken true false c x y f h = refl
weaken true true false x y f h = refl

-- What may be taken later may be taken before.
earlier_taken :
    (id : ℕ) (hash : String) (now later : ℕ) (d : Decision)
    → now ≤ later
    → is_takeable id hash now d ≡ false
    → is_takeable id hash later d ≡ false
unfolding is_takeable
earlier_taken id hash now later d h k =
    weaken (d.id == id) (is_active d.status) (str_eq d.category_input_hash hash) (is_fresh now d)
      (is_fresh later d) (fresh_before now later d.expires_at h) k

taken_later :
    (id : ℕ) (hash : String) (now later : ℕ) (ds : List Decision)
    → now ≤ later
    → All (λ d. is_takeable id hash now d ≡ false) ds
    → All (λ d. is_takeable id hash later d ≡ false) ds
taken_later id hash now later [] h k = tt
taken_later id hash now later (d ∷ ds) h k =
    (earlier_taken id hash now later d h k.0, taken_later id hash now later ds h k.1)

abbrev Answer : Type 0
Answer = Option String × DecisionStore

-- What holds of both branches.
if_both : (P : Answer → Type 0) (b : Bool) (x y : Answer) → P x → P y → P (if b then x else y)
if_both P true x y h k = h
if_both P false x y h k = k

abbrev IsRefused : Answer → Type 0
IsRefused a = a.0 ≡ none

-- Where a category is answered, no row is left to take.
abbrev IsSettled : ℕ → String → ℕ → Answer → Type 0
IsSettled id hash now a = is_some a.0 ≡ true → IsTaken id hash now a.1

take-IsRefused :
    (id : ℕ) (selected hash : String) (now : ℕ) (t : ReviewedTransaction) (o : Option String)
    (s : DecisionStore)
    → IsTaken id hash now s
    → IsRefused (take_choice id selected hash now t o s)
unfolding take_choice supersede_active_decisions
take-IsRefused id selected hash now t none s h = refl
take-IsRefused id selected hash now t (some slug) s h =
    rw
      (count_none (is_takeable id hash now) _
        (still_taken id hash now t.id (some id) s.decisions h))
      refl

take-IsSettled :
    (id : ℕ) (selected hash : String) (now : ℕ) (t : ReviewedTransaction) (o : Option String)
    (s : DecisionStore)
    → IsSettled id hash now (take_choice id selected hash now t o s)
unfolding take_choice after_choice
take-IsSettled id selected hash now t none s = λ k. ground (arith, k)
take-IsSettled id selected hash now t (some slug) s =
    let left = supersede_active_decisions t.id (some id) now s in
    if_both (IsSettled id hash now) (count_where (is_takeable id hash now) left.decisions == 1)
      (some slug, after_choice id selected hash now t slug left) (none, s)
      (λ k.
        none_left (is_takeable id hash now) (consumed_row selected)
          (consumed_not_takeable id hash selected now) left.decisions)
      (λ k. ground (arith, k))

module _ (fresh_hash : ReviewedTransaction → String)
    (assign_category : ReviewedTransaction → String → Option String) (P : Answer → Type 0) (id : ℕ)
    (selected hash : String) (delivery : Option ℕ) (now : ℕ) (s : DecisionStore)
    (refused : P (none, s))
    (taken : (t : ReviewedTransaction) (o : Option String)
      → P (take_choice id selected hash now t o s)) where
  choose_for-cases :
      (d : Decision) (o : Option ReviewedTransaction)
      → P (choose_for fresh_hash assign_category id d o selected hash delivery now s)
  unfolding choose_for
  choose_for-cases d none = refused
  choose_for-cases d (some t) = if_both P _ _ _ (taken t (assign_category t selected)) refused

  choose_by-cases :
      (o : Option Decision)
      → P (choose_by fresh_hash assign_category id o selected hash delivery now s)
  unfolding choose_by
  choose_by-cases none = refused
  choose_by-cases (some d) =
      if_both P _ _ _ (choose_for-cases d (get_reviewed d.transaction_id s.transactions)) refused

  -- A choice is refused with nothing written, or taken.
  consume-cases : P (consume_decision fresh_hash assign_category id selected hash delivery now s)
  unfolding consume_decision
  consume-cases = choose_by-cases (get_decision id s.decisions)

module _ (fresh_hash : ReviewedTransaction → String)
    (assign_category : ReviewedTransaction → String → Option String) where
  -- A choice is taken once: after a tap that sets a category, a tap on a button of the same decision
  -- that carries the same hash is refused, at that time or later, whichever candidate it selects and
  -- whichever message it is on.
  pub choice_taken_once :
      (id : ℕ) (selected other hash : String) (delivery shown : Option ℕ) (now later : ℕ)
      (s : DecisionStore)
      → now ≤ later
      → is_some (consume_decision fresh_hash assign_category id selected hash delivery now s).0
        ≡ true
      → (consume_decision fresh_hash assign_category id other hash shown later
          (consume_decision fresh_hash assign_category id selected hash delivery now s).1).0
        ≡ none
  choice_taken_once id selected other hash delivery shown now later s h k =
      let settled =
        consume-cases fresh_hash assign_category (IsSettled id hash now) id selected hash delivery
          now s (λ e. ground (arith, e)) (λ t o. take-IsSettled id selected hash now t o s) k in
      consume-cases fresh_hash assign_category IsRefused id other hash shown later _ refl (λ t o.
        take-IsRefused id other hash later t o _ (taken_later id hash now later _ h settled))
