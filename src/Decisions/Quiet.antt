-- ===== src/Decisions/Quiet.antt =====
-- What the conditions of the updates of services/categorization/decision_lifecycle.py say of a row
-- that they do not admit.
use financial_dashboard.Prelude.{
  ℕ, ◌≡◌, ◌≢◌, Bool, true, false, ◌&&◌, ◌||◌, ◌==◌, Bool-cases, ◌⊎◌, inl, inr, Option, Option-cases,
  none, some, List, [], ◌∷◌, All, arith,
}
use financial_dashboard.Outbox.Rows.{
  DeliveryStatus, delivered, abandoned, cancelled, Delivery, is_pending, is_delivering, is_unknown,
}
use financial_dashboard.Decisions.{active, Decision}
use financial_dashboard.Decisions.Lifecycle.{
  is_active, is_preserved, is_one_of, among, owned_by_expiring, is_expiring, is_withdrawn,
  sources_of,
}

-- The decision asks nothing of the transaction, or is the one that is preserved.
abbrev pub AsksNothing : ℕ → Option ℕ → Decision → Type 0
AsksNothing t preserve d = (d.transaction_id ≢ t) ⊎ (d.status ≢ active) ⊎ (preserve ≡ some d.id)

-- The message is not the decision's, nor one that its interaction sent about the transaction.
abbrev pub IsApart : ℕ → Decision → Delivery → Type 0
IsApart t d m =
    (m.category_review_decision_id ≢ some d.id)
    × ((m.interaction_id ≡ none)
        ⊎ (m.interaction_id ≢ d.source_interaction_id)
        ⊎ (m.transaction_id ≢ some t))

abbrev pub IsClosed : DeliveryStatus → Type 0
IsClosed s = (s ≡ delivered) ⊎ (s ≡ abandoned) ⊎ (s ≡ cancelled)

preserved_lem :
    (preserve : Option ℕ) (d : Decision) → is_preserved preserve d ≡ true → preserve ≡ some d.id
preserved_lem none d h = ground arith
preserved_lem (some id) d h = ground (arith, h)

pub is_expiring-AsksNothing :
    (t : ℕ) (preserve : Option ℕ) (d : Decision)
    → is_expiring t preserve d ≡ false
    → AsksNothing t preserve d
unfolding is_expiring
is_expiring-AsksNothing t preserve d h = elim (Bool-cases (d.transaction_id == t)) [
  | inr e ↦ inl (λ k. ground (arith, e, k))
  | inl e ↦ elim (Bool-cases (is_active d.status)) [
    | inr f ↦ inr (inl (λ k. ground (arith, f, k)))
    | inl f ↦ elim (Bool-cases (is_preserved preserve d)) [
      | inl g ↦ inr (inr (preserved_lem preserve d g))
      | inr g ↦ ground (arith, e, f, g, h)
    ]
  ]
]

is_one_of_lem : (o : Option ℕ) (x : ℕ) → is_one_of o x ≡ false → o ≢ some x
is_one_of_lem none x h k = ground (arith, k)
is_one_of_lem (some y) x h k = ground (arith, h, k)

closed_lem :
    (s : DeliveryStatus) → (is_pending s || (is_delivering s || is_unknown s)) ≡ false → IsClosed s
closed_lem s h = ground (arith, h)

-- Whether the source of the decision sent the message about the transaction.
abbrev sent_by : ℕ → Decision → Delivery → Bool
sent_by t d m = elim d.source_interaction_id [
  | none ↦ false
  | some i ↦ is_one_of m.interaction_id i && is_one_of m.transaction_id t
]

sent_by_lem :
    (t : ℕ) (d : Decision) (m : Delivery)
    → sent_by t d m ≡ false
    → (m.interaction_id ≡ none)
      ⊎ (m.interaction_id ≢ d.source_interaction_id)
      ⊎ (m.transaction_id ≢ some t)
sent_by_lem t d m h = elim (Option-cases m.interaction_id) [
  | inl e ↦ inl e
  | inr (j, e) ↦ elim (Option-cases d.source_interaction_id) [
    | inl f ↦ inr (inl (λ k. ground (arith, e, f, k)))
    | inr (i, f) ↦ elim (Bool-cases (is_one_of m.transaction_id t)) [
      | inr g ↦ inr (inr (is_one_of_lem m.transaction_id t g))
      | inl g ↦ inr (inl (λ k. ground (arith, e, f, g, h, k)))
    ]
  ]
]

-- A message that is not withdrawn is none of an expiring decision.
none_asks :
    (t : ℕ) (preserve : Option ℕ) (ds : List Decision) (m : Delivery)
    → owned_by_expiring t preserve ds m ≡ false
    → (among m.interaction_id (sources_of t preserve ds) && is_one_of m.transaction_id t) ≡ false
    → All (λ d. AsksNothing t preserve d ⊎ IsApart t d m) ds
unfolding owned_by_expiring sources_of among
none_asks t preserve [] m h k = tt
none_asks t preserve (d ∷ ds) m h k = elim (Bool-cases (is_expiring t preserve d)) [
  | inr e ↦ (
    inl (is_expiring-AsksNothing t preserve d e),
    none_asks t preserve ds m (ground (arith, h)) (ground (arith, e, k)),
  )
  | inl e ↦ (
    inr (
      is_one_of_lem m.category_review_decision_id d.id (ground (arith, e, h)),
      sent_by_lem t d m (ground (arith, e, k)),
    ),
    none_asks t preserve ds m (ground (arith, h)) (ground (arith, e, k)),
  )
]

-- The message is closed, or no decision of the list that asked owns it.
abbrev pub IsQuiet : ℕ → Option ℕ → List Decision → Delivery → Type 0
IsQuiet t preserve ds m = IsClosed m.status ⊎ All (λ d. AsksNothing t preserve d ⊎ IsApart t d m) ds

pub is_withdrawn-IsQuiet :
    (t : ℕ) (preserve : Option ℕ) (ds : List Decision) (m : Delivery)
    → is_withdrawn t preserve ds m ≡ false
    → IsQuiet t preserve ds m
unfolding is_withdrawn
is_withdrawn-IsQuiet t preserve ds m h =
    elim (Bool-cases (is_pending m.status || (is_delivering m.status || is_unknown m.status))) [
      | inr e ↦ inl (closed_lem m.status e)
      | inl e ↦ inr (none_asks t preserve ds m (ground (arith, e, h)) (ground (arith, e, h)))
    ]

pub All-map :
    {A : Type 0} {P Q : A → Type 0} → ((x : A) → P x → Q x) → (xs : List A) → All P xs → All Q xs
All-map f [] h = tt
All-map f (x ∷ xs) h = (f x h.0, All-map f xs h.1)
