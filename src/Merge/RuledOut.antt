-- ===== src/Merge/RuledOut.antt =====
-- When `_decide` (services/txn_merge.py) inserts a new row.
use financial_dashboard.Prelude.{
  ℕ, ◌≡◌, refl, sym, subst, Bool, true, false, ◌||◌, Bool-cases, ◌⊎◌, inl, inr, Option, none, some,
  List, [], ◌∷◌, keep_if, In, keep_if-In, if◌then◌else◌,
}
use financial_dashboard.Prelude.Int.{ℤ}
use financial_dashboard.Masks.Chars.{Text}
use financial_dashboard.Reconcile.{strip}
use financial_dashboard.Merge.{Channel, Transaction, Incoming}
use financial_dashboard.Merge.Diff.{is_blank}
use financial_dashboard.Merge.Decide.{
  MatchDecision, insert, matched, defer, or_blank, passes_utr, passes_reference, has_balance,
  no_balance, decide_among, decide_equal, decide_balance, decide_one, decide_slots,
  decide_reference, decide,
}

abbrev Inserts : MatchDecision → Type 0
Inserts insert = Unit
Inserts (matched c) = ⊥
Inserts (defer reason ids) = ⊥

keep_if-none :
    {A : Type 0} (p : A → Bool) (xs : List A) (x : A) → keep_if p xs ≡ [] → In x xs → p x ≡ false
keep_if-none p xs x e i = elim (Bool-cases (p x)) [
  | inl h ↦ absurd (subst (In x) e (keep_if-In p xs x i h))
  | inr h ↦ h
]

among_never : (xs : List Transaction) (ids : List ℕ) → Inserts (decide_among xs ids) → ⊥
unfolding decide_among
among_never [] ids h = h
among_never (e ∷ []) ids h = h
among_never (e ∷ f ∷ es) ids h = h

equal_none : (b : ℤ) (cs : List Transaction) → Inserts (decide_equal b cs) → cs ≡ []
unfolding decide_equal
equal_none b [] h = refl
equal_none b (c ∷ cs) h = absurd (among_never _ _ h)

one_never : (b : Bool) (c : Transaction) → Inserts (decide_one b c) → ⊥
unfolding decide_one
one_never true c h = h
one_never false c h = h

slots_none : (ch : Channel) (cs : List Transaction) → Inserts (decide_slots ch cs) → cs ≡ []
unfolding decide_slots
slots_none ch [] h = refl
slots_none ch (c ∷ []) h = absurd (one_never _ c h)
slots_none ch (c ∷ d ∷ cs) h = absurd h

-- What rules a candidate out, by the balance of the message: another known balance, or, for a
-- message without one, a reference that proves another event.
abbrev pub Contradicts : Option ℤ → Incoming → Text → Channel → Option ℕ → Transaction → Type 0
Contradicts (some b) incoming ref ch source_id c = (no_balance c || has_balance b c) ≡ false
Contradicts none incoming ref ch source_id c =
    (is_blank ref ≡ false) × (passes_reference incoming ref ch source_id c ≡ false)

reference_insert :
    (incoming : Incoming) (ref : Text) (ch : Channel) (source_id : Option ℕ) (cs : List Transaction)
    (c : Transaction)
    → Inserts (decide_reference incoming ref ch source_id cs)
    → In c cs
    → (is_blank ref ≡ false) × (passes_reference incoming ref ch source_id c ≡ false)
unfolding decide_reference
reference_insert incoming ref ch source_id cs c h i =
    let goal = λ (t : Bool). Inserts (
      if t
      then decide_slots ch cs
      else decide_slots ch (keep_if (passes_reference incoming ref ch source_id) cs)) in
    elim (Bool-cases (is_blank ref)) [
      | inl e ↦ absurd (subst (In c) (slots_none ch cs (subst goal e h)) i)
      | inr e ↦ (e, keep_if-none _ cs c (slots_none ch _ (subst goal e h)) i)
    ]

by_balance :
    (balance : Option ℤ) (incoming : Incoming) (ref : Text) (ch : Channel) (source_id : Option ℕ)
    (left : List Transaction) (c : Transaction)
    → Inserts (elim balance [
      | none ↦ decide_reference incoming ref ch source_id left
      | some b ↦ decide_balance b left
    ])
    → In c left
    → Contradicts balance incoming ref ch source_id c
unfolding decide_balance
by_balance none incoming ref ch source_id left c h i =
    reference_insert incoming ref ch source_id left c h i
by_balance (some b) incoming ref ch source_id left c h i =
    keep_if-none _ left c (equal_none b _ h) i

-- A new row is inserted only if every candidate is ruled out: by the UTRs of a screenshot and the
-- message, by another known balance, or, for a message without a balance, by a reference that proves
-- another event.
pub insert_rules_out_all :
    (candidates : List Transaction) (incoming : Incoming) (ch : Channel) (source_id : Option ℕ)
    (c : Transaction)
    → decide candidates incoming ch source_id ≡ insert
    → In c candidates
    → (passes_utr (strip (or_blank incoming.fields.reference_number)) ch source_id c ≡ false)
      ⊎ Contradicts incoming.fields.balance incoming
          (strip (or_blank incoming.fields.reference_number))
          ch
          source_id
          c
unfolding decide
insert_rules_out_all candidates incoming ch source_id c h i =
    let ref = strip (or_blank incoming.fields.reference_number) in
    elim (Bool-cases (passes_utr ref ch source_id c)) [
      | inr e ↦ inl e
      | inl e ↦ inr (
          by_balance incoming.fields.balance incoming ref ch source_id
            (keep_if (passes_utr ref ch source_id) candidates) c (subst Inserts (sym h) tt)
            (keep_if-In _ candidates c i e))
    ]
