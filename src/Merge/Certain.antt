-- ===== src/Merge/Certain.antt =====
-- What the decisions of `_decide` (services/txn_merge.py) rest on.
use financial_dashboard.Prelude.{
  ℕ, ◌≡◌, refl, sym, subst, Bool, true, false, ◌&&◌, Bool-cases, inl, inr, Option, none, some, List,
  [], ◌∷◌, keep_if, In, In-keep_if, if◌then◌else◌,
}
use financial_dashboard.Prelude.Int.{ℤ}
use financial_dashboard.Masks.Chars.{Text}
use financial_dashboard.Reconcile.{strip}
use financial_dashboard.Merge.{Channel, Transaction, Incoming}
use financial_dashboard.Merge.Diff.{is_blank}
use financial_dashboard.Merge.Decide.{
  MatchDecision, insert, matched, defer, or_blank, slot_open, passes_utr, passes_reference,
  has_balance, no_balance, decide_among, decide_equal, decide_balance, decide_one, decide_slots,
  decide_reference, decide,
}

-- `insert` and `defer` are no match.
abbrev pub Matches : Transaction → MatchDecision → Type 0
Matches c (matched d) = d ≡ c
Matches c insert = ⊥
Matches c (defer reason ids) = ⊥

pub to_matches : (c : Transaction) (d : MatchDecision) → d ≡ matched c → Matches c d
to_matches c d h = subst (Matches c) (sym h) refl

decide_among-match :
    (xs : List Transaction) (ids : List ℕ) (c : Transaction)
    → Matches c (decide_among xs ids)
    → In c xs
unfolding decide_among
decide_among-match [] ids c h = absurd h
decide_among-match (e ∷ []) ids c h = inl (sym h)
decide_among-match (e ∷ f ∷ es) ids c h = absurd h

decide_equal-match :
    (b : ℤ) (cs : List Transaction) (c : Transaction)
    → Matches c (decide_equal b cs)
    → In c cs × (has_balance b c ≡ true)
unfolding decide_equal
decide_equal-match b [] c h = absurd h
decide_equal-match b (d ∷ cs) c h =
    In-keep_if (has_balance b) (d ∷ cs) c (decide_among-match _ _ c h)

decide_balance-match :
    (b : ℤ) (cs : List Transaction) (c : Transaction)
    → Matches c (decide_balance b cs)
    → In c cs × (has_balance b c ≡ true)
unfolding decide_balance
decide_balance-match b cs c h =
    let (left, same) = decide_equal-match b _ c h in ((In-keep_if _ cs c left).0, same)

decide_one-match :
    (b : Bool) (d c : Transaction) → Matches c (decide_one b d) → (d ≡ c) × (b ≡ true)
unfolding decide_one
decide_one-match true d c h = (h, refl)
decide_one-match false d c h = absurd h

decide_slots-match :
    (ch : Channel) (cs : List Transaction) (c : Transaction)
    → Matches c (decide_slots ch cs)
    → In c cs × ((no_balance c && slot_open c ch) ≡ true)
unfolding decide_slots
decide_slots-match ch [] c h = absurd h
decide_slots-match ch (d ∷ []) c h =
    let (e, fits) = decide_one-match _ d c h in
    (inl (sym e), subst (λ x. (no_balance x && slot_open x ch) ≡ true) e fits)
decide_slots-match ch (d ∷ e ∷ cs) c h = absurd h

decide_reference-match :
    (incoming : Incoming) (ref : Text) (ch : Channel) (source_id : Option ℕ) (cs : List Transaction)
    (c : Transaction)
    → Matches c (decide_reference incoming ref ch source_id cs)
    → In c cs × ((no_balance c && slot_open c ch) ≡ true)
unfolding decide_reference
decide_reference-match incoming ref ch source_id cs c h = elim (Bool-cases (is_blank ref)) [
  | inl e ↦ decide_slots-match ch cs c (
      subst
        (λ t. Matches c (
          if t
          then decide_slots ch cs
          else decide_slots ch (keep_if (passes_reference incoming ref ch source_id) cs)))
        e h)
  | inr e ↦
      let (left, open_slot) = decide_slots-match ch _ c (
        subst
          (λ t. Matches c (
            if t
            then decide_slots ch cs
            else decide_slots ch (keep_if (passes_reference incoming ref ch source_id) cs)))
          e h) in
      ((In-keep_if _ cs c left).0, open_slot)
]

-- What a match rests on: equal known balances, or no balance on either side and an open slot.
abbrev pub Confirms : Option ℤ → Channel → Transaction → Type 0
Confirms none ch c = (no_balance c && slot_open c ch) ≡ true
Confirms (some b) ch c = has_balance b c ≡ true

decide_by-match :
    (balance : Option ℤ) (incoming : Incoming) (ref : Text) (ch : Channel) (source_id : Option ℕ)
    (left : List Transaction) (c : Transaction)
    → Matches c (elim balance [
      | none ↦ decide_reference incoming ref ch source_id left
      | some b ↦ decide_balance b left
    ])
    → In c left × Confirms balance ch c
decide_by-match none incoming ref ch source_id left c h =
    decide_reference-match incoming ref ch source_id left c h
decide_by-match (some b) incoming ref ch source_id left c h = decide_balance-match b left c h

-- `_decide` answers a match only on evidence: the row is one of the candidates, and either both state
-- the same balance, or neither states one and the row's slot for the channel is open.
pub match_is_confirmed :
    (candidates : List Transaction) (incoming : Incoming) (ch : Channel) (source_id : Option ℕ)
    (c : Transaction)
    → decide candidates incoming ch source_id ≡ matched c
    → In c candidates × Confirms incoming.fields.balance ch c
unfolding decide
match_is_confirmed candidates incoming ch source_id c h =
    let ref = strip (or_blank incoming.fields.reference_number) in
    let left = keep_if (passes_utr ref ch source_id) candidates in
    let (member, sure) =
      decide_by-match incoming.fields.balance incoming ref ch source_id left c
        (to_matches c (decide candidates incoming ch source_id) h) in
    ((In-keep_if _ candidates c member).0, sure)
