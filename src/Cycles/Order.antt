-- ===== src/Cycles/Order.antt =====
-- What `cc_cycle_window` (services/cc_cycle.py) takes from its sorted anchors, whatever their order.
use financial_dashboard.Prelude.{
  ℕ, ◌≤◌, ◌≡◌, ◌∙◌, ap, inl, inr, refl, max, Bool, false, ◌||◌, not, Option, none, some, List, [],
  ◌∷◌, All, Option-cases, arith, ltb, if◌then◌else◌,
}
use financial_dashboard.Cycles.Anchors.{
  Anchor, insert_anchor, sort_anchors, due_before, due_after, last_due, is_empty,
}

-- The greatest due date below a day.
unfoldable pub greatest_below : ℕ → List Anchor → Option ℕ
greatest_below d [] = none
greatest_below d (a ∷ xs) =
    let rest = greatest_below d xs in
    if ltb a.due d then elim rest [ none ↦ some a.due | some e ↦ some (max a.due e) ] else rest

-- Sorted by the due date.
abbrev pub IsSorted : List Anchor → Type 0
IsSorted [] = Unit
IsSorted (a ∷ xs) = All (λ b. a.due ≤ b.due) xs × IsSorted xs

insert_anchor-All :
    (d : ℕ) (a : Anchor) (xs : List Anchor)
    → d ≤ a.due
    → All (λ b. d ≤ b.due) xs
    → All (λ b. d ≤ b.due) (insert_anchor a xs)
unfolding insert_anchor
insert_anchor-All d a [] h k = ground arith
insert_anchor-All d a (b ∷ bs) h k = ground (arith, insert_anchor-All d a bs h k.1)

All-weaken :
    (d e : ℕ) (xs : List Anchor) → d ≤ e → All (λ b. e ≤ b.due) xs → All (λ b. d ≤ b.due) xs
All-weaken d e [] h k = tt
All-weaken d e (b ∷ bs) h k = (omega arith, All-weaken d e bs h k.1)

insert_anchor-IsSorted :
    (a : Anchor) (xs : List Anchor) → IsSorted xs → IsSorted (insert_anchor a xs)
unfolding insert_anchor
insert_anchor-IsSorted a [] s = ground arith
insert_anchor-IsSorted a (b ∷ bs) s = ground (
  arith,
  insert_anchor-IsSorted a bs s.1,
  insert_anchor-All b.due a bs,
  All-weaken a.due b.due bs,
)

pub sort_anchors-IsSorted : (xs : List Anchor) → IsSorted (sort_anchors xs)
unfolding sort_anchors
sort_anchors-IsSorted [] = tt
sort_anchors-IsSorted (a ∷ xs) =
    insert_anchor-IsSorted a (sort_anchors xs) (sort_anchors-IsSorted xs)

greatest_below_bound :
    (d k e : ℕ) (xs : List Anchor) → All (λ b. k ≤ b.due) xs → greatest_below d xs ≡ some e → k ≤ e
unfolding greatest_below
greatest_below_bound d k e [] h g = ground arith
greatest_below_bound d k e (a ∷ xs) h g = elim (Option-cases (greatest_below d xs)) [
  | inl n ↦ ground (arith, h, g, n)
  | inr (f, n) ↦ ground (arith, h, g, n, greatest_below_bound d k f xs h.1 n)
]

last_due_lem :
    (d : ℕ) (xs : List Anchor) → IsSorted xs → last_due (due_before d xs) ≡ greatest_below d xs
unfolding last_due due_before greatest_below
last_due_lem d [] s = refl
last_due_lem d (a ∷ xs) s = elim (Option-cases (greatest_below d xs)) [
  | inl n ↦ ground (arith, n, last_due_lem d xs s.1)
  | inr (e, n) ↦ ground (arith, n, last_due_lem d xs s.1, greatest_below_bound d a.due e xs s.0 n)
]

greatest_below-insert_anchor :
    (d : ℕ) (a : Anchor) (xs : List Anchor)
    → greatest_below d (insert_anchor a xs) ≡ greatest_below d (a ∷ xs)
unfolding greatest_below insert_anchor
greatest_below-insert_anchor d a [] = refl
greatest_below-insert_anchor d a (b ∷ bs) = ground (arith, greatest_below-insert_anchor d a bs)

greatest_below-sort_anchors :
    (d : ℕ) (xs : List Anchor) → greatest_below d (sort_anchors xs) ≡ greatest_below d xs
unfolding greatest_below sort_anchors
greatest_below-sort_anchors d [] = refl
greatest_below-sort_anchors d (a ∷ xs) =
    ground
      (arith, greatest_below-insert_anchor d a (sort_anchors xs), greatest_below-sort_anchors d xs)

-- Whether an anchor is due after the day.
unfoldable pub any_after : ℕ → List Anchor → Bool
any_after d [] = false
any_after d (a ∷ xs) = ltb d a.due || any_after d xs

any_after-insert_anchor :
    (d : ℕ) (a : Anchor) (xs : List Anchor)
    → any_after d (insert_anchor a xs) ≡ any_after d (a ∷ xs)
unfolding any_after insert_anchor
any_after-insert_anchor d a [] = refl
any_after-insert_anchor d a (b ∷ bs) = ground (arith, any_after-insert_anchor d a bs)

any_after_lem : (d : ℕ) (xs : List Anchor) → is_empty (due_after d xs) ≡ not (any_after d xs)
unfolding any_after due_after
any_after_lem d [] = refl
any_after_lem d (a ∷ xs) = ground (arith, any_after_lem d xs)

any_after-sort_anchors : (d : ℕ) (xs : List Anchor) → any_after d (sort_anchors xs) ≡ any_after d xs
unfolding any_after sort_anchors
any_after-sort_anchors d [] = refl
any_after-sort_anchors d (a ∷ xs) =
    ground (arith, any_after-insert_anchor d a (sort_anchors xs), any_after-sort_anchors d xs)

pub prev_due_lem :
    (d : ℕ) (xs : List Anchor) → last_due (due_before d (sort_anchors xs)) ≡ greatest_below d xs
prev_due_lem d xs =
    last_due_lem d (sort_anchors xs) (sort_anchors-IsSorted xs) ∙ greatest_below-sort_anchors d xs

pub has_next_lem :
    (d : ℕ) (xs : List Anchor) → is_empty (due_after d (sort_anchors xs)) ≡ not (any_after d xs)
has_next_lem d xs = any_after_lem d (sort_anchors xs) ∙ ap not (any_after-sort_anchors d xs)
