-- ===== src/Cycles/Ties.antt =====
-- Statements of one account with one due date (services/cc_cycle.py).
use financial_dashboard.Prelude.{
  ℕ, ◌≡◌, ◌∙◌, ap, sym, inl, inr, refl, Option, none, some, String, List, [], ◌∷◌, Option-cases,
  arith,
}
use financial_dashboard.Cycles.Anchors.{
  StatementUpload, Anchor, due, anchors, boundary, earliest, insert_anchor, sort_anchors,
  group_created,
}
use financial_dashboard.Cycles.Window.{due_window, cc_cycle_window}
use financial_dashboard.Cycles.Adjacent.{In}

earliest_swap : (s t u : Option ℕ) → earliest s (earliest t u) ≡ earliest t (earliest s u)
earliest_swap s t u = ground arith

group_created-insert_anchor :
    (d : ℕ) (a : Anchor) (xs : List Anchor)
    → group_created d (insert_anchor a xs) ≡ group_created d (a ∷ xs)
unfolding group_created insert_anchor
group_created-insert_anchor d a [] = refl
group_created-insert_anchor d a (b ∷ bs) = ground (
  arith,
  group_created-insert_anchor d a bs,
  earliest_swap a.created_at b.created_at (group_created d bs),
)

group_created-sort_anchors :
    (d : ℕ) (xs : List Anchor) → group_created d (sort_anchors xs) ≡ group_created d xs
unfolding group_created sort_anchors
group_created-sort_anchors d [] = refl
group_created-sort_anchors d (a ∷ xs) =
    ground
      (arith, group_created-insert_anchor d a (sort_anchors xs), group_created-sort_anchors d xs)

not_created :
    (parse_date : String → Option ℕ) (u : StatementUpload) (rows : List StatementUpload) (d : ℕ)
    → In u rows
    → due parse_date u.due_date ≡ some d
    → group_created d (anchors parse_date u.account_id rows) ≡ none
    → u.created_at ≡ none
unfolding group_created anchors
not_created parse_date u [] d i h n = absurd i
not_created parse_date u (x ∷ xs) d (inl i) h n = ground (
  arith,
  h,
  n,
  ap (λ z. z.account_id) i,
  ap (λ z. z.created_at) i,
  ap (λ z. due parse_date z.due_date) i,
)
not_created parse_date u (x ∷ xs) d (inr i) h n =
    ground (arith, h, n, not_created parse_date u xs d i h)

cc_cycle_window_lem :
    (parse_date : String → Option ℕ) (u : StatementUpload) (now : ℕ) (rows : List StatementUpload)
    (d : ℕ)
    → due parse_date u.due_date ≡ some d
    → cc_cycle_window parse_date u now rows
      ≡ due_window u d now (sort_anchors (anchors parse_date u.account_id rows))
unfolding cc_cycle_window
cc_cycle_window_lem parse_date u now rows d h = ground (arith, h)

-- The window reads its own statement only where no anchor of its day has a time.
due_window_created :
    (u v : StatementUpload) (now d t : ℕ) (xs : List Anchor)
    → group_created d xs ≡ some t
    → due_window u d now xs ≡ due_window v d now xs
unfolding due_window boundary
due_window_created u v now d t xs n = ground (arith, n)

due_window-none :
    (u v : StatementUpload) (now d : ℕ) (xs : List Anchor)
    → u.created_at ≡ none
    → v.created_at ≡ none
    → due_window u d now xs ≡ due_window v d now xs
unfolding due_window boundary
due_window-none u v now d xs h k = ground (arith, h, k)

-- Statements of an account that share a due date share one window, whatever their order and the
-- times at which they were ingested.
pub tied_statements_share_cycle :
    (parse_date : String → Option ℕ) (u v : StatementUpload) (now : ℕ) (rows : List StatementUpload)
    (d : ℕ)
    → In u rows
    → In v rows
    → u.account_id ≡ v.account_id
    → due parse_date u.due_date ≡ some d
    → due parse_date v.due_date ≡ some d
    → cc_cycle_window parse_date u now rows ≡ cc_cycle_window parse_date v now rows
tied_statements_share_cycle parse_date u v now rows d i j same h k =
    let xs = anchors parse_date v.account_id rows in
    let eq : anchors parse_date u.account_id rows ≡ xs = ap (λ a. anchors parse_date a rows) same in
    let one =
      cc_cycle_window_lem parse_date u now rows d h
      ∙ ap (λ ys. due_window u d now (sort_anchors ys)) eq in
    let two = sym (cc_cycle_window_lem parse_date v now rows d k) in
    elim (Option-cases (group_created d xs)) [
      | inl n ↦
          one
          ∙ due_window-none u v now d (sort_anchors xs)
              (not_created parse_date u rows d i h (ap (group_created d) eq ∙ n))
              (not_created parse_date v rows d j k n)
          ∙ two
      | inr (t, n) ↦
          one
          ∙ due_window_created u v now d t (sort_anchors xs) (group_created-sort_anchors d xs ∙ n)
          ∙ two
    ]
