-- ===== src/Receivables/Move/Links.antt =====
-- The links after a merge of two transactions (`move_receivable_links` of services/receivables.py).
use financial_dashboard.Prelude.{
  ℕ, ◌≡◌, ◌≢◌, refl, true, false, ◌&&◌, ◌||◌, not, List, [], ◌∷◌, ◌==◌, ◌⊎◌, inl, inr, arith,
  Bool-cases,
}
use financial_dashboard.Receivables.Store.{Link, has_link, pays, is_unique, is_payment}
use financial_dashboard.Receivables.Move.{
  is_dropped, drop_links, point_at, repoint, moved_links, is_paid_by,
}

module _ (old new : ℕ) (table : List Link) where
  -- The links of a part of the table, after the DELETE and the UPDATE.
  abbrev part : List Link → List Link
  part ls = repoint old new (drop_links old new table ls)

  has_link-part :
      (r t : ℕ) (ls : List Link) → t ≢ old → t ≢ new → has_link r t (part ls) ≡ has_link r t ls
  unfolding drop_links repoint has_link
  has_link-part r t [] a b = refl
  has_link-part r t (l ∷ ls) a b = ground (arith, has_link-part r t ls a b)

  pays-part : (t : ℕ) (ls : List Link) → t ≢ old → t ≢ new → pays t (part ls) ≡ pays t ls
  unfolding drop_links repoint pays
  pays-part t [] a b = refl
  pays-part t (l ∷ ls) a b = ground (arith, pays-part t ls a b)

  -- No link names the old row.
  has_link-part_old : (r : ℕ) (ls : List Link) → old ≢ new → has_link r old (part ls) ≡ false
  unfolding drop_links repoint has_link
  has_link-part_old r [] ne = refl
  has_link-part_old r (l ∷ ls) ne = ground (arith, has_link-part_old r ls ne)

  has_link-part_new :
      (r : ℕ) (ls : List Link)
      → has_link r new (part ls) ≡ true
      → (has_link r new ls ≡ true) ⊎ ((has_link r old ls ≡ true) × (has_link r new table ≡ false))
  unfolding drop_links repoint has_link
  has_link-part_new r [] h = cc
  has_link-part_new r (l ∷ ls) h = ground (arith, has_link-part_new r ls)

  pays-part_new :
      (ls : List Link)
      → pays new (part ls) ≡ true
      → (pays new ls ≡ true) ⊎ ((pays old ls ≡ true) × (pays new table ≡ false))
  unfolding drop_links repoint pays
  pays-part_new [] h = cc
  pays-part_new (l ∷ ls) h = ground (arith, pays-part_new ls)

  -- What the subqueries see covers the part: its links to the keeper are in the table.
  abbrev Covers : List Link → Type 0
  Covers [] = Unit
  Covers (l ∷ ls) =
      (l.transaction_id ≡ new → has_link l.receivable_id new table ≡ true)
      × (l.transaction_id ≡ new → is_payment l.role ≡ true → pays new table ≡ true)
      × Covers ls

  Covers-has_link :
      (r : ℕ) (ls : List Link) → Covers ls → has_link r new ls ≡ true → has_link r new table ≡ true
  unfolding has_link
  Covers-has_link r [] c h = cc
  Covers-has_link r (l ∷ ls) c h = ground (arith, Covers-has_link r ls c.2, c.0)

  Covers-pays : (ls : List Link) → Covers ls → pays new ls ≡ true → pays new table ≡ true
  unfolding pays
  Covers-pays [] c h = cc
  Covers-pays (l ∷ ls) c h = ground (arith, Covers-pays ls c.2, c.1)

  head_has_link :
      (l : Link) (ls : List Link)
      → old ≢ new
      → Covers (l ∷ ls)
      → is_dropped old new table l ≡ false
      → has_link l.receivable_id l.transaction_id ls ≡ false
      → has_link l.receivable_id (point_at old new l).transaction_id (part ls) ≡ false
  unfolding is_dropped point_at
  head_has_link l ls ne c d u =
      elim (Bool-cases (has_link l.receivable_id (point_at old new l).transaction_id (part ls))) [
        | inr e ↦ e
        | inl e ↦ absurd (
            ground (
              arith,
              has_link-part l.receivable_id l.transaction_id ls,
              has_link-part_new l.receivable_id ls,
              Covers-has_link l.receivable_id ls c.2,
              c.0,
              e,
            ))
      ]

  head_pays :
      (l : Link) (ls : List Link)
      → old ≢ new
      → Covers (l ∷ ls)
      → is_dropped old new table l ≡ false
      → (is_payment l.role && pays l.transaction_id ls) ≡ false
      → (is_payment l.role && pays (point_at old new l).transaction_id (part ls)) ≡ false
  unfolding is_dropped point_at
  head_pays l ls ne c d u =
      ground (arith, pays-part l.transaction_id ls, pays-part_new ls, Covers-pays ls c.2, c.1)

  part-is_unique :
      (ls : List Link) → old ≢ new → Covers ls → is_unique ls ≡ true → is_unique (part ls) ≡ true
  unfolding drop_links repoint is_unique
  part-is_unique [] ne c u = refl
  part-is_unique (l ∷ ls) ne c u = elim (Bool-cases (is_dropped old new table l)) [
    | inl d ↦ ground (arith, part-is_unique ls ne c.2, d)
    | inr d ↦
        ground
          (arith, d, head_has_link l ls ne c d, head_pays l ls ne c d, part-is_unique ls ne c.2)
  ]

  is_paid_by-has_link :
      (r t : ℕ) (ls : List Link) → is_paid_by r t ls ≡ true → has_link r t ls ≡ true
  unfolding is_paid_by has_link
  is_paid_by-has_link r t [] h = cc
  is_paid_by-has_link r t (l ∷ ls) h = ground (arith, is_paid_by-has_link r t ls)

  abbrev Linked : ℕ → List Link → Type 0
  Linked r ls = has_link r new (part ls) ≡ (
      has_link r new ls
      || (has_link r old ls
          && (not (has_link r new table) && not (is_paid_by r old ls && pays new table))))

  part-links_stale :
      (r : ℕ) (l : Link) (ls : List Link)
      → old ≢ new
      → (l.receivable_id == r) ≡ true
      → (l.transaction_id == old) ≡ true
      → has_link l.receivable_id l.transaction_id ls ≡ false
      → (is_paid_by r old ls ≡ true → has_link r old ls ≡ true)
      → Linked r ls
      → Linked r (l ∷ ls)
  unfolding drop_links repoint has_link is_paid_by
  part-links_stale r l ls ne same stale fresh pl ih = ground arith

  is_unique_tail :
      (l : Link) (ls : List Link)
      → is_unique (l ∷ ls) ≡ true
      → (is_unique ls ≡ true) × (has_link l.receivable_id l.transaction_id ls ≡ false)
  unfolding is_unique
  is_unique_tail l ls u = ground arith

  -- Which receivables link the keeper afterwards.
  part-links : (r : ℕ) (ls : List Link) → old ≢ new → is_unique ls ≡ true → Linked r ls
  unfolding drop_links repoint has_link is_paid_by
  part-links r [] ne u = refl
  part-links r (l ∷ ls) ne u =
      let tail = is_unique_tail l ls u in
      let ih = part-links r ls ne tail.0 in
      elim (Bool-cases (l.receivable_id == r)) [
        | inr other ↦ ground (arith, other, ih)
        | inl same ↦ elim (Bool-cases (l.transaction_id == old)) [
          | inr kept ↦ ground (arith, same, kept, ih)
          | inl stale ↦
              part-links_stale r l ls ne same stale tail.1 (is_paid_by-has_link r old ls) ih
        ]
      ]

Covers-cons :
    (old new : ℕ) (l : Link) (table ls : List Link)
    → Covers old new table ls
    → Covers old new (l ∷ table) ls
unfolding has_link pays
Covers-cons old new l table [] c = tt
Covers-cons old new l table (x ∷ ls) c =
    (λ e. ground (arith, c.0 e), λ e p. ground (arith, c.1 e p), Covers-cons old new l table ls c.2)

Covers-self : (old new : ℕ) (table : List Link) → Covers old new table table
unfolding has_link pays
Covers-self old new [] = tt
Covers-self old new (l ∷ ls) =
    (λ e. ground arith, λ e p. ground arith, Covers-cons old new l ls ls (Covers-self old new ls))

-- A merge of two different rows keeps the unique indexes, so its UPDATE cannot fail: from links that
-- meet them, the links that it leaves meet them too, and none of them names the old row. A
-- receivable links the keeper afterwards exactly if it linked the keeper before, or linked the old
-- row by a link that is not a second payment (its link to the old row pays, and the keeper pays
-- already). The links of any other row stay.
pub moved_links_lem :
    (old new r t : ℕ) (table : List Link)
    → old ≢ new
    → t ≢ old
    → t ≢ new
    → is_unique table ≡ true
    → (is_unique (moved_links old new table) ≡ true)
      × (has_link r old (moved_links old new table) ≡ false)
      × (has_link r new (moved_links old new table) ≡ (
          has_link r new table
          || (has_link r old table && not (is_paid_by r old table && pays new table))))
      × (has_link r t (moved_links old new table) ≡ has_link r t table)
      × (pays t (moved_links old new table) ≡ pays t table)
unfolding moved_links
moved_links_lem old new r t table ne a b u = (
  part-is_unique old new table table ne (Covers-self old new table) u,
  has_link-part_old old new table r table ne,
  ground (arith, part-links old new table r table ne u),
  has_link-part old new table r t table a b,
  pays-part old new table t table a b,
)

-- The first part of `moved_links_lem`, which needs no other row.
pub moved_links-is_unique :
    (old new : ℕ) (table : List Link)
    → old ≢ new
    → is_unique table ≡ true
    → is_unique (moved_links old new table) ≡ true
unfolding moved_links
moved_links-is_unique old new table ne u =
    part-is_unique old new table table ne (Covers-self old new table) u
