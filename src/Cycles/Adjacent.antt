-- ===== src/Cycles/Adjacent.antt =====
-- The cycles of one account (services/cc_cycle.py) side by side.
use financial_dashboard.Prelude.{
  ℕ, ◌+◌, ◌≤◌, ◌<◌, ◌≡◌, ◌∙◌, ap, sym, ◌⊎◌, inl, inr, max, Bool, true, false, ◌&&◌, ◌||◌, Option,
  none, some, String, List, [], ◌∷◌, Option-cases, Bool-cases, arith, ◌==◌, ltb, leb, if◌then◌else◌,
}
use financial_dashboard.Cycles.Anchors.{
  StatementUpload, CycleWindow, Anchor, due, anchors, boundary,
}
use financial_dashboard.Cycles.Order.{greatest_below, any_after, prev_due_lem, has_next_lem}
use financial_dashboard.Cycles.Window.{due_window, cc_cycle_window, Payment, is_in_cycle}

abbrev pub In : StatementUpload → List StatementUpload → Type 0
In u [] = ⊥
In u (x ∷ xs) = (u ≡ x) ⊎ In u xs

unfoldable pub has_due : ℕ → List Anchor → Bool
has_due d [] = false
has_due d (a ∷ xs) = a.due == d || has_due d xs

-- Whether an anchor is due from one day to before another.
unfoldable pub any_due : ℕ → ℕ → List Anchor → Bool
any_due lo hi [] = false
any_due lo hi (a ∷ xs) = leb lo a.due && ltb a.due hi || any_due lo hi xs

pub In-has_due :
    (parse_date : String → Option ℕ) (u : StatementUpload) (rows : List StatementUpload) (d : ℕ)
    → In u rows
    → due parse_date u.due_date ≡ some d
    → has_due d (anchors parse_date u.account_id rows) ≡ true
unfolding has_due anchors
In-has_due parse_date u [] d h e = absurd h
In-has_due parse_date u (x ∷ xs) d (inl h) e =
    ground (arith, e, ap (λ z. z.account_id) h, ap (λ z. due parse_date z.due_date) h)
In-has_due parse_date u (x ∷ xs) d (inr h) e = ground (arith, In-has_due parse_date u xs d h e)

abbrev max_below : ℕ → ℕ → ℕ → ℕ
max_below a g e = if ltb a e then max a g else g

greatest_below_bound : (e g : ℕ) (xs : List Anchor) → greatest_below e xs ≡ some g → g < e
unfolding greatest_below
greatest_below_bound e g [] h = ground arith
greatest_below_bound e g (a ∷ xs) h = elim (Option-cases (greatest_below e xs)) [
  | inl n ↦ ground (arith, h, n)
  | inr (f, n) ↦ ground (arith, h, n, greatest_below_bound e f xs n)
]

-- The due date before that of an anchor.
greatest_below_lem :
    (d e : ℕ) (xs : List Anchor)
    → d < e
    → has_due d xs ≡ true
    → (g : ℕ) × (greatest_below e xs ≡ some g) × (d ≤ g) × (g < e)
unfolding greatest_below has_due
greatest_below_lem d e [] h k = absurd (ground arith)
greatest_below_lem d e (a ∷ xs) h k = elim (Bool-cases (has_due d xs)) [
  | inl i ↦
      let (g, n, lo, hi) = greatest_below_lem d e xs h i in
      (max_below a.due g e, ground (arith, n, lo, hi), ground (arith, lo), ground (arith, hi))
  | inr i ↦ elim (Option-cases (greatest_below e xs)) [
    | inl n ↦ (d, ground (arith, h, k, i, n), omega arith, h)
    | inr (g, n) ↦ (
      max d g,
      ground (arith, h, k, i, n),
      omega arith,
      omega (arith, h, greatest_below_bound e g xs n),
    )
  ]
]

greatest_below_of_none :
    (d e g : ℕ) (xs : List Anchor) → any_due d e xs ≡ false → greatest_below e xs ≡ some g → g < d
unfolding greatest_below any_due
greatest_below_of_none d e g [] h k = ground arith
greatest_below_of_none d e g (a ∷ xs) h k = elim (Option-cases (greatest_below e xs)) [
  | inl n ↦ ground (arith, h, k, n)
  | inr (f, n) ↦ ground (arith, h, k, n, greatest_below_of_none d e f xs)
]

any_after_lem : (d e : ℕ) (xs : List Anchor) → d < e → has_due e xs ≡ true → any_after d xs ≡ true
unfolding any_after has_due
any_after_lem d e [] h k = k
any_after_lem d e (a ∷ xs) h k = ground (arith, any_after_lem d e xs h)

-- The window by the greatest due date below and whether one is above.
window_lem :
    (parse_date : String → Option ℕ) (u : StatementUpload) (now : ℕ) (rows : List StatementUpload)
    (d : ℕ)
    → due parse_date u.due_date ≡ some d
    → let w = cc_cycle_window parse_date u now rows in
      let xs = anchors parse_date u.account_id rows in
      (w.end ≡ (if any_after d xs then some (d + 1) else none))
      × (w.start ≡ elim (greatest_below d xs) [ none ↦ w.start | some e ↦ e + 1 ])
unfolding cc_cycle_window due_window boundary
window_lem parse_date u now rows d h =
    let xs = anchors parse_date u.account_id rows in
    elim (Option-cases (greatest_below d xs)) [
      | inl n ↦ ground (arith, h, n, prev_due_lem d xs, has_next_lem d xs)
      | inr (e, n) ↦ ground (arith, h, n, prev_due_lem d xs, has_next_lem d xs)
    ]

-- Where one bill is due after another, the first window ends the day after its due date and the
-- second starts the day after a due date from there on.
window_after :
    (parse_date : String → Option ℕ) (u v : StatementUpload) (now : ℕ) (rows : List StatementUpload)
    (d e : ℕ)
    → In u rows
    → In v rows
    → u.account_id ≡ v.account_id
    → due parse_date u.due_date ≡ some d
    → due parse_date v.due_date ≡ some e
    → d < e
    → (g : ℕ) × ((cc_cycle_window parse_date u now rows).end ≡ some (d + 1))
      × ((cc_cycle_window parse_date v now rows).start ≡ g + 1)
      × (greatest_below e (anchors parse_date v.account_id rows) ≡ some g)
      × (d ≤ g)
      × (g < e)
window_after parse_date u v now rows d e i j same h k less =
    let xs = anchors parse_date v.account_id rows in
    let eq : anchors parse_date u.account_id rows ≡ xs = ap (λ a. anchors parse_date a rows) same in
    let iu : has_due d xs ≡ true = ap (has_due d) (sym eq) ∙ In-has_due parse_date u rows d i h in
    let iv = In-has_due parse_date v rows e j k in
    let (g, n, lo, hi) = greatest_below_lem d e xs less iu in
    (
      g,
      ground (arith, window_lem parse_date u now rows d h, eq, any_after_lem d e xs less iv),
      ground (arith, window_lem parse_date v now rows e k, n),
      n,
      lo,
      hi,
    )

-- Two bills of a card in a row share one boundary: where no bill of the account is due between
-- theirs, the window of the first ends on the day on which that of the second starts.
pub cycles_share_boundary :
    (parse_date : String → Option ℕ) (u v : StatementUpload) (now : ℕ) (rows : List StatementUpload)
    (d e : ℕ)
    → In u rows
    → In v rows
    → u.account_id ≡ v.account_id
    → due parse_date u.due_date ≡ some d
    → due parse_date v.due_date ≡ some e
    → d < e
    → any_due (d + 1) e (anchors parse_date v.account_id rows) ≡ false
    → (cc_cycle_window parse_date u now rows).end
      ≡ some (cc_cycle_window parse_date v now rows).start
cycles_share_boundary parse_date u v now rows d e i j same h k less none_between =
    let (g, p, q, n, lo, hi) = window_after parse_date u v now rows d e i j same h k less in
    ground (
      arith,
      p,
      q,
      lo,
      greatest_below_of_none (d + 1) e g (anchors parse_date v.account_id rows) none_between n,
    )

-- Windows of which the first ends where the second starts, or before, have no row in common.
windows_disjoint :
    (w x : CycleWindow) (t : Payment) (e : ℕ)
    → w.end ≡ some e
    → e ≤ x.start
    → (is_in_cycle w t && is_in_cycle x t) ≡ false
unfolding is_in_cycle
windows_disjoint w x t e h k = elim (Option-cases t.transaction_date) [
  | inl n ↦ ground (arith, n, h, k)
  | inr (d, n) ↦ ground (arith, n, h, k)
]

-- No row is in the cycles of two bills: where the due dates of two statements of an account differ,
-- a transaction, dated or not, is not in both of their windows.
pub cycles_are_disjoint :
    (parse_date : String → Option ℕ) (u v : StatementUpload) (now : ℕ) (rows : List StatementUpload)
    (d e : ℕ) (t : Payment)
    → In u rows
    → In v rows
    → u.account_id ≡ v.account_id
    → due parse_date u.due_date ≡ some d
    → due parse_date v.due_date ≡ some e
    → d < e
    → (is_in_cycle (cc_cycle_window parse_date u now rows) t
        && is_in_cycle (cc_cycle_window parse_date v now rows) t)
      ≡ false
cycles_are_disjoint parse_date u v now rows d e t i j same h k less =
    let (g, p, q, n, lo, hi) = window_after parse_date u v now rows d e i j same h k less in
    windows_disjoint (cc_cycle_window parse_date u now rows) (cc_cycle_window parse_date v now rows)
      t (d + 1) p (omega (arith, q, lo))

-- A payment clears the bill that is next coming due: a row dated on a day up to the due date of a
-- bill, later than the due date of an earlier one, with no bill of the account due from that day to
-- before it, is in the window of that bill.
pub payment_clears_next_bill :
    (parse_date : String → Option ℕ) (u v : StatementUpload) (now : ℕ) (rows : List StatementUpload)
    (d e day created : ℕ)
    → In u rows
    → In v rows
    → u.account_id ≡ v.account_id
    → due parse_date u.due_date ≡ some d
    → due parse_date v.due_date ≡ some e
    → d < day
    → day ≤ e
    → any_due day e (anchors parse_date v.account_id rows) ≡ false
    → is_in_cycle
        (cc_cycle_window parse_date v now rows)
        (record { transaction_date = some day; created_at = created })
      ≡ true
unfolding is_in_cycle
payment_clears_next_bill parse_date u v now rows d e day created i j same h k past early
      none_between =
    let (g, p, q, n, lo, hi) =
      window_after parse_date u v now rows d e i j same h k (omega arith) in
    ground (
      arith,
      q,
      greatest_below_of_none day e g (anchors parse_date v.account_id rows) none_between n,
      window_lem parse_date v now rows e k,
    )
