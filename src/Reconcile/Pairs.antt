-- ===== src/Reconcile/Pairs.antt =====
-- `_unpaired_self_transfers` of services/reconcile.py. The set `paired` of ids is the list of the
-- pairs that put them there, the last one first.
use financial_dashboard.Prelude.{
  ℕ, Bool, true, false, ◌&&◌, ◌||◌, not, none, some, String, str_eq, List, [], ◌∷◌, keep_if, ◌==◌,
  ltb, leb, if◌then◌else◌,
}
use financial_dashboard.Prelude.Int.{ℤ, pos, ◌+ℤ◌}
use financial_dashboard.Linker.Texts.{same_text}
use financial_dashboard.Receivables.Store.{same_direction}
use financial_dashboard.Reconcile.{
  Row, distance, pair_window, self_transfer_amount_tolerance, normalized_currency, signed, is_inr,
  same_account, in_range,
}

abbrev pub self_transfer_slug : String
self_transfer_slug = "self_transfer"

-- `(_day(a), a.id) <= (_day(b), b.id)`
unfoldable pub is_earlier : Row → Row → Bool
is_earlier a b = ltb a.day b.day || a.day == b.day && leb a.read.id b.read.id

unfoldable pub insert_row : Row → List Row → List Row
unfolding is_earlier
insert_row a [] = a ∷ []
insert_row a (b ∷ bs) =
    let rest = insert_row a bs in if is_earlier a b then a ∷ b ∷ bs else b ∷ rest

-- `sorted(rows, key=lambda r: (_day(r), r.id))`
unfoldable pub sort_rows : List Row → List Row
unfolding insert_row
sort_rows [] = []
sort_rows (a ∷ rows) = insert_row a (sort_rows rows)

-- `id in paired`
unfoldable pub is_paired : ℕ → List (Row × Row) → Bool
is_paired id [] = false
is_paired id (pair ∷ pairs) = pair.0.read.id == id || pair.1.read.id == id || is_paired id pairs

-- The conditions of `partners` on a row, the paired ids apart.
unfoldable pub is_partner : Row → Row → Bool
unfolding same_account normalized_currency same_text
is_partner leg r =
    not (same_account r.read.account_id leg.read.account_id)
    && not (same_direction r.read.direction leg.read.direction)
    && same_text (normalized_currency r.read.currency) (normalized_currency leg.read.currency)
    && leb (distance r.read.amount leg.read.amount) self_transfer_amount_tolerance
    && leb (distance r.day leg.day) pair_window

unfoldable pub partners : List Row → List (Row × Row) → Row → List Row
unfolding keep_if is_paired is_partner
partners legs pairs leg = keep_if (λ r. not (is_paired r.read.id pairs) && is_partner leg r) legs

unfoldable pub shares_reference : Row → Row → Bool
unfolding same_text
shares_reference leg rival = elim leg.read.reference_number [
  | none ↦ false
  | some [] ↦ false
  | some (c ∷ s) ↦ elim rival.read.reference_number [ none ↦ false | some t ↦ same_text t (c ∷ s) ]
]

unfoldable pub rivals : Bool → List Row → List (Row × Row) → Row → List Row
unfolding partners shares_reference
rivals by_reference legs pairs leg =
    keep_if (λ r. not by_reference || shares_reference leg r) (partners legs pairs leg)

-- The comparison of the keys by which `min` chooses: days, then amounts, then ids.
unfoldable pub is_nearer : Row → Row → Row → Bool
is_nearer leg a b =
    let day_a = distance a.day leg.day in
    let day_b = distance b.day leg.day in
    let amount_a = distance a.read.amount leg.read.amount in
    let amount_b = distance b.read.amount leg.read.amount in
    ltb day_a day_b
    || day_a == day_b && (ltb amount_a amount_b || amount_a == amount_b && ltb a.read.id b.read.id)

unfoldable pub nearest_from : Row → Row → List Row → Row
unfolding is_nearer
nearest_from leg best [] = best
nearest_from leg best (r ∷ rs) = nearest_from leg (if is_nearer leg r best then r else best) rs

-- One round of the inner loop.
unfoldable pub pair_leg : Bool → List Row → List (Row × Row) → Row → List (Row × Row)
unfolding is_paired rivals nearest_from
pair_leg by_reference legs pairs leg =
    if is_paired leg.read.id pairs then pairs else elim (rivals by_reference legs pairs leg) [
      | [] ↦ pairs
      | (r ∷ rs) ↦ (leg, nearest_from leg r rs) ∷ pairs
    ]

unfoldable pub pair_pass : Bool → List Row → List Row → List (Row × Row) → List (Row × Row)
unfolding pair_leg
pair_pass by_reference legs [] pairs = pairs
pair_pass by_reference legs (leg ∷ rest) pairs =
    pair_pass by_reference legs rest (pair_leg by_reference legs pairs leg)

-- The outer loop: by reference first, then any partner.
unfoldable pub pair_legs : List Row → List (Row × Row)
unfolding pair_pass
pair_legs legs = pair_pass false legs legs (pair_pass true legs legs [])

unfoldable pub is_self_transfer : Row → Bool
is_self_transfer r = elim r.read.category [ none ↦ false | some c ↦ str_eq c self_transfer_slug ]

unfoldable pub transfer_legs : List Row → List Row
unfolding keep_if is_self_transfer sort_rows
transfer_legs rows = sort_rows (keep_if is_self_transfer rows)

-- `sum(...)` of the signed amounts of the INR rows.
unfoldable pub net_of : List Row → ℤ
unfolding signed is_inr
net_of [] = pos 0
net_of (r ∷ rs) = let rest = net_of rs in if is_inr r then signed r +ℤ rest else rest

pub record UnpairedSelfTransfers : Type 0 where
  pub net : ℤ
  pub items : List Row

unfoldable pub orphans_of : ℕ → ℕ → List Row → List (Row × Row) → List Row
unfolding keep_if is_paired in_range
orphans_of date_from date_to legs pairs =
    keep_if (λ r. not (is_paired r.read.id pairs) && in_range date_from date_to r.day) legs

unfoldable pub unpaired_self_transfers : ℕ → ℕ → List Row → UnpairedSelfTransfers
unfolding transfer_legs pair_legs orphans_of net_of
unpaired_self_transfers date_from date_to rows =
    let legs = transfer_legs rows in
    let orphans = orphans_of date_from date_to legs (pair_legs legs) in
    record { net = net_of orphans; items = orphans }
