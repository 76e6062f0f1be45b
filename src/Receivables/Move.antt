-- ===== src/Receivables/Move.antt =====
-- `move_receivable_links` of services/receivables.py: the links of a transaction that goes away.
pub mod Links
use financial_dashboard.Prelude.{
  ℕ, zero, suc, Bool, true, false, ◌&&◌, ◌||◌, Option, none, some, String, List, [], ◌∷◌, ◌==◌,
  if◌then◌else◌,
}
use financial_dashboard.Receivables.Store.{
  opened, same_status, is_payment, DeliveryStatus, pending, delivering, delivery_unknown, delivered,
  abandoned, cancelled, Transaction, Receivable, Link, Prompt, Delivery, Store, has_link, pays,
  settle_if_paid,
}

-- Whether a prompt of the row has this delivery.
unfoldable pub prompts_delivery : ℕ → ℕ → List Prompt → Bool
prompts_delivery old d [] = false
prompts_delivery old d (p ∷ ps) =
    if p.transaction_id == old && elim p.delivery_id [ none ↦ false | some i ↦ i == d ]
    then true
    else prompts_delivery old d ps

abbrev pub is_unsent : DeliveryStatus → Bool
is_unsent pending = true
is_unsent delivering = true
is_unsent delivery_unknown = true
is_unsent delivered = false
is_unsent abandoned = false
is_unsent cancelled = false

unfoldable pub cancel_delivery : ℕ → List Prompt → Delivery → Delivery
unfolding prompts_delivery
cancel_delivery old ps d =
    if prompts_delivery old d.id ps && is_unsent d.status
    then record d { status = cancelled; worker_token = none; lease_until = none }
    else d

unfoldable pub cancel_deliveries : ℕ → List Prompt → List Delivery → List Delivery
unfolding cancel_delivery
cancel_deliveries old ps [] = []
cancel_deliveries old ps (d ∷ ds) = cancel_delivery old ps d ∷ cancel_deliveries old ps ds

unfoldable pub delete_prompts : ℕ → List Prompt → List Prompt
delete_prompts old [] = []
delete_prompts old (p ∷ ps) =
    let rest = delete_prompts old ps in if p.transaction_id == old then rest else p ∷ rest

-- The plain delete (`new_id is None`).
unfoldable pub delete_stale : ℕ → List Link → List Link
delete_stale old [] = []
delete_stale old (l ∷ ls) =
    let rest = delete_stale old ls in if l.transaction_id == old then rest else l ∷ rest

unfoldable pub count_stale : ℕ → List Link → ℕ
count_stale old [] = 0
count_stale old (l ∷ ls) =
    let rest = count_stale old ls in if l.transaction_id == old then suc rest else rest

-- A stale link is dropped if its receivable links the keeper, or if it pays and the keeper pays.
unfoldable pub is_dropped : ℕ → ℕ → List Link → Link → Bool
unfolding has_link pays
is_dropped old new table l =
    l.transaction_id == old
    && (has_link l.receivable_id new table || is_payment l.role && pays new table)

-- The DELETE, whose subqueries read the table before it.
unfoldable pub drop_links : ℕ → ℕ → List Link → List Link → List Link
unfolding is_dropped
drop_links old new table [] = []
drop_links old new table (l ∷ ls) =
    let rest = drop_links old new table ls in if is_dropped old new table l then rest else l ∷ rest

unfoldable pub count_dropped : ℕ → ℕ → List Link → List Link → ℕ
unfolding is_dropped
count_dropped old new table [] = 0
count_dropped old new table (l ∷ ls) =
    let rest = count_dropped old new table ls in
    if is_dropped old new table l then suc rest else rest

unfoldable pub point_at : ℕ → ℕ → Link → Link
point_at old new l = if l.transaction_id == old then record l { transaction_id = new } else l

-- The UPDATE of the stale links that are left.
unfoldable pub repoint : ℕ → ℕ → List Link → List Link
unfolding point_at
repoint old new [] = []
repoint old new (l ∷ ls) = point_at old new l ∷ repoint old new ls

unfoldable pub moved_links : ℕ → ℕ → List Link → List Link
unfolding drop_links repoint
moved_links old new table = repoint old new (drop_links old new table table)

-- Whether the receivable has a payment link to the row.
unfoldable pub is_paid_by : ℕ → ℕ → List Link → Bool
is_paid_by r t [] = false
is_paid_by r t (l ∷ ls) =
    if l.receivable_id == r && (l.transaction_id == t && is_payment l.role)
    then true
    else is_paid_by r t ls

-- The open receivables that the keeper pays are settled where that pays them in full.
unfoldable pub settle_paid :
    List Transaction → List Link → ℕ → ℕ → List Receivable → List Receivable
unfolding is_paid_by settle_if_paid
settle_paid ts ls new now [] = []
settle_paid ts ls new now (r ∷ rs) =
    (if is_paid_by r.id new ls && same_status r.status opened
      then settle_if_paid ts ls now r
      else r)
    ∷ settle_paid ts ls new now rs

-- The counts of the result, of which Python keeps the nonzero ones.
pub record MoveCounts : Type 0 where
  pub receivable_links : ℕ
  pub dropped : ℕ

unfoldable pub without_prompts : ℕ → Store → Store
unfolding cancel_deliveries delete_prompts
without_prompts old s = record s {
  deliveries = cancel_deliveries old s.prompts s.deliveries;
  prompts = delete_prompts old s.prompts;
}

unfoldable pub move_receivable_links : ℕ → Option ℕ → ℕ → Store → MoveCounts × Store
unfolding without_prompts delete_stale count_stale moved_links count_dropped settle_paid
move_receivable_links old none now s = (
  record { receivable_links = count_stale old s.links; dropped = 0 },
  record (without_prompts old s) { links = delete_stale old s.links },
)
move_receivable_links old (some new) now s =
    let ls = moved_links old new s.links in
    (
      record {
        receivable_links = count_stale old (drop_links old new s.links s.links);
        dropped = count_dropped old new s.links s.links;
      },
      record (without_prompts old s) {
        links = ls;
        receivables = settle_paid s.transactions ls new now s.receivables;
      },
    )
