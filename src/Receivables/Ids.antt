-- ===== src/Receivables/Ids.antt =====
-- The ids that `receivable_read` of services/receivables.py lists.
use financial_dashboard.Prelude.{
  ℕ, ◌≤◌, ◌≡◌, refl, Bool, true, false, ◌&&◌, ◌||◌, List, [], ◌∷◌, ◌==◌, arith, is_some,
  if◌then◌else◌, Bool-cases, inl, inr,
}
use financial_dashboard.Prelude.Int.{pos, ◌+ℤ◌, sub_ℕ}
use financial_dashboard.Receivables.Store.{
  Receivable, Transaction, Link, Store, get_transaction, paid_by,
}
use financial_dashboard.Receivables.Move.{is_paid_by}
use financial_dashboard.Receivables.Read.{insert_id, shows, linked_ids, receivable_read}

abbrev pub lists_id : ℕ → List ℕ → Bool
lists_id i [] = false
lists_id i (j ∷ is) = if i == j then true else lists_id i is

abbrev pub IsSorted : List ℕ → Type 0
IsSorted [] = Unit
IsSorted (i ∷ []) = Unit
IsSorted (i ∷ j ∷ is) = (i ≤ j) × IsSorted (j ∷ is)

lists_id-insert_id :
    (i j : ℕ) (is : List ℕ) → lists_id i (insert_id j is) ≡ (i == j || lists_id i is)
unfolding insert_id
lists_id-insert_id i j [] = ground arith
lists_id-insert_id i j (k ∷ is) = ground (arith, lists_id-insert_id i j is)

insert_id-IsSorted : (i : ℕ) (is : List ℕ) → IsSorted is → IsSorted (insert_id i is)
unfolding insert_id
insert_id-IsSorted i [] h = tt
insert_id-IsSorted i (j ∷ []) h = ground arith
insert_id-IsSorted i (j ∷ k ∷ is) h = ground (arith, insert_id-IsSorted i (k ∷ is) h.1)

linked_ids-IsSorted :
    (ts : List Transaction) (r : ℕ) (pay : Bool) (ls : List Link)
    → IsSorted (linked_ids ts r pay ls)
unfolding linked_ids
linked_ids-IsSorted ts r pay [] = tt
linked_ids-IsSorted ts r pay (l ∷ ls) = elim (Bool-cases (shows ts r pay l)) [
  | inl e ↦ rw e (
      insert_id-IsSorted l.transaction_id (linked_ids ts r pay ls)
        (linked_ids-IsSorted ts r pay ls))
  | inr e ↦ rw e (linked_ids-IsSorted ts r pay ls)
]

paying_ids :
    (ts : List Transaction) (r i : ℕ) (ls : List Link)
    → lists_id i (linked_ids ts r true ls) ≡ (is_paid_by r i ls && is_some (get_transaction i ts))
unfolding linked_ids is_paid_by
paying_ids ts r i [] = refl
paying_ids ts r i (l ∷ ls) =
    ground
      (arith, paying_ids ts r i ls, lists_id-insert_id i l.transaction_id (linked_ids ts r true ls))

outstanding_lem : (a p : ℕ) → sub_ℕ a p +ℤ pos p ≡ pos a
unfolding ◌+ℤ◌
outstanding_lem a p = ground arith

-- The API view of a receivable: what is outstanding and what is paid make up its amount, over- and
-- underpaid alike; both lists of ids ascend; and a row stands in the list of payments exactly if it
-- pays the receivable and still exists.
pub receivable_read_lem :
    (s : Store) (r : Receivable) (i : ℕ)
    → let v = receivable_read s r in
      (v.outstanding +ℤ pos v.paid ≡ pos r.amount)
      × IsSorted v.payment_transaction_ids
      × IsSorted v.charge_transaction_ids
      × (lists_id i v.payment_transaction_ids
          ≡ (is_paid_by r.id i s.links && is_some (get_transaction i s.transactions)))
unfolding receivable_read
receivable_read_lem s r i = (
  outstanding_lem r.amount (paid_by s.transactions r.id s.links),
  linked_ids-IsSorted s.transactions r.id true s.links,
  linked_ids-IsSorted s.transactions r.id false s.links,
  paying_ids s.transactions r.id i s.links,
)
