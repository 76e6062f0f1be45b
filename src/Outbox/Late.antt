-- ===== src/Outbox/Late.antt =====
-- A worker of the outbox (services/assistant/delivery.py) whose message another has claimed.
use financial_dashboard.Prelude.{
  ℕ, suc, ◌≤◌, ◌≡◌, refl, sym, ap, ◌∙◌, Bool, true, false, Option, none, String, List, [], ◌∷◌,
  ◌==◌, All, arith, str_eq, is_some, Bool-cases, inl, inr, if◌then◌else◌,
}
use financial_dashboard.Outbox.Rows.{Delivery, Store, update_where, count_where, get_delivery}
use financial_dashboard.Outbox.Calls.{
  is_claimable, claimed_row, claim_delivery, is_held, delivered_row, unknown_row,
  mark_delivery_delivered, mark_delivery_unknown,
}

abbrev pub has_id : ℕ → Delivery → Bool
has_id id d = d.id == id

claimable_has_id : (id now : ℕ) (d : Delivery) → has_id id d ≡ false → is_claimable id now d ≡ false
unfolding is_claimable
claimable_has_id id now d h = ground (arith, h)

count_claimable :
    (id now : ℕ) (ds : List Delivery)
    → count_where (is_claimable id now) ds ≤ count_where (has_id id) ds
unfolding count_where
count_claimable id now [] = omega arith
count_claimable id now (d ∷ ds) =
    ground (arith, claimable_has_id id now d, count_claimable id now ds)

claimed_not_held :
    (id now : ℕ) (old new : String) (d : Delivery)
    → str_eq new old ≡ false
    → is_held id old (claimed_row new now d) ≡ false
unfolding is_held claimed_row
claimed_not_held id now old new d h = ground (arith, h)

other_not_held :
    (id : ℕ) (old : String) (d : Delivery) → has_id id d ≡ false → is_held id old d ≡ false
unfolding is_held
other_not_held id old d h = ground (arith, h)

none_held :
    (id now : ℕ) (old new : String) (ds : List Delivery)
    → str_eq new old ≡ false
    → count_where (is_claimable id now) ds ≡ count_where (has_id id) ds
    → All
        (λ d. is_held id old d ≡ false)
        (update_where (is_claimable id now) (claimed_row new now) ds)
unfolding count_where update_where
none_held id now old new [] h e = tt
none_held id now old new (d ∷ ds) h e = elim (Bool-cases (is_claimable id now d)) [
  | inl c ↦ (
    ap (λ b. is_held id old (if b then claimed_row new now d else d)) c
        ∙ claimed_not_held id now old new d h,
    none_held id now old new ds h (ground (arith, c, e, claimable_has_id id now d)),
  )
  | inr c ↦
      let other : has_id id d ≡ false = ground (arith, c, e, count_claimable id now ds) in
      (
        ap (λ b. is_held id old (if b then claimed_row new now d else d)) c
            ∙ other_not_held id old d other,
        none_held id now old new ds h (ground (arith, c, e, other)),
      )
]

update_where_none :
    (p : Delivery → Bool) (f : Delivery → Delivery) (ds : List Delivery)
    → All (λ d. p d ≡ false) ds
    → (update_where p f ds ≡ ds) × (count_where p ds ≡ 0)
unfolding update_where count_where
update_where_none p f [] h = (refl, refl)
update_where_none p f (d ∷ ds) h =
    let r = update_where_none p f ds h.1 in
    (
      ap (λ b. (if b then f d else d) ∷ update_where p f ds) h.0 ∙ ap (λ l. d ∷ l) r.0,
      ap (λ b. if b then suc (count_where p ds) else count_where p ds) h.0 ∙ r.1,
    )

counted : (n : ℕ) (o : Option Delivery) → is_some (if n == 1 then o else none) ≡ true → n ≡ 1
counted n o h = ground (arith, h)

-- The reply of an update that admits no row.
reply :
    (n : ℕ) (l ds : List Delivery) (s : Store)
    → l ≡ ds
    → n ≡ 0
    → ◌≡◌ {A = Bool × Store}
        (n == 1, record s { deliveries = l })
        (false, record s { deliveries = ds })
reply n l ds s h e =
    ap (λ m. (m == 1, record s { deliveries = l })) e
    ∙ ap (λ k. (false, record s { deliveries = k })) h

-- A worker that comes late changes nothing: once another token has claimed the message (a row of
-- the outbox, whose id is unique), the reports of the first token, that the message is delivered or
-- that its fate is unknown, are refused and leave the tables as they are.
pub late_worker_refused :
    (id now at : ℕ) (old new : String) (s : Store)
    → str_eq new old ≡ false
    → count_where (has_id id) s.deliveries ≡ 1
    → is_some (claim_delivery new now id s).0 ≡ true
    → let t = (claim_delivery new now id s).1 in
      (mark_delivery_delivered id old at t ≡ (false, t))
      × (mark_delivery_unknown id old t ≡ (false, t))
unfolding claim_delivery mark_delivery_delivered mark_delivery_unknown
late_worker_refused id now at old new s h unique claimed =
    let one : count_where (is_claimable id now) s.deliveries ≡ 1 =
      counted (count_where (is_claimable id now) s.deliveries)
        (get_delivery id (update_where (is_claimable id now) (claimed_row new now) s.deliveries))
        claimed in
    let ds = update_where (is_claimable id now) (claimed_row new now) s.deliveries in
    let quiet = none_held id now old new s.deliveries h (one ∙ sym unique) in
    let a = update_where_none (is_held id old) (delivered_row at) ds quiet in
    let b = update_where_none (is_held id old) unknown_row ds quiet in
    (
      reply (count_where (is_held id old) ds) (update_where (is_held id old) (delivered_row at) ds)
          ds s a.0 a.1,
      reply (count_where (is_held id old) ds) (update_where (is_held id old) unknown_row ds) ds s
          b.0 b.1,
    )
