-- ===== src/Outbox/Valid.antt =====
-- What the calls of the outbox (services/assistant/delivery.py) do to one row.
use financial_dashboard.Prelude.{
  ℕ, ◌≤◌, ◌≡◌, refl, Bool, true, false, ◌||◌, not, Option, none, some, String, List, [], ◌∷◌, All,
  is_some, if◌then◌else◌, arith,
}
use financial_dashboard.Outbox.Rows.{
  abandoned, Delivery, Store, is_delivering, is_delivered, is_cancelled, update_where, get_delivery,
}
use financial_dashboard.Outbox.Calls.{
  is_claimable, claimed_row, delivered_row, unknown_row, max_delivery_attempts,
}
use financial_dashboard.Outbox.Sweep.{
  refresh_interaction_delivery_status, rows_of, refresh_by, refresh_owner, is_settleable,
  settle_delivery_from_callback, settled_owner, is_exhausted, cancelled_row,
}
use financial_dashboard.Outbox.Cancels.{is_open, redirected_row}

abbrev pub agree : Bool → Bool → Bool
agree a b = if a then b else not b

-- A row that holds a token exactly while it is being delivered, unless it is cancelled, and a lease
-- exactly with a token, has at most the allowed attempts, and has a time of delivery exactly when it
-- is delivered.
pub record IsValid (d : Delivery) : Type 0 where
  pub token :
      (is_cancelled d.status || agree (is_some d.worker_token) (is_delivering d.status)) ≡ true
  pub lease : is_some d.delivery_lease_until ≡ is_some d.worker_token
  pub attempts : d.delivery_attempts ≤ max_delivery_attempts
  pub time : is_some d.delivered_at ≡ is_delivered d.status

pub choose :
    {A : Type 0} (P : A → Type 0) (b : Bool) (x y : A)
    → (b ≡ true → P y)
    → P x
    → P (if b then y else x)
choose P true x y h k = h refl
choose P false x y h k = k

-- A row's update keeps a predicate of all rows, where it keeps it on the rows that it admits.
pub update_where-All :
    {A : Type 0} (P : A → Type 0) (p : A → Bool) (f : A → A) (xs : List A)
    → ((x : A) → p x ≡ true → P x → P (f x))
    → All P xs
    → All P (update_where p f xs)
unfolding update_where
update_where-All P p f [] h k = tt
update_where-All P p f (x ∷ xs) h k =
    (choose P (p x) x (f x) (λ e. h x e k.0) k.0, update_where-All P p f xs h k.1)

refresh_by_deliveries :
    (i now : ℕ) (s : Store) (ds : List Delivery)
    → (refresh_by i now s ds).1.deliveries ≡ s.deliveries
unfolding refresh_by
refresh_by_deliveries i now s [] = refl
refresh_by_deliveries i now s (d ∷ ds) = refl

pub refresh_deliveries :
    (i now : ℕ) (s : Store)
    → (refresh_interaction_delivery_status i now s).1.deliveries ≡ s.deliveries
unfolding refresh_interaction_delivery_status
refresh_deliveries i now s = refresh_by_deliveries i now s (rows_of i s.deliveries)

refresh_owner_deliveries :
    (o : Option ℕ) (now : ℕ) (s : Store) → (refresh_owner o now s).deliveries ≡ s.deliveries
unfolding refresh_owner
refresh_owner_deliveries none now s = refl
refresh_owner_deliveries (some i) now s = refresh_deliveries i now s

pub settle_deliveries :
    (id now : ℕ) (s : Store)
    → (settle_delivery_from_callback id now s).1.deliveries
      ≡ update_where (is_settleable id) (delivered_row now) s.deliveries
unfolding settle_delivery_from_callback
settle_deliveries id now s =
    let ds = update_where (is_settleable id) (delivered_row now) s.deliveries in
    refresh_owner_deliveries (settled_owner (get_delivery id ds)) now (record s { deliveries = ds })

pub claimed_row-IsValid :
    (id now : ℕ) (token : String) (d : Delivery)
    → is_claimable id now d ≡ true
    → IsValid d
    → IsValid (claimed_row token now d)
unfolding is_claimable claimed_row
claimed_row-IsValid id now token d h v = ground (arith, h, v.token, v.lease, v.attempts, v.time)

pub delivered_row-IsValid : (now : ℕ) (d : Delivery) → IsValid d → IsValid (delivered_row now d)
unfolding delivered_row
delivered_row-IsValid now d v = record {
  token = refl;
  lease = refl;
  attempts = v.attempts;
  time = refl;
}

pub unknown_row-IsValid :
    (d : Delivery) → is_delivering d.status ≡ true → IsValid d → IsValid (unknown_row d)
unfolding unknown_row
unknown_row-IsValid d h v = ground (arith, h, v.token, v.lease, v.attempts, v.time)

pub cancelled_row-IsValid :
    (d : Delivery) → is_open d.status ≡ true → IsValid d → IsValid (cancelled_row d)
unfolding cancelled_row
cancelled_row-IsValid d h v = ground (arith, h, v.token, v.lease, v.attempts, v.time)

pub redirected_row-IsValid :
    (d : Delivery) → is_open d.status ≡ true → IsValid d → IsValid (redirected_row d)
unfolding redirected_row
redirected_row-IsValid d h v = ground (arith, h, v.token, v.lease, v.attempts, v.time)

pub abandoned-IsValid :
    (d : Delivery) → is_exhausted d ≡ true → IsValid d → IsValid (record d { status = abandoned })
unfolding is_exhausted
abandoned-IsValid d h v = ground (arith, h, v.token, v.lease, v.attempts, v.time)
