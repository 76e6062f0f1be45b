-- ===== src/Bridge/Ends.antt =====
-- The balance of an account where its statements and balances agree with its rows
-- (services/cashflow/bridge.py).
use financial_dashboard.Prelude.{
  ℕ, ◌≤◌, ◌≡◌, refl, ap, Bool, true, false, ◌&&◌, ◌-◌, Bool-cases, inl, inr, ◌⊎◌, none, some, List,
  [], ◌∷◌, map, keep_if, All, ltb, leb, arith, if◌then◌else◌,
}
use financial_dashboard.Prelude.Int.{ℤ, ◌+ℤ◌, ◌-ℤ◌, int_laws}
use financial_dashboard.Bridge.{Anchor, Period}
use financial_dashboard.Bridge.Flows.{flow_between}
use financial_dashboard.Bridge.At.{
  from_period, covers, days_apart, nearest_anchor, moved, known_balance, from_anchors, value_of,
  balance_from, balance_at,
}

-- The balance at the end of each day, as the rows since the first date tell it.
unfoldable pub ledger : ℤ → List (ℕ × ℤ) → ℕ → ℤ
unfolding flow_between
ledger base daily day = base +ℤ flow_between daily 0 day

-- Both balances of a statement are those of the ledger.
abbrev pub ReadsPeriod : ℤ → List (ℕ × ℤ) → Period → Type 0
ReadsPeriod base daily p =
    (p.opening ≡ ledger base daily p.start) × (p.closing ≡ ledger base daily p.end)

abbrev pub ReadsAnchor : ℤ → List (ℕ × ℤ) → Anchor → Type 0
ReadsAnchor base daily a = a.value ≡ ledger base daily a.day

day_split :
    (a b x : ℕ)
    → a ≤ b
    → ((ltb 0 x && leb x a) ≡ true) × ((ltb a x && leb x b) ≡ false) × ((ltb 0 x && leb x b) ≡ true)
      ⊎ ((ltb 0 x && leb x a) ≡ false)
        × ((ltb a x && leb x b) ≡ true)
        × ((ltb 0 x && leb x b) ≡ true)
      ⊎ ((ltb 0 x && leb x a) ≡ false)
        × ((ltb a x && leb x b) ≡ false)
        × ((ltb 0 x && leb x b) ≡ false)
day_split a b x h = ground arith

flows_join :
    (daily : List (ℕ × ℤ)) (a b : ℕ)
    → a ≤ b
    → flow_between daily 0 b ≡ (flow_between daily 0 a +ℤ flow_between daily a b)
unfolding flow_between
flows_join [] a b h = grind int_laws
flows_join (e ∷ daily) a b h =
    let rec = flows_join daily a b h in
    elim (day_split a b e.0 h) [
      | inl (x, y, z) ↦ rw (x, y, z) (grind (int_laws, rec))
      | inr (inl (x, y, z)) ↦ rw (x, y, z) (grind (int_laws, rec))
      | inr (inr (x, y, z)) ↦ rw (x, y, z) rec
    ]

leb_cases : (a b : ℕ) → (leb a b ≡ true) × (a ≤ b) ⊎ (leb a b ≡ false) × (b ≤ a)
leb_cases a b = ground arith

covers-bounds : (day : ℕ) (p : Period) → covers day p ≡ true → (p.start ≤ day) × (day ≤ p.end)
unfolding covers
covers-bounds day p h = ground arith

module _ (base : ℤ) (daily : List (ℕ × ℤ)) (day : ℕ) where
  forward :
      (a : ℕ) (x : ℤ)
      → a ≤ day
      → x ≡ ledger base daily a
      → (x +ℤ flow_between daily a day) ≡ ledger base daily day
  unfolding ledger
  forward a x h k = rw (k, flows_join daily a day h) (grind int_laws)

  back :
      (a : ℕ) (x : ℤ)
      → day ≤ a
      → x ≡ ledger base daily a
      → (x -ℤ flow_between daily day a) ≡ ledger base daily day
  unfolding ledger
  back a x h k = rw (k, flows_join daily day a h) (grind int_laws)

  from_period_lem :
      (p : Period)
      → covers day p ≡ true
      → ReadsPeriod base daily p
      → (from_period p day daily).value ≡ ledger base daily day
  unfolding from_period
  from_period_lem p h k =
      let bounds = covers-bounds day p h in
      elim (Bool-cases (leb (day - p.start) (p.end - day))) [
        | inl e ↦ rw e (forward p.start p.opening bounds.0 k.0)
        | inr e ↦ rw e (back p.end p.closing bounds.1 k.1)
      ]

  moved_lem : (a : Anchor) → ReadsAnchor base daily a → moved a day daily ≡ ledger base daily day
  unfolding moved
  moved_lem a h = elim (leb_cases a.day day) [
    | inl (e, k) ↦ rw e (forward a.day a.value k h)
    | inr (e, k) ↦ rw e (back a.day a.value k h)
  ]

  chosen :
      (test : Bool) (a b : Anchor)
      → ReadsAnchor base daily a
      → ReadsAnchor base daily b
      → ReadsAnchor base daily (if test then a else b)
  chosen true a b h k = h
  chosen false a b h k = k

  nearest_anchor_lem :
      (best : Anchor) (anchors : List Anchor)
      → ReadsAnchor base daily best
      → All (ReadsAnchor base daily) anchors
      → ReadsAnchor base daily (nearest_anchor day best anchors)
  unfolding nearest_anchor
  nearest_anchor_lem best [] h hs = h
  nearest_anchor_lem best (a ∷ anchors) h hs =
      nearest_anchor_lem (if ltb (days_apart day a) (days_apart day best) then a else best) anchors
        (chosen (ltb (days_apart day a) (days_apart day best)) a best hs.0 h) hs.1

  abbrev OnLedger : Anchor → Type 0
  OnLedger a = a.value ≡ ledger base daily day

  covering_lem :
      (periods : List Period)
      → All (ReadsPeriod base daily) periods
      → All OnLedger (map (λ p. from_period p day daily) (keep_if (covers day) periods))
  unfolding keep_if
  covering_lem [] h = tt
  covering_lem (p ∷ periods) h = elim (Bool-cases (covers day p)) [
    | inl e ↦ rw e (from_period_lem p e h.0, covering_lem periods h.1)
    | inr e ↦ rw e (covering_lem periods h.1)
  ]

  implied_lem :
      (covering : List Anchor)
      → All OnLedger covering
      → All (λ x. x ≡ ledger base daily day) (map value_of covering)
  implied_lem [] h = tt
  implied_lem (a ∷ covering) h = (h.0, implied_lem covering h.1)

  balance_from_lem :
      (covering anchors : List Anchor)
      → All OnLedger covering
      → All (ReadsAnchor base daily) anchors
      → let found = balance_from day covering anchors daily in
        All (λ x. x ≡ ledger base daily day) found.implied
        × ((found.balance.amount ≡ some (ledger base daily day))
            ⊎ (found.balance.amount ≡ none) × (covering ≡ []) × (anchors ≡ []))
  unfolding balance_from from_anchors known_balance
  balance_from_lem [] [] h k = (tt, inr (refl, refl, refl))
  balance_from_lem [] (a ∷ anchors) h k = (
    tt,
    inl (ap some (moved_lem (nearest_anchor day a anchors) (nearest_anchor_lem a anchors k.0 k.1))),
  )
  balance_from_lem (best ∷ covering) anchors h k =
      (implied_lem (best ∷ covering) h, inl (ap some h.0))

  -- The balance of a day is the one that the rows tell: where both balances of each statement and
  -- each known balance are those of one ledger, every covering statement implies the ledger's balance
  -- of the day, from whichever end it is moved, and that is the balance that is found. It is unknown
  -- only where no statement covers the day and there is no known balance.
  pub balance_follows_ledger :
      (periods : List Period) (anchors : List Anchor)
      → All (ReadsPeriod base daily) periods
      → All (ReadsAnchor base daily) anchors
      → let found = balance_at day periods anchors daily in
        All (λ x. x ≡ ledger base daily day) found.implied
        × ((found.balance.amount ≡ some (ledger base daily day))
            ⊎ (found.balance.amount ≡ none)
              × (map (λ p. from_period p day daily) (keep_if (covers day) periods) ≡ [])
              × (anchors ≡ []))
  unfolding balance_at
  balance_follows_ledger periods anchors h k = balance_from_lem _ anchors (covering_lem periods h) k
