-- ===== src/Coordinator/Wait.antt =====
-- The wait of `claim_manual_lease` (services/paisa/coordinator.py): it ends, and what its answer says.
use financial_dashboard.Prelude.{
  ℕ, zero, suc, ◌+◌, ◌*◌, ◌≤◌, ◌<◌, ◌≡◌, refl, ◌⊎◌, inl, inr, true, false, Bool-cases, none, some,
  String, leb, arith, eq_iff,
}
use financial_dashboard.Sync.Row.{Table, holds, ensure_sync_state}
use financial_dashboard.Sync.Lease.{token_or_new, leased, is_free, LeaseClaim, claim_lease}
use financial_dashboard.Coordinator.Manual.{
  claimed, busy, ManualClaim, Polls, poll_lease, claim_manual_lease,
}

-- Each sleep lasts at least `poll`, so the wall clock at the `i`-th test has passed that much.
abbrev pub Ticks : Polls → ℕ → ℕ → Type 0
Ticks polls start poll = (i : ℕ) → start + i * poll ≤ polls.check i

-- The token holds the lease in the table.
abbrev pub Holds : Table → String → Type 0
Holds none token = ⊥
Holds (some s) token = holds s token ≡ true

claim-Holds :
    (owner minted : String) (ttl now : ℕ) (table : Table)
    → (claim_lease owner none minted ttl now table).0.is_claimed ≡ true
    → Holds
        (claim_lease owner none minted ttl now table).1
        (claim_lease owner none minted ttl now table).0.token
unfolding claim_lease token_or_new leased holds
claim-Holds owner minted ttl now none h = ground arith
claim-Holds owner minted ttl now (some s) h = elim (Bool-cases (is_free now s)) [
  | inl e ↦ rw e (ground (arith, eq_iff minted minted))
  | inr e ↦ ground arith
]

-- The claim of the poll `i`, on the table as others left it before.
abbrev pub poll_claim : Polls → String → ℕ → ℕ → Table → LeaseClaim × Table
poll_claim polls owner ttl i table =
    claim_lease owner none (polls.minted i) ttl (polls.stamp i) (polls.between i table)

-- From the poll `i` on a table, the wait goes on to the poll `k` on the table `last`: each poll
-- before `k` is refused, with the deadline ahead.
pub data Waited (polls : Polls) (owner : String) (ttl deadline k : ℕ) (last : Table)
    : ℕ → Table → Type 0 where
  here : Waited polls owner ttl deadline k last k last
  slept :
      {i : ℕ} {table : Table}
      → (poll_claim polls owner ttl i table).0.is_claimed ≡ false
      → polls.check i < deadline
      → Waited polls owner ttl deadline k last (suc i) (poll_claim polls owner ttl i table).1
      → Waited polls owner ttl deadline k last i table

-- What the answer of the poll `k` says: the lease is claimed, and the token holds it in the table
-- that the call leaves; or the claim is refused and the deadline is over.
abbrev pub Answers : Polls → String → ℕ → ℕ → ℕ → Table → ManualClaim → Table → Type 0
Answers polls owner ttl deadline k last c left =
    ((poll_claim polls owner ttl k last).0.is_claimed ≡ true)
      × (c.reason ≡ claimed)
      × ((token : String) × ((c.token ≡ some token) × Holds left token))
    ⊎ ((poll_claim polls owner ttl k last).0.is_claimed ≡ false)
      × (deadline ≤ polls.check k)
      × (c.reason ≡ busy)
      × (c.token ≡ none)
      × (left ≡ (poll_claim polls owner ttl k last).1)

module _ (polls : Polls) (owner : String) (ttl deadline : ℕ) where
  -- The polls end with an answer, at the latest poll that the fuel allows.
  abbrev pub Settles : ℕ → ℕ → Table → Type 0
  Settles fuel i table =
      let run = poll_lease polls owner ttl deadline fuel i table in
      (c : ManualClaim) × ((run.0 ≡ some c)
        × ((k : ℕ) × ((last : Table) × ((k < i + fuel)
                × Waited polls owner ttl deadline k last i table
                × Answers polls owner ttl deadline k last c run.1))))

  poll_once-Settles :
      (fuel i : ℕ) (table : Table)
      → ((poll_claim polls owner ttl i table).0.is_claimed ≡ false
          → polls.check i < deadline
          → Settles fuel (suc i) (poll_claim polls owner ttl i table).1)
      → Settles (suc fuel) i table
  unfolding poll_lease
  poll_once-Settles fuel i table rest =
      elim (Bool-cases (poll_claim polls owner ttl i table).0.is_claimed) [
        | inl e ↦
            let held =
              claim-Holds owner (polls.minted i) ttl (polls.stamp i) (polls.between i table) e in
            rw e (_, (refl, (i, (table, (omega arith, here, inl (e, refl, (_, (refl, held))))))))
        | inr e ↦ elim (Bool-cases (leb deadline (polls.check i))) [
          | inl over ↦
              let late : deadline ≤ polls.check i = ground (arith, over) in
              rw (e, over)
                (_, (refl, (i, (table, (omega arith, here, inr (e, late, refl, refl, refl))))))
          | inr early ↦
              let soon : polls.check i < deadline = ground (arith, early) in
              let (c, (answer, (k, (last, (bound, waited, says))))) = rest e soon in
              rw (e, early)
                (c, (answer, (k, (last, (omega (arith, bound), slept e soon waited, says)))))
        ]
      ]

  poll_lease-Settles :
      (start poll : ℕ)
      → Ticks polls start poll
      → (n i : ℕ) (table : Table) → deadline ≤ start + (n + i) * poll
      → Settles (suc n) i table
  poll_lease-Settles start poll ticks zero i table h =
      poll_once-Settles 0 i table (λ lost early. absurd (omega (arith, early, h, ticks i)))
  poll_lease-Settles start poll ticks (suc n) i table h =
      poll_once-Settles (suc n) i table (λ lost early.
        poll_lease-Settles start poll ticks n (suc i) (poll_claim polls owner ttl i table).1
          (omega (arith, h)))

-- The wait for the lease ends, and ends no sooner than it may: with a clock that passes at least
-- `poll` between two polls, and `n` polls of that length covering the wait, one of the first `n + 1`
-- polls answers, and each poll before it was refused the lease with the deadline ahead. It answers
-- either that the lease is claimed, and then the token that is answered holds it in the table that
-- the call leaves; or that the lease is busy, and then this last poll was refused too and the deadline
-- is over by its clock. Others may change the table in any way before each poll.
pub manual_claim_settles :
    (polls : Polls) (owner : String) (ttl wait start poll n : ℕ) (table : Table)
    → Ticks polls start poll
    → wait ≤ n * poll
    → let run = claim_manual_lease polls owner ttl wait start (suc n) table in
      let first = (ensure_sync_state start table).1 in
      (c : ManualClaim) × ((run.0 ≡ some c)
        × ((k : ℕ) × ((last : Table) × ((k < suc n)
                × Waited polls owner ttl (start + wait) k last 0 first
                × Answers polls owner ttl (start + wait) k last c run.1))))
unfolding claim_manual_lease
manual_claim_settles polls owner ttl wait start poll n table ticks h =
    let (c, (answer, (k, (last, (bound, waited, says))))) =
      poll_lease-Settles polls owner ttl (start + wait) start poll ticks n 0
        (ensure_sync_state start table).1 (omega (arith, h)) in
    (c, (answer, (k, (last, (omega (arith, bound), waited, says)))))
