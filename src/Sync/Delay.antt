-- ===== src/Sync/Delay.antt =====
-- The bounds and the growth of the retry backoff (`backoff_delta` of services/paisa/sync_state.py).
use financial_dashboard.Prelude.{
  ℕ, zero, suc, ◌+◌, ◌-◌, ◌*◌, ◌≤◌, ◌<◌, ◌≡◌, refl, List, [], ◌∷◌, min, length, get_or, All, arith,
}
use financial_dashboard.Sync.Backoff.{minute, backoff_delta}

-- No step of the schedule is shorter than the one before it.
abbrev pub IsRising : List ℕ → Type 0
IsRising [] = Unit
IsRising (m ∷ []) = Unit
IsRising (m ∷ n ∷ ms) = (m ≤ n) × IsRising (n ∷ ms)

get_or-All : (P : ℕ → Type 0) (ms : List ℕ) (i : ℕ) → All P ms → i < length ms → P (get_or ms i 0)
get_or-All P [] i h lt = elim lt [ ]
get_or-All P (m ∷ ms) zero h lt = h.0
get_or-All P (m ∷ ms) (suc i) h lt = get_or-All P ms i h.1 (omega arith)

-- A step of a rising schedule is at least every step before it.
get_or_mono :
    (ms : List ℕ) (i j : ℕ) → IsRising ms → i ≤ j → j < length ms → get_or ms i 0 ≤ get_or ms j 0
get_or_mono [] i j h le lt = elim lt [ ]
get_or_mono (m ∷ []) zero zero h le lt = omega arith
get_or_mono (m ∷ []) (suc i) zero h le lt = absurd (omega arith)
get_or_mono (m ∷ []) i (suc j) h le lt = absurd (omega arith)
get_or_mono (m ∷ n ∷ ms) zero zero h le lt = omega arith
get_or_mono (m ∷ n ∷ ms) zero (suc j) h le lt =
    omega (arith, get_or_mono (n ∷ ms) zero j h.1 (omega arith) (omega arith))
get_or_mono (m ∷ n ∷ ms) (suc i) zero h le lt = absurd (omega arith)
get_or_mono (m ∷ n ∷ ms) (suc i) (suc j) h le lt =
    get_or_mono (n ∷ ms) i j h.1 (omega arith) (omega arith)

-- For every schedule that is not empty, the delay lies between any bounds of the schedule's steps,
-- in minutes, and on a rising schedule a further failure never shortens it; from the last step on it
-- stays at the last step.
pub backoff_delta_bounds :
    (lo hi m : ℕ) (ms : List ℕ) (i j : ℕ)
    → All (λ n. (lo ≤ n) × (n ≤ hi)) (m ∷ ms)
    → IsRising (m ∷ ms)
    → i ≤ j
    → (lo * minute ≤ backoff_delta i (m ∷ ms))
      × (backoff_delta j (m ∷ ms) ≤ hi * minute)
      × (backoff_delta i (m ∷ ms) ≤ backoff_delta j (m ∷ ms))
      × (backoff_delta (length (m ∷ ms) + i) (m ∷ ms) ≡ get_or (m ∷ ms) (length ms) 0 * minute)
unfolding backoff_delta
backoff_delta_bounds lo hi m ms i j h rising le =
    let at : ℕ → ℕ = λ k. min (k - 1) (length (m ∷ ms) - 1) in
    let bound = λ (k : ℕ). get_or-All (λ n. (lo ≤ n) × (n ≤ hi)) (m ∷ ms) (at k) h (omega arith) in
    let mono = get_or_mono (m ∷ ms) (at i) (at j) rising (omega arith) (omega arith) in
    let last : at (length (m ∷ ms) + i) ≡ length ms = omega arith in
    (omega (arith, bound i), omega (arith, bound j), omega (arith, mono), rw last refl)
