-- ===== src/Sync/Backoff.antt =====
-- The retry backoff of services/paisa/sync_state.py, in microseconds.
use financial_dashboard.Prelude.{ℕ, ◌-◌, ◌*◌, min, List, [], ◌∷◌, length, get_or}

abbrev pub minute : ℕ
minute = 60000000

abbrev pub backoff_minutes : List ℕ
backoff_minutes = 1 ∷ 2 ∷ 5 ∷ 10 ∷ 15 ∷ []

-- `max(0, failure_count - 1)` is the truncated difference; the table keeps the count non-negative.
unfoldable pub backoff_delta : ℕ → List ℕ → ℕ
backoff_delta failure_count [] = 0
backoff_delta failure_count (m ∷ ms) =
    get_or (m ∷ ms) (min (failure_count - 1) (length (m ∷ ms) - 1)) 0 * minute
