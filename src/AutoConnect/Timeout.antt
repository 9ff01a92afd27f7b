-- ===== src/AutoConnect/Timeout.antt =====
-- `compute_attempt_timeout` of eovpn/auto_connect.py.
use e_ovpn_pro.Base.{ℕ, ◌+◌, ◌*◌, ◌/◌, ◌%◌, ◌≤◌, min, max, ◌≡◌, ◌≢◌, Option, none, some, arith}
use e_ovpn_pro.Base.Int.{ℤ, pos, negsuc}

abbrev pub base_handshake : ℕ
base_handshake = 30_000_000

abbrev pub unknown_rtt_timeout : ℕ
unknown_rtt_timeout = 30_000_000

abbrev pub min_attempt_timeout : ℕ
min_attempt_timeout = 30_000_000

abbrev pub max_attempt_timeout : ℕ
max_attempt_timeout = 45_000_000

abbrev pub rtt_timeout_multiplier : ℕ
rtt_timeout_multiplier = 8

abbrev pub disconnect_settle : ℕ
disconnect_settle = 550_000

abbrev pub progress_tick : ℕ
progress_tick = 100_000

-- `round(x, 2)` of seconds; a budget never lies half-way.
abbrev round_hundredths : ℕ → ℕ
round_hundredths x = (x + 5_000) / 10_000 * 10_000

-- A tenth of a millisecond is 100 microseconds.
abbrev budget : ℕ → ℕ
budget rtt = base_handshake + rtt * 100 * rtt_timeout_multiplier

unfoldable pub compute_attempt_timeout : Option ℤ → ℕ
compute_attempt_timeout none = unknown_rtt_timeout
compute_attempt_timeout (some (negsuc _)) = unknown_rtt_timeout
compute_attempt_timeout (some (pos rtt)) =
    round_hundredths (min max_attempt_timeout (max min_attempt_timeout (budget rtt)))

-- No clamped budget lies half-way between two hundredths of a second, so every rule for ties
-- rounds it alike.
pub budget_never_half_way :
    (rtt : ℕ) → min max_attempt_timeout (max min_attempt_timeout (budget rtt)) % 10_000 ≢ 5_000
budget_never_half_way rtt = omega arith

-- The budget of an attempt is between 30 and 45 seconds, whatever the measurement, also a missing
-- or a negative one.
pub compute_attempt_timeout_bounds :
    (rtt : Option ℤ)
    → (min_attempt_timeout ≤ compute_attempt_timeout rtt)
      × (compute_attempt_timeout rtt ≤ max_attempt_timeout)
unfolding compute_attempt_timeout
compute_attempt_timeout_bounds none = omega arith
compute_attempt_timeout_bounds (some (negsuc _)) = omega arith
compute_attempt_timeout_bounds (some (pos rtt)) = omega arith

-- A slower server never gets a smaller budget.
pub compute_attempt_timeout_mono :
    (r s : ℕ)
    → r ≤ s
    → compute_attempt_timeout (some (pos r)) ≤ compute_attempt_timeout (some (pos s))
unfolding compute_attempt_timeout
compute_attempt_timeout_mono r s h = omega arith

-- Up to 1.875 seconds of round-trip time the budget is 30 seconds and eight round trips, to within
-- half a hundredth of a second; from there on it is 45 seconds.
pub compute_attempt_timeout_value :
    (r : ℕ)
    → (r ≤ 18_750
        → (compute_attempt_timeout (some (pos r)) ≤ 30_000_000 + 800 * r + 5_000)
          × (30_000_000 + 800 * r ≤ compute_attempt_timeout (some (pos r)) + 5_000))
      × (18_750 ≤ r → compute_attempt_timeout (some (pos r)) ≡ 45_000_000)
unfolding compute_attempt_timeout
compute_attempt_timeout_value r = omega arith
