-- ===== src/Cascade/Progress.antt =====
-- eovpn/cascade.py: the progress of a run. A fraction is a numerator over a denominator, a time a
-- number of microseconds.
use e_ovpn_pro.Base.{
  ℕ, ◌+◌, ◌-◌, ◌*◌, ◌/◌, ◌%◌, ◌≤◌, ◌<◌, min, max, ◌≡◌, ◌⊎◌, inl, inr, ltb, if◌then◌else◌, arith,
}

pub record Fraction : Type 0 where
  pub num : ℕ
  pub den : ℕ

-- `(index + min(1, elapsed / attempt_timeout)) / total`, with one millisecond as the least timeout
-- and one attempt as the least total, clamped to 1. No input is negative.
unfoldable pub cascade_progress_fraction : ℕ → ℕ → ℕ → ℕ → Fraction
cascade_progress_fraction index total elapsed attempt_timeout =
    let budget = max attempt_timeout 1_000 in
    let whole = max 1 total * budget in
    record { num = min whole (index * budget + min budget elapsed); den = whole }

-- `max(0, int(round(deadline - now)))`, in seconds; a tie goes to the even second.
unfoldable pub cascade_remaining_seconds : ℕ → ℕ → ℕ
cascade_remaining_seconds deadline now =
    let left = deadline - now in
    let seconds = left / 1_000_000 in
    let rest = left % 1_000_000 in
    if ltb rest 500_000
    then seconds
    else if ltb 500_000 rest
    then seconds + 1
    else seconds + seconds % 2

-- The two numbers of `cascade_banner_meta`: the attempt and how many there are.
unfoldable pub banner_attempt : ℕ → ℕ → Fraction
banner_attempt index total = let n = max 1 total in record { num = min (index + 1) n; den = n }

whole_pos : (a b : ℕ) → 1 ≤ a → 1 ≤ b → 0 < a * b
whole_pos a b h k = grind arith

slot_before : (i j b : ℕ) → i < j → i * b + b ≤ j * b
slot_before i j b h = grind arith

-- The fraction lies between 0 and 1, and its denominator is not 0.
pub cascade_progress_fraction_bounds :
    (index total elapsed attempt_timeout : ℕ)
    → let f = cascade_progress_fraction index total elapsed attempt_timeout in
      (f.num ≤ f.den) × (0 < f.den)
unfolding cascade_progress_fraction
cascade_progress_fraction_bounds index total elapsed attempt_timeout =
    (omega arith, whole_pos (max 1 total) (max attempt_timeout 1_000) (omega arith) (omega arith))

-- Within a run with one budget the bar never moves back, neither in an attempt nor from one attempt
-- to the next.
pub cascade_progress_fraction_mono :
    (i j total e g attempt_timeout : ℕ)
    → (i < j) ⊎ ((i ≡ j) × (e ≤ g))
    → (cascade_progress_fraction i total e attempt_timeout).num
      ≤ (cascade_progress_fraction j total g attempt_timeout).num
unfolding cascade_progress_fraction
cascade_progress_fraction_mono i j total e g attempt_timeout (inl h) =
    omega (arith, slot_before i j (max attempt_timeout 1_000) h)
cascade_progress_fraction_mono i j total e g attempt_timeout (inr (same_attempt, later)) =
    rw same_attempt (omega arith)

-- An attempt that uses up its budget ends where the next one begins.
pub cascade_progress_fraction_joins :
    (i total e attempt_timeout : ℕ)
    → 1_000 ≤ attempt_timeout
    → attempt_timeout ≤ e
    → cascade_progress_fraction i total e attempt_timeout
      ≡ cascade_progress_fraction (i + 1) total 0 attempt_timeout
unfolding cascade_progress_fraction
cascade_progress_fraction_joins i total e attempt_timeout h k = ground arith

-- The seconds shown are within half a second of the time left, and 0 from the deadline on.
pub cascade_remaining_seconds_near :
    (deadline now : ℕ)
    → let s = cascade_remaining_seconds deadline now * 1_000_000 in
      (s ≤ (deadline - now) + 500_000) × (deadline - now ≤ s + 500_000)
unfolding cascade_remaining_seconds
cascade_remaining_seconds_near deadline now = ground arith
