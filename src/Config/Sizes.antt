-- ===== src/Config/Sizes.antt =====
-- `format_throughput` and `format_data_size` of eovpn/utils.py, for whole numbers of bytes: the
-- number before the unit is kept as its tenths.
use e_ovpn_pro.Base.{
  ℕ, ◌+◌, ◌*◌, ◌/◌, ◌%◌, ◌≤◌, ◌<◌, ltb, if◌then◌else◌, ◌≡◌, refl, ◌⊎◌, inl, inr, Bool-cases, arith,
}

pub data SizeUnit : Type 0 where
  bytes kilobytes megabytes gigabytes : SizeUnit

pub record Shown : Type 0 where
  pub tenths : ℕ
  pub unit : SizeUnit

abbrev pub unit_bytes : SizeUnit → ℕ
unit_bytes bytes = 1
unit_bytes kilobytes = 1_024
unit_bytes megabytes = 1_048_576
unit_bytes gigabytes = 1_073_741_824

-- `f"{n / unit:.1f}"`, in tenths: the nearest, and of two equally near the even one.
unfoldable pub round_tenths : ℕ → ℕ → ℕ
round_tenths n unit =
    let down = n * 10 / unit in
    let left = n * 10 % unit in
    if ltb (left * 2) unit then down else if ltb unit (left * 2) then down + 1 else down + down % 2

unfoldable pub format_throughput : ℕ → Shown
unfolding round_tenths
format_throughput n =
    if ltb n 1_024
    then record { tenths = round_tenths n 1; unit = bytes }
    else if ltb n (1_024 * 1_024)
    then record { tenths = round_tenths n 1_024; unit = kilobytes }
    else record { tenths = round_tenths n (1_024 * 1_024); unit = megabytes }

unfoldable pub format_data_size : ℕ → Shown
unfolding round_tenths
format_data_size n =
    if ltb n 1_024
    then record { tenths = n * 10; unit = bytes }
    else if ltb n (1_024 * 1_024)
    then record { tenths = round_tenths n 1_024; unit = kilobytes }
    else if ltb n (1_024 * 1_024 * 1_024)
    then record { tenths = round_tenths n (1_024 * 1_024); unit = megabytes }
    else record { tenths = round_tenths n (1_024 * 1_024 * 1_024); unit = gigabytes }

size_fits :
    (n : ℕ)
    → let shown = format_data_size n in
      (shown.unit ≡ gigabytes) ⊎ (n < unit_bytes shown.unit * 1_024)
unfolding format_data_size
size_fits n = elim (Bool-cases (ltb n 1_024)) [
  | inl a ↦ rw a (inr (ground arith))
  | inr a ↦ elim (Bool-cases (ltb n (1_024 * 1_024))) [
    | inl b ↦ rw (a, b) (inr (ground arith))
    | inr b ↦ elim (Bool-cases (ltb n (1_024 * 1_024 * 1_024))) [
      | inl c ↦ rw (a, b, c) (inr (ground arith))
      | inr c ↦ rw (a, b, c) (inl refl)
    ]
  ]
]

-- A size is shown to within half a tenth of its unit, in the largest unit that it fills, or in bytes.
pub format_data_size-near :
    (n : ℕ)
    → let shown = format_data_size n in
      let unit = unit_bytes shown.unit in
      (shown.tenths * unit * 2 ≤ n * 20 + unit)
      × (n * 20 ≤ shown.tenths * unit * 2 + unit)
      × (unit ≤ n + 1)
      × ((shown.unit ≡ gigabytes) ⊎ (n < unit * 1_024))
unfolding format_data_size
format_data_size-near n = (ground arith, ground arith, ground arith, size_fits n)

-- A rate is shown to within half a tenth of its unit.
pub format_throughput-near :
    (n : ℕ)
    → let shown = format_throughput n in
      let unit = unit_bytes shown.unit in
      (shown.tenths * unit * 2 ≤ n * 20 + unit)
      × (n * 20 ≤ shown.tenths * unit * 2 + unit)
      × (unit ≤ n + 1)
unfolding format_throughput
format_throughput-near n = ground arith
