-- ===== src/Monitor/Counters.antt =====
-- What the counters add up to.
use e_ovpn_pro.Base.{
  ℕ, ◌+◌, Bool, true, false, not, ◌&&◌, ◌||◌, Option, none, some, List, [], ◌∷◌, Text, any,
  if◌then◌else◌, ◌≡◌, arith,
}
use e_ovpn_pro.Monitor.{
  Row, parse_line, is_vpn, has_lo, Totals, count_row, count_lines, no_totals, read_counters,
}

-- the rows of a file
abbrev pub rows : List Text → List Row
rows [] = []
rows (line ∷ lines) = elim (parse_line line) [ none ↦ rows lines | some row ↦ row ∷ rows lines ]

-- the sum of a counter over the rows that pass a test
abbrev pub sum_of : (Row → Bool) → (Row → ℕ) → List Row → ℕ
sum_of test counter [] = 0
sum_of test counter (row ∷ rest) = (if test row then counter row else 0) + sum_of test counter rest

abbrev pub is_fallback : Row → Bool
is_fallback row = not (is_vpn row) && not (has_lo row)

-- `t` after the rows
abbrev AddsUp : List Row → Totals → Totals → Type 0
AddsUp rs t u =
    (u.vpn_rx ≡ t.vpn_rx + sum_of is_vpn (λ r. r.rx) rs)
    × (u.vpn_tx ≡ t.vpn_tx + sum_of is_vpn (λ r. r.tx) rs)
    × (u.fallback_rx ≡ t.fallback_rx + sum_of is_fallback (λ r. r.rx) rs)
    × (u.fallback_tx ≡ t.fallback_tx + sum_of is_fallback (λ r. r.tx) rs)
    × (u.vpn_found ≡ (t.vpn_found || any is_vpn rs))

row-AddsUp :
    (row : Row) (rs : List Row) (t u : Totals)
    → AddsUp rs (count_row (some row) t) u
    → AddsUp (row ∷ rs) t u
unfolding count_row
row-AddsUp row rs t u h = (ground arith, ground arith, ground arith, ground arith, ground arith)

lines-AddsUp : (lines : List Text) (t : Totals) → AddsUp (rows lines) t (count_lines lines t)
unfolding count_lines
lines-AddsUp [] t = (omega arith, omega arith, omega arith, omega arith, ground arith)
lines-AddsUp (line ∷ lines) t = step (parse_line line) (rows lines) (λ u. lines-AddsUp lines u)
  where
    step :
        (o : Option Row) (rs : List Row)
        → ((u : Totals) → AddsUp rs u (count_lines lines u))
        → AddsUp (elim o [ none ↦ rs | some row ↦ row ∷ rs ]) t (count_lines lines (count_row o t))
    step none rs h = unfold count_row in h t
    step (some row) rs h = row-AddsUp row rs t _ (h (count_row (some row) t))

abbrev choose : Bool → ℕ → ℕ → ℕ → ℕ → ℕ × ℕ × Bool
choose found a b c d = if found then (a, b, true) else (c, d, false)

chosen_totals :
    (t : Totals) (a b c d : ℕ) (found : Bool)
    → t.vpn_rx ≡ 0 + a
    → t.vpn_tx ≡ 0 + b
    → t.fallback_rx ≡ 0 + c
    → t.fallback_tx ≡ 0 + d
    → t.vpn_found ≡ (false || found)
    → choose t.vpn_found t.vpn_rx t.vpn_tx t.fallback_rx t.fallback_tx ≡ choose found a b c d
chosen_totals t a b c d true vr vt fr ft f = ground arith
chosen_totals t a b c d false vr vt fr ft f = ground arith

-- With a VPN interface in the file the counters are the sums over the VPN interfaces, also when
-- these are zero; without one they are the sums over the interfaces whose name does not contain the
-- letters "lo", so that an interface as `wlo1` is left out like the loopback one.
pub read_counters_lem :
    (lines : List Text)
    → read_counters (some lines) ≡ (
        if any is_vpn (rows lines)
        then (sum_of is_vpn (λ r. r.rx) (rows lines), sum_of is_vpn (λ r. r.tx) (rows lines), true)
        else (
          sum_of is_fallback (λ r. r.rx) (rows lines),
          sum_of is_fallback (λ r. r.tx) (rows lines),
          false,
        ))
unfolding read_counters
read_counters_lem lines =
    let (vr, vt, fr, ft, found) = lines-AddsUp lines no_totals in
    chosen_totals (count_lines lines no_totals) (sum_of is_vpn (λ r. r.rx) (rows lines))
      (sum_of is_vpn (λ r. r.tx) (rows lines)) (sum_of is_fallback (λ r. r.rx) (rows lines))
      (sum_of is_fallback (λ r. r.tx) (rows lines)) (any is_vpn (rows lines)) vr vt fr ft found
