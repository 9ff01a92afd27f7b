-- ===== src/Monitor.antt =====
-- `NetworkMonitor._read_counters` and `tick` of eovpn/network_monitor.py. The counters of the kernel
-- are unsigned, so a number is a text of digits; times are milliseconds of the monotonic clock.
pub mod Counters
use e_ovpn_pro.Base.{
  ℕ, zero, suc, ◌+◌, ◌-◌, Bool, true, false, not, ◌&&◌, ◌||◌, Option, none, some, List, [], ◌∷◌,
  ◌++◌, map, Text, codes, strip, contains, split_words, all_digits, read_number, any, get_elem?,
  ltb, ◌==◌, if◌then◌else◌,
}

abbrev pub vpn_iface_markers : List Text
vpn_iface_markers = codes "tun" ∷ codes "tap" ∷ codes "ovpn" ∷ codes "ppp" ∷ codes "wg" ∷ []

-- An interface with its received and sent bytes.
pub record Row : Type 0 where
  pub iface : Text
  pub rx : ℕ
  pub tx : ℕ

unfoldable pub before_colon : Text → Text
before_colon [] = []
before_colon (c ∷ s) = let rest = before_colon s in if c == b':' then [] else c ∷ rest

unfoldable pub after_colon : Text → Text
after_colon [] = []
after_colon (c ∷ s) = let rest = after_colon s in if c == b':' then s else rest

unfoldable pub parse_numbers : Text → Option Text → Option Text → Option Row
parse_numbers iface (some rx) (some tx) =
    if all_digits rx && all_digits tx
    then some (record { iface = iface; rx = read_number rx; tx = read_number tx })
    else none
parse_numbers iface rx tx = none

-- a line of `/proc/net/dev`: the first and the ninth number after the colon
unfoldable pub parse_line : Text → Option Row
unfolding before_colon after_colon parse_numbers
parse_line line =
    let values = split_words (after_colon line) in
    if contains (codes ":") line
    then parse_numbers (strip (before_colon line)) (get_elem? values 0) (get_elem? values 8)
    else none

unfoldable pub is_vpn : Row → Bool
is_vpn row = any (λ marker. contains marker row.iface) vpn_iface_markers

-- `"lo" in iface`, which holds of the loopback interface and also of others, as `wlo1`
unfoldable pub has_lo : Row → Bool
has_lo row = contains (codes "lo") row.iface

pub record Totals : Type 0 where
  pub vpn_rx : ℕ
  pub vpn_tx : ℕ
  pub fallback_rx : ℕ
  pub fallback_tx : ℕ
  pub vpn_found : Bool

unfoldable pub count_row : Option Row → Totals → Totals
count_row none t = t
count_row (some row) t =
    let vpn = record t {
      vpn_found = true;
      vpn_rx = t.vpn_rx + row.rx;
      vpn_tx = t.vpn_tx + row.tx;
    } in
    let fallback = record t {
      fallback_rx = t.fallback_rx + row.rx;
      fallback_tx = t.fallback_tx + row.tx;
    } in
    if is_vpn row then vpn else if not (has_lo row) then fallback else t

-- the loop over the lines
unfoldable pub count_lines : List Text → Totals → Totals
unfolding count_row parse_line
count_lines [] t = t
count_lines (line ∷ lines) t = count_lines lines (count_row (parse_line line) t)

abbrev pub no_totals : Totals
no_totals = record { vpn_rx = 0; vpn_tx = 0; fallback_rx = 0; fallback_tx = 0; vpn_found = false }

-- `_read_counters`: received, sent, and whether a VPN interface was found; `none` is a missing file.
unfoldable pub read_counters : Option (List Text) → ℕ × ℕ × Bool
unfolding count_lines
read_counters none = (0, 0, false)
read_counters (some lines) =
    let t = count_lines lines no_totals in
    if t.vpn_found then (t.vpn_rx, t.vpn_tx, true) else (t.fallback_rx, t.fallback_tx, false)

-- The monitor: the last counters, and when they were read.
pub record NetworkMonitor : Type 0 where
  pub last_rx : ℕ
  pub last_tx : ℕ
  pub last_time : Option ℕ

-- What a tick shows: the bytes since the last tick with the milliseconds that they took, where a
-- rate is shown, and the total, where there was a tick before.
pub record Report : Type 0 where
  pub download : Option (ℕ × ℕ)
  pub upload : Option (ℕ × ℕ)
  pub total : Option ℕ

-- a clock that does not advance counts as a second
abbrev pub elapsed : ℕ → ℕ → ℕ
elapsed last now = if ltb last now then now - last else 1_000

unfoldable pub report : NetworkMonitor → ℕ → ℕ → ℕ → Option ℕ → Report
report m rx tx now none = record { download = none; upload = none; total = none }
report m rx tx now (some last) =
    if ltb 0 m.last_rx || ltb 0 m.last_tx
    then record {
      download = some (rx - m.last_rx, elapsed last now);
      upload = some (tx - m.last_tx, elapsed last now);
      total = some (rx + tx);
    }
    else record { download = none; upload = none; total = some (rx + tx) }

-- `tick`, at a time
unfoldable pub tick : Option (List Text) → ℕ → NetworkMonitor → NetworkMonitor × Report
unfolding report
tick file now m =
    let (rx, tx, _) = read_counters file in
    (record { last_rx = rx; last_tx = tx; last_time = some now }, report m rx tx now m.last_time)
