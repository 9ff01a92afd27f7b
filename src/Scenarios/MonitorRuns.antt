-- ===== src/Scenarios/MonitorRuns.antt =====
-- The counters of a small `/proc/net/dev`.
use e_ovpn_pro.Base.{true, false, some, List, [], ◌∷◌, Text, codes, any, if◌then◌else◌, ◌≡◌}
use e_ovpn_pro.Monitor.{is_vpn, read_counters}
use e_ovpn_pro.Monitor.Counters.{rows, sum_of, is_fallback, read_counters_lem}

abbrev net_dev : List Text
net_dev =
    codes "face |bytes"
    ∷ codes "  lo: 50 1 0 0 0 0 0 0 50 1"
    ∷ codes "eth0: 900 1 0 0 0 0 0 0 300 1"
    ∷ codes "tun0: 0 0 0 0 0 0 0 0 0 0"
    ∷ []

read_counters_example : read_counters (some net_dev) ≡ (
    if any is_vpn (rows net_dev)
    then (sum_of is_vpn (λ r. r.rx) (rows net_dev), sum_of is_vpn (λ r. r.tx) (rows net_dev), true)
    else (
      sum_of is_fallback (λ r. r.rx) (rows net_dev),
      sum_of is_fallback (λ r. r.tx) (rows net_dev),
      false,
    ))
read_counters_example = read_counters_lem net_dev
