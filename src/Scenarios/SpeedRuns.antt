-- ===== src/Scenarios/SpeedRuns.antt =====
-- The speed test of a small configuration, and a snapshot of its results.
use e_ovpn_pro.Base.{
  ℕ, false, Option, none, some, [], ◌∷◌, Text, codes, take, All, ◌==◌, if◌then◌else◌, ◌≡◌, ◌⊎◌,
  refl,
}
use e_ovpn_pro.Config.Parser.{File, parse_ovpn_remote}
use e_ovpn_pro.Speed.{max_endpoints_per_config, test_single_ovpn}
use e_ovpn_pro.Speed.Best.{IsLower, measures, MeasuredBy, test_single_ovpn-IsLower}

abbrev two_remotes : File
two_remotes = some (codes "remote a 443" ∷ codes "remote b 1194" ∷ [])

abbrev ping : Text × ℕ → Option ℕ
ping (host, port) = if port == 443 then some 310 else some 250

test_single_ovpn-IsLower_example :
    let remotes = take max_endpoints_per_config (parse_ovpn_remote two_remotes) in
    let best = test_single_ovpn ping (λ _. false) two_remotes in
    All (λ r. IsLower best (measures ping r)) remotes
    × ((best ≡ none) ⊎ MeasuredBy ping best remotes)
test_single_ovpn-IsLower_example =
    test_single_ovpn-IsLower ping (λ _. false) two_remotes (λ _. refl)
