-- ===== src/Config/Filter.antt =====
-- `matches_server_filter` of eovpn/utils.py.
pub mod Narrowing
use e_ovpn_pro.Base.{
  Bool, true, false, not, ◌&&◌, ◌||◌, Option, none, some, List, [], ◌∷◌, ℕ, Text, codes, same,
  lower, contains, any, is_some, if◌then◌else◌,
}
use e_ovpn_pro.AutoConnect.Badge.{proto_tcp, proto_udp}
use e_ovpn_pro.AutoConnect.Queue.{Latencies, latency}

-- The keyword arguments; a set that is `None` counts as empty.
pub record Query : Type 0 where
  pub search : Text
  pub mode : Text
  pub favorites : List Text
  pub latencies : Latencies
  pub proto_mode : Text
  pub protocols : List Text

abbrev pub member : Text → List Text → Bool
member x = any (λ y. same y x)

-- `search and search.lower() not in name.lower()`
unfoldable pub fails_search : Text → Text → Bool
fails_search [] name = false
fails_search (c ∷ search) name = not (contains (lower (c ∷ search)) (lower name))

unfoldable pub matches_server_filter : Text → Query → Bool
unfolding fails_search
matches_server_filter name q =
    let wants_proto = same q.proto_mode proto_tcp || same q.proto_mode proto_udp in
    if fails_search q.search name
    then false
    else if same q.mode (codes "favorites") && not (member name q.favorites)
    then false
    else if same q.mode (codes "online") && not (is_some (latency q.latencies name))
    then false
    else if same q.mode (codes "offline") && is_some (latency q.latencies name)
    then false
    else not (wants_proto && not (member q.proto_mode q.protocols))
