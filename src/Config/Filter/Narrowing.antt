-- ===== src/Config/Filter/Narrowing.antt =====
-- How the modes of the filter relate.
use e_ovpn_pro.Base.{
  false, ◌&&◌, ◌||◌, Text, codes, same, is_some, ◌≡◌, arith, Bool-cases, inl, inr,
}
use e_ovpn_pro.AutoConnect.Queue.{latency}
use e_ovpn_pro.Config.Filter.{Query, matches_server_filter}

abbrev pub with_mode : Text → Query → Query
with_mode m q = record q { mode = m }

-- Whatever else is asked for, the servers shown as online and those shown as offline are together
-- those shown under "all", and no server is shown as both.
pub online_offline :
    (name : Text) (q : Query)
    → let shows = λ (m : Text). matches_server_filter name (with_mode m q) in
      ((shows (codes "online") || shows (codes "offline")) ≡ shows (codes "all"))
      × ((shows (codes "online") && shows (codes "offline")) ≡ false)
unfolding matches_server_filter same
online_offline name q = elim (Bool-cases (is_some (latency q.latencies name))) [
  | inl e ↦ rw e (ground arith)
  | inr e ↦ rw e (ground arith)
]
