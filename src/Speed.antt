-- ===== src/Speed.antt =====
-- `test_single_ovpn` of eovpn/speed_test.py, and the snapshot of the
-- measurements in eovpn/speed_state.py.
pub mod Best
pub mod All
use e_ovpn_pro.Base.{
  ℕ, ◌+◌, Bool, true, false, not, ◌&&◌, ◌||◌, Option, none, some, List, [], ◌∷◌, ◌++◌, map, Text,
  codes, ends_with, lookup, insert, take, ltb, leb, if◌then◌else◌,
}
use e_ovpn_pro.Config.Parser.{File, parse_ovpn_remote}

abbrev pub max_endpoints_per_config : ℕ
max_endpoints_per_config = 16

-- a remote that is measured: a host and a port in range
unfoldable pub is_valid : Text × ℕ → Bool
is_valid ([], port) = false
is_valid (c ∷ host, port) = leb 1 port && leb port 65_535

-- `if rtt is not None and (best_rtt is None or rtt < best_rtt)`
unfoldable pub better : Option ℕ → Option ℕ → Option ℕ
better best none = best
better none (some rtt) = some rtt
better (some best) (some rtt) = if ltb rtt best then some rtt else some best

-- `ping_host` gives tenths of a millisecond; `is_set k` is the cancel event before the `k`-th
-- remote.
module _ (ping_host : Text × ℕ → Option ℕ) (is_set : ℕ → Bool) where
  -- the loop over the remotes
  unfoldable pub best_of : ℕ → Option ℕ → List (Text × ℕ) → Option ℕ
  unfolding better is_valid
  best_of k best [] = best
  best_of k best (remote ∷ remotes) =
      let later =
        best_of (k + 1) (if is_valid remote then better best (ping_host remote) else best)
          remotes in
      if is_set k then none else later

  -- `test_single_ovpn`; without remotes the loop is empty.
  unfoldable pub test_single_ovpn : File → Option ℕ
  unfolding best_of
  test_single_ovpn file = best_of 0 none (take max_endpoints_per_config (parse_ovpn_remote file))

pub data Status : Type 0 where
  measured error unreachable : Status

pub record SpeedMeasurement : Type 0 where
  pub config_id : Text
  pub latency : Option ℕ
  pub status : Status
  pub measured_at : ℕ
  pub test_generation : ℕ
  pub error_message : Option Text

unfoldable pub status_of : Option ℕ → Option Text → Status
status_of (some rtt) e = measured
status_of none none = unreachable
status_of none (some []) = unreachable
status_of none (some (c ∷ e)) = error

-- `SpeedMeasurement.from_result`
unfoldable pub from_result : Text → Option ℕ → ℕ → Option Text → ℕ → SpeedMeasurement
unfolding status_of
from_result config_id latency generation e now = record {
  config_id = config_id;
  latency = latency;
  status = status_of latency e;
  measured_at = now;
  test_generation = generation;
  error_message = e;
}

-- `SpeedTestSnapshot`
pub record SpeedTestSnapshot : Type 0 where
  pub generation : ℕ
  pub measurements : List (Text × SpeedMeasurement)

abbrev pub new_snapshot : SpeedTestSnapshot
new_snapshot = record { generation = 0; measurements = [] }

unfoldable pub measurements_of : ℕ → ℕ → List (Text × Option ℕ) → List (Text × SpeedMeasurement)
measurements_of now generation =
    map (λ entry. (entry.0, from_result entry.0 entry.1 generation none now))

-- `replace`, with the new generation as its result
unfoldable pub replace : ℕ → List (Text × Option ℕ) → SpeedTestSnapshot → SpeedTestSnapshot × ℕ
unfolding measurements_of
replace now results s =
    let generation = s.generation + 1 in
    (
      record { generation = generation; measurements = measurements_of now generation results },
      generation,
    )

-- `get`
unfoldable pub get : Text → SpeedTestSnapshot → Option SpeedMeasurement
get config_id s = lookup config_id s.measurements

-- `latency_map`
unfoldable pub latency_map : SpeedTestSnapshot → List (Text × Option ℕ)
latency_map s = map (λ entry. (entry.0, entry.1.latency)) s.measurements
