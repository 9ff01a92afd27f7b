-- ===== src/AutoConnect/Queue.antt =====
-- `build_cascade_queue` and `collect_visible_filenames` of eovpn/auto_connect.py.
pub mod Sorting
pub mod Chosen
pub mod Contents
use e_ovpn_pro.Base.{
  ℕ, zero, suc, ◌+◌, max, Bool, true, false, ◌&&◌, ◌||◌, Option, none, some, List, [], ◌∷◌, map,
  Text, lookup, any, take, is_some, leb, ltb, ◌==◌, if◌then◌else◌,
}

abbrev pub max_cascade_candidates : ℕ
max_cascade_candidates = 50

-- The measurements, `none` for a server that did not answer.
abbrev pub Latencies : Type 0
Latencies = List (Text × Option ℕ)

-- `latencies.get(name)`
unfoldable pub latency : Latencies → Text → Option ℕ
unfolding lookup
latency d name = elim (lookup name d) [ none ↦ none | some value ↦ value ]

-- `name in latencies and latencies[name] is None`
unfoldable pub known_dead : Latencies → Text → Bool
unfolding lookup
known_dead d name = elim (lookup name d) [ none ↦ false | some value ↦ not_measured value ]
  where
    not_measured : Option ℕ → Bool
    not_measured none = true
    not_measured (some _) = false

-- A row of the list box: its `filename`, if it has one.
abbrev pub Row : Type 0
Row = Option Text

-- The walk stops at the first index at which the list box has no row.
unfoldable pub collect_visible_filenames : List Row → List Text
collect_visible_filenames [] = []
collect_visible_filenames (none ∷ rows) = collect_visible_filenames rows
collect_visible_filenames (some [] ∷ rows) = collect_visible_filenames rows
collect_visible_filenames (some (c ∷ name) ∷ rows) = (c ∷ name) ∷ collect_visible_filenames rows

-- `[name for name in visible_files if name]`
unfoldable pub named : List Text → List Text
named [] = []
named ([] ∷ names) = named names
named ((c ∷ name) ∷ names) = (c ∷ name) ∷ named names

unfoldable pub has_any_rtt : Latencies → Bool
has_any_rtt = any (λ entry. is_some entry.1)

-- A position in the visible list and the name that stands there.
abbrev pub Candidate : Type 0
Candidate = ℕ × Text

-- The loop over `enumerate(files)`; `skips` is `skip_unreachable and has_any_rtt`.
unfoldable pub eligible_from : Bool → Latencies → ℕ → List Text → List Candidate
eligible_from skips d position [] = []
eligible_from skips d position (name ∷ names) =
    let later = eligible_from skips d (suc position) names in
    if skips && known_dead d name then later else (position, name) ∷ later

-- The order of the tuples of `latency_key`: a measured one first, the faster, the earlier.
unfoldable pub key_le : Option ℕ → ℕ → Option ℕ → ℕ → Bool
key_le (some r) i (some s) j = ltb r s || (r == s && leb i j)
key_le (some r) i none j = true
key_le none i (some s) j = false
key_le none i none j = leb i j

unfoldable pub insert_by_latency : Latencies → Candidate → List Candidate → List Candidate
insert_by_latency d c [] = c ∷ []
insert_by_latency d (i, x) ((j, y) ∷ cs) =
    let later = insert_by_latency d (i, x) cs in
    if key_le (latency d x) i (latency d y) j then (i, x) ∷ (j, y) ∷ cs else (j, y) ∷ later

-- `eligible.sort(key=latency_key)`
unfoldable pub sort_by_latency : Latencies → List Candidate → List Candidate
unfolding insert_by_latency
sort_by_latency d [] = []
sort_by_latency d (c ∷ cs) = insert_by_latency d c (sort_by_latency d cs)

-- `queue or files[:limit]`
abbrev or_files : List Text → List Text → List Text
or_files [] files = files
or_files (name ∷ queue) files = name ∷ queue

pub names_of : List Candidate → List Text
names_of = map (λ c. c.1)

unfoldable pub candidates : Latencies → Bool → List Text → List Candidate
candidates d skip_unreachable files =
    let eligible = eligible_from (skip_unreachable && has_any_rtt d) d 0 files in
    if has_any_rtt d then sort_by_latency d eligible else eligible

-- Without named files every list below is empty, as the early return makes it.
unfoldable pub build_cascade_queue : List Text → Latencies → Bool → ℕ → List Text
unfolding candidates names_of named
build_cascade_queue visible_files d skip_unreachable max_candidates =
    let files = named visible_files in
    let limit = max 1 max_candidates in
    or_files (names_of (take limit (candidates d skip_unreachable files))) (take limit files)
