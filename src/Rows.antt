-- ===== src/Rows.antt =====
-- The rows of the server list and their loading: `ConfigRow` and `Base.load_only` of
-- eovpn/eovpn_base.py, and the audit warning and the counters of eovpn/main_window.py. Widgets are
-- left out; the file system is a parameter.
use e_ovpn_pro.Base.{
  ℕ, ◌+◌, ◌-◌, Bool, ◌&&◌, ◌||◌, Option, none, some, List, [], ◌∷◌, ◌++◌, Text, codes, same, lower,
  ends_with, starts_with, any, take, length, ltb, ◌==◌, if◌then◌else◌, ◌≡◌, arith, length-take,
}
use e_ovpn_pro.Config.Audit.{sort_texts}
use e_ovpn_pro.Config.Audit.Reports.{any-sort}
use e_ovpn_pro.Download.Extract.{basename, join_path}

-- What `pathlib` says: a path with its links followed, `none` where it cannot be resolved.
pub record Paths : Type 0 where
  pub resolve : Text → Option Text
  pub is_file : Text → Bool

-- `Path.is_relative_to`, for paths that are resolved
unfoldable pub is_relative_to : Text → Text → Bool
is_relative_to target base = same target base || starts_with target (base ++ codes "/")

-- `target.suffix.lower() == ".ovpn"`
unfoldable pub is_ovpn_suffix : Text → Bool
is_ovpn_suffix target =
    ends_with (lower (basename target)) (codes ".ovpn") && ltb 5 (length (basename target))

unfoldable pub checked_target : Paths → Text → Option Text → Option Text
unfolding is_relative_to is_ovpn_suffix
checked_target p base none = none
checked_target p base (some target) =
    if is_ovpn_suffix target && is_relative_to target base && p.is_file target
    then some target
    else none

unfoldable pub editable_in : Paths → Text → Option Text → Option Text
unfolding checked_target
editable_in p filename none = none
editable_in p filename (some base) = checked_target p base (p.resolve (join_path base filename))

-- `_resolve_editable_path`
unfoldable pub resolve_editable_path : Paths → Text → Text → Option Text
unfolding editable_in
resolve_editable_path p ovpn_dir filename = editable_in p filename (p.resolve ovpn_dir)

pub data LatencyClass : Type 0 where
  latency_good latency_mid latency_bad latency_error no_class : LatencyClass

abbrev pub measured_class : ℕ → LatencyClass
measured_class latency =
    if ltb latency 1_000
    then latency_good
    else if ltb latency 2_500
    then latency_mid
    else latency_bad

abbrev pub unmeasured_class : Text → LatencyClass
unmeasured_class status =
    if same status (codes "pending") || same status (codes "stale") then no_class else latency_error

-- the style class that `set_latency` adds, for tenths of a millisecond
unfoldable pub set_latency : Option ℕ → Text → LatencyClass
set_latency none status = unmeasured_class status
set_latency (some ms) status =
    if same status (codes "measured") then measured_class ms else unmeasured_class status

-- the names that end in `.ovpn`
unfoldable pub ovpn_names : List Text → List Text
ovpn_names [] = []
ovpn_names (name ∷ names) =
    let rest = ovpn_names names in if ends_with name (codes ".ovpn") then name ∷ rest else rest

-- `configs` of `load_only`; a directory that cannot be listed has none.
unfoldable pub load_only : Option (List Text) → List Text
unfolding ovpn_names sort_texts
load_only none = []
load_only (some names) = sort_texts (ovpn_names names)

-- The loaded list holds exactly the names of the directory that end in `.ovpn`.
pub any-load_only :
    (names : List Text) (x : Text)
    → any (same x) (load_only (some names)) ≡ any (same x) (ovpn_names names)
unfolding load_only
any-load_only names x = any-sort x (ovpn_names names)

-- the files that the warning of `notify_config_audit` names, and how many more it counts
unfoldable pub notify_config_audit : List (Text × List Text) → List (Text × List Text) × ℕ
notify_config_audit results = (take 5 results, length results - 5)

-- Every file that the audit reports is named in the warning, or counted.
pub notify_config_audit-counts :
    (results : List (Text × List Text))
    → length (notify_config_audit results).0 + (notify_config_audit results).1 ≡ length results
unfolding notify_config_audit
notify_config_audit-counts results = rw (length-take 5 results) (omega arith)

pub data EmptyState : Type 0 where
  no_configs no_matching : EmptyState

-- `update_filter_count`: the two numbers shown, and the message for an empty list
unfoldable pub update_filter_count : List Text → Option ℕ → (ℕ × ℕ) × EmptyState
update_filter_count configs none =
    ((length configs, length configs), if length configs == 0 then no_configs else no_matching)
update_filter_count configs (some visible) =
    ((visible, length configs), if length configs == 0 then no_configs else no_matching)
