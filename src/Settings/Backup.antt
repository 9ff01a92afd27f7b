-- ===== src/Settings/Backup.antt =====
-- The snapshots of eovpn/reset_backup.py, and their use in `_apply_reset` and `_apply_restore` of
-- eovpn/settings_window.py. What the manifest holds is kept as data: the JSON text is left out.
pub mod Names
pub mod Actions
use e_ovpn_pro.Base.{
  ℕ, ◌+◌, Bool, true, false, not, Option, none, some, List, [], ◌∷◌, ◌++◌, map, Text, codes, any,
  same, length, insert, print_number, starts_with, ltb, is_some, ◌&&◌, if◌then◌else◌, ◌||◌, zero,
  suc,
}
use e_ovpn_pro.Config.Audit.{sort_texts}
use e_ovpn_pro.Settings.{
  Value, string, Schema, Settings, all_settings, get_setting, set_setting, reset_all_settings,
}
use e_ovpn_pro.Settings.Session.{Session, set_session_password}

-- a directory: its files by name
abbrev pub Files : Type 0
Files = List (Text × Text)

-- The settings of a snapshot, in the order of their keys; `None` is `none`.
abbrev pub Saved : Type 0
Saved = List (Text × Option Value)

pub data Manifest : Type 0 where
  unreadable other_format invalid_settings : Manifest
  manifest : Saved → Manifest

-- What may stand beside the managed directory, and what a snapshot has in it.
pub record Item : Type 0 where
  pub is_dir : Bool
  pub is_symlink : Bool
  pub manifest_file : Option Manifest
  pub config : Option Files
  pub config_is_symlink : Bool
  pub mtime : ℕ

-- What a call meets: the clock and the process, and which of its calls raise. A copy that raises
-- leaves some files behind.
pub record Io : Type 0 where
  pub timestamp : Text
  pub pid : ℕ
  pub now : ℕ
  pub mkdir_works : Bool
  pub snapshot_works : Bool
  pub copytree_fails : Option Files

pub record Store : Type 0 where
  pub settings : Settings
  pub session : Session
  -- the managed directory
  pub config : Option Files
  pub config_is_symlink : Bool
  -- what else its parent holds
  pub parent : List (Text × Item)
  -- the users whose stored password was asked to be cleared
  pub cleared : List Text

abbrev pub reset_backup_prefix : Text
reset_backup_prefix = codes "reset-backup-"

-- what the loop adds to the name
abbrev pub suffix_text : ℕ → Text
suffix_text zero = []
suffix_text (suc n) = codes "-" ++ print_number (suc n)

-- the name of a snapshot, once the loop has counted up to `n`
unfoldable pub backup_name : Io → ℕ → Text
backup_name io n =
    (reset_backup_prefix ++ io.timestamp ++ codes "-" ++ print_number io.pid) ++ suffix_text n

-- `while backup.exists()`, with fuel
unfoldable pub free_name : ℕ → (ℕ → Text) → ℕ → List Text → Option Text
free_name zero name suffix taken = none
free_name (suc fuel) name suffix taken =
    let next = free_name fuel name (suffix + 1) taken in
    if any (same (name suffix)) taken then next else some (name suffix)

abbrev pub names : List (Text × Item) → List Text
names = map (λ item. item.0)

-- the name that the loop ends with
unfoldable pub backup_path : Io → List (Text × Item) → Option Text
unfolding free_name
backup_path io parent = free_name (suc (length parent)) (backup_name io) 0 (names parent)

module _ (schema : Schema) where
  -- `{key: self.get_setting(key) for key in all_settings}`, with the keys sorted
  unfoldable pub snapshot_settings : List Text → Settings → Saved
  snapshot_settings keys s = map (λ key. (key, get_setting schema key s)) keys

  unfoldable pub snapshot : Io → Store → Item
  unfolding snapshot_settings sort_texts
  snapshot io s = record {
    is_dir = true;
    is_symlink = false;
    manifest_file = some (manifest (snapshot_settings (sort_texts all_settings) s.settings));
    config = s.config;
    config_is_symlink = false;
    mtime = io.now;
  }

  abbrev pub with_snapshot : Io → Store → Option Text → Option (Text × List (Text × Item))
  with_snapshot io s none = none
  with_snapshot io s (some name) = some (name, insert name (snapshot io s) s.parent)

  -- `create_reset_backup`: the snapshot's name, and the parent with it; `none` where it raises.
  unfoldable pub create_reset_backup : Io → Store → Option (Text × List (Text × Item))
  create_reset_backup io s =
      if s.config_is_symlink || not io.mkdir_works || not io.snapshot_works
      then none
      else with_snapshot io s (backup_path io s.parent)

-- `item.name.startswith(...) and item.is_dir() and not item.is_symlink() and (...).is_file()`
unfoldable pub is_candidate : Text × Item → Bool
is_candidate (name, item) =
    starts_with name reset_backup_prefix
    && item.is_dir
    && not item.is_symlink
    && is_some item.manifest_file

-- the loop over `parent.iterdir()`
unfoldable pub candidates : List (Text × Item) → List (Text × Item)
unfolding is_candidate
candidates [] = []
candidates (item ∷ items) =
    let rest = candidates items in if is_candidate item then item ∷ rest else rest

abbrev pub newer : Text × Item → Option (Text × Item) → Option (Text × Item)
newer item none = some item
newer item (some other) = if ltb item.1.mtime other.1.mtime then some other else some item

-- `max` by the time of the last change: the first of the newest
unfoldable pub newest : List (Text × Item) → Option (Text × Item)
newest [] = none
newest (item ∷ items) = newer item (newest items)

-- `latest_reset_backup`, for a parent that is a directory
unfoldable pub latest_reset_backup : List (Text × Item) → Option (Text × Item)
unfolding candidates newest
latest_reset_backup parent = newest (candidates parent)

abbrev pub read_manifest : Option Manifest → Option Saved
read_manifest (some (manifest saved)) = some saved
read_manifest _ = none

-- `load_reset_manifest`, for a name in the managed parent; `none` where it raises.
unfoldable pub load_reset_manifest : Item → Option Saved
load_reset_manifest item =
    if item.is_symlink || not item.is_dir then none else read_manifest item.manifest_file
