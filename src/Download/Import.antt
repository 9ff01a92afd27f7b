-- ===== src/Download/Import.antt =====
-- The import of a configuration source: `validate_and_load` of eovpn/eovpn_base.py, whose worker
-- downloads into a staging directory and swaps it with the managed one.
pub mod Laws
use e_ovpn_pro.Base.{
  Bool, true, false, not, ◌&&◌, ◌||◌, Option, none, some, List, [], ◌∷◌, ◌++◌, map, Text, codes,
  same, ends_with, is_some, if◌then◌else◌,
}
use e_ovpn_pro.Config.Parser.{File}
use e_ovpn_pro.Config.Audit.{audit_ovpn_content}
use e_ovpn_pro.Download.Extract.{Extraction, Os, basename, join_path}
use e_ovpn_pro.Download.Folder.{Imported, found_certs, folder_too_large, copy_failed}
use e_ovpn_pro.Download.Source.{
  Downloaded, from_folder, from_archive, insecure_source_error, not_zip,
}

-- The names in a directory, `none` where it does not exist.
abbrev pub Dir : Type 0
Dir = Option (List Text)

-- the managed directory and the two beside it
pub record Dirs : Type 0 where
  pub configs : Dir
  pub staging : Dir
  pub old : Dir

-- What the system's calls do: what `rmtree` leaves of a directory, and whether the two renames work
-- where the paths allow it.
pub record Calls : Type 0 where
  pub rmtree : Dir → Dir
  pub rename_old_works : Bool
  pub rename_new_works : Bool

-- what the worker leaves for the main loop
pub record Pending : Type 0 where
  pub ca_setting : Option Text
  pub ca_label : Option Text
  pub audit_results : List (Text × List Text)
  pub failed : Bool

abbrev pub nothing_pending : Pending
nothing_pending = record { ca_setting = none; ca_label = none; audit_results = []; failed = false }

-- What a download leaves in the staging directory, and the certificates it found; `none` where it
-- raises.
unfoldable pub staged : Downloaded → Option (List Text × List Text)
staged (from_folder (found_certs copied certs)) = some (copied, certs)
staged (from_folder folder_too_large) = none
staged (from_folder copy_failed) = none
staged (from_archive x) = some (map (λ file. file.0) x.written, x.extracted_certs)
staged insecure_source_error = none
staged not_zip = none

-- `os.rename` of a directory: there has to be one, and none, or an empty one, at the target.
unfoldable pub can_rename : Bool → Dir → Dir → Bool
can_rename works none target = false
can_rename works (some names) none = works
can_rename works (some names) (some []) = works
can_rename works (some names) (some (x ∷ xs)) = false

abbrev pub last : List Text → Option Text
last [] = none
last (x ∷ []) = some x
last (x ∷ y ∷ ys) = last (y ∷ ys)

-- `if suspicious: audit_results[name] = suspicious`
abbrev pub with_finding : Text → List Text → List (Text × List Text) → List (Text × List Text)
with_finding name [] results = results
with_finding name (d ∷ ds) results = (name, d ∷ ds) ∷ results

module _ (read : Text → File) where
  -- the loop over the imported configurations
  unfoldable pub audit_all : List Text → List (Text × List Text)
  unfolding audit_ovpn_content
  audit_all [] = []
  audit_all (name ∷ names) =
      let rest = audit_all names in
      if ends_with name (codes ".ovpn")
      then with_finding name (audit_ovpn_content (read name)) rest
      else rest

-- the certificate that becomes the setting: the last one, by its base name
abbrev pub ca_path : Text → Option Text → Option Text
ca_path config_dir none = none
ca_path config_dir (some cert) = some (join_path config_dir (basename cert))

module _ (c : Calls) (config_dir : Text) (read : Text → File) where
  -- after the swap
  unfoldable pub swapped : List Text → List Text → Dirs → Dirs × Pending
  unfolding audit_all
  swapped names certs dirs = (
    record { configs = some names; staging = none; old = c.rmtree dirs.old },
    record {
      ca_setting = ca_path config_dir (last certs);
      ca_label = last certs;
      audit_results = audit_all read names;
      failed = false;
    },
  )

  -- the handler of the exceptions
  unfoldable pub abandoned : Dirs → Dirs × Pending
  abandoned dirs =
      (record dirs { staging = c.rmtree dirs.staging }, record nothing_pending { failed = true })

  -- the second rename
  unfoldable pub move_new : List Text → List Text → Dirs → Dirs × Pending
  unfolding swapped abandoned can_rename
  move_new names certs dirs =
      if can_rename c.rename_new_works (some names) dirs.configs
      then swapped names certs dirs
      else abandoned dirs

  -- `os.path.exists`, then the first rename
  unfoldable pub move_old : List Text → List Text → Dirs → Dirs × Pending
  unfolding move_new
  move_old names certs dirs =
      if not (is_some dirs.configs)
      then move_new names certs dirs
      else if can_rename c.rename_old_works dirs.configs dirs.old
      then move_new names certs (record dirs { configs = none; old = dirs.configs })
      else abandoned dirs

  -- what the download has written, whether it raised or not
  unfoldable pub after_download : List Text → Option (List Text × List Text) → Dirs → Dirs × Pending
  unfolding move_old
  after_download partial none dirs = abandoned (record dirs { staging = some partial })
  after_download partial (some (names, certs)) dirs =
      move_old names certs (record dirs { staging = some names; old = c.rmtree dirs.old })

  -- `dispatch`; `partial` is what a download that raises leaves in the staging directory.
  unfoldable pub dispatch : List Text → Downloaded → Dirs → Dirs × Pending
  unfolding after_download staged
  dispatch partial downloaded dirs = after_download partial (staged downloaded) dirs
