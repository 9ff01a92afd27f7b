-- ===== src/Settings/Backup/Actions.antt =====
-- `_apply_reset` and `_apply_restore` of eovpn/settings_window.py, after the dialog of `show_alert` in
-- eovpn/ui_compat.py. The wiping of the managed directory is taken to succeed. The widgets that are
-- cleared after a reset, or filled after a restore, are left out, and with them what their own
-- handlers write to the settings.
pub mod Laws
pub mod RoundTrip
pub mod Refusals
use e_ovpn_pro.Base.{
  ℕ, Bool, true, false, ◌&&◌, Option, none, some, zero, suc, List, [], ◌∷◌, ◌++◌, Text, codes, any,
  same, lookup, if◌then◌else◌, is_some,
}
use e_ovpn_pro.Base.Int.{ℤ, pos, negsuc}
use e_ovpn_pro.Settings.{
  Value, string, Schema, Settings, all_settings, get_setting, set_setting, reset_all_settings,
}
use e_ovpn_pro.Settings.Session.{set_session_password}
use e_ovpn_pro.Settings.Backup.{
  Files, Saved, Item, Io, Store, create_reset_backup, load_reset_manifest, latest_reset_backup,
}

-- What a dialog ends with: a button, or a dismissal, for which the old dialog reports one of GTK's
-- responses, -(n + 1).
pub data Answer : Type 0 where
  button : ℕ → Answer
  dismissal : ℕ → Answer

-- the index that `show_alert` reports, where `modern` says which dialog GTK has
unfoldable pub show_alert : Bool → Option ℕ → Answer → ℤ
show_alert modern cancel_index (button i) = pos i
show_alert true none (dismissal n) = negsuc 0
show_alert true (some i) (dismissal n) = pos i
show_alert false cancel_index (dismissal n) = negsuc n

-- `index != 1` the other way round
abbrev pub is_confirmed : ℤ → Bool
is_confirmed (pos (suc zero)) = true
is_confirmed _ = false

abbrev pub shown_text : Option Value → List Text
shown_text (some (string t)) = t ∷ []
shown_text _ = []

-- `_clear_persisted_password`: the users to clear
abbrev pub clear_persisted_password : Option Value → List Text → List Text
clear_persisted_password username cleared = shown_text username ++ cleared

-- `reset_paths`
abbrev pub reset_paths : Option Files → Option Files
reset_paths config = some []

pub data Outcome : Type 0 where
  dismissed : Outcome
  not_performed : Outcome
  reset_done : Text → Outcome
  restored : Text → Outcome
  not_restored : Text → Outcome
  unbound_safety_backup : Outcome

-- The handler of a restore that raises, which formats its message with `safety_backup`: an error of
-- its own where that name has not been bound yet.
abbrev pub not_completed : Option Text → Outcome
not_completed none = unbound_safety_backup
not_completed (some safety) = not_restored safety

module _ (schema : Schema) where
  -- the reset, after a snapshot
  unfoldable pub reset_after : Option (Text × List (Text × Item)) → Store → Outcome × Store
  reset_after none s = (not_performed, s)
  reset_after (some (name, parent)) s = (
    reset_done name,
    record {
      settings = reset_all_settings s.settings;
      session = set_session_password [] s.session;
      config = reset_paths s.config;
      config_is_symlink = false;
      parent = parent;
      cleared =
          clear_persisted_password (get_setting schema (codes "auth-user") s.settings) s.cleared;
    },
  )

  -- `_apply_reset`
  unfoldable pub apply_reset : ℤ → Io → Store → Outcome × Store
  unfolding reset_after
  apply_reset index io s =
      if is_confirmed index then reset_after (create_reset_backup schema io s) s else (dismissed, s)

  -- `for key, value in manifest["settings"].items()`
  unfoldable pub restore_settings : Saved → Settings → Settings
  restore_settings [] s = s
  restore_settings ((key, value) ∷ saved) s =
      restore_settings saved
        (if any (same key) all_settings then set_setting schema key value s else s)

  -- the settings, after the files
  unfoldable pub settings_back : Saved → Option Files → Store → Store
  unfolding restore_settings
  settings_back saved config s = record {
    settings = restore_settings saved (reset_all_settings s.settings);
    session = set_session_password [] s.session;
    config = config;
    config_is_symlink = s.config_is_symlink;
    parent = s.parent;
    cleared =
        clear_persisted_password (get_setting schema (codes "auth-user") s.settings) s.cleared;
  }

  abbrev pub files_lost : Files → Store → Store
  files_lost left s = record {
    settings = s.settings;
    session = s.session;
    config = some left;
    config_is_symlink = s.config_is_symlink;
    parent = s.parent;
    cleared =
        clear_persisted_password (get_setting schema (codes "auth-user") s.settings) s.cleared;
  }

  -- the copy of the snapshot's files, then its settings
  unfoldable pub copy_back : Text → Saved → Option Files → Option Files → Store → Outcome × Store
  unfolding settings_back
  copy_back safety saved none fails s =
      (restored safety, settings_back saved (reset_paths s.config) s)
  copy_back safety saved (some files) none s = (restored safety, settings_back saved (some files) s)
  copy_back safety saved (some files) (some left) s =
      (not_completed (some safety), files_lost left s)

  unfoldable pub restore_saved : Io → Text → Item → Option Saved → Store → Outcome × Store
  unfolding copy_back
  restore_saved io safety item none s = (not_completed (some safety), s)
  restore_saved io safety item (some saved) s =
      if is_some item.config && item.config_is_symlink
      then (not_completed (some safety), s)
      else copy_back safety saved item.config io.copytree_fails s

  unfoldable pub restore_item : Io → Text → Option Item → Store → Outcome × Store
  unfolding restore_saved
  restore_item io safety none s = (not_completed (some safety), s)
  restore_item io safety (some item) s = restore_saved io safety item (load_reset_manifest item) s

  -- the restore, after a snapshot of the current state; `none` where that snapshot raises, before
  -- `safety_backup` is bound.
  unfoldable pub restore_after :
      Io → Text → Option (Text × List (Text × Item)) → Store → Outcome × Store
  unfolding restore_item
  restore_after io backup none s = (not_completed none, s)
  restore_after io backup (some (safety, parent)) s =
      restore_item io safety (lookup backup parent) (record s { parent = parent })

  -- `_apply_restore`
  unfoldable pub apply_restore : ℤ → Io → Text → Store → Outcome × Store
  unfolding restore_after
  apply_restore index io backup s =
      if is_confirmed index
      then restore_after io backup (create_reset_backup schema io s) s
      else (dismissed, s)

  unfoldable pub restore_chosen : ℤ → Io → Option (Text × Item) → Store → Outcome × Store
  restore_chosen index io none s = (dismissed, s)
  restore_chosen index io (some (name, item)) s = apply_restore index io name s

  -- `on_restore_btn_clicked`, with the answer to its dialog
  unfoldable pub on_restore_btn_clicked : Bool → Answer → Io → Store → Outcome × Store
  unfolding restore_chosen show_alert
  on_restore_btn_clicked modern answer io s =
      restore_chosen (show_alert modern (some 0) answer) io (latest_reset_backup s.parent) s

  -- `on_reset_btn_clicked`, with the answer to its dialog
  unfoldable pub on_reset_btn_clicked : Bool → Answer → Io → Store → Outcome × Store
  unfolding apply_reset show_alert
  on_reset_btn_clicked modern answer io s = apply_reset (show_alert modern (some 0) answer) io s
