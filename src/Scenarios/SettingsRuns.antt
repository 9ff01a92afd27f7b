-- ===== src/Scenarios/SettingsRuns.antt =====
-- Small settings, a reset that is restored, and session passwords.
use e_ovpn_pro.Base.{
  ◌↔◌, ℕ, true, false, none, some, [], ◌∷◌, Text, codes, same, any, lookup, if◌then◌else◌, ◌≡◌,
  refl, arith, Bool-cases, inl, inr,
}
use e_ovpn_pro.Base.Int.{pos}
use e_ovpn_pro.Settings.{
  string, strings, Schema, Settings, all_settings, shown_value, present, is_unset, get_setting,
  get_favorites, toggle_favorite,
}
use e_ovpn_pro.Settings.Laws.{get_favorites-toggle_favorite}
use e_ovpn_pro.Settings.Session.{new_session, set_all, IsClean, OthersWiped, set_all-IsClean}
use e_ovpn_pro.Settings.Backup.{Io, Item, Store, backup_path, backup_name, names}
use e_ovpn_pro.Settings.Backup.Names.{backup_path-free}
use e_ovpn_pro.Settings.Backup.Actions.{
  button, dismissal, dismissed, not_performed, unbound_safety_backup, apply_reset, apply_restore,
  on_reset_btn_clicked, on_restore_btn_clicked,
}
use e_ovpn_pro.Settings.Backup.Actions.Laws.{IsStored}
use e_ovpn_pro.Settings.Backup.Actions.RoundTrip.{restore-reset}
use e_ovpn_pro.Settings.Backup.Actions.Refusals.{unconfirmed, without_snapshot}

-- Every key is a text, but for the favorites.
abbrev schema : Schema
schema key =
    if same key (codes "favorite-configs") then some (strings []) else some (string (codes "d"))

abbrev settings : Settings
settings = (codes "remote", string (codes "https://vpn.example/a.zip")) ∷ []

get_favorites-toggle_favorite_example :
    any
      (same (codes "a.ovpn"))
      (get_favorites schema (toggle_favorite schema (codes "a.ovpn") true settings))
    ≡ (if same (codes "a.ovpn") (codes "a.ovpn")
        then true
        else any (same (codes "a.ovpn")) (get_favorites schema settings))
unfolding same
get_favorites-toggle_favorite_example =
    get_favorites-toggle_favorite schema true (codes "a.ovpn") (codes "a.ovpn") [] settings refl

new_session-IsClean : IsClean new_session
unfolding IsClean OthersWiped
new_session-IsClean = tt

set_all-IsClean_example :
    IsClean (set_all (codes "s" ∷ codes "se" ∷ [] ∷ codes "sec" ∷ []) new_session)
set_all-IsClean_example =
    set_all-IsClean (codes "s" ∷ codes "se" ∷ [] ∷ codes "sec" ∷ []) new_session new_session-IsClean

abbrev io : Io
io = record {
  timestamp = codes "20250101T000000Z";
  pid = 42;
  now = 7;
  mkdir_works = true;
  snapshot_works = true;
  copytree_fails = none;
}

abbrev other_item : Item
other_item = record {
  is_dir = true;
  is_symlink = false;
  manifest_file = none;
  config = none;
  config_is_symlink = false;
  mtime = 3;
}

abbrev store : Store
store = record {
  settings = settings;
  session = new_session;
  config = some ((codes "a.ovpn", codes "remote x") ∷ []);
  config_is_symlink = false;
  parent = (codes "reset-backup-20250101T000000Z-42", other_item) ∷ [];
  cleared = [];
}

backup_path-free_example :
    (i : ℕ) × (backup_path io store.parent ≡ some (backup_name io i))
    × (any (same (backup_name io i)) (names store.parent) ≡ false)
backup_path-free_example = backup_path-free io store.parent

-- every key a text
abbrev texts : Schema
texts key = some (string (codes "d"))

stored : (k : Text) → any (same k) all_settings ≡ true → IsStored texts settings k
unfolding IsStored get_setting shown_value present is_unset lookup
stored k known = elim (Bool-cases (same (codes "remote") k)) [
  | inl e ↦ rw e (refl, unfold same in refl)
  | inr e ↦ rw e (refl, unfold same in refl)
]

restore-reset_example :
    (get_setting texts
        (codes "remote")
        (on_restore_btn_clicked texts true
          (button 1)
          io
          (on_reset_btn_clicked texts true (button 1) io store).1).1.settings
      ≡ get_setting texts (codes "remote") settings)
    × ((on_restore_btn_clicked texts true
          (button 1)
          io
          (on_reset_btn_clicked texts true (button 1) io store).1).1.config
        ≡ store.config)
unfolding same
restore-reset_example =
    restore-reset texts true io io store ((codes "a.ovpn", codes "remote x") ∷ []) (codes "remote")
      (refl, refl, refl) refl refl refl (ground arith, tt) refl stored refl

unconfirmed_example :
    (on_reset_btn_clicked texts false (dismissal 3) io store ≡ (dismissed, store))
    × (on_restore_btn_clicked texts false (dismissal 3) io store ≡ (dismissed, store))
unconfirmed_example = unconfirmed texts false (dismissal 3) io store (λ e. ground arith)

abbrev linked : Store
linked = record store { config_is_symlink = true }

without_snapshot_example :
    ((apply_reset schema (pos 1) io linked ≡ (not_performed, linked)) ↔ (true ≡ true))
    × ((apply_restore schema (pos 1) io (codes "b") linked ≡ (unbound_safety_backup, linked))
        ↔ (true ≡ true))
without_snapshot_example = without_snapshot schema io linked (codes "b")
