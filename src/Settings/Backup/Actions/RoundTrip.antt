-- ===== src/Settings/Backup/Actions/RoundTrip.antt =====
-- A reset and then a restore, in eovpn/settings_window.py, on the snapshots of eovpn/reset_backup.py.
use e_ovpn_pro.Base.{
  ℕ, ◌<◌, Bool, true, false, ◌&&◌, ◌||◌, not, none, some, List, [], ◌∷◌, Text, any, same, same_iff,
  same_refl, lookup, insert, lookup-insert, if◌then◌else◌, is_some, is_prefix, starts_with, ◌≡◌,
  refl, sym, ap, ◌∙◌, arith, Bool-cases, inl, inr, All,
}
use e_ovpn_pro.Base.Int.{pos}
use e_ovpn_pro.Config.Audit.{sort_texts}
use e_ovpn_pro.Settings.{Schema, all_settings, get_setting, reset_all_settings}
use e_ovpn_pro.Settings.Backup.{
  Files, Item, Io, Store, snapshot_settings, snapshot, with_snapshot, create_reset_backup,
  load_reset_manifest, backup_path, backup_name, is_candidate, candidates, newer, newest,
  latest_reset_backup, names,
}
use e_ovpn_pro.Settings.Backup.Names.{backup_path-free}
use e_ovpn_pro.Settings.Backup.Actions.{
  button, show_alert, not_restored, reset_done, restored, reset_after, apply_reset, settings_back,
  copy_back, restore_saved, restore_item, restore_after, apply_restore, restore_chosen,
  on_restore_btn_clicked, on_reset_btn_clicked,
}
use e_ovpn_pro.Settings.Backup.Actions.Laws.{IsStored, settings_come_back}

-- The calls before the copy do not raise, and the managed directory is not a link.
abbrev pub CanBackUp : Io → Store → Type 0
CanBackUp io s =
    (s.config_is_symlink ≡ false) × (io.mkdir_works ≡ true) × (io.snapshot_works ≡ true)

-- No snapshot is as new as the clock.
abbrev IsOlder : Io → Text × Item → Type 0
IsOlder io item = item.1.mtime < io.now

module _ (schema : Schema) where
  pub created :
      (io : Io) (s : Store)
      → CanBackUp io s
      → (i : ℕ) × (create_reset_backup schema io s
          ≡ some (backup_name io i, insert (backup_name io i) (snapshot schema io s) s.parent))
        × (any (same (backup_name io i)) (names s.parent) ≡ false)
  unfolding create_reset_backup
  created io s (h, h', h'') =
      let (i, step, free) = backup_path-free io s.parent in
      let works : s.config_is_symlink || not io.mkdir_works || not io.snapshot_works ≡ false =
        ground arith in
      (
        i,
        ap (λ (b : Bool). if b then none else with_snapshot schema io s (backup_path io s.parent))
              works
            ∙ ap (with_snapshot schema io s) step,
        free,
      )

  snapshot-is_candidate :
      (io : Io) (s : Store) (i : ℕ) → is_candidate (backup_name io i, snapshot schema io s) ≡ true
  unfolding is_candidate snapshot backup_name starts_with is_prefix
  snapshot-is_candidate io s i = refl

newer_item :
    (item : Text × Item) (items : List (Text × Item)) (io : Io)
    → IsOlder io item
    → (new : Text × Item) → new.1.mtime ≡ io.now
    → newer item (some new) ≡ some new
newer_item item items io old new h = rw h (ground arith)

newest-insert :
    (io : Io) (name : Text) (item : Item) (parent : List (Text × Item))
    → item.mtime ≡ io.now
    → is_candidate (name, item) ≡ true
    → All (IsOlder io) parent
    → any (same name) (names parent) ≡ false
    → newest (candidates (insert name item parent)) ≡ some (name, item)
unfolding candidates newest insert
newest-insert io name item [] h c old free = rw c refl
newest-insert io name item ((key, other) ∷ items) h c (o, old) free =
    let differs : same key name ≡ false = ground (arith, same_iff name key, same_iff key name) in
    let rest = newest-insert io name item items h c old (ground arith) in
    rw differs (elim (Bool-cases (is_candidate (key, other))) [
      | inl e ↦
          rw e (ap (newer (key, other)) rest ∙ newer_item (key, other) items io o (name, item) h)
      | inr e ↦ rw e rest
    ])

names-lookup :
    (name : Text) (item : Item) (parent : List (Text × Item))
    → lookup name parent ≡ some item
    → any (same name) (names parent) ≡ true
unfolding lookup
names-lookup name item [] h = absurd (ground arith)
names-lookup name item ((key, other) ∷ items) h =
    ground (arith, same_iff key name, same_iff name key, names-lookup name item items)

-- the entry of a snapshot is still there when another one has been made
lookup-insert_free :
    (name safety : Text) (item new : Item) (parent : List (Text × Item))
    → lookup name parent ≡ some item
    → any (same safety) (names parent) ≡ false
    → lookup name (insert safety new parent) ≡ some item
lookup-insert_free name safety item new parent h free =
    lookup-insert safety name new parent
    ∙ ground (arith, same_iff safety name, names-lookup name item parent)

module _ (schema : Schema) where
  restore_item_step :
      (io io' : Io) (s t : Store) (safety : Text) (files : Files)
      → io'.copytree_fails ≡ none
      → s.config ≡ some files
      → restore_item schema io' safety (some (snapshot schema io s)) t ≡ (
        restored safety,
        settings_back schema
            (snapshot_settings schema (sort_texts all_settings) s.settings)
            (some files)
            t,
      )
  unfolding restore_item restore_saved copy_back load_reset_manifest snapshot
  restore_item_step io io' s t safety files h c =
      let saved = snapshot_settings schema (sort_texts all_settings) s.settings in
      ap
        (λ o.
          if is_some o && false
          then (not_restored safety, t)
          else copy_back schema safety saved o io'.copytree_fails t)
        c
      ∙ ap (λ o. copy_back schema safety saved (some files) o t) h

  restore_step :
      (io io' : Io) (s s1 : Store) (name : Text) (files : Files)
      → CanBackUp io' s1
      → io'.copytree_fails ≡ none
      → s.config ≡ some files
      → lookup name s1.parent ≡ some (snapshot schema io s)
      → (safety : Text) × (t : Store) × (apply_restore schema (pos 1) io' name s1 ≡ (
        restored safety,
        settings_back schema
            (snapshot_settings schema (sort_texts all_settings) s.settings)
            (some files)
            t,
      ))
  unfolding apply_restore restore_after
  restore_step io io' s s1 name files can h c there =
      let (i, step, free) = created schema io' s1 can in
      let safety = backup_name io' i in
      let parent = insert safety (snapshot schema io' s1) s1.parent in
      (
        safety,
        record s1 { parent = parent },
        ap (λ made. restore_after schema io' name made s1) step
            ∙ ap (λ o. restore_item schema io' safety o (record s1 { parent = parent }))
                (lookup-insert_free name safety (snapshot schema io s) (snapshot schema io' s1)
                  s1.parent there free)
            ∙ restore_item_step io io' s (record s1 { parent = parent }) safety files h c,
      )

  -- the state after a reset
  reset_step :
      (io : Io) (s : Store) (modern : Bool)
      → CanBackUp io s
      → (name : Text) × (t : Store) × (on_reset_btn_clicked schema modern (button 1) io s
          ≡ (reset_done name, t))
        × (t.parent ≡ insert name (snapshot schema io s) s.parent)
        × (t.config_is_symlink ≡ false)
        × (is_candidate (name, snapshot schema io s) ≡ true)
        × (any (same name) (names s.parent) ≡ false)
  unfolding on_reset_btn_clicked apply_reset reset_after show_alert
  reset_step io s modern can =
      let (i, step, free) = created schema io s can in
      (
        backup_name io i,
        (reset_after schema
            (some (backup_name io i, insert (backup_name io i) (snapshot schema io s) s.parent))
            s).1,
        ap (λ made. reset_after schema made s) step,
        refl,
        refl,
        snapshot-is_candidate schema io s i,
        free,
      )

  -- A reset that is followed by a restore, both confirmed and with calls that work, ends with every
  -- setting as it was shown before and with the configurations of before. The managed directory
  -- exists and is no link, earlier snapshots are older than the clock, and what is stored is of the
  -- types of the schema, with a text that counts as unset only where the default counts as unset
  -- too.
  pub restore-reset :
      (modern : Bool) (io io' : Io) (s : Store) (files : Files) (key : Text)
      → CanBackUp io s
      → io'.mkdir_works ≡ true
      → io'.snapshot_works ≡ true
      → io'.copytree_fails ≡ none
      → All (IsOlder io) s.parent
      → s.config ≡ some files
      → ((k : Text) → any (same k) all_settings ≡ true → IsStored schema s.settings k)
      → any (same key) all_settings ≡ true
      → (get_setting schema key
            (on_restore_btn_clicked schema modern
              (button 1)
              io'
              (on_reset_btn_clicked schema modern (button 1) io s).1).1.settings
          ≡ get_setting schema key s.settings)
        × ((on_restore_btn_clicked schema modern
              (button 1)
              io'
              (on_reset_btn_clicked schema modern (button 1) io s).1).1.config
            ≡ s.config)
  unfolding on_restore_btn_clicked restore_chosen latest_reset_backup show_alert settings_back
      snapshot
  restore-reset modern io io' s files key can h h' h'' old c stored known =
      let (name, s1, step, parent, link, good, free) = reset_step io s modern can in
      let snap = snapshot schema io s in
      let there : lookup name s1.parent ≡ some snap =
        ap (lookup name) parent
        ∙ lookup-insert name name snap s.parent
        ∙ ap (λ (b : Bool). if b then some snap else lookup name s.parent) (same_refl name) in
      let latest : latest_reset_backup s1.parent ≡ some (name, snap) =
        ap latest_reset_backup parent ∙ newest-insert io name snap s.parent refl good old free in
      let (safety, t, back) = restore_step io io' s s1 name files (link, h, h') h'' c there in
      let whole =
        ap (λ r. on_restore_btn_clicked schema modern (button 1) io' r.1) step
        ∙ ap (λ o. restore_chosen schema (pos 1) io' o s1) latest
        ∙ back in
      (
        ap (λ r. get_setting schema key r.1.settings) whole
            ∙ settings_come_back schema s.settings (reset_all_settings t.settings) key stored known,
        ap (λ r. r.1.config) whole ∙ sym c,
      )
