-- ===== src/Download/Import/Laws.antt =====
-- What an import makes of the managed directory of eovpn/eovpn_base.py.
use e_ovpn_pro.Base.{
  Bool, true, false, ◌&&◌, none, some, is_some, List, [], ◌∷◌, arith, Text, ◌≡◌, ◌⊎◌, refl, sym, ap,
  ◌∙◌, Bool-cases, inl, inr,
}
use mathlib.Core.Path.{subst}
use e_ovpn_pro.Config.Parser.{File}
use e_ovpn_pro.Download.Extract.{Os}
use e_ovpn_pro.Download.Fetch.{World}
use e_ovpn_pro.Download.Folder.{Folder, import_folder, import_entries}
use e_ovpn_pro.Download.Source.{Downloaded, from_folder, Zipfile, download_remote_to_destination}
use e_ovpn_pro.Download.Import.{
  Dir, Dirs, Calls, Pending, staged, can_rename, swapped, abandoned, move_new, move_old,
  after_download, dispatch,
}

-- whether a directory can be renamed to this one
abbrev pub is_clear : Dir → Bool
is_clear none = true
is_clear (some []) = true
is_clear (some (_ ∷ _)) = false

not_renamed :
    (works works' : Bool) (names : List Text) (old : Dir)
    → can_rename works (some names) old ≡ false
    → (works && works' && is_clear old) ≡ false
unfolding can_rename
not_renamed works works' names none h = ground arith
not_renamed works works' names (some []) h = ground arith
not_renamed works works' names (some (x ∷ xs)) h = ground arith

module _ (c : Calls) (config_dir : Text) (read : Text → File) (partial : List Text) where
  -- A download that raises leaves the managed directory, and the one beside it, as they are.
  pub failed_download_keeps :
      (downloaded : Downloaded) (dirs : Dirs)
      → staged downloaded ≡ none
      → ((dispatch c config_dir read partial downloaded dirs).0.configs ≡ dirs.configs)
        × ((dispatch c config_dir read partial downloaded dirs).0.old ≡ dirs.old)
        × ((dispatch c config_dir read partial downloaded dirs).1.failed ≡ true)
  unfolding dispatch after_download abandoned
  failed_download_keeps downloaded dirs h = (
    ap (λ o. (after_download c config_dir read partial o dirs).0.configs) h,
    ap (λ o. (after_download c config_dir read partial o dirs).0.old) h,
    ap (λ o. (after_download c config_dir read partial o dirs).1.failed) h,
  )

  abbrev Outcome : Dir → Dir → List Text → Dirs × Pending → Type 0
  Outcome configs old names r =
      ((r.0.configs ≡ configs)
        × (r.1.failed ≡ true)
        × ((c.rename_old_works && c.rename_new_works && is_clear old) ≡ false))
      ⊎ (r.0.configs ≡ some names) × (r.1.failed ≡ false) × (c.rename_new_works ≡ true)
      ⊎ (r.0.configs ≡ none)
        × (r.0.old ≡ configs)
        × (r.1.failed ≡ true)
        × (is_some configs ≡ true)
        × (c.rename_new_works ≡ false)

  move_outcomes :
      (names certs : List Text) (configs old staging : Dir)
      → Outcome configs old names (
          move_old c config_dir read names certs
            (record { configs = configs; staging = staging; old = old }))
  unfolding move_old move_new swapped abandoned can_rename
  move_outcomes names certs none old staging = elim (Bool-cases c.rename_new_works) [
    | inl e ↦ rw e (inr (inl (refl, refl, refl)))
    | inr e ↦ rw e (inl (refl, refl, ground arith))
  ]
  move_outcomes names certs (some cs) old staging =
      elim (Bool-cases (can_rename c.rename_old_works (some cs) old)) [
        | inr e ↦
            rw e (inl (refl, refl, not_renamed c.rename_old_works c.rename_new_works cs old e))
        | inl e ↦ rw e (elim (Bool-cases c.rename_new_works) [
          | inl e' ↦ rw e' (inr (inl (refl, refl, refl)))
          | inr e' ↦ rw e' (inr (inr (refl, refl, refl, refl, refl)))
        ])
      ]

  move_works :
      (names certs : List Text) (configs staging : Dir)
      → ((d : Dir) → c.rmtree d ≡ none)
      → c.rename_old_works ≡ true
      → c.rename_new_works ≡ true
      → ((move_old c config_dir read names certs
            (record { configs = configs; staging = staging; old = none })).0
          ≡ record { configs = some names; staging = none; old = none })
        × ((move_old c config_dir read names certs
              (record { configs = configs; staging = staging; old = none })).1.failed
            ≡ false)
  unfolding move_old move_new swapped can_rename
  move_works names certs none staging gone w w' =
      rw w' (ap (λ d. record { configs = some names; staging = none; old = d }) (gone none), refl)
  move_works names certs (some cs) staging gone w w' =
      rw (w, w')
        (ap (λ d. record { configs = some names; staging = none; old = d }) (gone (some cs)), refl)

  -- An import that is downloaded has one of three outcomes. It fills the managed directory with
  -- exactly the new files and reports no failure, and the second rename worked; or it reports a
  -- failure and leaves the directory as it was, and a rename did not work or the older copy could
  -- not be cleared away; or it reports a failure and leaves the directory, which was there, missing
  -- and its files under the other name, and the second rename did not work.
  pub import_outcomes :
      (downloaded : Downloaded) (names certs : List Text) (dirs : Dirs)
      → staged downloaded ≡ some (names, certs)
      → let (after, pending) = dispatch c config_dir read partial downloaded dirs in
        ((after.configs ≡ dirs.configs)
          × (pending.failed ≡ true)
          × ((c.rename_old_works && c.rename_new_works && is_clear (c.rmtree dirs.old)) ≡ false))
        ⊎ (after.configs ≡ some names) × (pending.failed ≡ false) × (c.rename_new_works ≡ true)
        ⊎ (after.configs ≡ none)
          × (after.old ≡ dirs.configs)
          × (pending.failed ≡ true)
          × (is_some dirs.configs ≡ true)
          × (c.rename_new_works ≡ false)
  unfolding dispatch after_download
  import_outcomes downloaded names certs dirs h =
      subst
        (λ o.
          Outcome dirs.configs (c.rmtree dirs.old) names
            (after_download c config_dir read partial o dirs))
        (sym h) (move_outcomes names certs dirs.configs (c.rmtree dirs.old) (some names))

  -- With calls that work, the directory holds exactly what was downloaded.
  pub import_replaces :
      (downloaded : Downloaded) (names certs : List Text) (dirs : Dirs)
      → staged downloaded ≡ some (names, certs)
      → ((d : Dir) → c.rmtree d ≡ none)
      → c.rename_old_works ≡ true
      → c.rename_new_works ≡ true
      → ((dispatch c config_dir read partial downloaded dirs).0
          ≡ record { configs = some names; staging = none; old = none })
        × ((dispatch c config_dir read partial downloaded dirs).1.failed ≡ false)
  unfolding dispatch after_download
  import_replaces downloaded names certs dirs h gone w w' =
      let done = λ (old : Dir).
        move_old c config_dir read names certs (record dirs { staging = some names; old = old }) in
      let (all, ok) = move_works names certs dirs.configs (some names) gone w w' in
      (
        ap (λ o. (after_download c config_dir read partial o dirs).0) h
            ∙ ap (λ old. (done old).0) (gone dirs.old)
            ∙ all,
        ap (λ o. (after_download c config_dir read partial o dirs).1.failed) h
            ∙ ap (λ old. (done old).1.failed) (gone dirs.old)
            ∙ ok,
      )

  -- A folder that exists but cannot be listed counts as a download of nothing: with calls that work,
  -- its import empties the managed directory, and reports no failure.
  pub unreadable_folder_empties :
      (w : World) (os : Os) (zipfile : Zipfile) (folder : Folder) (remote destination : Text)
      (dirs : Dirs)
      → folder.listdir ≡ none
      → ((d : Dir) → c.rmtree d ≡ none)
      → c.rename_old_works ≡ true
      → c.rename_new_works ≡ true
      → ((dispatch c config_dir read partial
            (download_remote_to_destination w os zipfile (some folder) remote destination)
            dirs).0
          ≡ record { configs = some []; staging = none; old = none })
        × ((dispatch c config_dir read partial
              (download_remote_to_destination w os zipfile (some folder) remote destination)
              dirs).1.failed
            ≡ false)
  unfolding download_remote_to_destination import_folder import_entries staged
  unreadable_folder_empties w os zipfile folder remote destination dirs h gone works works' =
      import_replaces (from_folder (import_folder folder os (os.realpath destination))) [] [] dirs
        (ap (λ l. staged (from_folder (import_entries folder os (os.realpath destination) l))) h)
        gone works works'
