-- ===== src/Settings/Backup/Actions/Refusals.antt =====
-- Resets and restores that are refused, in eovpn/settings_window.py.
use e_ovpn_pro.Base.{
  zero, suc, Bool, true, false, Option, none, some, Text, if◌then◌else◌, ◌≡◌, refl, ap, ◌≢◌, sym,
  ◌∙◌, ◌↔◌, ◌&&◌, ◌||◌, not, is_some, Bool-cases, inl, inr, arith,
}
use e_ovpn_pro.Base.Int.{ℤ, pos}
use e_ovpn_pro.Settings.{Schema}
use e_ovpn_pro.Settings.Backup.{
  Files, Saved, Item, Io, Store, create_reset_backup, latest_reset_backup, load_reset_manifest,
  with_snapshot, backup_path, backup_name,
}
use e_ovpn_pro.Settings.Backup.Actions.RoundTrip.{created}
use e_ovpn_pro.Settings.Backup.Actions.{
  restore_item, restore_saved, copy_back, Outcome, Answer, button, dismissal, show_alert, dismissed,
  not_performed, unbound_safety_backup, reset_after, apply_reset, restore_after, apply_restore,
  is_confirmed, restore_chosen, on_restore_btn_clicked, on_reset_btn_clicked,
}

not_confirmed :
    (modern : Bool) (answer : Answer)
    → answer ≢ button 1
    → is_confirmed (show_alert modern (some 0) answer) ≡ false
unfolding show_alert
not_confirmed modern (button zero) h = refl
not_confirmed modern (button (suc zero)) h = absurd (h refl)
not_confirmed modern (button (suc (suc n))) h = refl
not_confirmed true (dismissal n) h = refl
not_confirmed false (dismissal n) h = refl

module _ (schema : Schema) where
  not_chosen :
      (index : ℤ) (io : Io) (s : Store) (o : Option (Text × Item))
      → is_confirmed index ≡ false
      → restore_chosen schema index io o s ≡ (dismissed, s)
  unfolding restore_chosen apply_restore
  not_chosen index io s none h = refl
  not_chosen index io s (some (name, item)) h =
      ap
        (λ (b : Bool).
          if b
          then restore_after schema io name (create_reset_backup schema io s) s
          else (dismissed, s))
        h

  -- Unless the second button is chosen, whichever dialog GTK has, neither a reset nor a restore
  -- changes anything: not by the first button, and not by a dismissal.
  pub unconfirmed :
      (modern : Bool) (answer : Answer) (io : Io) (s : Store)
      → answer ≢ button 1
      → (on_reset_btn_clicked schema modern answer io s ≡ (dismissed, s))
        × (on_restore_btn_clicked schema modern answer io s ≡ (dismissed, s))
  unfolding on_reset_btn_clicked on_restore_btn_clicked apply_reset
  unconfirmed modern answer io s h = (
    ap
        (λ (b : Bool).
          if b then reset_after schema (create_reset_backup schema io s) s else (dismissed, s))
        (not_confirmed modern answer h),
    not_chosen (show_alert modern (some 0) answer) io s (latest_reset_backup s.parent)
        (not_confirmed modern answer h),
  )

  unbound : Outcome → Bool
  unbound unbound_safety_backup = true
  unbound _ = false

  -- with a snapshot, the handler has a name to show
  item_bound :
      (io : Io) (safety : Text) (o : Option Item) (s : Store)
      → unbound (restore_item schema io safety o s).0 ≡ false
  unfolding unbound restore_item restore_saved copy_back
  item_bound io safety none s = refl
  item_bound io safety (some item) s = saved_bound (load_reset_manifest item)
    where
      copied_bound :
          (saved : Saved) (o fails : Option Files)
          → unbound (copy_back schema safety saved o fails s).0 ≡ false
      copied_bound saved none fails = refl
      copied_bound saved (some files) none = refl
      copied_bound saved (some files) (some left) = refl

      saved_bound : (o : Option Saved) → unbound (restore_saved schema io safety item o s).0 ≡ false
      saved_bound none = refl
      saved_bound (some saved) = elim (Bool-cases (is_some item.config && item.config_is_symlink)) [
        | inl e ↦ rw e refl
        | inr e ↦ rw e (copied_bound saved item.config io.copytree_fails)
      ]

  performed : Outcome → Bool
  performed not_performed = false
  performed _ = true

  -- A confirmed reset is refused and changes nothing exactly where the managed directory is a link,
  -- or the directory of the snapshots cannot be made, or the snapshot cannot be written. In exactly
  -- these cases a confirmed restore changes nothing and ends in an error of its own handler, which
  -- names a snapshot that it does not have.
  pub without_snapshot :
      (io : Io) (s : Store) (backup : Text)
      → let refuses = s.config_is_symlink || not io.mkdir_works || not io.snapshot_works in
        ((apply_reset schema (pos 1) io s ≡ (not_performed, s)) ↔ (refuses ≡ true))
        × ((apply_restore schema (pos 1) io backup s ≡ (unbound_safety_backup, s))
            ↔ (refuses ≡ true))
  unfolding apply_reset apply_restore restore_after reset_after create_reset_backup unbound
      performed
  without_snapshot io s backup =
      let refuses = s.config_is_symlink || not io.mkdir_works || not io.snapshot_works in
      elim (Bool-cases refuses) [
        | inl e ↦
            let none_made : create_reset_backup schema io s ≡ none =
              ap
                (λ (b : Bool).
                  if b then none else with_snapshot schema io s (backup_path io s.parent))
                e in
            (
              ((λ _. e), λ _. ap (λ made. reset_after schema made s) none_made),
              ((λ _. e), λ _. ap (λ made. restore_after schema io backup made s) none_made),
            )
        | inr e ↦
            let (i, step, free) = created schema io s (ground arith, ground arith, ground arith) in
            let bound = item_bound io (backup_name io i) _ _ in
            (
              (
                (λ h. absurd (
                    contradiction (
                      ap (λ r. performed r.0)
                        (sym (ap (λ made. reset_after schema made s) step) ∙ h)))),
                (λ h. absurd (contradiction (sym h ∙ e))),
              ),
              (
                (λ h. absurd (
                    contradiction (
                      sym (
                        ap (λ r. unbound r.0)
                          (sym (ap (λ made. restore_after schema io backup made s) step) ∙ h))
                      ∙ bound))),
                (λ h. absurd (contradiction (sym h ∙ e))),
              ),
            )
      ]
    where
      contradiction : true ≡ false → ⊥
      contradiction h = cc
