-- ===== src/Settings/Backup/Actions/Laws.antt =====
-- A reset that is restored: eovpn/reset_backup.py with eovpn/settings_window.py.
use e_ovpn_pro.Base.{
  Bool, true, ◌||◌, not, Option, none, some, List, [], ◌∷◌, Text, any, same, same_iff, same_refl,
  lookup, lookup-insert, if◌then◌else◌, is_some, ◌≡◌, refl, sym, ap, ◌∙◌, arith, Option-cases, inl,
  inr,
}
use mathlib.Core.Path.{subst}
use e_ovpn_pro.Config.Audit.{sort_texts}
use e_ovpn_pro.Config.Audit.Reports.{any-sort}
use e_ovpn_pro.Settings.{
  Value, flag, whole, float, string, strings, Schema, Settings, all_settings, shown_value, present,
  get_setting, accepts, set_setting,
}
use e_ovpn_pro.Settings.Laws.{lookup-reset}
use e_ovpn_pro.Settings.Backup.{snapshot_settings}
use e_ovpn_pro.Settings.Backup.Actions.{restore_settings}

abbrev pub accepted : Option Value → Option Value → Bool
accepted default none = true
accepted default (some v) = accepts default v

-- What is stored under a key is of the schema's type, and a text that counts as unset stands there
-- only where the default counts as unset too.
unfoldable pub IsStored : Schema → Settings → Text → Type 0
IsStored schema s key =
    (accepted (schema key) (lookup key s) ≡ true)
    × (is_some (get_setting schema key s) || not (is_some (shown_value (schema key) none)) ≡ true)

same_type_refl : (v : Value) → accepts (some v) v ≡ true
same_type_refl (flag b) = refl
same_type_refl (whole b) = refl
same_type_refl (float b) = refl
same_type_refl (string b) = refl
same_type_refl (strings b) = refl

present_twice : (v w : Value) → present v ≡ some w → (present w ≡ some w) × (v ≡ w)
unfolding present
present_twice (string t) w h = ground arith
present_twice (flag b) w h = ground arith
present_twice (whole b) w h = ground arith
present_twice (float b) w h = ground arith
present_twice (strings b) w h = ground arith

shown_again :
    (default o : Option Value)
    → accepted default o ≡ true
    → is_some (shown_value default o) || not (is_some (shown_value default none)) ≡ true
    → (shown_value default (shown_value default o) ≡ shown_value default o)
      × (accepted default (shown_value default o) ≡ true)
unfolding shown_value
shown_again none o typed unset = (refl, refl)
shown_again (some d) none typed unset = elim (Option-cases (present d)) [
  | inl n ↦ rw n (n, refl)
  | inr (w, n) ↦
      let (shows, eq) = present_twice d w n in
      rw n (shows, subst (λ x. accepts (some d) x ≡ true) eq (same_type_refl d))
]
shown_again (some d) (some v) typed unset = elim (Option-cases (present v)) [
  | inl n ↦ rw n (ground arith, refl)
  | inr (w, n) ↦
      let (shows, eq) = present_twice v w n in
      rw n (shows, subst (λ x. accepts (some d) x ≡ true) eq typed)
]

module _ (schema : Schema) where
  lookup-set_setting :
      (key j : Text) (r : Option Value) (t : Settings)
      → accepted (schema key) r ≡ true
      → lookup j (set_setting schema key r t) ≡ (if same key j then r else lookup j t)
  unfolding set_setting
  lookup-set_setting key j none t h = lookup-reset key j t
  lookup-set_setting key j (some v) t h = rw h (lookup-insert key j v t)

  -- Writing back what a setting showed makes it show that again, whatever is stored now.
  show_again :
      (key j : Text) (s t : Settings)
      → IsStored schema s key
      → get_setting schema j (set_setting schema key (get_setting schema key s) t)
        ≡ (if same key j then get_setting schema j s else get_setting schema j t)
  unfolding get_setting IsStored
  show_again key j s t (typed, unset) =
      let (again, ok) = shown_again (schema key) (lookup key s) typed unset in
      ap (shown_value (schema j))
        (lookup-set_setting key j (shown_value (schema key) (lookup key s)) t ok)
      ∙ ground (arith, same_iff key j)

  restore-snapshot :
      (keys : List Text) (s t : Settings) (j : Text)
      → ((k : Text) → any (same k) keys ≡ true → IsStored schema s k)
      → ((k : Text) → any (same k) keys ≡ true → any (same k) all_settings ≡ true)
      → get_setting schema j (restore_settings schema (snapshot_settings schema keys s) t)
        ≡ (if any (same j) keys then get_setting schema j s else get_setting schema j t)
  unfolding restore_settings snapshot_settings
  restore-snapshot [] s t j stored known = refl
  restore-snapshot (key ∷ keys) s t j stored known =
      let first : any (same key) (key ∷ keys) ≡ true =
        ap (λ b. b || any (same key) keys) (same_refl key) in
      let later : (k : Text) → any (same k) keys ≡ true → any (same k) (key ∷ keys) ≡ true =
        λ k h. ground arith in
      ap
        (λ (b : Bool). get_setting schema j (
          restore_settings schema (snapshot_settings schema keys s)
            (if b then set_setting schema key (get_setting schema key s) t else t)))
        (known key first)
      ∙ restore-snapshot keys s (set_setting schema key (get_setting schema key s) t) j
          (λ k h. stored k (later k h)) (λ k h. known k (later k h))
      ∙ ap (λ r. if any (same j) keys then get_setting schema j s else r)
          (show_again key j s t (stored key first))
      ∙ ground (arith, same_iff key j, same_iff j key)

  -- Restoring the settings of a snapshot brings every setting back, whatever they are now.
  pub settings_come_back :
      (s t : Settings) (j : Text)
      → ((k : Text) → any (same k) all_settings ≡ true → IsStored schema s k)
      → any (same j) all_settings ≡ true
      → get_setting schema j
          (restore_settings schema (snapshot_settings schema (sort_texts all_settings) s) t)
        ≡ get_setting schema j s
  settings_come_back s t j stored known =
      let listed : (k : Text)
          → any (same k) (sort_texts all_settings) ≡ true
          → any (same k) all_settings ≡ true =
        λ k h. sym (any-sort k all_settings) ∙ h in
      restore-snapshot (sort_texts all_settings) s t j (λ k h. stored k (listed k h)) listed
      ∙ ap (λ (b : Bool). if b then get_setting schema j s else get_setting schema j t)
          (any-sort j all_settings ∙ known)
