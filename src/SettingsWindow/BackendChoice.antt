-- ===== src/SettingsWindow/BackendChoice.antt =====
-- The choice of the backend in eovpn/settings_window.py, `on_backend_selected`. Where a choice fails,
-- the box is set back, and its signal runs the handler once more, for the backend of before.
use e_ovpn_pro.Base.{
  ℕ, Bool, true, false, Option, none, some, is_some, [], ◌∷◌, Text, same, same_iff, if◌then◌else◌,
  ◌≡◌, refl, sym, ap, ◌∙◌, arith, Bool-cases, inl, inr,
}
use e_ovpn_pro.Backend.Selection.{
  Backend, backend_name, Natives, Created, created, none_available, init_failed, unavailable,
  create_connection_manager,
}

-- The record `CM`, and whether its instance watches for signals.
pub record Cm : Type 0 where
  pub name : Text
  pub backend : Backend
  pub watch : Bool

pub record Panel : Type 0 where
  pub cm : Cm
  -- the setting `manager` and the box
  pub manager : Text
  pub active_id : Text

module _ (natives : Natives) (starts : Backend → Bool) where
  -- an instance of the backend that was asked for, and of no other
  abbrev pub instance_of : Text → Created → Option Backend
  instance_of backend_id (created b) = if same (backend_name b) backend_id then some b else none
  instance_of backend_id _ = none

  unfoldable pub requested_instance : Text → Option Backend
  unfolding create_connection_manager
  requested_instance backend_id =
      instance_of backend_id (create_connection_manager natives starts backend_id)

  -- the new instance, which does not watch yet
  abbrev pub switched : Text → Backend → Panel → Panel
  switched backend_id b p = record {
    cm = record { name = backend_id; backend = b; watch = false };
    manager = backend_id;
    active_id = backend_id;
  }

  -- the old instance, whose watch has been stopped
  abbrev pub set_back : Panel → Panel
  set_back p = record {
    cm = record p.cm { watch = false };
    manager = p.cm.name;
    active_id = p.cm.name;
  }

  -- the handler, for a signal that finds the box as it is
  abbrev pub settle : Option Backend → Text → Panel → Panel
  settle none backend_id p = set_back p
  settle (some b) backend_id p = switched backend_id b p

  abbrev pub chosen : Option Backend → Text → Panel → Panel
  chosen (some b) backend_id p = switched backend_id b p
  chosen none backend_id p =
      if same backend_id p.cm.name
      then set_back p
      else settle (requested_instance p.cm.name) p.cm.name (set_back p)

  -- `on_backend_selected`
  unfoldable pub on_backend_selected : Text → Panel → Panel
  unfolding requested_instance
  on_backend_selected [] p = p
  on_backend_selected (c ∷ backend_id) p =
      chosen (requested_instance (c ∷ backend_id)) (c ∷ backend_id) p

  -- The setting names the backend that is there.
  unfoldable pub IsConsistent : Panel → Type 0
  IsConsistent p = (backend_name p.cm.backend ≡ p.cm.name) × (p.manager ≡ p.cm.name)

  named_or_none :
      (id : Text) (b c : Backend)
      → (if same (backend_name b) id then some b else none) ≡ some c
      → backend_name c ≡ id
  named_or_none id b c h = elim (Bool-cases (same (backend_name b) id)) [
    | inl e ↦
        let it : b ≡ c = some_injective (rw e at h) in
        ap backend_name (sym it) ∙ (same_iff (backend_name b) id).0 e
    | inr e ↦ absurd (not_some (rw e at h))
  ]
    where
      some_injective : some b ≡ some c → b ≡ c
      some_injective q = ground arith

      not_some : none ≡ some c → ⊥
      not_some q = ground arith

  instance-named :
      (id : Text) (r : Created) (c : Backend) → instance_of id r ≡ some c → backend_name c ≡ id
  instance-named id (created b) c h = named_or_none id b c h
  instance-named id none_available c h = absurd (ground arith)
  instance-named id init_failed c h = absurd (ground arith)
  instance-named id (unavailable t u) c h = absurd (ground arith)

  settle-IsConsistent :
      (o : Option Backend) (id : Text) (p : Panel)
      → o ≡ requested_instance id
      → IsConsistent p
      → id ≡ p.cm.name
      → IsConsistent (settle o id p) × ((settle o id p).cm.name ≡ p.cm.name)
  unfolding IsConsistent requested_instance
  settle-IsConsistent none id p e (h, h') same_id = ((h, refl), refl)
  settle-IsConsistent (some b) id p e h same_id =
      ((instance-named id (create_connection_manager natives starts id) b (sym e), refl), same_id)

  chosen-IsConsistent :
      (o : Option Backend) (id : Text) (p : Panel)
      → o ≡ requested_instance id
      → IsConsistent p
      → IsConsistent (chosen o id p)
        × ((chosen o id p).cm.name ≡ (if is_some o then id else p.cm.name))
  unfolding IsConsistent requested_instance
  chosen-IsConsistent (some b) id p e h =
      ((instance-named id (create_connection_manager natives starts id) b (sym e), refl), refl)
  chosen-IsConsistent none id p e (h, h') = elim (Bool-cases (same id p.cm.name)) [
    | inl s ↦ rw s ((h, refl), refl)
    | inr s ↦ rw s (
        settle-IsConsistent (requested_instance p.cm.name) p.cm.name (set_back p) refl (h, refl)
          refl)
  ]

  -- Whatever is chosen, and whether or not it can be had, the setting names the backend that the
  -- window has afterwards, where it did before; and that is the one that was chosen, or the one of
  -- before where that is not to be had: no other one is taken in its place.
  pub on_backend_selected-IsConsistent :
      (c : ℕ) (id : Text) (p : Panel)
      → IsConsistent p
      → IsConsistent (on_backend_selected (c ∷ id) p)
        × ((on_backend_selected (c ∷ id) p).cm.name
            ≡ (if is_some (requested_instance (c ∷ id)) then c ∷ id else p.cm.name))
  unfolding on_backend_selected
  on_backend_selected-IsConsistent c id p h =
      chosen-IsConsistent (requested_instance (c ∷ id)) (c ∷ id) p refl h

  -- Where the choice cannot be had, the watch for signals is over, although the backend stays.
  pub failed_choice_stops_watch :
      (c : ℕ) (id : Text) (p : Panel)
      → requested_instance (c ∷ id) ≡ none
      → (on_backend_selected (c ∷ id) p).cm.watch ≡ false
  unfolding on_backend_selected
  failed_choice_stops_watch c id p h =
      ap (λ o. (chosen o (c ∷ id) p).cm.watch) h
      ∙ unwatched (same (c ∷ id) p.cm.name) (requested_instance p.cm.name)
    where
      unwatched :
          (b : Bool) (o : Option Backend)
          → (if b then set_back p else settle o p.cm.name (set_back p)).cm.watch ≡ false
      unwatched true o = refl
      unwatched false none = refl
      unwatched false (some b) = refl
