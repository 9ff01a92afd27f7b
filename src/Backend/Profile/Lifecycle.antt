-- ===== src/Backend/Profile/Lifecycle.antt =====
-- The life of a profile and of the temporary file of a connection.
use e_ovpn_pro.Base.{
  ℕ, true, false, not, ◌||◌, some, List, [], ◌∷◌, Text, ◌≡◌, refl, arith, Bool-cases, inl, inr,
}
use e_ovpn_pro.Backend.Worker.{Worker}
use e_ovpn_pro.Backend.Profile.{
  Answers, Profiles, Outcome, returned, activate, imported, with_temp_file, without_temp_file,
  connect_worker, disconnect_worker, disconnect_uuid,
}

removed : (r : Profiles × Outcome) → (without_temp_file r).0.temp_config ≡ false
removed (s, outcome) = refl

-- If no temporary file was left before, none is left after a connection, however it ends.
pub temp_file_is_removed :
    (a : Answers) (s : Profiles)
    → s.temp_config ≡ false
    → (connect_worker a s).0.temp_config ≡ false
unfolding connect_worker
temp_file_is_removed a s h = elim (Bool-cases a.cancelled.at_start) [
  | inl e ↦ simp (e, h)
  | inr e ↦ elim (Bool-cases a.writes) [
    | inl w ↦ simp (e, w) (removed (with_temp_file a (record s { temp_config = true })))
    | inr w ↦ simp (e, w)
  ]
]

-- `t` is `s` with the profile `u` imported, active and remembered.
abbrev Owns : Text → Profiles → Profiles → Type 0
Owns u s t =
    (t.uuid ≡ some u)
    × (t.nm_active_uuid ≡ some u)
    × (t.profiles ≡ u ∷ s.profiles)
    × (t.active ≡ u ∷ s.active)

imported-Owns :
    (a : Answers) (u : Text) (s : Profiles)
    → (imported a u s).1 ≡ returned
    → Owns u s (imported a u s).0
unfolding imported activate
imported-Owns a [] s h = absurd (ground arith)
imported-Owns a (c ∷ u) s h = (ground arith, ground arith, ground arith, ground arith)

temp_file-Owns :
    (a : Answers) (s : Profiles)
    → (with_temp_file a s).1 ≡ returned
    → Owns a.add_connection s (with_temp_file a s).0
unfolding with_temp_file
temp_file-Owns a s h = elim (Bool-cases a.cancelled.before_import) [
  | inl e ↦ absurd (ground arith)
  | inr e ↦ simp e (imported-Owns a a.add_connection s (simp e at h))
]

without-Owns :
    (u : Text) (s : Profiles) (r : Profiles × Outcome)
    → (r.1 ≡ returned → Owns u s r.0)
    → (without_temp_file r).1 ≡ returned
    → Owns u s (without_temp_file r).0
without-Owns u s (t, outcome) k h = k h

-- A connection that succeeds owns the profile that was imported: it is in NetworkManager, active,
-- and remembered both by the backend and in the settings.
pub connected_owns_profile :
    (a : Answers) (s : Profiles)
    → (connect_worker a s).1 ≡ returned
    → let t = (connect_worker a s).0 in
      (t.uuid ≡ some a.add_connection)
      × (t.nm_active_uuid ≡ some a.add_connection)
      × (t.profiles ≡ a.add_connection ∷ s.profiles)
      × (t.active ≡ a.add_connection ∷ s.active)
unfolding connect_worker
connected_owns_profile a s h = elim (Bool-cases a.cancelled.at_start) [
  | inl e ↦ absurd (ground arith)
  | inr e ↦ elim (Bool-cases a.writes) [
    | inl w ↦
        let open_file = record s { temp_config = true } in
        simp (e, w)
          (without-Owns a.add_connection s (with_temp_file a open_file) (temp_file-Owns a open_file)
            (simp (e, w) at h))
    | inr w ↦ absurd (ground arith)
  ]
]

-- A profile that was imported but not activated, because the user cancelled or NetworkManager
-- rejected it, stays in NetworkManager: the disconnect that follows finds it inactive and does not
-- delete it.
pub inactive_profile_stays :
    (a : Answers) (s : Profiles) (c : ℕ) (u : Text) (actives : List Text)
    → a.cancelled.at_start ≡ false
    → a.writes ≡ true
    → a.cancelled.before_import ≡ false
    → a.add_connection ≡ c ∷ u
    → (a.cancelled.after_import || not a.activates) ≡ true
    → (disconnect_worker false actives (connect_worker a s).0).profiles ≡ (c ∷ u) ∷ s.profiles
unfolding connect_worker with_temp_file imported activate disconnect_worker disconnect_uuid
inactive_profile_stays a s c u actives h w b e g = elim (Bool-cases a.cancelled.after_import) [
  | inl k ↦ simp (h, w, b, e, k)
  | inr k ↦ simp (h, w, b, e, k, not_activated k)
]
  where
    not_activated : a.cancelled.after_import ≡ false → a.activates ≡ false
    not_activated k = ground arith
