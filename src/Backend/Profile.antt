-- ===== src/Backend/Profile.antt =====
-- `connect`, `_connect_blocking` and `_disconnect_blocking` of `NetworkManager` in
-- eovpn/connection_manager.py, and `connect` and `disconnect` of `OpenVPN3`.
pub mod Lifecycle
use e_ovpn_pro.Base.{
  ℕ, zero, suc, Bool, true, false, not, ◌&&◌, ◌||◌, Option, none, some, List, [], ◌∷◌, ◌++◌, Text,
  codes, same, is_some, if◌then◌else◌,
}
use e_ovpn_pro.Config.Parser.{File}
use e_ovpn_pro.Config.Audit.{audit_ovpn_content}
use e_ovpn_pro.Backend.Worker.{Operation, Worker, connect_blocking, dispatch_off_ui_thread}

-- The four places at which the worker looks whether it has been cancelled.
pub record Cancelled : Type 0 where
  pub at_start : Bool
  pub before_import : Bool
  pub after_import : Bool
  pub after_activation : Bool

-- What the native library and the file system answer: whether the temporary file could be written,
-- the UUID of the imported profile, empty where the import failed, and whether it was activated.
pub record Answers : Type 0 where
  pub cancelled : Cancelled
  pub writes : Bool
  pub add_connection : Text
  pub activates : Bool

-- `profiles` are those that the program has added to NetworkManager and not deleted.
pub record Profiles : Type 0 where
  pub uuid : Option Text
  pub nm_active_uuid : Option Text
  pub profiles : List Text
  pub active : List Text
  pub temp_config : Bool

pub data Outcome : Type 0 where
  returned operation_cancelled native_error write_error : Outcome

-- `delete_connection`
unfoldable pub delete_connection : Text → List Text → List Text
delete_connection u [] = []
delete_connection u (v ∷ vs) =
    let rest = delete_connection u vs in if same u v then rest else v ∷ rest

-- the activation of the imported profile
unfoldable pub activate : Answers → Text → Profiles → Profiles × Outcome
activate a u s =
    let running = record s { active = u ∷ s.active } in
    let withdrawn = record running {
      active = delete_connection u running.active;
      profiles = delete_connection u running.profiles;
      uuid = none;
    } in
    if a.cancelled.after_import
    then (s, operation_cancelled)
    else if not a.activates
    then (s, native_error)
    else if a.cancelled.after_activation
    then (withdrawn, operation_cancelled)
    else (record running { nm_active_uuid = some u }, returned)

unfoldable pub imported : Answers → Text → Profiles → Profiles × Outcome
unfolding activate
imported a [] s = (record s { uuid = some [] }, native_error)
imported a (c ∷ u) s =
    activate a (c ∷ u) (record s { uuid = some (c ∷ u); profiles = (c ∷ u) ∷ s.profiles })

unfoldable pub with_temp_file : Answers → Profiles → Profiles × Outcome
unfolding imported
with_temp_file a s =
    let run = imported a a.add_connection s in
    if a.cancelled.before_import then (s, operation_cancelled) else run

-- the `finally` block
abbrev pub without_temp_file : Profiles × Outcome → Profiles × Outcome
without_temp_file (s, outcome) = (record s { temp_config = false }, outcome)

-- `_connect_blocking`
unfoldable pub connect_worker : Answers → Profiles → Profiles × Outcome
unfolding with_temp_file
connect_worker a s =
    let ran = without_temp_file (with_temp_file a (record s { temp_config = true })) in
    if a.cancelled.at_start
    then (s, operation_cancelled)
    else if a.writes
    then ran
    else (record s { temp_config = false }, write_error)

-- `get_eovpn_active_vpn_connection_uuid` and `disconnect`, up to three times; `actives` are the
-- answers, empty where none is active.
unfoldable pub disconnect_actives : ℕ → List Text → Profiles → Profiles
disconnect_actives zero actives s = s
disconnect_actives (suc n) [] s = s
disconnect_actives (suc n) ([] ∷ _) s = s
disconnect_actives (suc n) ((c ∷ u) ∷ actives) s =
    disconnect_actives n actives (record s { active = delete_connection (c ∷ u) s.active })

unfoldable pub disconnect_uuid : Bool → List Text → Option Text → Profiles → Profiles
unfolding disconnect_actives
disconnect_uuid is_vpn_activated actives none s = disconnect_actives 3 actives s
disconnect_uuid is_vpn_activated actives (some u) s =
    if is_vpn_activated
    then record s {
      active = delete_connection u s.active;
      profiles = delete_connection u s.profiles;
      uuid = none;
      nm_active_uuid = none;
    }
    else s

-- `_disconnect_blocking`; the test is `is_vpn_activated(uuid) != -1`.
unfoldable pub disconnect_worker : Bool → List Text → Profiles → Profiles
unfolding disconnect_uuid
disconnect_worker is_vpn_activated actives s = disconnect_uuid is_vpn_activated actives s.uuid s

pub data Request : Type 0 where
  refused : List Text → Request
  accepted : Request

-- `NetworkManager.connect`: a profile with sensitive directives is refused, with their names.
unfoldable pub connect_unless : List Text → Text → Worker → Worker × Request
connect_unless [] config s = (dispatch_off_ui_thread (connect_blocking config) s, accepted)
connect_unless (d ∷ directives) config s = (s, refused (d ∷ directives))

unfoldable pub connect : File → Text → Worker → Worker × Request
unfolding connect_unless
connect file config s = connect_unless (audit_ovpn_content file) config s
