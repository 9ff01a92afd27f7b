-- ===== src/Scenarios/BackendRuns.antt =====
-- Runs of the worker of the backend, and the choice of a backend.
use e_ovpn_pro.SettingsWindow.BackendChoice.{
  Panel, requested_instance, on_backend_selected, IsConsistent, on_backend_selected-IsConsistent,
}
use e_ovpn_pro.Base.{
  Bool, true, false, if◌then◌else◌, is_some, none, List, [], ◌∷◌, ◌++◌, codes, ◌≡◌, refl,
}
use e_ovpn_pro.Backend.Selection.{
  Backend, network_manager, openvpn3, Natives, created, create_connection_manager, backend_name,
  preferred_is_switched,
}
use e_ovpn_pro.Backend.Worker.{
  idle_worker, connect_blocking, disconnect_blocking, Move, dispatches, begins, ends, cancels,
  moves, end_round,
}
use e_ovpn_pro.Backend.Worker.Order.{requested, drain, waiting_operations_run}
use e_ovpn_pro.Backend.Profile.{
  Answers, Profiles, Request, connect_worker, disconnect_worker, returned, with_temp_file, imported,
  activate,
}
use e_ovpn_pro.Backend.Profile
use e_ovpn_pro.Backend.Profile.Lifecycle.{inactive_profile_stays}

abbrev both : Natives
both b = record { loaded = true; import_error = none }

abbrev only : Backend → Backend → Bool
only network_manager network_manager = true
only openvpn3 openvpn3 = true
only _ _ = false

preferred_is_switched_example :
    create_connection_manager both (only openvpn3) (backend_name network_manager) ≡ created openvpn3
preferred_is_switched_example =
    preferred_is_switched both (only openvpn3) network_manager refl refl refl refl

abbrev some_moves : List Move
some_moves =
    dispatches (connect_blocking (codes "a.ovpn"))
    ∷ begins
    ∷ dispatches disconnect_blocking
    ∷ dispatches (connect_blocking (codes "b.ovpn"))
    ∷ ends
    ∷ begins
    ∷ []

waiting_operations_run_example :
    let s = end_round (moves (some_moves ++ cancels ∷ some_moves) idle_worker) in
    let end = moves (drain s.operation_queue) s in
    let before = moves (some_moves ++ cancels ∷ []) idle_worker in
    (end.operation_queue ≡ [])
    × (end.started ≡ (before.started ++ before.operation_queue) ++ requested some_moves)
waiting_operations_run_example = waiting_operations_run (some_moves ++ cancels ∷ []) some_moves tt

abbrev answers : Bool → Answers
answers activates = record {
  cancelled = record {
    at_start = false;
    before_import = false;
    after_import = false;
    after_activation = false;
  };
  writes = true;
  add_connection = codes "u1";
  activates = activates;
}

abbrev no_profiles : Profiles
no_profiles = record {
  uuid = none;
  nm_active_uuid = none;
  profiles = [];
  active = [];
  temp_config = false;
}

inactive_profile_stays_example :
    (disconnect_worker false [] (connect_worker (answers false) no_profiles).0).profiles
    ≡ codes "u1" ∷ []
inactive_profile_stays_example =
    inactive_profile_stays (answers false) no_profiles b'u' (codes "1") [] refl refl refl refl refl

abbrev panel : Panel
panel = record {
  cm = record { name = codes "networkmanager"; backend = network_manager; watch = true };
  manager = codes "networkmanager";
  active_id = codes "openvpn3";
}

-- OpenVPN 3 does not start, and NetworkManager does.
abbrev only_network_manager : Backend → Bool
only_network_manager network_manager = true
only_network_manager openvpn3 = false

abbrev both_loaded : Natives
both_loaded b = record { loaded = true; import_error = none }

panel-IsConsistent : IsConsistent both_loaded only_network_manager panel
unfolding IsConsistent
panel-IsConsistent = (refl, refl)

on_backend_selected-IsConsistent_example :
    IsConsistent both_loaded only_network_manager
      (on_backend_selected both_loaded only_network_manager (codes "openvpn3") panel)
    × ((on_backend_selected both_loaded only_network_manager (codes "openvpn3") panel).cm.name ≡ (
        if is_some (requested_instance both_loaded only_network_manager (codes "openvpn3"))
        then codes "openvpn3"
        else codes "networkmanager"))
on_backend_selected-IsConsistent_example =
    on_backend_selected-IsConsistent both_loaded only_network_manager b'o' (codes "penvpn3") panel
      panel-IsConsistent
