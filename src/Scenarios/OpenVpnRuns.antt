-- ===== src/Scenarios/OpenVpnRuns.antt =====
-- A run of the OpenVPN 3 backend.
use e_ovpn_pro.Base.{true, none, some, List, [], ◌∷◌, codes, ◌≡◌, refl, arith}
use e_ovpn_pro.Backend.OpenVpn3.{
  Backend, Outside, new_backend, start_watch, sub_status_signal, conn_connected, conn_disconnected,
}
use e_ovpn_pro.Backend.OpenVpn3.Tracking.{IsTracked}
use e_ovpn_pro.Backend.OpenVpn3.Subscriptions.{
  Move, watches, connects, attends, status, moves, no_stale_subscriptions, deaf_after_disconnection,
}

abbrev outside : Outside
outside = record {
  is_ready_to_connect = λ path. true;
  import_config = λ name content. some (codes "/config");
  prepare_tunnel = λ config. some (codes "/session");
  typegroups = λ path. (1, 1) ∷ [];
  input_queue_check = λ path t g. 0 ∷ [];
  input_queue_fetch = λ path t g i. codes "username";
  auth_user = some (codes "u");
  openvpn3_dco = true;
  password_lookup = λ u. none;
  session_password = none;
}

abbrev session : List Move
session =
    watches
    ∷ connects (codes "/c/a.ovpn") (codes "remote x") []
    ∷ attends
    ∷ status conn_connected []
    ∷ []

no_stale_subscriptions_example :
    (sub_status_signal conn_disconnected [] (moves outside session new_backend)).live ≡ []
no_stale_subscriptions_example = no_stale_subscriptions outside session

abbrev watched : Backend
watched = record new_backend {
  watch = true;
  bound = true;
  attention_subscription = some 1;
  live = 1 ∷ [];
  next_id = 2;
}

watched-IsTracked : IsTracked watched
unfolding IsTracked
watched-IsTracked k there = ground arith

deaf_after_disconnection_example :
    ((start_watch (sub_status_signal conn_disconnected [] watched)).attention_subscription ≡ none)
    × ((start_watch (sub_status_signal conn_disconnected [] watched)).live ≡ [])
deaf_after_disconnection_example = deaf_after_disconnection watched [] refl watched-IsTracked
