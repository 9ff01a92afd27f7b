-- ===== src/Backend/OpenVpn3.antt =====
-- The OpenVPN 3 backend: `OpenVPN3` of eovpn/connection_manager.py and `OVPN3Dbus` of
-- eovpn/backend/openvpn3/dbus.py. The native library, the D-Bus service and the keyring are
-- parameters; the bus is the list of the subscriptions that are live on it, with a new number for
-- each. What is called outside is logged, the latest first.
pub mod Tracking
pub mod Subscriptions
use e_ovpn_pro.Base.{
  ℕ, suc, ◌+◌, Bool, true, false, not, ◌||◌, Option, none, some, List, [], ◌∷◌, ◌++◌, Text, codes,
  same, any, ◌==◌, is_some, if◌then◌else◌,
}
use e_ovpn_pro.Events.{Payload, flag, items, Item, word}
use e_ovpn_pro.Download.Extract.{basename}

-- what a signal asks for: the type, the group and the number of an input, and its name
pub record Attention : Type 0 where
  pub atn_type : ℕ
  pub atn_grp : ℕ
  pub index : ℕ
  pub ask : Text

-- the calls that leave the backend
pub data Call : Type 0 where
  send_auth : Attention → Text → Call
  otp_window : Call
  set_dco : Bool → Call
  log_forward : Text → Call
  connect_vpn disconnect_vpn : Text → Call
  pause_vpn resume_vpn : Option Text → Call
  callback : Payload → Option Text → Call

pub record Backend : Type 0 where
  pub config_path : Option Text
  pub session_path : Option Text
  pub watch : Bool
  -- `OVPN3Dbus`
  pub bound : Bool
  pub attention_subscription : Option ℕ
  pub subscriptions : List ℕ
  -- the bus
  pub live : List ℕ
  pub next_id : ℕ
  pub calls : List Call

abbrev pub new_backend : Backend
new_backend = record {
  config_path = none;
  session_path = none;
  watch = false;
  bound = false;
  attention_subscription = none;
  subscriptions = [];
  live = [];
  next_id = 1;
  calls = [];
}

-- The keyring: what it finds for a user, `none` where the lookup raises.
pub record Outside : Type 0 where
  pub is_ready_to_connect : Text → Bool
  pub import_config : Text → Text → Option Text
  pub prepare_tunnel : Text → Option Text
  pub typegroups : Text → List (ℕ × ℕ)
  pub input_queue_check : Text → ℕ → ℕ → List ℕ
  pub input_queue_fetch : Text → ℕ → ℕ → ℕ → Text
  pub auth_user : Option Text
  pub openvpn3_dco : Bool
  pub password_lookup : Text → Option (Option Text)
  pub session_password : Option Text

abbrev pub log : Call → Backend → Backend
log call b = record b { calls = call ∷ b.calls }

-- `signal_unsubscribe`
unfoldable pub drop_id : ℕ → List ℕ → List ℕ
drop_id i [] = []
drop_id i (j ∷ js) = let rest = drop_id i js in if j == i then rest else j ∷ rest

-- `unsubscribe`
unfoldable pub unsubscribe : ℕ → Backend → Backend
unfolding drop_id
unsubscribe i b = record b { live = drop_id i b.live }

unfoldable pub unsubscribe_each : List ℕ → Backend → Backend
unfolding unsubscribe
unsubscribe_each [] b = b
unsubscribe_each (i ∷ is) b = unsubscribe_each is (unsubscribe i b)

unfoldable pub unsubscribe_attention : Option ℕ → Backend → Backend
unfolding unsubscribe
unsubscribe_attention none b = b
unsubscribe_attention (some i) b = record (unsubscribe i b) { attention_subscription = none }

-- `unsubscribe_all`
unfoldable pub unsubscribe_all : Backend → Backend
unfolding unsubscribe_each unsubscribe_attention
unsubscribe_all b =
    record (unsubscribe_each b.subscriptions (unsubscribe_attention b.attention_subscription b)) {
      subscriptions = [];
    }

-- `subscribe_for_attention`
unfoldable pub subscribe_for_attention : Backend → Backend
subscribe_for_attention b = if is_some b.attention_subscription then b else record b {
  attention_subscription = some b.next_id;
  live = b.next_id ∷ b.live;
  next_id = suc b.next_id;
}

-- `subscribe_for_events`
unfoldable pub subscribe_for_events : Backend → Backend
subscribe_for_events b = record b {
  subscriptions = b.subscriptions ++ b.next_id ∷ [];
  live = b.next_id ∷ b.live;
  next_id = suc b.next_id;
}

-- `start_watch`
unfoldable pub start_watch : Backend → Backend
unfolding subscribe_for_attention
start_watch b =
    if b.watch
    then b
    else record (subscribe_for_attention (record b { bound = true })) { watch = true }

-- `stop_watch`
unfoldable pub stop_watch : Backend → Backend
unfolding unsubscribe_all
stop_watch b = if b.watch then record (unsubscribe_all b) { watch = false } else b

-- `disconnect`, for the session that there is
unfoldable pub disconnect_session : Option Text → Backend → Backend
disconnect_session none b = record (log (callback (flag false) none) b) { session_path = none }
disconnect_session (some path) b = record (log (disconnect_vpn path) b) { session_path = none }

-- `disconnect`
unfoldable pub disconnect : Backend → Backend
unfolding disconnect_session
disconnect b = disconnect_session b.session_path b

-- `pause` and `resume`
unfoldable pub pause : Backend → Backend
pause b = log (pause_vpn b.session_path) b

unfoldable pub resume : Backend → Backend
resume b = log (resume_vpn b.session_path) b

abbrev pub prepared : Outside → Option Text → Backend → Backend
prepared o none b = record b { config_path = none }
prepared o (some []) b = record b { config_path = some [] }
prepared o (some (c ∷ config)) b = record b {
  config_path = some (c ∷ config);
  session_path = o.prepare_tunnel (c ∷ config);
}

abbrev pub comma_list : List Text → Text
comma_list [] = []
comma_list (x ∷ []) = x
comma_list (x ∷ y ∷ ys) = x ++ codes ", " ++ comma_list (y ∷ ys)

-- `connect`, with what the audit found and the text of the file, the certificate included
unfoldable pub connect : Outside → Text → Text → List Text → Backend → Backend
connect o openvpn_config content (x ∷ suspicious) b =
    log
      (callback (flag false) (
        some (
          codes "Refusing to connect an untrusted profile containing: "
          ++ comma_list (x ∷ suspicious))))
      b
connect o openvpn_config content [] b =
    prepared o (o.import_config (basename openvpn_config) content) b

-- `try_to_connect`, in a session
unfoldable pub try_to_connect : Outside → Text → Backend → Backend
unfolding subscribe_for_events
try_to_connect o path b =
    if not b.bound
    then b
    else if o.is_ready_to_connect path
    then log (connect_vpn path) (subscribe_for_events (log (log_forward path) b))
    else b

abbrev pub found_or : Option (Option Text) → Option Text → Option Text
found_or none session = session
found_or (some found) session = found

-- an empty user name is unset
abbrev pub password_of : Outside → Option Text → Option Text
password_of o none = none
password_of o (some []) = none
password_of o (some (c ∷ username)) = found_or (o.password_lookup (c ∷ username)) o.session_password

-- `get_auth_password`
unfoldable pub get_auth_password : Outside → Option Text
get_auth_password o = password_of o o.auth_user

abbrev pub or_empty : Option Text → Text
or_empty none = []
or_empty (some t) = t

-- the loop over the inputs of a type and a group
unfoldable pub inputs_of : Outside → Text → ℕ → ℕ → List ℕ → List Attention
inputs_of o path t g [] = []
inputs_of o path t g (i ∷ is) =
    (record { atn_type = t; atn_grp = g; index = i; ask = o.input_queue_fetch path t g i })
    ∷ inputs_of o path t g is

unfoldable pub attention_from : Outside → Text → List (ℕ × ℕ) → List Attention
unfolding inputs_of
attention_from o path [] = []
attention_from o path ((t, g) ∷ groups) =
    inputs_of o path t g (o.input_queue_check path t g) ++ attention_from o path groups

-- `get_attention`
unfoldable pub get_attention : Outside → Text → List Attention
unfolding attention_from
get_attention o path = attention_from o path (o.typegroups path)

-- one round of the loop in `sub_attention_signal`
unfoldable pub answer : Outside → Attention → Backend → Backend
unfolding get_auth_password
answer o a b =
    if same a.ask (codes "username")
    then log (send_auth a (or_empty o.auth_user)) b
    else if same a.ask (codes "password")
    then log (send_auth a (or_empty (get_auth_password o))) b
    else if same a.ask (codes "static_challenge")
    then log otp_window b
    else b

unfoldable pub answer_all : Outside → List Attention → Backend → Backend
unfolding answer
answer_all o [] b = b
answer_all o (a ∷ more) b = answer_all o more (answer o a b)

-- `sub_attention_signal`; without a session the first call raises.
unfoldable pub attention_in : Outside → Option Text → Backend → Backend
unfolding get_attention answer_all try_to_connect
attention_in o none b = b
attention_in o (some path) b =
    try_to_connect o path (log (set_dco o.openvpn3_dco) (answer_all o (get_attention o path) b))

unfoldable pub sub_attention_signal : Outside → Backend → Backend
unfolding attention_in
sub_attention_signal o b = if b.bound then attention_in o b.session_path b else b

-- `send_otp`: the code as an answer of the challenge's group, then a try
unfoldable pub send_otp : Outside → Attention → Text → Option Text → Backend → Backend
unfolding try_to_connect
send_otp o challenge otp none b = b
send_otp o challenge otp (some path) b = try_to_connect o path (log (send_auth challenge otp) b)

-- the minor status of a `CONNECTION` status
pub data StatusMinor : Type 0 where
  conn_auth_failed conn_connecting conn_connected conn_disconnected conn_paused conn_resuming
        other_status :
      StatusMinor

-- `sub_status_signal`
unfoldable pub sub_status_signal : StatusMinor → Text → Backend → Backend
unfolding unsubscribe_all disconnect
sub_status_signal conn_auth_failed reason b =
    let told = unsubscribe_all (log (callback (flag false) (some reason)) b) in
    if b.bound then disconnect told else told
sub_status_signal conn_connecting reason b = log (callback (items []) none) b
sub_status_signal conn_connected reason b = log (callback (flag true) none) b
sub_status_signal conn_disconnected reason b = log (callback (flag false) none) (unsubscribe_all b)
sub_status_signal conn_paused reason b = log (callback (items (word (codes "pause") ∷ [])) none) b
sub_status_signal conn_resuming reason b =
    log (callback (items (word (codes "resume") ∷ [])) none) b
sub_status_signal other_status reason b = b
