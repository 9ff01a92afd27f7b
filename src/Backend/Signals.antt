-- ===== src/Backend/Signals.antt =====
-- The signals of NetworkManager, `NMDbus` of eovpn/backend/networkmanager/dbus.py, and the events of
-- eovpn/events.py that they become. The numbers of the states are parameters.
use e_ovpn_pro.Base.{
  ℕ, zero, suc, Bool, true, false, ◌&&◌, ◌||◌, Option, none, some, List, [], ◌∷◌, Text, codes, ◌==◌,
  leb, ltb, length, get_elem?, is_some, if◌then◌else◌, ◌≡◌, refl, ◌∙◌, arith,
}
use e_ovpn_pro.Base.Int.{pos}
use e_ovpn_pro.Backend.OpenVpn3.{drop_id}
use e_ovpn_pro.Events.{
  Payload, flag, items, number, ConnectionEvent, connected, disconnected, failed, progress,
  normalize_connection_event,
}

abbrev pub error_reasons : List Text
error_reasons =
    codes "The reason for the VPN connection state change is unknown."
    ∷ codes "No reason was given for the VPN connection state change."
    ∷ codes "The VPN connection changed state because the user disconnected it."
    ∷ codes "The VPN connection changed state because the device it was using was disconnected."
    ∷ codes "The service providing the VPN connection was stopped."
    ∷ codes "The IP config of the VPN connection was invalid."
    ∷ codes "The connection attempt to the VPN service timed out."
    ∷ codes "A timeout occurred while starting the service providing the VPN connection."
    ∷ codes "Starting the service providing the VPN connection failed."
    ∷ codes "Necessary secrets for the VPN connection were not provided."
    ∷ codes "Authentication to the VPN server failed."
    ∷ codes "The connection was deleted from settings."
    ∷ []

-- the members of `NM.VpnConnectionState` that the handler names
pub record VpnConnectionState : Type 0 where
  pub activated : ℕ
  pub disconnected_state : ℕ
  pub failed_state : ℕ

-- A call of the callback: at once, or after a second.
pub data Told : Type 0 where
  at_once : Payload → Told
  after_a_second : Payload → Option Text → Told

-- `reason in [5, 6, 7, 8, 9, 10]`
unfoldable pub is_connection_deletion_required : ℕ → Bool
is_connection_deletion_required reason = leb 5 reason && leb reason 10

unfoldable pub reason_msg : ℕ → Option Text
unfolding is_connection_deletion_required
reason_msg reason =
    if is_connection_deletion_required reason && ltb reason (length error_reasons)
    then get_elem? error_reasons reason
    else none

-- `sub_callback`
unfoldable pub sub_callback : VpnConnectionState → ℕ → ℕ → Told
unfolding reason_msg
sub_callback nm status reason =
    if status == nm.activated
    then at_once (flag true)
    else if status == nm.disconnected_state || status == nm.failed_state
    then after_a_second (flag false) (reason_msg reason)
    else at_once (items (number (pos status) ∷ number (pos reason) ∷ []))

-- the event that the window sees
abbrev pub told_event : Told → ConnectionEvent
told_event (at_once payload) = normalize_connection_event payload none
told_event (after_a_second payload error) = normalize_connection_event payload error

-- `watch` and `remove_watch`: the subscription, and those that are live on the bus
pub record NmDbus : Type 0 where
  pub conn_id : Option ℕ
  pub live : List ℕ

-- `watch`, with the number that the bus gives
unfoldable pub watch : ℕ → NmDbus → NmDbus
watch id d = record { conn_id = some id; live = id ∷ d.live }

unfoldable pub remove_id : Option ℕ → NmDbus → NmDbus
remove_id none d = d
remove_id (some i) d = record { conn_id = none; live = drop_id i d.live }

-- `remove_watch`; a subscription's number is not 0.
unfoldable pub remove_watch : NmDbus → NmDbus
unfolding remove_id
remove_watch d = remove_id d.conn_id d

get_elem?-is_some : (xs : List Text) (i : ℕ) → is_some (get_elem? xs i) ≡ ltb i (length xs)
get_elem?-is_some [] i = ground arith
get_elem?-is_some (x ∷ xs) zero = ground arith
get_elem?-is_some (x ∷ xs) (suc i) = get_elem?-is_some xs i ∙ ground arith

twelve_reasons : length error_reasons ≡ 12
twelve_reasons = refl

reason-is_some : (reason : ℕ) → is_some (reason_msg reason) ≡ is_connection_deletion_required reason
unfolding reason_msg is_connection_deletion_required
reason-is_some reason =
    let there = get_elem?-is_some error_reasons reason in let many = twelve_reasons in ground arith

ended-kind :
    (m : Option Text)
    → (normalize_connection_event (flag false) m).kind
      ≡ (if is_some m then failed else disconnected)
unfolding normalize_connection_event
ended-kind none = refl
ended-kind (some m) = refl

-- A signal of NetworkManager becomes a connection where the state is `ACTIVATED`; where it is
-- `DISCONNECTED` or `FAILED`, a failure if the reason is one of 5 to 10, with its message, and else a
-- plain loss; and a report of progress otherwise.
pub signal_event :
    (nm : VpnConnectionState) (status reason : ℕ)
    → (told_event (sub_callback nm status reason)).kind ≡ (
        if status == nm.activated
        then connected
        else if status == nm.disconnected_state || status == nm.failed_state
        then if leb 5 reason && leb reason 10 then failed else disconnected
        else progress)
unfolding sub_callback
signal_event nm status reason =
    let ended = ended-kind (reason_msg reason) in
    let given = reason-is_some reason in
    unfold normalize_connection_event is_connection_deletion_required in ground arith
