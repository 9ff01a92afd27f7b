-- ===== src/Scenarios/PasswordRuns.antt =====
-- A password that is typed, and an address that is looked up.
use e_ovpn_pro.Base.{ℕ, true, false, none, some, [], ◌∷◌, codes, lookup, same, ◌≡◌, refl}
use e_ovpn_pro.Settings.Session.{new_session, IsClean, OthersWiped, get_session_password}
use e_ovpn_pro.Backend.OpenVpn3.{Outside, get_auth_password}
use e_ovpn_pro.SettingsWindow.Password.{
  Entry, AtMostOne, IsPending, type_all, process_password, cancel_pending_keyring_write,
  flush_password_to_keyring, one_write, typed_password_unread,
}
use e_ovpn_pro.Lookup.{Answers, new_lookup, update}
use e_ovpn_pro.Lookup.Fallback.{Found, update-Found}

abbrev entry : Entry
entry = record {
  session = new_session;
  keyring_write_source = none;
  sources = [];
  next_id = 5;
  stored = [];
}

entry-AtMostOne : AtMostOne entry
unfolding AtMostOne IsPending
entry-AtMostOne = tt

abbrev typed : Entry
typed =
    process_password (some (codes "u")) (codes "sec")
      (type_all (some (codes "u")) (codes "s" ∷ codes "se" ∷ []) entry)

one_write_example :
    (i : ℕ) × (typed.keyring_write_source ≡ some i)
    × ((flush_password_to_keyring i typed).stored ≡ (codes "u", codes "sec") ∷ [])
    × ((flush_password_to_keyring i typed).sources ≡ [])
one_write_example =
    one_write b'u' [] (codes "s" ∷ codes "se" ∷ []) b's' (codes "ec") entry entry-AtMostOne

abbrev outside : Outside
outside = record {
  is_ready_to_connect = λ path. true;
  import_config = λ name content. none;
  prepare_tunnel = λ config. none;
  typegroups = λ path. [];
  input_queue_check = λ path t g. [];
  input_queue_fetch = λ path t g i. [];
  auth_user = some (codes "u");
  openvpn3_dco = false;
  password_lookup = λ u. some none;
  session_password =
      get_session_password (process_password (some (codes "u")) (codes "sec") entry).session;
}

entry-IsClean : IsClean (cancel_pending_keyring_write entry).session
unfolding cancel_pending_keyring_write IsClean OthersWiped
entry-IsClean = tt

typed_password_unread_example :
    (get_auth_password outside ≡ none) × (outside.session_password ≡ some (codes "sec"))
typed_password_unread_example =
    typed_password_unread outside b'u' [] b's' (codes "ec") entry none refl refl refl entry-IsClean

abbrev answers : Answers
answers = record {
  trace = none;
  ipapi = some [];
  ipify = some ((codes "ip", codes "203.0.113.9") ∷ []);
}

update-Found_example : Found (some (codes "203.0.113.9")) new_lookup (update answers new_lookup)
unfolding lookup same
update-Found_example = update-Found answers new_lookup
