-- ===== src/SettingsWindow/Password.antt =====
-- The password entry of eovpn/settings_window.py, whose writes to the keyring wait for a pause.
use e_ovpn_pro.Base.{
  ℕ, suc, Option, none, some, List, [], ◌∷◌, Text, ◌==◌, if◌then◌else◌, ◌≡◌, refl, sym, ap, ◌∙◌,
  arith,
}
use mathlib.Core.Path.{subst}
use e_ovpn_pro.Backend.OpenVpn3.{Outside, password_of, found_or, get_auth_password}
use e_ovpn_pro.Settings.Session.{
  IsClean, get_session_password-set, Session, set_session_password, get_session_password,
}

-- a pending `_flush_password_to_keyring`, with its arguments
pub record Flush : Type 0 where
  pub id : ℕ
  pub username : Text
  pub pwd : Text

pub record Entry : Type 0 where
  pub session : Session
  pub keyring_write_source : Option ℕ
  -- the main loop
  pub sources : List Flush
  pub next_id : ℕ
  -- the writes that have begun, the latest first
  pub stored : List (Text × Text)

abbrev pub keyring_debounce_ms : ℕ
keyring_debounce_ms = 800

-- `GLib.source_remove`
unfoldable pub source_remove : ℕ → List Flush → List Flush
source_remove i [] = []
source_remove i (f ∷ fs) = let rest = source_remove i fs in if f.id == i then rest else f ∷ rest

unfoldable pub cancel_source : Option ℕ → Entry → Entry
unfolding source_remove
cancel_source none e = e
cancel_source (some i) e = record e {
  sources = source_remove i e.sources;
  keyring_write_source = none;
}

-- `_cancel_pending_keyring_write`
unfoldable pub cancel_pending_keyring_write : Entry → Entry
unfolding cancel_source
cancel_pending_keyring_write e = cancel_source e.keyring_write_source e

-- a password for a user, or none for either
unfoldable pub remember : Option Text → Text → Entry → Entry
remember (some (u ∷ username)) (c ∷ pwd) e = record e {
  session = set_session_password (c ∷ pwd) e.session;
  keyring_write_source = some e.next_id;
  sources = (record { id = e.next_id; username = u ∷ username; pwd = c ∷ pwd }) ∷ e.sources;
  next_id = suc e.next_id;
}
remember _ _ e = record e { session = set_session_password [] e.session }

-- `process_password`, with the user name of the settings
unfoldable pub process_password : Option Text → Text → Entry → Entry
unfolding cancel_pending_keyring_write remember
process_password username pwd e = remember username pwd (cancel_pending_keyring_write e)

abbrev pub find_flush : ℕ → List Flush → Option Flush
find_flush i [] = none
find_flush i (f ∷ fs) = if f.id == i then some f else find_flush i fs

abbrev pub write : Option Flush → Entry → Entry
write none e = e
write (some f) e = record e {
  keyring_write_source = none;
  sources = source_remove f.id e.sources;
  stored = (f.username, f.pwd) ∷ e.stored;
}

-- the main loop runs `_flush_password_to_keyring`, which is then removed
unfoldable pub flush_password_to_keyring : ℕ → Entry → Entry
unfolding source_remove
flush_password_to_keyring i e = write (find_flush i e.sources) e

-- a run of keystrokes without a pause, for one user
unfoldable pub type_all : Option Text → List Text → Entry → Entry
unfolding process_password
type_all username [] e = e
type_all username (t ∷ ts) e = type_all username ts (process_password username t e)

-- The pending writes are none, or the one that the entry knows of.
unfoldable pub IsPending : Option ℕ → List Flush → Type 0
IsPending none [] = Unit
IsPending (some i) (f ∷ []) = f.id ≡ i
IsPending _ _ = ⊥

no-IsPending : (o : Option ℕ) (fs : List Flush) → o ≡ none → fs ≡ [] → IsPending o fs
unfolding IsPending
no-IsPending none [] h h' = tt
no-IsPending none (f ∷ fs) h h' = absurd (ground arith)
no-IsPending (some i) fs h h' = absurd (ground arith)

unfoldable pub AtMostOne : Entry → Type 0
unfolding IsPending
AtMostOne e = IsPending e.keyring_write_source e.sources

removed : (f : Flush) (i : ℕ) → f.id ≡ i → source_remove i (f ∷ []) ≡ []
unfolding source_remove
removed f i h = ground arith

cancelled :
    (o : Option ℕ) (fs : List Flush) (e : Entry)
    → o ≡ e.keyring_write_source
    → fs ≡ e.sources
    → IsPending o fs
    → ((cancel_source o e).keyring_write_source ≡ none)
      × ((cancel_source o e).sources ≡ [])
      × ((cancel_source o e).stored ≡ e.stored)
unfolding cancel_source IsPending
cancelled none [] e h h' p = (sym h, sym h', refl)
cancelled none (f ∷ fs) e h h' p = elim p [ ]
cancelled (some i) [] e h h' p = elim p [ ]
cancelled (some i) (f ∷ []) e h h' p = (refl, ap (source_remove i) (sym h') ∙ removed f i p, refl)
cancelled (some i) (f ∷ g ∷ fs) e h h' p = elim p [ ]

-- what a keystroke leaves of the pending writes
remember-AtMostOne :
    (username : Option Text) (pwd : Text) (e : Entry)
    → e.keyring_write_source ≡ none
    → e.sources ≡ []
    → AtMostOne (remember username pwd e) × ((remember username pwd e).stored ≡ e.stored)
unfolding remember AtMostOne IsPending
remember-AtMostOne (some (u ∷ username)) (c ∷ pwd) e h h' = (
  subst (IsPending (some e.next_id))
      (ap (λ fs. (record { id = e.next_id; username = u ∷ username; pwd = c ∷ pwd }) ∷ fs) (sym h'))
      refl,
  refl,
)
remember-AtMostOne none pwd e h h' = (no-IsPending e.keyring_write_source e.sources h h', refl)
remember-AtMostOne (some []) pwd e h h' = (no-IsPending e.keyring_write_source e.sources h h', refl)
remember-AtMostOne (some (u ∷ username)) [] e h h' =
    (no-IsPending e.keyring_write_source e.sources h h', refl)

process_password-AtMostOne :
    (username : Option Text) (pwd : Text) (e : Entry)
    → AtMostOne e
    → AtMostOne (process_password username pwd e)
      × ((process_password username pwd e).stored ≡ e.stored)
unfolding process_password cancel_pending_keyring_write AtMostOne
process_password-AtMostOne username pwd e p =
    let (none_known, no_source, kept) = cancelled e.keyring_write_source e.sources e refl refl p in
    let (one, kept') =
      remember-AtMostOne username pwd (cancel_pending_keyring_write e) none_known no_source in
    (one, kept' ∙ kept)

type_all-AtMostOne :
    (username : Option Text) (ts : List Text) (e : Entry)
    → AtMostOne e
    → AtMostOne (type_all username ts e) × ((type_all username ts e).stored ≡ e.stored)
unfolding type_all
type_all-AtMostOne username [] e p = (p, refl)
type_all-AtMostOne username (t ∷ ts) e p =
    let (one, kept) = process_password-AtMostOne username t e p in
    let (one', kept') = type_all-AtMostOne username ts (process_password username t e) one in
    (one', kept' ∙ kept)

write_known :
    (i : ℕ) (f : Flush) (e : Entry)
    → f.id ≡ i
    → e.sources ≡ f ∷ []
    → ((flush_password_to_keyring i e).stored ≡ (f.username, f.pwd) ∷ e.stored)
      × ((flush_password_to_keyring i e).sources ≡ [])
unfolding flush_password_to_keyring
write_known i f e h h' =
    let found : find_flush i e.sources ≡ some f = ap (find_flush i) h' ∙ here f i h in
    (
      ap (λ o. (write o e).stored) found,
      ap (λ o. (write o e).sources) found ∙ ap (source_remove f.id) h' ∙ removed f f.id refl,
    )
  where
    here : (f : Flush) (i : ℕ) → f.id ≡ i → find_flush i (f ∷ []) ≡ some f
    here f i h = ground arith

-- From a state in which the pending write, if any, is the one that the entry knows of: however many
-- keystrokes come before the pause, one write is pending, and what it stores for the user is the
-- password that stands in the entry at the end, and nothing that was there in between.
pub one_write :
    (u : ℕ) (username : Text) (ts : List Text) (c : ℕ) (pwd : Text) (e : Entry)
    → AtMostOne e
    → (i : ℕ) × ((process_password
          (some (u ∷ username))
          (c ∷ pwd)
          (type_all (some (u ∷ username)) ts e)).keyring_write_source
        ≡ some i)
      × ((flush_password_to_keyring i (
            process_password
              (some (u ∷ username))
              (c ∷ pwd)
              (type_all (some (u ∷ username)) ts e))).stored
          ≡ (u ∷ username, c ∷ pwd) ∷ e.stored)
      × ((flush_password_to_keyring i (
            process_password
              (some (u ∷ username))
              (c ∷ pwd)
              (type_all (some (u ∷ username)) ts e))).sources
          ≡ [])
unfolding process_password cancel_pending_keyring_write AtMostOne remember
one_write u username ts c pwd e p =
    let (one, kept) = type_all-AtMostOne (some (u ∷ username)) ts e p in
    let e' = type_all (some (u ∷ username)) ts e in
    let (none_known, no_source, kept') =
      cancelled e'.keyring_write_source e'.sources e' refl refl one in
    let ready = cancel_pending_keyring_write e' in
    let f : Flush = record { id = ready.next_id; username = u ∷ username; pwd = c ∷ pwd } in
    let (stored, gone) =
      write_known ready.next_id f (remember (some (u ∷ username)) (c ∷ pwd) ready) refl
        (ap (λ fs. f ∷ fs) no_source) in
    (ready.next_id, refl, stored ∙ ap (λ s. (u ∷ username, c ∷ pwd) ∷ s) (kept' ∙ kept), gone)

-- Where a user name is set and the keyring answers for it, the password of a connection is what the
-- keyring has, an older one or none, although the session holds the one that has just been typed.
pub typed_password_unread :
    (o : Outside) (u : ℕ) (username : Text) (c : ℕ) (pwd : Text) (e : Entry) (found : Option Text)
    → o.auth_user ≡ some (u ∷ username)
    → o.password_lookup (u ∷ username) ≡ some found
    → o.session_password
      ≡ get_session_password (process_password (some (u ∷ username)) (c ∷ pwd) e).session
    → IsClean (cancel_pending_keyring_write e).session
    → (get_auth_password o ≡ found) × (o.session_password ≡ some (c ∷ pwd))
unfolding get_auth_password process_password remember
typed_password_unread o u username c pwd e found h h' s clean = (
  ap (password_of o) h ∙ ap (λ r. found_or r o.session_password) h',
  s ∙ (get_session_password-set c pwd (cancel_pending_keyring_write e).session clean).0,
)
