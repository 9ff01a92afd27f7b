-- ===== src/Settings/Session.antt =====
-- The session password of eovpn/eovpn_base.py: a mutable buffer that the module's table refers to.
-- The buffers that were ever made are a heap.
use e_ovpn_pro.Base.{
  ℕ, Option, none, some, List, [], ◌∷◌, ◌++◌, map, Text, All, length, modify_at, get_elem?, zero,
  suc, ◌≡◌, refl,
}

pub record Session : Type 0 where
  -- every `bytearray` made, in order
  pub buffers : List Text
  -- the index of the one under `auth_password`
  pub auth_password : Option ℕ

abbrev pub new_session : Session
new_session = record { buffers = []; auth_password = none }

-- `secret[:] = b"\x00" * len(secret)`
abbrev pub zeroed : Text → Text
zeroed = map (λ _. 0)

unfoldable pub wipe : Option ℕ → List Text → List Text
wipe none buffers = buffers
wipe (some i) buffers = modify_at buffers i zeroed

-- `_wipe_session_password`
unfoldable pub wipe_session_password : Session → Session
unfolding wipe
wipe_session_password s = record { buffers = wipe s.auth_password s.buffers; auth_password = none }

-- `set_session_password`; the empty text stands for `None` too.
unfoldable pub set_session_password : Text → Session → Session
unfolding wipe wipe_session_password
set_session_password [] s = wipe_session_password s
set_session_password (c ∷ password) s = record {
  buffers = wipe s.auth_password s.buffers ++ (c ∷ password) ∷ [];
  auth_password = some (length (wipe s.auth_password s.buffers));
}

abbrev pub read_buffer : Option ℕ → List Text → Option Text
read_buffer none buffers = none
read_buffer (some i) buffers = get_elem? buffers i

-- `get_session_password`
unfoldable pub get_session_password : Session → Option Text
get_session_password s = read_buffer s.auth_password s.buffers

unfoldable pub set_all : List Text → Session → Session
unfolding set_session_password
set_all [] s = s
set_all (password ∷ passwords) s = set_all passwords (set_session_password password s)

-- Every buffer but the one in use is all zeros.
unfoldable pub IsWiped : Text → Type 0
IsWiped = All (λ c. c ≡ 0)

-- the buffers from index `i` on, where `auth_password` is `used`
unfoldable pub OthersWiped : Option ℕ → List Text → Type 0
OthersWiped used [] = Unit
OthersWiped none (b ∷ bs) = IsWiped b × OthersWiped none bs
OthersWiped (some zero) (b ∷ bs) = OthersWiped none bs
OthersWiped (some (suc i)) (b ∷ bs) = IsWiped b × OthersWiped (some i) bs

unfoldable pub IsClean : Session → Type 0
IsClean s = OthersWiped s.auth_password s.buffers

wipe-IsWiped : (b : Text) → IsWiped (zeroed b)
unfolding IsWiped
wipe-IsWiped [] = tt
wipe-IsWiped (c ∷ b) = (refl, wipe-IsWiped b)

wipe-OthersWiped :
    (used : Option ℕ) (bs : List Text) → OthersWiped used bs → OthersWiped none (wipe used bs)
unfolding wipe OthersWiped
wipe-OthersWiped none bs h = h
wipe-OthersWiped (some i) [] h = tt
wipe-OthersWiped (some zero) (b ∷ bs) h = (wipe-IsWiped b, h)
wipe-OthersWiped (some (suc i)) (b ∷ bs) (h, h') = (h, wipe-OthersWiped (some i) bs h')

all-IsWiped : (bs : List Text) → OthersWiped none bs → All IsWiped bs
unfolding OthersWiped
all-IsWiped [] h = tt
all-IsWiped (b ∷ bs) (h, h') = (h, all-IsWiped bs h')

append-OthersWiped :
    (bs : List Text) (b : Text)
    → OthersWiped none bs
    → OthersWiped (some (length bs)) (bs ++ b ∷ [])
unfolding OthersWiped
append-OthersWiped [] b h = tt
append-OthersWiped (c ∷ bs) b (h, h') = (h, append-OthersWiped bs b h')

set_session_password-IsClean :
    (password : Text) (s : Session) → IsClean s → IsClean (set_session_password password s)
unfolding set_session_password wipe_session_password IsClean
set_session_password-IsClean [] s h = wipe-OthersWiped s.auth_password s.buffers h
set_session_password-IsClean (c ∷ password) s h =
    append-OthersWiped (wipe s.auth_password s.buffers) (c ∷ password)
      (wipe-OthersWiped s.auth_password s.buffers h)

-- Whatever passwords are set, one after the other, every buffer but the one in use is all zeros,
-- where this was so before.
pub set_all-IsClean :
    (passwords : List Text) (s : Session) → IsClean s → IsClean (set_all passwords s)
unfolding set_all
set_all-IsClean [] s h = h
set_all-IsClean (p ∷ ps) s h =
    set_all-IsClean ps (set_session_password p s) (set_session_password-IsClean p s h)

get_append : (bs : List Text) (b : Text) → get_elem? (bs ++ b ∷ []) (length bs) ≡ some b
get_append [] b = refl
get_append (c ∷ bs) b = get_append bs b

-- Where the buffers that are not in use are zeroed, the password that is read is the last one that
-- was set, and an empty one takes it away and leaves every buffer zeroed.
pub get_session_password-set :
    (c : ℕ) (password : Text) (s : Session)
    → IsClean s
    → (get_session_password (set_session_password (c ∷ password) s) ≡ some (c ∷ password))
      × (get_session_password (set_session_password [] s) ≡ none)
      × All IsWiped (set_session_password [] s).buffers
unfolding get_session_password set_session_password wipe_session_password IsClean
get_session_password-set c password s h = (
  get_append (wipe s.auth_password s.buffers) (c ∷ password),
  refl,
  all-IsWiped (wipe s.auth_password s.buffers) (wipe-OthersWiped s.auth_password s.buffers h),
)
