-- ===== src/Backend/Selection.antt =====
-- `available_backend_names`, `backend_diagnostics` and `create_connection_manager` of
-- eovpn/connection_manager.py.
use e_ovpn_pro.Base.{
  Bool, true, false, not, ◌&&◌, Option, none, some, List, [], ◌∷◌, ◌++◌, Text, codes, same, any,
  if◌then◌else◌, ◌≡◌, refl, Bool-cases, inl, inr,
}

pub data Backend : Type 0 where
  network_manager openvpn3 : Backend

abbrev pub backend_name : Backend → Text
backend_name network_manager = codes "networkmanager"
backend_name openvpn3 = codes "openvpn3"

-- What the import of a native module left: the module, or the message of its error.
pub record Native : Type 0 where
  pub loaded : Bool
  pub import_error : Option Text

abbrev pub Natives : Type 0
Natives = Backend → Native

-- the members of the set, in the default order
unfoldable pub available_backend_names : Natives → List Backend
available_backend_names natives =
    (if (natives network_manager).loaded then network_manager ∷ [] else [])
    ++ (if (natives openvpn3).loaded then openvpn3 ∷ [] else [])

abbrev pub message_of : Option Text → Text
message_of none = codes "native bindings are unavailable"
message_of (some message) = message

unfoldable pub backend_diagnostics : Natives → Backend → Text
backend_diagnostics natives b =
    if (natives b).loaded then codes "available" else message_of (natives b).import_error

-- `backend_diagnostics().get(preferred, ...)`
unfoldable pub reason_for : Natives → Text → Text
unfolding backend_diagnostics
reason_for natives preferred =
    if same preferred (backend_name network_manager)
    then backend_diagnostics natives network_manager
    else if same preferred (backend_name openvpn3)
    then backend_diagnostics natives openvpn3
    else codes "backend is not recognized"

pub data Created : Type 0 where
  created : Backend → Created
  none_available init_failed : Created
  unavailable : Text → Text → Created

abbrev pub is_named : Text → Backend → Bool
is_named preferred b = same preferred (backend_name b)

unfoldable pub named_first : Text → List Backend → List Backend
named_first preferred [] = []
named_first preferred (b ∷ bs) =
    let rest = named_first preferred bs in if is_named preferred b then b ∷ rest else rest

unfoldable pub others : Text → List Backend → List Backend
others preferred [] = []
others preferred (b ∷ bs) =
    let rest = others preferred bs in if is_named preferred b then rest else b ∷ rest

-- The preferred backend first, then the others in the default order; `[]` stands for `None`.
unfoldable pub backend_order : Text → List Backend → List Backend
unfolding named_first others
backend_order preferred available = named_first preferred available ++ others preferred available

-- The first backend whose constructor does not raise.
unfoldable pub first_that_starts : (Backend → Bool) → List Backend → Created
first_that_starts starts [] = init_failed
first_that_starts starts (b ∷ bs) =
    let rest = first_that_starts starts bs in if starts b then created b else rest

abbrev pub is_empty : Text → Bool
is_empty [] = true
is_empty (_ ∷ _) = false

unfoldable pub create_from : Natives → (Backend → Bool) → Text → List Backend → Created
unfolding backend_order first_that_starts reason_for
create_from natives starts preferred [] = none_available
create_from natives starts preferred (b ∷ bs) =
    if not (is_empty preferred) && not (any (is_named preferred) (b ∷ bs))
    then unavailable preferred (reason_for natives preferred)
    else first_that_starts starts (backend_order preferred (b ∷ bs))

-- `create_connection_manager`
unfoldable pub create_connection_manager : Natives → (Backend → Bool) → Text → Created
unfolding available_backend_names create_from
create_connection_manager natives starts preferred =
    create_from natives starts preferred (available_backend_names natives)

module _ (natives : Natives) (starts : Backend → Bool) (preferred : Backend) where
  abbrev pub chosen : Created
  chosen = create_connection_manager natives starts (backend_name preferred)

  abbrev pub other : Backend → Backend
  other network_manager = openvpn3
  other openvpn3 = network_manager

  abbrev WhenPreferred : Backend → Created → Type 0
  WhenPreferred p c =
      create_from natives starts (backend_name p) (available_backend_names natives) ≡ c

  used : (p : Backend) → (natives p).loaded ≡ true → starts p ≡ true → WhenPreferred p (created p)
  unfolding create_from available_backend_names backend_order first_that_starts named_first others
      same
  used network_manager l s = elim (Bool-cases (natives openvpn3).loaded) [
    | inl e ↦ rw (l, e, s) refl
    | inr e ↦ rw (l, e, s) refl
  ]
  used openvpn3 l s = elim (Bool-cases (natives network_manager).loaded) [
    | inl e ↦ rw (l, e, s) refl
    | inr e ↦ rw (l, e, s) refl
  ]

  switched :
      (p : Backend)
      → (natives p).loaded ≡ true
      → starts p ≡ false
      → (natives (other p)).loaded ≡ true
      → starts (other p) ≡ true
      → WhenPreferred p (created (other p))
  unfolding create_from available_backend_names backend_order first_that_starts named_first others
      same
  switched network_manager l s k t = rw (l, k, s, t) refl
  switched openvpn3 l s k t = rw (l, k, s, t) refl

  -- A backend that the user has selected is used whenever its bindings are loaded and it starts.
  pub preferred_is_used :
      (natives preferred).loaded ≡ true → starts preferred ≡ true → chosen ≡ created preferred
  unfolding create_connection_manager
  preferred_is_used l s = used preferred l s

  -- A selected backend that is loaded but does not start is replaced by the other one, if that is
  -- loaded and starts.
  pub preferred_is_switched :
      (natives preferred).loaded ≡ true
      → starts preferred ≡ false
      → (natives (other preferred)).loaded ≡ true
      → starts (other preferred) ≡ true
      → chosen ≡ created (other preferred)
  unfolding create_connection_manager
  preferred_is_switched l s k t = switched preferred l s k t
