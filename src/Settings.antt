-- ===== src/Settings.antt =====
-- The settings and the session password of eovpn/eovpn_base.py. The schema of GSettings is a
-- parameter: the default of each key, which fixes its type.
pub mod Laws
pub mod Session
pub mod Backup
use e_ovpn_pro.Base.{
  Bool, true, false, ◌||◌, Option, none, some, List, [], ◌∷◌, Text, codes, same, lookup, insert,
  any, if◌then◌else◌,
}
use e_ovpn_pro.Base.Int.{ℤ}
use e_ovpn_pro.Config.Audit.{sort_texts}

-- The values of `get_setting` and `set_setting` by their types; a `float` is a scaled number.
pub data Value : Type 0 where
  flag : Bool → Value
  whole : ℤ → Value
  float : ℤ → Value
  string : Text → Value
  strings : List Text → Value

abbrev pub Schema : Type 0
Schema = Text → Option Value

-- What the user has set.
abbrev pub Settings : Type 0
Settings = List (Text × Value)

abbrev pub all_settings : List Text
all_settings =
    codes "last-connected"
    ∷ codes "last-connected-cursor"
    ∷ codes "notifications"
    ∷ codes "manager"
    ∷ codes "req-auth"
    ∷ codes "ca"
    ∷ codes "remote"
    ∷ codes "auth-user"
    ∷ codes "nm-active-uuid"
    ∷ codes "show-flag"
    ∷ codes "listbox-v-adjust"
    ∷ codes "layout"
    ∷ codes "dark-theme"
    ∷ codes "openvpn3-dco"
    ∷ codes "auto-reconnect"
    ∷ codes "language"
    ∷ codes "favorite-configs"
    ∷ []

-- the empty text and the legacy sentinel are unset
unfoldable pub is_unset : Text → Bool
is_unset t = same t (codes "null") || same t []

unfoldable pub present : Value → Option Value
present (string t) = if is_unset t then none else some (string t)
present v = some v

-- the schema's default, then what is stored
unfoldable pub shown_value : Option Value → Option Value → Option Value
unfolding present
shown_value none stored = none
shown_value (some default) none = present default
shown_value (some default) (some v) = present v

module _ (schema : Schema) where
  -- `get_setting`; a key that the schema lacks raises, which is caught.
  unfoldable pub get_setting : Text → Settings → Option Value
  unfolding shown_value
  get_setting key s = shown_value (schema key) (lookup key s)

abbrev pub same_type : Value → Value → Bool
same_type (flag _) (flag _) = true
same_type (whole _) (whole _) = true
same_type (float _) (float _) = true
same_type (string _) (string _) = true
same_type (strings _) (strings _) = true
same_type _ _ = false

-- `Gio.Settings.reset`
unfoldable pub reset : Text → Settings → Settings
reset key [] = []
reset key ((k, v) ∷ s) = let rest = reset key s in if same k key then rest else (k, v) ∷ rest

-- `Gio.Settings.set_value` refuses a value of another type than the schema's.
abbrev pub accepts : Option Value → Value → Bool
accepts none v = false
accepts (some default) v = same_type default v

module _ (schema : Schema) where
  -- `set_setting`
  unfoldable pub set_setting : Text → Option Value → Settings → Settings
  set_setting key none s = reset key s
  set_setting key (some v) s = if accepts (schema key) v then insert key v s else s

unfoldable pub reset_keys : List Text → Settings → Settings
unfolding reset
reset_keys [] s = s
reset_keys (key ∷ keys) s = reset_keys keys (reset key s)

-- `reset_all_settings`
unfoldable pub reset_all_settings : Settings → Settings
unfolding reset_keys
reset_all_settings = reset_keys all_settings

abbrev pub texts_of : Option Value → List Text
texts_of (some (strings ts)) = ts
texts_of _ = []

-- `favs.discard(filename)`
unfoldable pub discard : Text → List Text → List Text
discard x [] = []
discard x (y ∷ ys) = let rest = discard x ys in if same y x then rest else y ∷ rest

-- `favs.add(filename)`
unfoldable pub add_text : Text → List Text → List Text
add_text x ys = if any (same x) ys then ys else x ∷ ys

unfoldable pub with_favorite : Bool → Text → List Text → List Text
unfolding discard add_text
with_favorite true filename favs = add_text filename favs
with_favorite false filename favs = discard filename favs

module _ (schema : Schema) where
  -- `get_favorites`, in the stored order
  unfoldable pub get_favorites : Settings → List Text
  unfolding get_setting
  get_favorites s = texts_of (get_setting schema (codes "favorite-configs") s)

  -- `toggle_favorite`
  unfoldable pub toggle_favorite : Text → Bool → Settings → Settings
  unfolding with_favorite sort_texts set_setting get_favorites
  toggle_favorite filename favorite s =
      set_setting schema (codes "favorite-configs")
        (some (strings (sort_texts (with_favorite favorite filename (get_favorites s))))) s
