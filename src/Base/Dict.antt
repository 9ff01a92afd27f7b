-- ===== src/Base/Dict.antt =====
-- Python's `dict` with text keys: entries in order of insertion, a new value in the old place.
use mathlib.Core.Path.{◌≡◌, refl}
use mathlib.Core.Option.{Option, none, some}
use mathlib.Core.List.{List, [], ◌∷◌}
use native.Mathlib.Omega.{arith}
use e_ovpn_pro.Base.Tests.{if◌then◌else◌}
use e_ovpn_pro.Base.Strings.{Text, same, same_iff}

abbrev pub Dict {ℓ} : Type ℓ → Type ℓ
Dict V = List (Text × V)

module _ {ℓ} {V : Type ℓ} where
  -- `d.get(k)`
  unfoldable pub lookup : Text → Dict V → Option V
  lookup k [] = none
  lookup k ((j, v) ∷ d) = if same j k then some v else lookup k d

  -- `d[k] = v`
  unfoldable pub insert : Text → V → Dict V → Dict V
  insert k v [] = (k, v) ∷ []
  insert k v ((j, w) ∷ d) = if same j k then (j, v) ∷ d else (j, w) ∷ insert k v d

  pub lookup-insert :
      (k j : Text) (v : V) (d : Dict V)
      → lookup j (insert k v d) ≡ (if same k j then some v else lookup j d)
  unfolding lookup insert
  lookup-insert k j v [] = refl
  lookup-insert k j v ((i, w) ∷ d) =
      ground (arith, same_iff k j, same_iff i k, same_iff i j, lookup-insert k j v d)
