-- ===== src/Settings/Laws.antt =====
-- What is set is read back, and the favorites are a set.
use e_ovpn_pro.Base.{
  Bool, true, false, Option, none, some, List, [], ◌∷◌, Text, codes, same, same_iff, same_refl,
  lookup, insert, lookup-insert, any, if◌then◌else◌, ◌≡◌, refl, ap, ◌∙◌, arith,
}
use e_ovpn_pro.Config.Audit.{sort_texts}
use e_ovpn_pro.Config.Audit.Reports.{any-sort}
use e_ovpn_pro.Settings.{
  Value, strings, Schema, Settings, present, shown_value, get_setting, same_type, reset,
  set_setting, discard, add_text, with_favorite, get_favorites, toggle_favorite, texts_of,
}

pub lookup-reset :
    (k j : Text) (s : Settings) → lookup j (reset k s) ≡ (if same k j then none else lookup j s)
unfolding lookup reset
lookup-reset k j [] = ground arith
lookup-reset k j ((i, w) ∷ s) =
    ground (arith, same_iff k j, same_iff i k, same_iff i j, lookup-reset k j s)

lookup_new : (k : Text) (v : Value) (s : Settings) → lookup k (insert k v s) ≡ some v
lookup_new k v s = lookup-insert k k v s ∙ ap (λ b. if b then some v else lookup k s) (same_refl k)

module _ (schema : Schema) (k j : Text) where
  shown_new :
      (v default : Value) (old : Option Value)
      → schema k ≡ some default
      → shown_value (schema j) (if same k j then some v else old)
        ≡ (if same k j then present v else shown_value (schema j) old)
  unfolding shown_value
  shown_new v default old h = ground (arith, same_iff k j)

  shown_default :
      (old : Option Value)
      → shown_value (schema j) (if same k j then none else old)
        ≡ (if same k j then shown_value (schema k) none else shown_value (schema j) old)
  unfolding shown_value
  shown_default old = ground (arith, same_iff k j)

  stored :
      (v default : Value) (s : Settings)
      → schema k ≡ some default
      → same_type default v ≡ true
      → set_setting schema k (some v) s ≡ insert k v s
  unfolding set_setting
  stored v default s h t = rw (h, t) refl

  -- A value of the key's type is read back, but for a text that counts as unset; `None` brings back
  -- the default; every other setting keeps its value.
  pub get_setting-set_setting :
      (v default : Value) (s : Settings)
      → schema k ≡ some default
      → same_type default v ≡ true
      → (get_setting schema j (set_setting schema k (some v) s)
          ≡ (if same k j then present v else get_setting schema j s))
        × (get_setting schema j (set_setting schema k none s)
            ≡ (if same k j then get_setting schema k [] else get_setting schema j s))
  unfolding get_setting set_setting lookup
  get_setting-set_setting v default s h t = (
    ap (λ o. shown_value (schema j) (lookup j o)) (stored v default s h t)
        ∙ ap (shown_value (schema j)) (lookup-insert k j v s)
        ∙ shown_new v default (lookup j s) h,
    ap (shown_value (schema j)) (lookup-reset k j s) ∙ shown_default (lookup j s),
  )

pub any-discard :
    (x y : Text) (ys : List Text)
    → any (same y) (discard x ys) ≡ (if same x y then false else any (same y) ys)
unfolding discard
any-discard x y [] = ground arith
any-discard x y (z ∷ zs) =
    ground (arith, same_iff x y, same_iff z x, same_iff y z, any-discard x y zs)

any-add_text :
    (x y : Text) (ys : List Text)
    → any (same y) (add_text x ys) ≡ (if same x y then true else any (same y) ys)
unfolding add_text
any-add_text x y ys = ground (arith, same_iff x y, same_iff y x)

pub any-with_favorite :
    (favorite : Bool) (x y : Text) (ys : List Text)
    → any (same y) (with_favorite favorite x ys) ≡ (if same x y then favorite else any (same y) ys)
unfolding with_favorite
any-with_favorite true x y ys = any-add_text x y ys
any-with_favorite false x y ys = any-discard x y ys

module _ (schema : Schema) where
  -- Where the schema has the list of favorites, switching a configuration on or off changes whether
  -- it is a favorite, and leaves every other one as it was.
  pub get_favorites-toggle_favorite :
      (favorite : Bool) (x y : Text) (default : List Text) (s : Settings)
      → schema (codes "favorite-configs") ≡ some (strings default)
      → any (same y) (get_favorites schema (toggle_favorite schema x favorite s))
        ≡ (if same x y then favorite else any (same y) (get_favorites schema s))
  unfolding get_favorites toggle_favorite get_setting shown_value present
  get_favorites-toggle_favorite favorite x y default s h =
      let key = codes "favorite-configs" in
      let new = sort_texts (with_favorite favorite x (get_favorites schema s)) in
      ap (λ o. any (same y) (texts_of (shown_value (schema key) (lookup key o))))
        (stored schema key key (strings new) (strings default) s h refl)
      ∙ ap (λ o. any (same y) (texts_of (shown_value (schema key) o)))
          (lookup_new key (strings new) s)
      ∙ ap (λ o. any (same y) (texts_of (shown_value o (some (strings new))))) h
      ∙ any-sort y (with_favorite favorite x (get_favorites schema s))
      ∙ any-with_favorite favorite x y (get_favorites schema s)
