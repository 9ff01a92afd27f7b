-- ===== src/MainWindow/Order.antt =====
-- The order of the server list, its filters and its selection in eovpn/main_window.py.
use e_ovpn_pro.Base.{
  ℕ, suc, zero, Bool, true, false, not, ◌&&◌, Option, none, some, List, [], ◌∷◌, Text, codes, same,
  same_iff, lower, strip, is_some, ltb, leb, get_elem?, if◌then◌else◌, ◌≡◌, refl, sym, ◌∙◌, arith,
  Bool-cases, inl, inr,
}
use e_ovpn_pro.Base.Int.{ℤ, pos, negsuc}
use e_ovpn_pro.AutoConnect.Badge.{proto_tcp, proto_udp, proto_all}
use e_ovpn_pro.AutoConnect.Queue.{Latencies, latency, key_le}
use e_ovpn_pro.Config.Audit.{text_lt, ovpn_is_auth_required}
use e_ovpn_pro.Config.Audit.Reports.{text_lt_total, text_lt_trans, text_lt_irrefl}
use e_ovpn_pro.Config.Parser.{File}
use e_ovpn_pro.Config.Filter.{matches_server_filter}

-- `1 if file1 > file2 else -1`
unfoldable pub by_name : Text → Text → ℤ
by_name file1 file2 = if text_lt file2 file1 then pos 1 else negsuc 0

-- the comparison by the measured times
unfoldable pub by_latency : Option ℕ → Option ℕ → Text → Text → ℤ
unfolding by_name
by_latency none none file1 file2 = by_name file1 file2
by_latency none (some rtt2) file1 file2 = pos 1
by_latency (some rtt1) none file1 file2 = negsuc 0
by_latency (some rtt1) (some rtt2) file1 file2 =
    if ltb rtt1 rtt2 then negsuc 0 else if ltb rtt2 rtt1 then pos 1 else by_name file1 file2

-- `_compare_config_names`
unfoldable pub compare_config_names : Bool → Latencies → Text → Text → ℤ
unfolding by_latency
compare_config_names by_speed latencies [] file2 = pos 0
compare_config_names by_speed latencies (c ∷ file1) [] = pos 0
compare_config_names false latencies (c ∷ file1) (d ∷ file2) = by_name (c ∷ file1) (d ∷ file2)
compare_config_names true latencies (c ∷ file1) (d ∷ file2) =
    by_latency (latency latencies (c ∷ file1)) (latency latencies (d ∷ file2)) (c ∷ file1)
      (d ∷ file2)

pub data Ordering : Type 0 where
  smaller equal larger : Ordering

-- `config_item_sort_func`
unfoldable pub config_item_sort_func : ℤ → Ordering
config_item_sort_func (negsuc n) = smaller
config_item_sort_func (pos zero) = equal
config_item_sort_func (pos (suc n)) = larger

-- what the list filter holds
pub record ListFilter : Type 0 where
  pub search_text : Text
  pub filter_mode : Text
  pub proto_mode : Text

abbrev pub filter_modes : List Text
filter_modes = codes "all" ∷ codes "favorites" ∷ codes "online" ∷ codes "offline" ∷ []

abbrev pub proto_modes : List Text
proto_modes = proto_all ∷ proto_tcp ∷ proto_udp ∷ []

abbrev pub or_text : Option Text → Text → Text
or_text none default = default
or_text (some t) default = t

-- `on_search_changed`
unfoldable pub on_search_changed : Text → ListFilter → ListFilter
on_search_changed text f = record f { search_text = lower (strip text) }

-- `on_filter_changed`
unfoldable pub on_filter_changed : ℕ → ListFilter → ListFilter
on_filter_changed idx f = record f {
  filter_mode = or_text (get_elem? filter_modes idx) f.filter_mode;
}

-- `on_proto_filter_changed`
unfoldable pub on_proto_filter_changed : ℕ → ListFilter → ListFilter
on_proto_filter_changed idx f = record f {
  proto_mode = or_text (get_elem? proto_modes idx) proto_all;
}

-- `toggle_favorites_filter`
unfoldable pub toggle_favorites_filter : ListFilter → ListFilter
toggle_favorites_filter f =
    if same f.filter_mode (codes "favorites")
    then record f { filter_mode = codes "all" }
    else record f { filter_mode = codes "favorites" }

-- `list_filter_match`
unfoldable pub list_filter_match :
    List Text → Latencies → (Text → List Text) → ListFilter → Text → Bool
unfolding matches_server_filter
list_filter_match favorites latencies protocols_for f filename =
    matches_server_filter filename (record {
      search = f.search_text;
      mode = f.filter_mode;
      favorites = favorites;
      latencies = latencies;
      proto_mode = f.proto_mode;
      protocols = protocols_for filename;
    })

-- `row_changed`: whether the connect button can be pressed, where `req_auth` and `auth_user` are set
unfoldable pub row_changed : (Text → File) → Bool → Option Text → Option Text → Bool
unfolding ovpn_is_auth_required
row_changed read req_auth auth_user none = true
row_changed read req_auth auth_user (some selected) =
    not (req_auth && ovpn_is_auth_required (read selected) && not (is_some auth_user))

-- The row that `_restore_last_cursor` selects.
unfoldable pub restore_last_cursor : ℤ → List Text → Option Text
restore_last_cursor (negsuc n) rows = none
restore_last_cursor (pos cur) rows = get_elem? rows cur

abbrev pub is_smaller : ℤ → Bool
is_smaller (negsuc n) = true
is_smaller (pos n) = false

text_lt_flips : (x y : Text) → same x y ≡ false → text_lt x y ≡ not (text_lt y x)
text_lt_flips x y h = elim (Bool-cases (text_lt y x)) [
  | inl e ↦ elim (Bool-cases (text_lt x y)) [
    | inl e' ↦
        let loop = text_lt_trans x y x e' e in
        let none_less = text_lt_irrefl x in absurd (ground arith)
    | inr e' ↦ rw e e'
  ]
  | inr e ↦ rw e (text_lt_total y x e (differs x y h))
]
  where
    differs : (x y : Text) → same x y ≡ false → same y x ≡ false
    differs x y h = ground (arith, same_iff x y, same_iff y x)

by_name-smaller : (x y : Text) → same x y ≡ false → is_smaller (by_name x y) ≡ text_lt x y
unfolding by_name
by_name-smaller x y h = let flips = text_lt_flips x y h in ground arith

by_latency-smaller :
    (r s : Option ℕ) (x y : Text) (i j : ℕ)
    → same x y ≡ false
    → leb i j ≡ text_lt x y
    → is_smaller (by_latency r s x y) ≡ key_le r i s j
unfolding by_latency key_le
by_latency-smaller none none x y i j h o = by_name-smaller x y h ∙ sym o
by_latency-smaller none (some s) x y i j h o = refl
by_latency-smaller (some r) none x y i j h o = refl
by_latency-smaller (some r) (some s) x y i j h o = let named = by_name-smaller x y h in ground arith

-- The list that is sorted by speed and the queue of the cascade put two servers with different
-- names, neither of them empty, in the same order, where the positions of the queue follow the
-- order of the names.
pub list_and_queue_agree :
    (d : Latencies) (a b : ℕ) (x y : Text) (i j : ℕ)
    → same (a ∷ x) (b ∷ y) ≡ false
    → leb i j ≡ text_lt (a ∷ x) (b ∷ y)
    → is_smaller (compare_config_names true d (a ∷ x) (b ∷ y))
      ≡ key_le (latency d (a ∷ x)) i (latency d (b ∷ y)) j
unfolding compare_config_names
list_and_queue_agree d a b x y i j h o =
    by_latency-smaller (latency d (a ∷ x)) (latency d (b ∷ y)) (a ∷ x) (b ∷ y) i j h o

by_latency-flips :
    (r s : Option ℕ) (x y : Text)
    → same x y ≡ false
    → same y x ≡ false
    → is_smaller (by_latency r s x y) ≡ not (is_smaller (by_latency s r y x))
unfolding by_latency
by_latency-flips none none x y h h' =
    let named = by_name-smaller x y h in
    let named' = by_name-smaller y x h' in let flips = text_lt_flips x y h in ground arith
by_latency-flips none (some s) x y h h' = refl
by_latency-flips (some r) none x y h h' = refl
by_latency-flips (some r) (some s) x y h h' =
    let named = by_name-smaller x y h in
    let named' = by_name-smaller y x h' in let flips = text_lt_flips x y h in ground arith

by_latency_trans :
    (r s t : Option ℕ) (x y z : Text)
    → same x y ≡ false
    → same y z ≡ false
    → same x z ≡ false
    → is_smaller (by_latency r s x y) ≡ true
    → is_smaller (by_latency s t y z) ≡ true
    → is_smaller (by_latency r t x z) ≡ true
unfolding by_latency
by_latency_trans r s t x y z h h' h'' p q =
    let n = by_name-smaller x y h in
    let n' = by_name-smaller y z h' in
    let n'' = by_name-smaller x z h'' in ground (arith, text_lt_trans x y z)

-- Of two different names, the comparison of the list puts exactly one first.
pub compare_config_names-flips :
    (by_speed : Bool) (d : Latencies) (a b : ℕ) (x y : Text)
    → same (a ∷ x) (b ∷ y) ≡ false
    → same (b ∷ y) (a ∷ x) ≡ false
    → is_smaller (compare_config_names by_speed d (a ∷ x) (b ∷ y))
      ≡ not (is_smaller (compare_config_names by_speed d (b ∷ y) (a ∷ x)))
unfolding compare_config_names
compare_config_names-flips false d a b x y h g = by_latency-flips none none (a ∷ x) (b ∷ y) h g
compare_config_names-flips true d a b x y h g =
    by_latency-flips (latency d (a ∷ x)) (latency d (b ∷ y)) (a ∷ x) (b ∷ y) h g

-- The comparison of the list is transitive on different names.
pub compare_config_names_trans :
    (by_speed : Bool) (d : Latencies) (a b c : ℕ) (x y z : Text)
    → same (a ∷ x) (b ∷ y) ≡ false
    → same (b ∷ y) (c ∷ z) ≡ false
    → same (a ∷ x) (c ∷ z) ≡ false
    → is_smaller (compare_config_names by_speed d (a ∷ x) (b ∷ y)) ≡ true
    → is_smaller (compare_config_names by_speed d (b ∷ y) (c ∷ z)) ≡ true
    → is_smaller (compare_config_names by_speed d (a ∷ x) (c ∷ z)) ≡ true
unfolding compare_config_names
compare_config_names_trans false d a b c x y z h h' h'' p q =
    by_latency_trans none none none (a ∷ x) (b ∷ y) (c ∷ z) h h' h'' p q
compare_config_names_trans true d a b c x y z h h' h'' p q =
    by_latency_trans (latency d (a ∷ x)) (latency d (b ∷ y)) (latency d (c ∷ z)) (a ∷ x) (b ∷ y)
      (c ∷ z) h h' h'' p q
