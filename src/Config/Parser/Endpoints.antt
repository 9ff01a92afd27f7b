-- ===== src/Config/Parser/Endpoints.antt =====
-- What the parser returns: protocols that the filter knows, and the remotes that the file lists.
use e_ovpn_pro.Base.{
  Option, none, some, List, [], ◌∷◌, map, Text, codes, same, lower, strip, starts_with, is_space,
  all_digits, All, ◌≡◌, ◌⊎◌, inl, inr, refl, ap, Bool-cases, IsWord, join, split_words-join,
  strip-join, print_number, read_number-print_number, all_digits-print_number, print_number-IsWord,
}
use e_ovpn_pro.AutoConnect.Badge.{proto_tcp, proto_udp}
use e_ovpn_pro.Config.Parser.{
  Endpoint, normalize_proto, or_proto, line_words, proto_after, remote_endpoint, read_words,
  add_endpoint, endpoints_from, File, parse_ovpn_endpoints,
}

-- one of the two protocols
abbrev pub IsProto : Text → Type 0
IsProto p = (p ≡ proto_tcp) ⊎ (p ≡ proto_udp)

or_normalized : (p token : Text) → IsProto p → IsProto (or_proto p (normalize_proto token))
unfolding normalize_proto
or_normalized p token h = elim (Bool-cases (starts_with (lower (strip token)) proto_tcp)) [
  | inl e ↦ rw e (inl refl)
  | inr e ↦ elim (Bool-cases (starts_with (lower (strip token)) proto_udp)) [
    | inl g ↦ rw (e, g) (inr refl)
    | inr g ↦ rw (e, g) h
  ]
]

after-IsProto : (p : Text) (ws : List Text) → IsProto p → IsProto (proto_after p ws)
unfolding proto_after
after-IsProto p [] h = h
after-IsProto p (token ∷ _) h = or_normalized p token h

remote-IsProto :
    (p host : Text) (ws : List Text) → IsProto p → IsProto (remote_endpoint p host ws).proto
unfolding remote_endpoint
remote-IsProto p host [] h = h
remote-IsProto p host (token ∷ rest) h = elim (Bool-cases (all_digits token)) [
  | inl e ↦ rw e (after-IsProto p rest h)
  | inr e ↦ rw e (or_normalized p token h)
]

abbrev FoundProto : Option Endpoint → Type 0
FoundProto none = Unit
FoundProto (some e) = IsProto e.proto

read-IsProto :
    (p : Text) (ws : List Text)
    → IsProto p
    → IsProto (read_words p ws).0 × FoundProto (read_words p ws).1
unfolding read_words
read-IsProto p [] h = (h, tt)
read-IsProto p (key ∷ []) h = (h, tt)
read-IsProto p (key ∷ value ∷ rest) h = elim (Bool-cases (same (lower key) (codes "proto"))) [
  | inl e ↦ rw e (or_normalized p value h, tt)
  | inr e ↦ elim (Bool-cases (same (lower key) (codes "remote"))) [
    | inl g ↦ rw (e, g) (h, remote-IsProto p value rest h)
    | inr g ↦ rw (e, g) (h, tt)
  ]
]

add-IsProto :
    (found : Option Endpoint) (es : List Endpoint)
    → FoundProto found
    → All (λ e. IsProto e.proto) es
    → All (λ e. IsProto e.proto) (add_endpoint found es)
add-IsProto none es h hs = hs
add-IsProto (some e) es h hs = (h, hs)

endpoints_from-IsProto :
    (p : Text) (lines : List Text) → IsProto p → All (λ e. IsProto e.proto) (endpoints_from p lines)
unfolding endpoints_from
endpoints_from-IsProto p [] h = tt
endpoints_from-IsProto p (raw ∷ lines) h =
    let read = read-IsProto p (line_words (strip raw)) h in
    add-IsProto (read_words p (line_words (strip raw))).1
      (endpoints_from (read_words p (line_words (strip raw))).0 lines) read.1
      (endpoints_from-IsProto (read_words p (line_words (strip raw))).0 lines read.0)

-- Whatever the file holds, every endpoint that is read from it goes by TCP or by UDP.
pub endpoints-IsProto : (file : File) → All (λ e. IsProto e.proto) (parse_ovpn_endpoints file)
unfolding parse_ovpn_endpoints
endpoints-IsProto none = tt
endpoints-IsProto (some lines) = endpoints_from-IsProto proto_udp lines (inr refl)

-- an endpoint as a line of a file
abbrev pub print_endpoint : Endpoint → Text
print_endpoint e = join (codes "remote" ∷ e.host ∷ print_number e.port ∷ e.proto ∷ [])

normalize-IsProto : (p q : Text) → IsProto p → or_proto q (normalize_proto p) ≡ p
unfolding normalize_proto starts_with lower strip
normalize-IsProto p q (inl e) = rw e refl
normalize-IsProto p q (inr e) = rw e refl

proto-IsWord : (p : Text) → IsProto p → IsWord p
unfolding is_space
proto-IsWord p (inl e) = rw e (refl, (refl, (refl, tt)))
proto-IsWord p (inr e) = rw e (refl, (refl, (refl, tt)))

remote-IsWord : IsWord (codes "remote")
unfolding is_space
remote-IsWord = (refl, (refl, (refl, (refl, (refl, (refl, tt))))))

-- what can be printed: a host without spaces and one of the two protocols
abbrev pub IsPrintable : Endpoint → Type 0
IsPrintable e = IsWord e.host × IsProto e.proto

words-print :
    (e : Endpoint)
    → IsPrintable e
    → line_words (strip (print_endpoint e))
      ≡ codes "remote" ∷ e.host ∷ print_number e.port ∷ e.proto ∷ []
words-print e h =
    rw (strip-join (codes "remote") (e.host ∷ print_number e.port ∷ e.proto ∷ []) all) (
      unfold line_words in
      split_words-join (codes "remote" ∷ e.host ∷ print_number e.port ∷ e.proto ∷ []) all)
  where
    all : All IsWord (codes "remote" ∷ e.host ∷ print_number e.port ∷ e.proto ∷ [])
    all = (remote-IsWord, (h.0, (print_number-IsWord e.port, (proto-IsWord e.proto h.1, tt))))

read-print :
    (p : Text) (e : Endpoint)
    → IsPrintable e
    → read_words p (codes "remote" ∷ e.host ∷ print_number e.port ∷ e.proto ∷ []) ≡ (p, some e)
unfolding read_words remote_endpoint proto_after lower same
read-print p e h =
    rw
      (
        all_digits-print_number e.port,
        read_number-print_number e.port,
        normalize-IsProto e.proto p h.1,
      )
      refl

endpoints_from-print :
    (p : Text) (es : List Endpoint)
    → All IsPrintable es
    → endpoints_from p (map print_endpoint es) ≡ es
unfolding endpoints_from
endpoints_from-print p [] h = refl
endpoints_from-print p (e ∷ es) h =
    rw (words-print e h.0, read-print p e h.0) (ap (◌∷◌ e) (endpoints_from-print p es h.1))

-- Endpoints that are printed as `remote` lines, one to a line, are read back as they were, in their
-- order, if every host is a word without spaces and every protocol is TCP or UDP.
pub endpoints-print :
    (es : List Endpoint)
    → All IsPrintable es
    → parse_ovpn_endpoints (some (map print_endpoint es)) ≡ es
unfolding parse_ovpn_endpoints
endpoints-print es h = endpoints_from-print proto_udp es h
