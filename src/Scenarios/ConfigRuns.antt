-- ===== src/Scenarios/ConfigRuns.antt =====
-- Small configuration files, filters and sizes.
use e_ovpn_pro.Base.{
  some, List, [], ◌∷◌, map, Text, codes, any, same, ◌≡◌, refl, inl, inr, is_space, lower,
  lower_char, strip, strip_left, split_words, starts_with, is_prefix, all_digits, read_number,
}
use e_ovpn_pro.AutoConnect.Badge.{proto_tcp, proto_udp}
use e_ovpn_pro.Config.Parser.{
  line_words, Endpoint, parse_ovpn_endpoints, endpoints_from, normalize_proto, line_words,
  read_words, remote_endpoint, proto_after,
}
use e_ovpn_pro.Config.Parser.Endpoints.{print_endpoint, endpoints-print}
use e_ovpn_pro.Config.Audit.{audit_ovpn_content}
use e_ovpn_pro.Config.Audit.Reports.{has_directive, audit_complete}
use e_ovpn_pro.Config.Filter.{Query}

abbrev profile : List Text
profile =
    codes "# a server"
    ∷ codes "proto tcp-client"
    ∷ codes "  remote one.example 443"
    ∷ codes "remote two.example 1194 udp"
    ∷ codes "script-security 2"
    ∷ codes "auth-user-pass"
    ∷ codes "Up /bin/script"
    ∷ []

profile_endpoints :
    parse_ovpn_endpoints (some profile)
    ≡ record { host = codes "one.example"; port = 443; proto = proto_tcp }
      ∷ record { host = codes "two.example"; port = 1_194; proto = proto_udp }
      ∷ []
unfolding parse_ovpn_endpoints endpoints_from read_words line_words remote_endpoint proto_after
    normalize_proto strip strip_left split_words is_space lower lower_char starts_with is_prefix
    all_digits read_number same
profile_endpoints = refl

abbrev two_endpoints : List Endpoint
two_endpoints =
    record { host = codes "a.b"; port = 443; proto = proto_tcp }
    ∷ record { host = codes "::1"; port = 1_194; proto = proto_udp }
    ∷ []

endpoints-print_example :
    parse_ovpn_endpoints (some (map print_endpoint two_endpoints)) ≡ two_endpoints
endpoints-print_example = endpoints-print two_endpoints (
    unfold is_space in
    (((refl, (refl, (refl, tt))), inl refl), (((refl, (refl, (refl, tt))), inr refl), tt)))

audit_complete_example :
    any (same (codes "up")) (audit_ovpn_content (some profile))
    ≡ any (λ raw. has_directive (codes "up") (line_words (strip raw))) profile
audit_complete_example = audit_complete (codes "up") profile

abbrev query : Query
query = record {
  search = codes "FAST";
  mode = codes "all";
  favorites = [];
  latencies = (codes "fast.ovpn", some 200) ∷ [];
  proto_mode = codes "udp";
  protocols = proto_udp ∷ [];
}
