-- ===== src/Config/Parser.antt =====
-- eovpn/ovpn_parser.py: the endpoints that a configuration file declares. A file is the list of its
-- lines, or `none` where it cannot be opened.

pub mod Endpoints
use e_ovpn_pro.Base.{
  ℕ, Bool, true, false, ◌||◌, Option, none, some, List, [], ◌∷◌, map, Text, codes, same, lower,
  strip, starts_with, split_words, all_digits, read_number, any, ◌==◌, if◌then◌else◌,
}
use e_ovpn_pro.AutoConnect.Badge.{proto_tcp, proto_udp}

pub record Endpoint : Type 0 where
  pub host : Text
  pub port : ℕ
  pub proto : Text

-- `normalize_proto`
unfoldable pub normalize_proto : Text → Option Text
normalize_proto token =
    let lowered = lower (strip token) in
    if starts_with lowered proto_tcp
    then some proto_tcp
    else if starts_with lowered proto_udp
    then some proto_udp
    else none

-- `if parsed: proto = parsed`
abbrev pub or_proto : Text → Option Text → Text
or_proto proto none = proto
or_proto proto (some parsed) = parsed

-- The words of a stripped line, none of a blank line or a comment.
unfoldable pub line_words : Text → List Text
line_words [] = []
line_words (c ∷ line) = if c == b'#' || c == b';' then [] else split_words (c ∷ line)

-- the protocol after a port
unfoldable pub proto_after : Text → List Text → Text
proto_after file_proto [] = file_proto
proto_after file_proto (token ∷ _) = or_proto file_proto (normalize_proto token)

-- a `remote` line, by the words after its host
unfoldable pub remote_endpoint : Text → Text → List Text → Endpoint
unfolding proto_after
remote_endpoint file_proto host [] = record { host = host; port = 1_194; proto = file_proto }
remote_endpoint file_proto host (token ∷ rest) =
    if all_digits token
    then record { host = host; port = read_number token; proto = proto_after file_proto rest }
    else record { host = host; port = 1_194; proto = or_proto file_proto (normalize_proto token) }

-- The `proto` of the file after a line, and the endpoint of the line, if it declares one.
unfoldable pub read_words : Text → List Text → Text × Option Endpoint
unfolding remote_endpoint
read_words file_proto [] = (file_proto, none)
read_words file_proto (key ∷ []) = (file_proto, none)
read_words file_proto (key ∷ value ∷ rest) =
    if same (lower key) (codes "proto")
    then (or_proto file_proto (normalize_proto value), none)
    else if same (lower key) (codes "remote")
    then (file_proto, some (remote_endpoint file_proto value rest))
    else (file_proto, none)

abbrev add_endpoint : Option Endpoint → List Endpoint → List Endpoint
add_endpoint none later = later
add_endpoint (some e) later = e ∷ later

-- the loop over the lines
unfoldable pub endpoints_from : Text → List Text → List Endpoint
unfolding read_words line_words
endpoints_from file_proto [] = []
endpoints_from file_proto (raw ∷ lines) =
    let (next, found) = read_words file_proto (line_words (strip raw)) in
    add_endpoint found (endpoints_from next lines)

abbrev pub File : Type 0
File = Option (List Text)

-- `parse_ovpn_endpoints`
unfoldable pub parse_ovpn_endpoints : File → List Endpoint
unfolding endpoints_from
parse_ovpn_endpoints none = []
parse_ovpn_endpoints (some lines) = endpoints_from proto_udp lines

-- the members of a set, each once
unfoldable pub distinct : List Text → List Text
distinct [] = []
distinct (x ∷ xs) = let rest = distinct xs in if any (same x) rest then rest else x ∷ rest

-- `parse_ovpn_protocols`; a path that is no file cannot be opened.
unfoldable pub parse_ovpn_protocols : File → List Text
unfolding distinct
parse_ovpn_protocols file = distinct (map (λ e. e.proto) (parse_ovpn_endpoints file))

-- `parse_ovpn_remote`
unfoldable pub parse_ovpn_remote : File → List (Text × ℕ)
parse_ovpn_remote file = map (λ e. (e.host, e.port)) (parse_ovpn_endpoints file)
