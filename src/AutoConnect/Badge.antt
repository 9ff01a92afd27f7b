-- ===== src/AutoConnect/Badge.antt =====
-- `format_proto_badge` and `proto_badge_css` of eovpn/auto_connect.py. A set of transports is a
-- list of the texts that `normalize_proto` gives.
use e_ovpn_pro.Base.{Text, codes, same, any, List, [], Bool, ◌&&◌, if◌then◌else◌}

abbrev pub proto_tcp : Text
proto_tcp = codes "tcp"

abbrev pub proto_udp : Text
proto_udp = codes "udp"

abbrev pub proto_all : Text
proto_all = codes "all"

abbrev pub member : Text → List Text → Bool
member p protocols = any (same p) protocols

unfoldable pub format_proto_badge : List Text → Text
format_proto_badge protos =
    let has_tcp = member proto_tcp protos in
    let has_udp = member proto_udp protos in
    if has_tcp && has_udp
    then codes "TCP/UDP"
    else if has_tcp
    then codes "TCP"
    else if has_udp
    then codes "UDP"
    else []

unfoldable pub proto_badge_css : List Text → Text
proto_badge_css protos =
    let has_tcp = member proto_tcp protos in
    let has_udp = member proto_udp protos in
    if has_tcp && has_udp
    then codes "proto-both"
    else if has_tcp
    then codes "proto-tcp"
    else if has_udp
    then codes "proto-udp"
    else []
