-- ===== src/Tests/Endpoints.antt =====
-- Endpoints and endpoint maps at concrete texts.
use target_facade.Base.{◌≡◌, ◌↔◌, refl, true, false, [], ◌∷◌, some, arith}
use target_facade.Base.Text.{
  WString, codes, equal, has, find, reverse_find, starts_with, trim_left, trim_right,
}
use target_facade.Base.Decimal.{decimal}
use target_facade.Base.SortedMap.{lookup, insert}
use target_facade.Base.SortedMap.Order.{before}
use target_facade.Status.{ok, err, e_endpoint}
use target_facade.Endpoint.{
  FacadeEndpoint, blank_endpoint, ipv6, dual, format, format_kind, parse_endpoint, parse_trimmed,
  parse_target, strip_slashes, tcp_scheme, is_scheme, parse_tcp, split_host, split_bracketed,
  split_plain, ranged, place_tcp, is_ipv6_literal, is_ipv6_any, is_any_host4, listen_family,
  dial_family, parse_named,
}
use target_facade.Endpoint.Scan.{scan_uint}
use target_facade.Endpoint.Canonical.{Canonical, parse_endpoint-Canonical}
use target_facade.Endpoint.RoundTrip.{parse-format}
use target_facade.Endpoint.Peer.{
  descendant, ancestor, classify_peer, is_pattern, is_swapped_peer_argument, has_part,
}
use target_facade.Endpoint.Peer.Tree.{Sits, classify_peer_iff, descendant-ancestor}
use target_facade.Endpoint.Map.{
  parsed, bad_line, parse_endpoint_map, read_lines, split_lines, read_line, split_entry, read_entry,
  add_entry, EndpointMap,
}
use target_facade.Endpoint.Map.Lines.{RefusedAt, parse_endpoint_map-RefusedAt}
use target_facade.Endpoint.Map.Entries.{IsDeployment, parse_endpoint_map-IsDeployment}
use target_facade.Tests.Sample.{sample, sample-IsPlatform}

abbrev v6_dial : WString
v6_dial = codes " TCP://[::1]:07788 "

abbrev v6_endpoint : FacadeEndpoint
v6_endpoint = record blank_endpoint { host = codes "::1"; num = 7788; family = ipv6 }

parse_v6 : parse_endpoint sample (some v6_dial) false blank_endpoint ≡ ok v6_endpoint
unfolding parse_endpoint parse_trimmed parse_target strip_slashes tcp_scheme is_scheme parse_tcp
    split_host split_bracketed ranged place_tcp is_ipv6_literal dial_family equal find trim_left
    trim_right scan_uint
parse_v6 = refl

parse_errors :
    (parse_endpoint sample (some (codes "tcp://::1:77")) false blank_endpoint ≡ err e_endpoint)
    × (parse_endpoint sample (some (codes "tcp://a:65536")) false blank_endpoint ≡ err e_endpoint)
    × (parse_endpoint sample (some (codes "tcp://10.0.0.7:77")) true blank_endpoint
        ≡ err e_endpoint)
    × (parse_endpoint sample (some (codes "tcp6://127.0.0.1:77")) false blank_endpoint
        ≡ err e_endpoint)
unfolding parse_endpoint parse_trimmed parse_target strip_slashes tcp_scheme is_scheme parse_tcp
    split_host split_plain ranged place_tcp is_any_host4 listen_family dial_family equal find
    reverse_find has trim_left trim_right scan_uint
parse_errors = (refl, refl, refl, refl)

listen_dual :
    parse_endpoint sample (some (codes "tcp://[::]:7788")) true blank_endpoint
    ≡ ok (record blank_endpoint { num = 7788; family = dual })
unfolding parse_endpoint parse_trimmed parse_target strip_slashes tcp_scheme is_scheme parse_tcp
    split_host split_bracketed ranged place_tcp is_ipv6_literal is_ipv6_any listen_family equal find
    trim_left trim_right scan_uint
listen_dual = refl

format_v6 : format v6_endpoint ≡ codes "tcp6://[::1]:7788"
unfolding format_kind has decimal
format_v6 = refl

parse-format_example :
    parse_endpoint sample (some (format v6_endpoint)) false blank_endpoint ≡ ok v6_endpoint
parse-format_example =
    parse-format sample sample-IsPlatform v6_dial false blank_endpoint blank_endpoint parse_v6

parse_endpoint-Canonical_example : Canonical sample false v6_endpoint
parse_endpoint-Canonical_example =
    parse_endpoint-Canonical sample sample-IsPlatform v6_dial false blank_endpoint parse_v6

classify_peer_iff_example :
    (classify_peer (some (codes "App")) (some (codes "App.B")) ≡ descendant)
    ↔ Sits (codes "App") (codes "App.B") descendant
unfolding is_pattern
classify_peer_iff_example =
    classify_peer_iff (codes "App") (codes "App.B") refl refl refl descendant

descendant-ancestor_example :
    (classify_peer (some (codes "App")) (some (codes "App.B")) ≡ descendant)
    ↔ (classify_peer (some (codes "App.B")) (some (codes "App")) ≡ ancestor)
unfolding is_pattern
descendant-ancestor_example = descendant-ancestor (codes "App") (codes "App.B") refl refl refl refl

abbrev map_text : WString
map_text = codes "# where they live\nApp.B = TCP://10.0.0.7:7788\n\nApp.A=dmx://svc=1"

abbrev map_parsed : EndpointMap
map_parsed =
    (codes "App.A", codes "dmx://svc=1") ∷ (codes "App.B", codes "tcp://10.0.0.7:7788") ∷ []

parse_map : parse_endpoint_map sample (some map_text) ≡ parsed map_parsed
unfolding parse_endpoint_map read_lines split_lines read_line split_entry read_entry add_entry
    is_swapped_peer_argument has_part starts_with lookup insert before format_kind decimal
    parse_endpoint parse_trimmed parse_target strip_slashes tcp_scheme is_scheme parse_tcp
    split_host split_plain ranged place_tcp dial_family parse_named equal find reverse_find has
    trim_left trim_right scan_uint
parse_map = refl

parse_endpoint_map-IsDeployment_example : IsDeployment sample map_parsed
parse_endpoint_map-IsDeployment_example =
    parse_endpoint_map-IsDeployment sample sample-IsPlatform (some map_text) parse_map

-- The second entry names the address of the first.
abbrev twice_text : WString
twice_text = codes "A = pipe://a\r\n; again\r\nA = pipe://b"

parse_twice : parse_endpoint_map sample (some twice_text) ≡ bad_line 3
unfolding parse_endpoint_map read_lines split_lines read_line split_entry read_entry add_entry
    is_swapped_peer_argument has_part starts_with lookup insert before format_kind parse_endpoint
    parse_trimmed parse_target strip_slashes tcp_scheme is_scheme parse_named equal find has
    trim_left trim_right
parse_twice = refl

parse_endpoint_map-RefusedAt_example : RefusedAt sample (split_lines twice_text) 3
unfolding split_lines
parse_endpoint_map-RefusedAt_example =
    parse_endpoint_map-RefusedAt sample twice_text (omega arith) parse_twice
