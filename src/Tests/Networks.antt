-- ===== src/Tests/Networks.antt =====
-- The deployment map and the resolution of an omitted endpoint, at concrete calls.
use target_facade.Base.{◌≡◌, ◌≢◌, refl, true, false, List, [], ◌∷◌, none, some}
use target_facade.Base.Text.{
  WString, codes, equal, has, find, reverse_find, trim_left, trim_right, starts_with,
}
use target_facade.Base.SortedMap.{lookup, insert}
use target_facade.Status.{ok, err, e_unresolved}
use target_facade.Endpoint.{
  FacadeEndpoint, blank_endpoint, tcp, dmx, ipv6, format, format_kind, family_scheme,
  parse_endpoint, parse_trimmed, parse_target, strip_slashes, tcp_scheme, is_scheme, parse_tcp,
  split_host, split_plain, split_bracketed, ranged, place_tcp, is_ipv6_literal, dial_family,
  parse_named, parse_serial,
}
use target_facade.Endpoint.Scan.{scan_uint}
use target_facade.Endpoint.Canonical.{Canonical, parse_endpoint-Canonical}
use target_facade.Endpoint.Peer.{is_swapped_peer_argument, has_part, derive_dmx_service}
use target_facade.Endpoint.Map.{EndpointMap, is_serial}
use target_facade.Endpoint.Map.Entries.{IsDeployment}
use target_facade.Deployment.{
  SetCall, one_call, run_sets, set_endpoint, change_entry, store_endpoint, set_call,
  lookup_endpoint,
}
use target_facade.Deployment.Calls.{
  run_sets-IsDeployment, lookup_endpoint_total, lookup_endpoint-set_endpoint,
}
use target_facade.Hub.{Hub, new_hub}
use target_facade.Resolve.{Network, find_hub, resolve_endpoint}
use target_facade.Resolve.Rendezvous.{resolve_endpoint-meets}
use target_facade.Tests.Sample.{sample, sample-IsPlatform}

abbrev dial_text : WString
dial_text = codes "dmx://svc"

abbrev dial_endpoint : FacadeEndpoint
dial_endpoint = record blank_endpoint { kind = dmx; name = codes "svc" }

parse_dial : parse_endpoint sample (some dial_text) false blank_endpoint ≡ ok dial_endpoint
unfolding parse_endpoint parse_trimmed parse_target strip_slashes tcp_scheme is_scheme parse_named
    equal find trim_left trim_right
parse_dial = refl

abbrev two_calls : List SetCall
two_calls =
    one_call (some (codes "App.A")) (some dial_text)
    ∷ one_call (some (codes "App:B")) (some dial_text)
    ∷ []

abbrev one_entry : EndpointMap
one_entry = (codes "App.A", dial_text) ∷ []

run_two : run_sets sample two_calls [] ≡ one_entry
unfolding set_call set_endpoint change_entry store_endpoint is_swapped_peer_argument has has_part
    starts_with insert format_kind parse_endpoint parse_trimmed parse_target strip_slashes
    tcp_scheme is_scheme parse_named equal find trim_left trim_right
run_two = refl

run_sets-IsDeployment_example : IsDeployment sample (run_sets sample two_calls [])
run_sets-IsDeployment_example = run_sets-IsDeployment sample sample-IsPlatform two_calls

lookup_endpoint_total_example :
    (lookup (codes "App.A") (run_sets sample two_calls []) ≡ none
      → lookup_endpoint sample (some (codes "App.A")) blank_endpoint (run_sets sample two_calls [])
        ≡ err e_unresolved)
    × ((value : WString)
        → lookup (codes "App.A") (run_sets sample two_calls []) ≡ some value
        → (e : FacadeEndpoint) × (lookup_endpoint sample
              (some (codes "App.A"))
              blank_endpoint
              (run_sets sample two_calls [])
            ≡ ok e)
          × (format e ≡ value)
          × Canonical sample false e
          × (is_serial e.kind ≡ false))
lookup_endpoint_total_example =
    lookup_endpoint_total sample sample-IsPlatform (run_sets sample two_calls []) (codes "App.A")
      blank_endpoint (run_sets-IsDeployment sample sample-IsPlatform two_calls) refl

lookup_endpoint-set_endpoint_example :
    (lookup_endpoint sample (some (codes "App.A")) blank_endpoint one_entry ≡ ok dial_endpoint)
    × ((other : WString) → other ≢ codes "App.A" → lookup other one_entry ≡ lookup other [])
unfolding set_endpoint change_entry store_endpoint is_swapped_peer_argument has has_part starts_with
    insert format_kind parse_endpoint parse_trimmed parse_target strip_slashes tcp_scheme is_scheme
    parse_named equal find trim_left trim_right
lookup_endpoint-set_endpoint_example =
    lookup_endpoint-set_endpoint sample sample-IsPlatform [] one_entry (codes "App.A") dial_text
      dial_endpoint blank_endpoint refl parse_dial refl

abbrev tcp_listen : FacadeEndpoint
tcp_listen = record blank_endpoint { num = 7788; family = ipv6 }

parse_listen :
    parse_endpoint sample (some (codes "tcp6://:7788")) true blank_endpoint ≡ ok tcp_listen
unfolding parse_endpoint parse_trimmed parse_target strip_slashes tcp_scheme is_scheme parse_tcp
    split_host split_plain ranged place_tcp target_facade.Endpoint.listen_family
    target_facade.Endpoint.is_any_host4 equal find reverse_find has trim_left trim_right scan_uint
parse_listen = refl

abbrev server : Hub
server = record (new_hub (codes "App") false false) {
  armed = (codes "App.B", record { endpoint = codes "tcp6://:7788"; listen = true }) ∷ [];
}

abbrev with_server : Network
with_server = record { hubs = server ∷ []; endpoints = [] }

abbrev service : FacadeEndpoint
service = record blank_endpoint { kind = dmx; name = codes "P2PF|App|App.B"; derived = true }

parse_service :
    parse_endpoint sample
      (some (codes "dmx://P2PF|App|App.B"))
      true
      (record blank_endpoint { derived = true })
    ≡ ok service
unfolding parse_endpoint parse_trimmed parse_target strip_slashes tcp_scheme is_scheme parse_named
    equal find trim_left trim_right
parse_service = refl

abbrev listening : Hub
listening = record (new_hub (codes "App") false false) {
  armed = (codes "App.B", record { endpoint = codes "dmx://P2PF|App|App.B"; listen = true }) ∷ [];
}

resolve_endpoint-meets_example :
    (resolve_endpoint sample
        (some (record { hubs = []; endpoints = [] }))
        (new_hub (codes "App") false false)
        (codes "App.B")
        true
        blank_endpoint
      ≡ ok service)
    × (resolve_endpoint sample
          (some (record { hubs = listening ∷ []; endpoints = [] }))
          (new_hub (codes "App.B") false false)
          (codes "App")
          false
          blank_endpoint
        ≡ ok service)
unfolding find_hub lookup insert equal format_kind derive_dmx_service
resolve_endpoint-meets_example =
    resolve_endpoint-meets sample sample-IsPlatform (new_hub (codes "App") false false)
      (new_hub (codes "App.B") false false) (record { hubs = []; endpoints = [] })
      (record { hubs = listening ∷ []; endpoints = [] }) refl refl refl refl
      (parse_endpoint-Canonical sample sample-IsPlatform (codes "dmx://P2PF|App|App.B") true
        (record blank_endpoint { derived = true }) parse_service)
      refl
