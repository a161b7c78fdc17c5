-- ===== src/Resolve.antt =====
-- What an omitted endpoint resolves to: FindHubLocked and ResolveDial of src/FacadeNetwork.cpp and
-- ResolveEndpoint of src/FacadeHub.cpp.
pub mod Rendezvous
use target_facade.Base.{Bool, true, false, ◌||◌, List, [], ◌∷◌, Option, none, some, if◌then◌else◌}
use target_facade.Base.Text.{WString, codes, equal, is_empty}
use target_facade.Status.{Result, ok, err, e_unresolved}
use target_facade.Platform.{Platform}
use target_facade.Endpoint.{
  Transport, tcp, pipe, dmx, serial, Family, ipv4, ipv6, dual, FacadeEndpoint, parse_endpoint,
}
use target_facade.Endpoint.Peer.{derive_dmx_service}
use target_facade.Endpoint.Map.{EndpointMap}
use target_facade.Deployment.{lookup_endpoint}
use target_facade.Hub.{Hub, armed_listener}

-- m_listHubs and m_mapEndpoints of a network.
pub record Network : Type 0 where
  pub hubs : List Hub
  pub endpoints : EndpointMap

unfoldable pub find_hub : WString → List Hub → Option Hub
find_hub address [] = none
find_hub address (h ∷ hs) = if equal h.address address then some h else find_hub address hs

unfoldable pub loopback_of : Family → WString
loopback_of ipv6 = codes "::1"
loopback_of _ = codes "127.0.0.1"

-- The dial that reaches a listener of this process.
unfoldable pub reach : Transport → FacadeEndpoint → FacadeEndpoint
reach tcp e = if is_empty e.host then record e { host = loopback_of e.family } else e
reach _ e = e

unfoldable pub reach_listener : Platform → WString → FacadeEndpoint → Result FacadeEndpoint
reach_listener p listener out =
    if is_empty listener
    then err e_unresolved
    else elim (parse_endpoint p (some listener) true out) [
      | err code ↦ err code
      | ok e ↦ ok (reach e.kind e)
    ]

unfoldable pub resolve_dial :
    Platform → WString → WString → FacadeEndpoint → Network → Result FacadeEndpoint
resolve_dial p peer dialer out net =
    if is_empty peer || is_empty dialer then err e_unresolved else elim (find_hub peer net.hubs) [
      | none ↦ err e_unresolved
      | some h ↦ reach_listener p (armed_listener dialer h) out
    ]

abbrev pub without_host : Bool → FacadeEndpoint → FacadeEndpoint
without_host true e = record e { host = [] }
without_host false e = e

abbrev pub stamp : Result FacadeEndpoint → Result FacadeEndpoint
stamp (err code) = err code
stamp (ok e) = ok (record e { derived = true })

-- The in-process convention.
unfoldable pub resolve_in_process :
    Platform → Option Network → Hub → WString → Bool → FacadeEndpoint → Result FacadeEndpoint
resolve_in_process p owner h peer true out =
    ok (record out { kind = dmx; name = derive_dmx_service h.address peer; derived = true })
resolve_in_process p none h peer false out = err e_unresolved
resolve_in_process p (some net) h peer false out = stamp (resolve_dial p peer h.address out net)

abbrev pub whose : Hub → WString → Bool → WString
whose h peer true = h.address
whose h peer false = peer

abbrev pub configured :
    Platform → Option Network → Hub → WString → Bool → FacadeEndpoint → Result FacadeEndpoint
configured p none h peer listen out = err e_unresolved
configured p (some net) h peer listen out =
    lookup_endpoint p (some (whose h peer listen)) out net.endpoints

-- The deployment map first, then the in-process convention. A failed lookup of an address without
-- an entry leaves the caller's endpoint as it was.
unfoldable pub resolve_endpoint :
    Platform → Option Network → Hub → WString → Bool → FacadeEndpoint → Result FacadeEndpoint
resolve_endpoint p owner h peer listen out =
    if is_empty h.address then err e_unresolved else elim (configured p owner h peer listen out) [
      | ok e ↦ ok (without_host listen e)
      | err code ↦ resolve_in_process p owner h peer listen out
    ]
