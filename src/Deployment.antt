-- ===== src/Deployment.antt =====
-- The deployment map that a network keeps: SetEndpoint, SetEndpointMap, GetEndpointFor and
-- LookupEndpoint of src/FacadeNetwork.cpp. The lock m_oCSection makes each of them one step.
pub mod Calls
use target_facade.Base.{
  ℕ, Bool, true, false, ◌||◌, List, [], ◌∷◌, Option, none, some, if◌then◌else◌,
}
use target_facade.Base.Text.{WString, is_empty}
use target_facade.Base.SortedMap.{lookup, insert, erase}
use target_facade.Status.{
  HResult, s_ok, e_pointer, e_invalid_arg, e_endpoint, e_unresolved, Result, ok, err,
}
use target_facade.Platform.{Platform}
use target_facade.CopyOut.{Copied, copy_out}
use target_facade.Endpoint.{FacadeEndpoint, blank_endpoint, format, parse_endpoint}
use target_facade.Endpoint.Peer.{is_swapped_peer_argument}
use target_facade.Endpoint.Map.{
  EndpointMap, MapResult, parsed, bad_line, parse_endpoint_map, is_serial,
}

-- What stands behind the parse of an endpoint that is to be stored.
unfoldable pub store_endpoint :
    WString → Result FacadeEndpoint → EndpointMap → HResult × EndpointMap
store_endpoint address (err code) m = (code, m)
store_endpoint address (ok e) m =
    if is_serial e.kind then (e_endpoint, m) else (s_ok, insert address (format e) m)

-- `!endpoint || !*endpoint` removes the entry; none is a NULL argument.
unfoldable pub change_entry :
    Platform → WString → Option WString → EndpointMap → HResult × EndpointMap
change_entry p address none m = (s_ok, erase address m)
change_entry p address (some endpoint) m =
    if is_empty endpoint
    then (s_ok, erase address m)
    else store_endpoint address (parse_endpoint p (some endpoint) false blank_endpoint) m

unfoldable pub set_endpoint :
    Platform → Option WString → Option WString → EndpointMap → HResult × EndpointMap
set_endpoint p none endpoint m = (e_pointer, m)
set_endpoint p (some address) endpoint m =
    if is_empty address || is_swapped_peer_argument (some address)
    then (e_invalid_arg, m)
    else change_entry p address endpoint m

-- The code, what stands in the caller's badLine, and the map.
unfoldable pub swap_map : MapResult → EndpointMap → HResult × ℕ × EndpointMap
swap_map (parsed fresh) m = (s_ok, 0, fresh)
swap_map (bad_line n) m = (e_endpoint, n, m)

unfoldable pub set_endpoint_map :
    Platform → Option WString → EndpointMap → HResult × ℕ × EndpointMap
set_endpoint_map p text m = swap_map (parse_endpoint_map p text) m

abbrev pub copy_entry : Option WString → Option WString → Option ℕ → Copied
copy_entry none buf cch = record { status = e_unresolved; buf = buf; size = cch }
copy_entry (some value) buf cch = copy_out value buf cch

unfoldable pub get_endpoint_for : Option WString → Option WString → Option ℕ → EndpointMap → Copied
get_endpoint_for none buf cch m = record { status = e_invalid_arg; buf = buf; size = cch }
get_endpoint_for (some address) buf cch m =
    if is_empty address
    then record { status = e_invalid_arg; buf = buf; size = cch }
    else copy_entry (lookup address m) buf cch

abbrev pub parse_entry : Platform → Option WString → FacadeEndpoint → Result FacadeEndpoint
parse_entry p none out = err e_unresolved
parse_entry p (some value) out = parse_endpoint p (some value) false out

-- The endpoint under an address, written over `out`.
unfoldable pub lookup_endpoint :
    Platform → Option WString → FacadeEndpoint → EndpointMap → Result FacadeEndpoint
lookup_endpoint p none out m = err e_unresolved
lookup_endpoint p (some address) out m =
    if is_empty address then err e_unresolved else parse_entry p (lookup address m) out

-- The calls that change the map.
pub data SetCall : Type 0 where
  one_call : Option WString → Option WString → SetCall
  map_call : Option WString → SetCall

unfoldable pub set_call : Platform → SetCall → EndpointMap → HResult × EndpointMap
set_call p (one_call address endpoint) m = set_endpoint p address endpoint m
set_call p (map_call text) m = let r = set_endpoint_map p text m in (r.0, r.2)

abbrev pub run_sets : Platform → List SetCall → EndpointMap → EndpointMap
run_sets p [] m = m
run_sets p (c ∷ cs) m = run_sets p cs (set_call p c m).1
