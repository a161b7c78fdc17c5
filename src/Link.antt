-- ===== src/Link.antt =====
-- Both ends of one in-process edge: FacadeNetwork::Link of src/FacadeNetwork.cpp.
--
-- Each hub has a kernel state and a policy of its own; the files are those of the process. Link
-- holds m_oCSection from the lookup of the hubs on, so nothing but the pumps runs meanwhile.
pub mod Atomic
pub mod Armed
use target_facade.Base.{
  ℕ, ◌≡◌, Bool, true, false, not, ◌&&◌, ◌||◌, List, [], ◌∷◌, Option, none, some, if◌then◌else◌,
}
use target_facade.Base.Text.{WString, equal, is_empty}
use target_facade.Status.{
  HResult, s_ok, s_unrelated_link, e_pointer, e_invalid_arg, e_endpoint, e_no_hub, e_con_duplicate,
  e_security, e_link_partial, failed, Result, err, ok,
}
use target_facade.Platform.{Platform}
use target_facade.Endpoint.{
  Transport, tcp, pipe, dmx, serial, FacadeEndpoint, blank_endpoint, parse_endpoint,
}
use target_facade.Endpoint.Peer.{derive_dmx_service, is_swapped_peer_argument}
use target_facade.Hub.{Hub}
use target_facade.Hub.Kernel.{Kernel}
use target_facade.Hub.Arming.{arm_resolved, close_con}
use target_facade.Security.Facilities.{Policy}
use target_facade.Security.Directory.{KeyDirectory}
use target_facade.Security.Edge.{Side, secure_edge}
use target_facade.Security.Arm.{Node}

-- What the two ends are armed with.
pub record Ends : Type 0 where
  pub listen : FacadeEndpoint
  pub dial : FacadeEndpoint

abbrev ends_of : Transport → FacadeEndpoint → Result Ends
ends_of serial dial = err e_endpoint
ends_of _ dial = ok (record { listen = record dial { host = [] }; dial = dial })

abbrev derived_end : WString → WString → FacadeEndpoint
derived_end listener dialer = record blank_endpoint {
  kind = dmx;
  name = derive_dmx_service listener dialer;
  derived = true;
}

abbrev derived_ends : WString → WString → Ends
derived_ends listener dialer = record {
  listen = derived_end listener dialer;
  dial = derived_end listener dialer;
}

unfoldable pub link_ends : Platform → WString → WString → Option WString → Result Ends
link_ends w listener dialer none = ok (derived_ends listener dialer)
link_ends w listener dialer (some []) = ok (derived_ends listener dialer)
link_ends w listener dialer (some (c ∷ s)) =
    elim (parse_endpoint w (some (c ∷ s)) false blank_endpoint) [
      | err code ↦ err code
      | ok dial ↦ ends_of dial.kind dial
    ]

abbrev pub is_unrelated : HResult → Bool
is_unrelated s_unrelated_link = true
is_unrelated _ = false

abbrev pub unwind_slices : ℕ
unwind_slices = 40

module _ (k : Kernel) (p : Policy) where
  -- The two hubs of an edge, the listener first.
  pub record Pair : Type 0 where
    pub a : Node k p
    pub b : Node k p

  -- What the process keeps beside the hubs.
  pub record Shared : Type 0 where
    pub dirs : KeyDirectory
    pub disk : p.Disk

  -- Whether either hub has a connection to the other; none when ConExists throws.
  unfoldable pub edge_exists : WString → WString → Pair → Option Bool
  edge_exists listener dialer q = elim (k.con_exists dialer q.a.state) [
    | none ↦ none
    | some true ↦ some true
    | some false ↦ k.con_exists listener q.b.state
  ]

  -- The dialer refused: the listener is retracted.
  unfoldable pub unwind : WString → HResult → Pair → HResult × Pair
  unwind dialer code q =
      let c = close_con k dialer unwind_slices q.a.hub q.a.state in
      (if c.0 then code else e_link_partial, record q { a = record q.a { hub = c.1; state = c.2 } })

  unfoldable pub arm_dialer : WString → WString → FacadeEndpoint → HResult → Pair → HResult × Pair
  arm_dialer listener dialer dial listened q =
      let r = arm_resolved k (some listener) dial false q.b.hub q.b.state in
      let q' : Pair = record q { b = record q.b { hub = r.1; state = r.2 } } in
      if failed r.0
      then unwind dialer r.0 q'
      else (if is_unrelated listened || is_unrelated r.0 then s_unrelated_link else s_ok, q')

  unfoldable pub arm_edge : WString → WString → Ends → Pair → HResult × Pair
  arm_edge listener dialer ends q =
      let l = arm_resolved k (some dialer) ends.listen true q.a.hub q.a.state in
      let q' : Pair = record q { a = record q.a { hub = l.1; state = l.2 } } in
      if failed l.0 then (l.0, q') else arm_dialer listener dialer ends.dial l.0 q'

  -- The allow-lists and enforcement of two secure hubs.
  unfoldable pub secure_pair : Pair → Shared → HResult × Pair × Shared
  secure_pair q s =
      let a : Side p = record { hub = q.a.hub; auth = q.a.auth } in
      let b : Side p = record { hub = q.b.hub; auth = q.b.auth } in
      let r = secure_edge p s.dirs a b s.disk in
      (
        r.0,
        record {
          a = record q.a { hub = r.1.hub; auth = r.1.auth };
          b = record q.b { hub = r.2.hub; auth = r.2.auth };
        },
        record { dirs = r.4; disk = r.3 },
      )

  -- both secure or neither, by whether the listener and the dialer are
  unfoldable pub link_by :
      Bool → Bool → WString → WString → Ends → Pair → Shared → HResult × Pair × Shared
  link_by false false listener dialer ends q s =
      let r = arm_edge listener dialer ends q in (r.0, r.1, s)
  link_by true true listener dialer ends q s =
      let secured = secure_pair q s in
      let r = arm_edge listener dialer ends secured.1 in
      if failed secured.0 then secured else (r.0, r.1, secured.2)
  link_by _ b listener dialer ends q s = (e_security, q, s)

  -- Link, with both hubs found.
  unfoldable pub link_hubs :
      WString → WString → Ends → Pair → Shared → Option HResult × Pair × Shared
  link_hubs listener dialer ends q s =
      let r = link_by q.a.hub.secure q.b.hub.secure listener dialer ends q s in
      elim (edge_exists listener dialer q) [
        | none ↦ (none, q, s)
        | some true ↦ (some e_con_duplicate, q, s)
        | some false ↦ (some r.0, r.1, r.2)
      ]

  unfoldable pub find_node : WString → List (Node k p) → Option (Node k p)
  find_node address [] = none
  find_node address (n ∷ ns) = if equal n.hub.address address then some n else find_node address ns

  -- The hub that was found is the one object of the list: its new state stands in its place.
  unfoldable pub put_node : WString → Node k p → List (Node k p) → List (Node k p)
  put_node address m [] = []
  put_node address m (n ∷ ns) =
      let rest = n ∷ put_node address m ns in if equal n.hub.address address then m ∷ ns else rest

  abbrev pub link_found :
      WString
      → WString
      → Ends
      → Option (Node k p)
      → Option (Node k p)
      → List (Node k p)
      → Shared
      → Option HResult × List (Node k p) × Shared
  link_found listener dialer ends (some a) (some b) ns s =
      let r = link_hubs listener dialer ends (record { a = a; b = b }) s in
      (r.0, put_node listener r.1.a (put_node dialer r.1.b ns), r.2)
  link_found listener dialer ends _ b ns s = (some e_no_hub, ns, s)

  abbrev pub link_named :
      Platform
      → WString
      → WString
      → Option WString
      → List (Node k p)
      → Shared
      → Option HResult × List (Node k p) × Shared
  link_named w listener dialer endpoint ns s =
      if is_empty listener || is_empty dialer
      then (some e_invalid_arg, ns, s)
      else if equal listener dialer
      then (some e_invalid_arg, ns, s)
      else if is_swapped_peer_argument (some listener) || is_swapped_peer_argument (some dialer)
      then (some e_invalid_arg, ns, s)
      else elim (link_ends w listener dialer endpoint) [
        | err code ↦ (some code, ns, s)
        | ok ends ↦
            link_found listener dialer ends (find_node listener ns) (find_node dialer ns) ns s
      ]

  -- Link; none when a call of the kernel throws out of it.
  unfoldable pub link :
      Platform
      → Option WString
      → Option WString
      → Option WString
      → List (Node k p)
      → Shared
      → Option HResult × List (Node k p) × Shared
  link w (some listener) (some dialer) endpoint ns s = link_named w listener dialer endpoint ns s
  link w _ dialer endpoint ns s = (some e_pointer, ns, s)
