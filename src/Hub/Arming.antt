-- ===== src/Hub/Arming.antt =====
-- Arming and retiring a connection: MakeCon, PostCon, ArmRecorded, ArmResolved, CloseCon and
-- Disconnect of src/FacadeHub.cpp, over the kernel's calls.
pub mod Records
pub mod Retire
pub mod Disconnect
use target_facade.Base.{
  ℕ, zero, suc, ◌%◌, ◌^◌, Bool, true, false, not, ◌&&◌, ◌||◌, [], ◌∷◌, ◌++◌, List, Option, none,
  some, if◌then◌else◌,
}
use target_facade.Base.Text.{WString, codes, is_empty}
use target_facade.Base.SortedMap.{lookup, insert, erase}
use target_facade.Status.{
  HResult, s_ok, s_false, s_unrelated_link, e_pointer, e_invalid_arg, e_con_factory,
  e_con_duplicate, e_no_peer, e_pump_thread, e_closed, failed,
}
use target_facade.Endpoint.{
  Transport, tcp, pipe, dmx, serial, Family, ipv4, ipv6, dual, FacadeEndpoint, format,
}
use target_facade.Endpoint.Peer.{
  Relation, self, descendant, ancestor, unrelated, pattern_peer, classify_peer,
  is_swapped_peer_argument,
}
use target_facade.Hub.{
  Hub, ArmedCon, mark_peer, is_peer_up, on_callbacks, raise_event, evt_unrelated_link,
}
use target_facade.Hub.Pump.{wait_slice}
use target_facade.Hub.Kernel.{
  Factory, wsa_service, wsa_retry_dial, pipe_service, pipe_retry_dial, dmx_service, dmx_dial,
  dmx_retry_dial, serial_service, serial_client, Kernel,
}

-- The factory call that MakeCon makes.
unfoldable pub factory_of : Transport → FacadeEndpoint → WString → Bool → Factory
factory_of tcp e peer true = wsa_service peer (e.num % 2 ^ 16)
factory_of tcp e peer false = wsa_retry_dial peer e.host (e.num % 2 ^ 16)
factory_of pipe e peer true = pipe_service peer e.name
factory_of pipe e peer false = pipe_retry_dial peer e.name
factory_of dmx e peer true = dmx_service peer e.name
factory_of dmx e peer false = if e.derived then dmx_retry_dial peer e.name else dmx_dial peer e.name
factory_of serial e peer true = serial_service peer (e.num % 2 ^ 16)
factory_of serial e peer false = serial_client peer (e.num % 2 ^ 16)

-- The family that MakeCon sets on a tcp connection; IPv4 is the kernel's own.
unfoldable pub family_to_set : Transport → Family → Option Family
family_to_set tcp ipv4 = none
family_to_set tcp ipv6 = some ipv6
family_to_set tcp dual = some dual
family_to_set _ family = none

abbrev pub unrelated_text : WString → WString → WString
unrelated_text address peer =
    codes "TargetFacade: '"
    ++ (address
        ++ (codes "' and peer '"
            ++ (peer
                ++ codes
                    "' are neither ancestor nor descendant. The link is armed and carries direct traffic, but nothing can be ROUTED through it and a broadcast will not relay beyond it.")))

-- What ArmRecorded puts back when the post is refused.
abbrev pub restore : WString → Option ArmedCon → Hub → Hub
restore peer none h = record h { armed = erase peer h.armed }
restore peer (some old) h = record h { armed = insert peer old h.armed }

abbrev pub record_arm : WString → FacadeEndpoint → Bool → Hub → Hub
record_arm peer e listen h = record h {
  armed = insert peer (record { endpoint = format e; listen = listen }) h.armed;
}

-- What ArmResolved says of a link that is armed.
unfoldable pub report_relation : Relation → WString → Hub → HResult × Hub
report_relation unrelated peer h =
    (s_unrelated_link, raise_event evt_unrelated_link peer (unrelated_text h.address peer) h)
report_relation _ peer h = (s_ok, h)

abbrev pub drop_record : WString → Hub → Hub
drop_record peer h = record h { armed = erase peer h.armed }

-- m_setUnretired, behind a CloseCon that did or did not see the connection leave
abbrev pub note_retired : WString → Bool → Hub → Hub
note_retired peer true h = record h { unretired = erase peer h.unretired }
note_retired peer false h = record h { unretired = insert peer tt h.unretired }

-- `if ( bWasUp ) MarkPeer ( peer, false )`
abbrev pub mark_lost : WString → Bool → Hub → Hub
mark_lost peer true h = mark_peer peer false h
mark_lost peer false h = h

abbrev pub retire_slices : ℕ
retire_slices = 120

module _ (k : Kernel) where
  abbrev pub with_family : Option Family → k.Con → k.Con
  with_family none con = con
  with_family (some family) con = k.set_family family con

  unfoldable pub make_con : FacadeEndpoint → WString → Bool → k.State → Option k.Con
  make_con e peer listen st = elim (k.make (factory_of e.kind e peer listen) st) [
    | none ↦ none
    | some con ↦ some (with_family (family_to_set e.kind e.family) con)
  ]

  -- PostCon, with the callbacks that arrive on the hub before it returns.
  unfoldable pub post : Option k.Con → Hub → k.State → HResult × Hub × k.State
  post none h st = (e_con_factory, h, st)
  post (some con) h st =
      let r = k.post_con (k.route_all con) st in
      (if r.0 then s_ok else e_con_duplicate, on_callbacks r.1 h, r.2)

  unfoldable pub arm_recorded :
      WString → FacadeEndpoint → Bool → Hub → k.State → HResult × Hub × k.State
  arm_recorded peer e listen h st =
      let r = post (make_con e peer listen st) (record_arm peer e listen h) st in
      if failed r.0 then (r.0, restore peer (lookup peer h.armed) r.1, r.2) else r

  abbrev pub arm_related :
      Relation → WString → FacadeEndpoint → Bool → Hub → k.State → HResult × Hub × k.State
  arm_related self peer e listen h st = (e_invalid_arg, h, st)
  arm_related relation peer e listen h st =
      let r = arm_recorded peer e listen h st in
      let said = report_relation relation peer r.1 in
      if failed r.0 then r else (said.0, said.1, r.2)

  unfoldable pub arm_resolved :
      Option WString → FacadeEndpoint → Bool → Hub → k.State → HResult × Hub × k.State
  arm_resolved none e listen h st = (e_pointer, h, st)
  arm_resolved (some peer) e listen h st =
      if is_empty peer || is_swapped_peer_argument (some peer)
      then (e_invalid_arg, h, st)
      else arm_related (classify_peer (some h.address) (some peer)) peer e listen h st

  -- The wait of CloseCon, for at most so many slices: whether the connection left.
  unfoldable pub await_gone : ℕ → WString → Hub → k.State → Bool × Hub × k.State
  await_gone zero peer h st = (false, h, st)
  await_gone (suc n) peer h st = elim (k.con_exists peer st) [
    | none ↦ (true, h, st)
    | some false ↦ (true, h, st)
    | some true ↦ let w = wait_slice k h st in await_gone n peer w.0 w.1
  ]

  unfoldable pub close_con : WString → ℕ → Hub → k.State → Bool × Hub × k.State
  close_con peer slices h st =
      let r = k.con_destroy peer st in
      let signalled = on_callbacks r.1 (drop_record peer h) in
      let waited = await_gone slices peer signalled r.2 in
      if is_empty peer then (false, h, st) else if r.0 then waited else (true, signalled, r.2)

  abbrev pub retire : WString → Hub → k.State → HResult × Hub × k.State
  retire peer h st =
      let r = close_con peer retire_slices h st in
      (
        if r.0 then s_ok else s_false,
        note_retired peer r.0 (mark_lost peer (is_peer_up (some peer) h) r.1),
        r.2,
      )

  unfoldable pub disconnect : Option WString → Hub → k.State → HResult × Hub × k.State
  disconnect none h st = (e_pointer, h, st)
  disconnect (some peer) h st =
      if is_empty peer
      then (e_invalid_arg, h, st)
      else if not h.caller_pumped && k.owns_pump st
      then (e_pump_thread, h, st)
      else elim (k.con_exists peer st) [
        | none ↦ (e_closed, h, st)
        | some false ↦ (e_no_peer, h, st)
        | some true ↦ retire peer h st
      ]
