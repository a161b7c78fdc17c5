-- ===== src/Tests/Hubs.antt =====
-- Hubs over a kernel that can be run: a list of the peers that have a connection.
use target_facade.Base.{
  arith, zero, ◌≡◌, ◌≢◌, ◌↔◌, refl, Bool, true, false, ◌||◌, List, [], ◌∷◌, none, some,
  if◌then◌else◌,
}
use target_facade.Base.Text.{WString, codes, equal, has, starts_with}
use target_facade.Base.SortedMap.{lookup, insert, erase, IsSorted}
use target_facade.Status.{s_ok, s_false, s_unrelated_link, e_closed}
use target_facade.Endpoint.{FacadeEndpoint, blank_endpoint, dmx, format}
use target_facade.Endpoint.Peer.{
  classify_peer, is_pattern, is_below, is_swapped_peer_argument, has_part, unrelated,
}
use target_facade.Hub.{Hub, con_login, con_login_ack, con_close, new_hub, on_callbacks, is_peer_up}
use target_facade.Hub.Peers.{follow_all, on_callbacks-follow}
use target_facade.Hub.Kernel.{
  Kernel, Factory, turned, other_signal, wsa_service, wsa_retry_dial, pipe_service, pipe_retry_dial,
  dmx_service, dmx_dial, dmx_retry_dial, serial_service, serial_client,
}
use target_facade.Hub.Arming.{
  arm_resolved, arm_recorded, post, make_con, factory_of, family_to_set, report_relation,
  disconnect, close_con, await_gone,
}
use target_facade.Hub.Arming.Records.{arm_resolved-failed, arm_resolved-armed}
use target_facade.Hub.Arming.Retire.{LeavesWithin, close_con-LeavesWithin}
use target_facade.Hub.Arming.Disconnect.{disconnect-outcome}
use target_facade.Hub.Pump.{pump, pump_once, read_turn, wait_slice}
use target_facade.Hub.Pump.Latch.{pump-closed}
use target_facade.Hub.Drain.{
  drain_cons, drain_set, add_up, add_armed, add_names, any_left, await_drained,
}
use target_facade.Hub.Drain.Gone.{drain_cons-gone}
use target_facade.Hub.Sending.{read_frame, broadcast_frame}
use target_facade.Hub.Sending.Frames.{read_frame-broadcast_frame}
use target_facade.Hub.History.{
  HubCall, arm_call, disconnect_call, wait_call, hub_calls, known_of, learn_all,
  hub_calls-learn_all,
}
use target_facade.Hub.ReadSide.{snapshot_cons}
use target_facade.Hub.ReadSide.Snapshot.{IsRow, snapshot_cons-rows}

abbrev listed : WString → List WString → Bool
listed peer [] = false
listed peer (p ∷ ps) = equal p peer || listed peer ps

abbrev peer_of : Factory → WString
peer_of (wsa_service peer port) = peer
peer_of (wsa_retry_dial peer host port) = peer
peer_of (pipe_service peer name) = peer
peer_of (pipe_retry_dial peer name) = peer
peer_of (dmx_service peer name) = peer
peer_of (dmx_dial peer name) = peer
peer_of (dmx_retry_dial peer name) = peer
peer_of (serial_service peer port) = peer
peer_of (serial_client peer port) = peer

-- It refuses a second connection to a peer, logs a posted one in at once, and drops every
-- connection in a slice; a pump that is run from outside has stopped.
abbrev pub sample_kernel : Kernel
sample_kernel = record {
  State = List WString;
  Con = WString;
  make = λ f st. some (peer_of f);
  set_family = λ family con. con;
  route_all = λ con. con;
  post_con =
      λ con st. if listed con st then (false, [], st) else (true, con_login con ∷ [], con ∷ st);
  con_exists = λ peer st. some (listed peer st);
  con_destroy = λ peer st. (true, [], st);
  sleep = λ millisecs st. ([], []);
  pump_msg = λ millisecs st. (turned zero other_signal, [], st);
  pump_timeout = 1;
  signal_all = λ destroy st. ([], []);
  owns_pump = λ st. false;
  post_msg = λ post st. (true, [], post.dest ∷ st);
}

abbrev hub : Hub
hub = new_hub (codes "App") false false

abbrev peer : WString
peer = codes "App.B"

abbrev at : FacadeEndpoint
at = record blank_endpoint { kind = dmx; name = codes "svc" }

abbrev armed_hub : Hub
armed_hub = record hub {
  armed = (peer, record { endpoint = codes "dmx://svc"; listen = true }) ∷ [];
  peers = (peer, true) ∷ [];
}

on_callbacks-follow_example :
    let h = on_callbacks (con_login peer ∷ con_login_ack peer ∷ con_close peer none ∷ []) hub in
    follow_all peer (some false) h.heard ≡ some (is_peer_up (some peer) h)
on_callbacks-follow_example =
    on_callbacks-follow (con_login peer ∷ con_login_ack peer ∷ con_close peer none ∷ [])
      (codes "App") peer false false

arm_resolved-failed_example :
    (arm_resolved sample_kernel (some peer) at false armed_hub (peer ∷ [])).1.armed
    ≡ armed_hub.armed
unfolding arm_resolved arm_recorded post make_con factory_of family_to_set classify_peer is_pattern
    is_below is_swapped_peer_argument has_part starts_with has equal report_relation
arm_resolved-failed_example =
    arm_resolved-failed sample_kernel (some peer) at false armed_hub (peer ∷ []) (tt, tt) refl

arm_resolved-armed_example :
    ((other : WString)
      → lookup other (arm_resolved sample_kernel (some peer) at true hub []).1.armed ≡ (
          if equal peer other then some (record { endpoint = format at; listen = true }) else none))
    × ((arm_resolved sample_kernel (some peer) at true hub []).0 ≡ s_unrelated_link
        ↔ classify_peer (some (codes "App")) (some peer) ≡ unrelated)
unfolding arm_resolved arm_recorded post make_con factory_of family_to_set classify_peer is_pattern
    is_below is_swapped_peer_argument has_part starts_with has equal report_relation lookup
arm_resolved-armed_example = arm_resolved-armed sample_kernel peer at true hub [] refl

close_con-LeavesWithin_example :
    (close_con sample_kernel peer 40 armed_hub (peer ∷ [])).0 ≡ true
    ↔ LeavesWithin sample_kernel 40 peer (record armed_hub { armed = [] }) (peer ∷ [])
unfolding erase equal
close_con-LeavesWithin_example =
    close_con-LeavesWithin sample_kernel peer 40 armed_hub (peer ∷ []) refl refl

disconnect-outcome_example :
    let r = disconnect sample_kernel (some peer) armed_hub (peer ∷ []) in
    (lookup peer r.1.armed ≡ (if equal peer peer then none else lookup peer armed_hub.armed))
    × (r.0 ≡ s_ok → lookup peer r.1.unretired ≡ (if equal peer peer then none else none))
    × (r.0 ≢ s_ok
        → (r.0 ≡ s_false)
          × (lookup peer r.1.unretired ≡ (if equal peer peer then some tt else none)))
    × (is_peer_up (some peer) armed_hub ≡ true → is_peer_up (some peer) r.1 ≡ false)
unfolding disconnect close_con await_gone wait_slice equal lookup
disconnect-outcome_example = disconnect-outcome sample_kernel peer peer armed_hub (peer ∷ []) refl

snapshot_cons-rows_example :
    IsSorted (snapshot_cons armed_hub)
    × ((p : WString)
        → IsRow
            (codes "App")
            p
            (lookup p armed_hub.armed)
            (lookup p armed_hub.peers)
            (lookup p (snapshot_cons armed_hub)))
snapshot_cons-rows_example = snapshot_cons-rows armed_hub (tt, tt) (tt, tt)

abbrev driven_kernel : Kernel
driven_kernel = record sample_kernel { owns_pump = λ st. true }

abbrev pumped_hub : Hub
pumped_hub = new_hub (codes "App") false true

pump-closed_example :
    pump driven_kernel 10 (record pumped_hub { pump_done = true }) []
    ≡ (e_closed, record pumped_hub { pump_done = true }, [])
unfolding pump pump_once read_turn
pump-closed_example = pump-closed driven_kernel 5 10 pumped_hub [] [] refl refl

drain_cons-gone_example :
    sample_kernel.con_exists peer (drain_cons sample_kernel armed_hub (peer ∷ [])).2 ≡ some false
unfolding drain_cons drain_set add_up add_armed add_names any_left await_drained wait_slice equal
    lookup insert
drain_cons-gone_example =
    drain_cons-gone sample_kernel peer armed_hub (peer ∷ []) (tt, tt) (tt, tt) refl refl

read_frame-broadcast_frame_example :
    read_frame (broadcast_frame (codes "news") (1 ∷ 2 ∷ 3 ∷ []))
    ≡ some (codes "news", 1 ∷ 2 ∷ 3 ∷ [])
read_frame-broadcast_frame_example =
    read_frame-broadcast_frame (codes "news") (1 ∷ 2 ∷ 3 ∷ [])
      (omega arith, (omega arith, (omega arith, (omega arith, tt)))) (omega arith)

abbrev some_calls : List HubCall
some_calls = arm_call (some peer) at true ∷ wait_call ∷ disconnect_call (some peer) ∷ []

hub_calls-learn_all_example :
    let r = hub_calls sample_kernel some_calls hub [] in
    known_of peer r.1 ≡ learn_all peer some_calls r.0 (record { armed = none; unretired = none })
hub_calls-learn_all_example =
    hub_calls-learn_all sample_kernel some_calls (codes "App") false false [] peer
