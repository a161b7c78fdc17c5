-- ===== src/Hub/InOrder.antt =====
-- The key order of the maps of a hub, and the steps of arming, Disconnect and the callbacks on it.
pub mod Calls
use target_facade.Base.{
  ℕ, zero, suc, ◌≡◌, inl, inr, refl, sym, Bool, true, false, not, ◌&&◌, ◌||◌, List, [], ◌∷◌, Option,
  none, some, arith, if◌then◌else◌, Bool-cases, Option-cases,
}
use mathlib.Core.Path.{subst}
use target_facade.Base.Text.{WString, is_empty}
use target_facade.Base.SortedMap.{lookup, insert, erase, IsSorted, insert-IsSorted, erase-IsSorted}
use target_facade.Status.{failed}
use target_facade.Endpoint.{FacadeEndpoint, format}
use target_facade.Endpoint.Peer.{
  Relation, self, descendant, ancestor, unrelated, pattern_peer, classify_peer,
  is_swapped_peer_argument,
}
use target_facade.Hub.{
  Hub, ArmedCon, Callback, con_login, con_login_ack, con_close, mark_peer, raise_event, on_callback,
  on_callbacks, new_hub, EventCode, is_peer_up, evt_dial_gave_up, gave_up_text,
}
use target_facade.Hub.Kernel.{
  Kernel, Turn, turn_threw, turned, PumpSignal, hub_close, hub_close_on_idle, other_signal,
}
use target_facade.Hub.Pump.{latch, read_turn, pump_once, wait_slice, drain_slice_millisecs}
use target_facade.Hub.Arming.{
  restore, record_arm, report_relation, post, make_con, arm_recorded, arm_related, arm_resolved,
  await_gone, close_con, disconnect, retire, drop_record, retire_slices, mark_lost, note_retired,
}

pub record InOrder (h : Hub) : Type 0 where
  pub armed : IsSorted h.armed
  pub peers : IsSorted h.peers
  pub unretired : IsSorted h.unretired

pub mark_peer-InOrder : (p : WString) (up : Bool) (h : Hub) → InOrder h → InOrder (mark_peer p up h)
unfolding mark_peer
mark_peer-InOrder p up h i = record {
  armed = ground (arith, i.armed);
  peers = ground (arith, i.peers, insert-IsSorted p up h.peers i.peers);
  unretired = ground (arith, i.unretired);
}

pub raise_event-InOrder :
    (code : EventCode) (p what : WString) (h : Hub)
    → InOrder h
    → InOrder (raise_event code p what h)
unfolding raise_event
raise_event-InOrder code p what h i = record {
  armed = ground (arith, i.armed);
  peers = ground (arith, i.peers);
  unretired = ground (arith, i.unretired);
}

pub on_callback-InOrder : (c : Callback) (h : Hub) → InOrder h → InOrder (on_callback c h)
unfolding on_callback
on_callback-InOrder (con_login p) h i = mark_peer-InOrder p true h i
on_callback-InOrder (con_login_ack p) h i = mark_peer-InOrder p true h i
on_callback-InOrder (con_close p none) h i = mark_peer-InOrder p false h i
on_callback-InOrder (con_close p (some s)) h i =
    raise_event-InOrder evt_dial_gave_up p (gave_up_text p s) (mark_peer p false h)
      (mark_peer-InOrder p false h i)

pub on_callbacks-InOrder : (cs : List Callback) (h : Hub) → InOrder h → InOrder (on_callbacks cs h)
on_callbacks-InOrder [] h i = i
on_callbacks-InOrder (c ∷ cs) h i =
    on_callbacks-InOrder cs (on_callback c h) (on_callback-InOrder c h i)

pub latch-InOrder : (h : Hub) → InOrder h → InOrder (latch h)
latch-InOrder h i = record { armed = i.armed; peers = i.peers; unretired = i.unretired }

pub record_arm-InOrder :
    (p : WString) (e : FacadeEndpoint) (listen : Bool) (h : Hub)
    → InOrder h
    → InOrder (record_arm p e listen h)
record_arm-InOrder p e listen h i = record {
  armed = insert-IsSorted p (record { endpoint = format e; listen = listen }) h.armed i.armed;
  peers = i.peers;
  unretired = i.unretired;
}

pub restore-InOrder :
    (p : WString) (old : Option ArmedCon) (h : Hub) → InOrder h → InOrder (restore p old h)
restore-InOrder p none h i = record {
  armed = erase-IsSorted p h.armed i.armed;
  peers = i.peers;
  unretired = i.unretired;
}
restore-InOrder p (some old) h i = record {
  armed = insert-IsSorted p old h.armed i.armed;
  peers = i.peers;
  unretired = i.unretired;
}

pub note_retired-InOrder :
    (p : WString) (gone : Bool) (h : Hub) → InOrder h → InOrder (note_retired p gone h)
note_retired-InOrder p true h i = record {
  armed = i.armed;
  peers = i.peers;
  unretired = erase-IsSorted p h.unretired i.unretired;
}
note_retired-InOrder p false h i = record {
  armed = i.armed;
  peers = i.peers;
  unretired = insert-IsSorted p tt h.unretired i.unretired;
}

pub mark_lost-InOrder : (p : WString) (up : Bool) (h : Hub) → InOrder h → InOrder (mark_lost p up h)
mark_lost-InOrder p true h i = mark_peer-InOrder p false h i
mark_lost-InOrder p false h i = i

pub report_relation-InOrder :
    (r : Relation) (p : WString) (h : Hub) → InOrder h → InOrder (report_relation r p h).1
unfolding report_relation raise_event
report_relation-InOrder unrelated p h i = record {
  armed = ground (arith, i.armed);
  peers = ground (arith, i.peers);
  unretired = ground (arith, i.unretired);
}
report_relation-InOrder _ p h i = i
