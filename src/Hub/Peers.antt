-- ===== src/Hub/Peers.antt =====
-- What the client's sink hears of the peers.
use target_facade.Base.{
  ◌≡◌, inl, inr, refl, sym, Bool, true, false, List, [], ◌∷◌, ◌++◌, Option, none, some, arith,
  if◌then◌else◌, Bool-cases,
}
use mathlib.Core.Path.{subst}
use target_facade.Base.Text.{WString, is_empty, equal, equal_iff}
use target_facade.Base.SortedMap.{lookup, lookup-insert}
use target_facade.Hub.{
  Hub, HubEvent, on_peer_up, on_peer_down, on_error, on_event, mark_peer, state_of, raise_event,
  on_callback, on_callbacks, Callback, con_login, con_login_ack, con_close, is_peer_up, new_hub,
  EventCode, evt_dial_gave_up, gave_up_text,
}

-- A client that follows one peer: whether it takes the peer to be up behind an event. None is for
-- an event that contradicts what it knows.
unfoldable pub follow : WString → Bool → HubEvent → Option Bool
follow peer up (on_peer_up p) = if equal p peer then (if up then none else some true) else some up
follow peer up (on_peer_down p) =
    if equal p peer then (if up then some false else none) else some up
follow peer up (on_error what) = some up
follow peer up (on_event code p what) = some up

abbrev pub follow_next : WString → Option Bool → HubEvent → Option Bool
follow_next peer none e = none
follow_next peer (some up) e = follow peer up e

abbrev pub follow_all : WString → Option Bool → List HubEvent → Option Bool
follow_all peer up [] = up
follow_all peer up (e ∷ es) = follow_all peer (follow_next peer up e) es

follow_all-append :
    (peer : WString) (up : Option Bool) (es : List HubEvent) (e : HubEvent)
    → follow_all peer up (es ++ (e ∷ [])) ≡ follow_next peer (follow_all peer up es) e
follow_all-append peer up [] e = refl
follow_all-append peer up (d ∷ es) e = follow_all-append peer (follow_next peer up d) es e

-- What the client takes to be so is what the hub's map says.
abbrev pub InStep : WString → Hub → Type 0
InStep peer h =
    (h.has_events ≡ true)
    × (follow_all peer (some false) h.heard ≡ some (state_of (lookup peer h.peers)))

mark_named-InStep :
    (peer p : WString) (up : Bool) (h : Hub)
    → InStep peer h
    → is_empty p ≡ false
    → InStep peer (mark_peer p up h)
unfolding mark_peer follow
mark_named-InStep peer p true h i filled = ground (
  arith,
  lookup-insert p peer true h.peers,
  equal_iff p peer,
  follow_all-append peer (some false) h.heard (on_peer_up p),
)
mark_named-InStep peer p false h i filled = ground (
  arith,
  lookup-insert p peer false h.peers,
  equal_iff p peer,
  follow_all-append peer (some false) h.heard (on_peer_down p),
)

mark_nobody : (p : WString) (up : Bool) (h : Hub) → is_empty p ≡ true → mark_peer p up h ≡ h
unfolding mark_peer
mark_nobody p up h e = ground arith

pub mark_peer-InStep :
    (peer p : WString) (up : Bool) (h : Hub) → InStep peer h → InStep peer (mark_peer p up h)
mark_peer-InStep peer p up h i = elim (Bool-cases (is_empty p)) [
  | inl e ↦ subst (InStep peer) (sym (mark_nobody p up h e)) i
  | inr e ↦ mark_named-InStep peer p up h i e
]

pub raise_event-InStep :
    (peer : WString) (code : EventCode) (p what : WString) (h : Hub)
    → InStep peer h
    → InStep peer (raise_event code p what h)
unfolding raise_event follow
raise_event-InStep peer code p what h i = ground (
  arith,
  follow_all-append peer (some false) h.heard (on_event code p what),
  follow_all-append peer (some false) h.heard (on_error what),
)

on_callback-InStep :
    (peer : WString) (c : Callback) (h : Hub) → InStep peer h → InStep peer (on_callback c h)
unfolding on_callback
on_callback-InStep peer (con_login p) h i = mark_peer-InStep peer p true h i
on_callback-InStep peer (con_login_ack p) h i = mark_peer-InStep peer p true h i
on_callback-InStep peer (con_close p none) h i = mark_peer-InStep peer p false h i
on_callback-InStep peer (con_close p (some service)) h i =
    raise_event-InStep peer evt_dial_gave_up p (gave_up_text p service) (mark_peer p false h)
      (mark_peer-InStep peer p false h i)

pub on_callbacks-InStep :
    (peer : WString) (cs : List Callback) (h : Hub)
    → InStep peer h
    → InStep peer (on_callbacks cs h)
on_callbacks-InStep peer [] h i = i
on_callbacks-InStep peer (c ∷ cs) h i =
    on_callbacks-InStep peer cs (on_callback c h) (on_callback-InStep peer c h i)

-- Whatever the pump calls on a new hub, and in whatever order, OnPeerUp and OnPeerDown come in turn
-- for every peer, OnPeerUp first, and IsPeerUp answers what the last of them said.
pub on_callbacks-follow :
    (cs : List Callback) (address peer : WString) (secure pumped : Bool)
    → let h = on_callbacks cs (new_hub address secure pumped) in
      follow_all peer (some false) h.heard ≡ some (is_peer_up (some peer) h)
unfolding is_peer_up lookup
on_callbacks-follow cs address peer secure pumped =
    (on_callbacks-InStep peer cs (new_hub address secure pumped) (refl, refl)).1
