-- ===== src/Hub.antt =====
-- The state of a hub and what its pump calls on it: MarkPeer, RaiseEvent, IsPeerUp, ArmedListener
-- and the connection lifecycle of src/FacadeHub.cpp.
--
-- The maps are those that m_oCSectPeers guards. What the client's sinks have been called with is
-- kept in the order of the calls, since it is all that a client sees of a hub.
pub mod Peers
pub mod Records
pub mod Kernel
pub mod Pump
pub mod Arming
pub mod Drain
pub mod InOrder
pub mod History
pub mod Sending
pub mod ReadSide
use target_facade.Base.{
  ℕ, Bool, true, false, not, List, [], ◌∷◌, ◌++◌, Option, none, some, if◌then◌else◌,
}
use target_facade.Base.Text.{WString, codes, is_empty}
use target_facade.Base.SortedMap.{Map, lookup, insert, erase}

pub record ArmedCon : Type 0 where
  pub endpoint : WString
  pub listen : Bool

pub data EventCode : Type 0 where
  evt_unrelated_link evt_dial_gave_up evt_routing_error evt_hub_error : EventCode

-- The calls that are made here on IP2PHubEvents and IP2PHubEvents2.
pub data HubEvent : Type 0 where
  on_peer_up : WString → HubEvent
  on_peer_down : WString → HubEvent
  on_error : WString → HubEvent
  on_event : EventCode → WString → WString → HubEvent

-- The public points of a hub or of a peer, as bytes. The agreement point is optional.
pub record SecKeys : Type 0 where
  pub id : List ℕ
  pub agree : Option (List ℕ)
  pub fingerprint : List ℕ

abbrev pub no_keys : SecKeys
no_keys = record { id = []; agree = none; fingerprint = [] }

pub record Hub : Type 0 where
  pub address : WString
  pub secure : Bool
  pub caller_pumped : Bool
  -- `m_pEvents != 0` and `m_pExtEvents != 0`
  pub has_events : Bool
  pub has_ext_events : Bool
  -- m_mapPeers, m_mapArmed and m_setUnretired
  pub peers : Map Bool
  pub armed : Map ArmedCon
  pub unretired : Map (Unit {0})
  pub pump_done : Bool
  pub heard : List HubEvent
  -- m_mapTrusted, m_csSecDir, m_bProvisioned and m_oSecKeys
  pub trusted : Map SecKeys
  pub sec_dir : WString
  pub provisioned : Bool
  pub sec_keys : SecKeys

-- The constructor of FacadeHub.
abbrev pub new_hub : WString → Bool → Bool → Hub
new_hub address secure caller_pumped = record {
  address = address;
  secure = secure;
  caller_pumped = caller_pumped;
  has_events = true;
  has_ext_events = false;
  peers = [];
  armed = [];
  unretired = [];
  pump_done = false;
  heard = [];
  trusted = [];
  sec_dir = [];
  provisioned = false;
  sec_keys = no_keys;
}

abbrev pub hear : HubEvent → Hub → Hub
hear e h = record h { heard = h.heard ++ (e ∷ []) }

unfoldable pub raise_event : EventCode → WString → WString → Hub → Hub
raise_event code peer what h =
    if h.has_ext_events
    then hear (on_event code peer what) h
    else if h.has_events
    then hear (on_error what) h
    else h

-- `m_mapPeers[peer]`, which is false for a peer not seen before
abbrev pub state_of : Option Bool → Bool
state_of none = false
state_of (some up) = up

abbrev pub differ : Bool → Bool → Bool
differ true b = not b
differ false b = b

abbrev pub transition : WString → Bool → HubEvent
transition peer true = on_peer_up peer
transition peer false = on_peer_down peer

unfoldable pub mark_peer : WString → Bool → Hub → Hub
mark_peer peer up h =
    let marked = record h { peers = insert peer up h.peers } in
    if is_empty peer
    then h
    else if not (differ (state_of (lookup peer h.peers)) up)
    then marked
    else if h.has_events
    then hear (transition peer up) marked
    else marked

unfoldable pub is_peer_up : Option WString → Hub → Bool
is_peer_up none h = false
is_peer_up (some peer) h = state_of (lookup peer h.peers)

-- The endpoint that the hub listens at for a peer, empty for none.
abbrev pub listener_of : Option ArmedCon → WString
listener_of none = []
listener_of (some a) = if a.listen then a.endpoint else []

unfoldable pub armed_listener : WString → Hub → WString
armed_listener peer h = if is_empty peer then [] else listener_of (lookup peer h.armed)

-- A callback of the pump, with the address of the connection's peer. A closed connection that is a
-- derived dial out of attempts comes with the service that it dialled.
pub data Callback : Type 0 where
  con_login : WString → Callback
  con_login_ack : WString → Callback
  con_close : WString → Option WString → Callback

abbrev pub gave_up_text : WString → WString → WString
gave_up_text peer service =
    codes "TargetFacade: gave up dialing '"
    ++ (peer
        ++ (codes "' after 8 attempts at 'dmx://"
            ++ (service
                ++ codes
                    "'. The in-process listener never armed, or the hub that owned it has closed.")))

abbrev pub report_give_up : WString → Option WString → Hub → Hub
report_give_up peer none h = h
report_give_up peer (some service) h =
    raise_event evt_dial_gave_up peer (gave_up_text peer service) h

unfoldable pub on_callback : Callback → Hub → Hub
on_callback (con_login peer) h = mark_peer peer true h
on_callback (con_login_ack peer) h = mark_peer peer true h
on_callback (con_close peer gave_up) h = report_give_up peer gave_up (mark_peer peer false h)

abbrev pub on_callbacks : List Callback → Hub → Hub
on_callbacks [] h = h
on_callbacks (c ∷ cs) h = on_callbacks cs (on_callback c h)
