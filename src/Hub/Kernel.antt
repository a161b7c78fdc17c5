-- ===== src/Hub/Kernel.antt =====
-- The calls of a hub into the Targetcore kernel, as parameters: what the connection factories make,
-- and the P2PeerHub calls that post, look up and destroy a connection.
--
-- A state of the kernel is that of one hub. The pump runs beside the caller, so a call into the
-- kernel yields, with its answer, the callbacks that the pump made on the hub meanwhile.
use target_facade.Base.{ℕ, Bool, Option, List}
use target_facade.Base.Text.{WString}
use target_facade.Endpoint.{Family}
use target_facade.Hub.{Callback}

-- Which factory a connection is asked of, and with what. A port is a short, given by its 16 bits.
pub data Factory : Type 0 where
  wsa_service : WString → ℕ → Factory
  wsa_retry_dial : WString → WString → ℕ → Factory
  pipe_service : WString → WString → Factory
  pipe_retry_dial : WString → WString → Factory
  dmx_service : WString → WString → Factory
  dmx_dial : WString → WString → Factory
  dmx_retry_dial : WString → WString → Factory
  serial_service : WString → ℕ → Factory
  serial_client : WString → ℕ → Factory

-- The signal that a turn of the pump hands back.
pub data PumpSignal : Type 0 where
  hub_close hub_close_on_idle other_signal : PumpSignal

-- A turn of the pump: it threw, or it yielded a result and a signal.
pub data Turn : Type 0 where
  turn_threw : Turn
  turned : ℕ → PumpSignal → Turn

-- The name of a message: `P2Pmsg_BCast` or a topic.
pub data MsgName : Type 0 where
  bcast_name : MsgName
  topic_name : WString → MsgName

-- A message as it is posted, with the properties that were asked for.
pub record Post : Type 0 where
  pub source : WString
  pub dest : WString
  pub name : MsgName
  pub body : List ℕ
  pub priority : Option ℕ
  pub tag : Option ℕ
  pub no_bounce : Bool

pub record Kernel : Type 1 where
  pub State : Type 0
  pub Con : Type 0
  -- a connection, or NULL
  pub make : Factory → State → Option Con
  pub set_family : Family → Con → Con
  -- `SetState (ConState_BCasts | ConState_UCasts, 0)`
  pub route_all : Con → Con
  -- `PostP2PeerCon`, false also when it throws
  pub post_con : Con → State → Bool × List Callback × State
  -- `ConExists`, none when it throws
  pub con_exists : WString → State → Option Bool
  -- `ConSignal (peer, P2PsigCon_DESTROY)`, false when it throws
  pub con_destroy : WString → State → Bool × List Callback × State
  -- `Sleep`, while the pump runs on a thread of its own
  pub sleep : ℕ → State → List Callback × State
  -- `PumpP2Pmsg` on the calling thread
  pub pump_msg : ℕ → State → Turn × List Callback × State
  -- `P2PmsgPump_TIMEOUT`
  pub pump_timeout : ℕ
  -- every connection and every pump of the hub signalled to destroy, or to close on idle
  pub signal_all : Bool → State → List Callback × State
  -- `OwnsPump ()`
  pub owns_pump : State → Bool
  -- `PostP2PeerMsg`, false when it throws
  pub post_msg : Post → State → Bool × List Callback × State
