-- ===== src/Lib.antt =====
-- TargetFacade is a DLL that puts a flat interface over the Targetcore messaging kernel: a network
-- owns the hubs of a process and its deployment map, a hub owns connections to named peers, and a
-- message carries a payload with named fields.
--
-- A client names a peer by a dotted address and, where it likes, by an endpoint such as
-- "tcp://10.0.0.7:7788". An arming call parses the endpoint, or resolves an omitted one against
-- the deployment map and then against what the other hubs of the process listen at; records it;
-- and posts a connection to the kernel, whose pump calls back as peers log in and connections
-- close. The read side reports both.
--
-- The parts and the files that model them:
--   Endpoint, with Endpoint/Scan, /Hosts, /Schemes, /Canonical and /RoundTrip: ParseFacadeEndpoint
--     and FacadeEndpoint::Format of src/FacadeEndpoint.cpp.
--   Endpoint/Peer: IsSwappedPeerArgument, ClassifyPeer and DeriveDmxService of the same file.
--   Endpoint/Map: ParseFacadeEndpointMap of the same file.
--   Deployment: SetEndpoint, SetEndpointMap, GetEndpointFor and LookupEndpoint of
--     src/FacadeNetwork.cpp.
--   Resolve: FindHubLocked and ResolveDial of src/FacadeNetwork.cpp and ResolveEndpoint of
--     src/FacadeHub.cpp.
--   Hub: MarkPeer, RaiseEvent, IsPeerUp, ArmedListener, On_ConLogin, On_ConLoginAck and
--     On_ConClose of src/FacadeHub.cpp, with Hub/Peers on what the client's sink hears.
--   Hub/Kernel: the kernel's calls, as parameters.
--   Hub/Arming: MakeCon, PostCon, ArmRecorded, ArmResolved, CloseCon and Disconnect of
--     src/FacadeHub.cpp, with their laws in Hub/Arming/Records, /Retire and /Disconnect,
--     Hub/InOrder on the key order of the maps and Hub/History on what a client knows from its
--     calls.
--   Hub/Pump: PumpOnce, Pump and WaitSlice of the same file. Hub/Drain: DrainCons of the same
--     file.
--   Hub/Sending: PostMsg, Send, SendEx, SendText, Broadcast, BroadcastEx and the reading of a
--     broadcast in On_P2PeerBCast of the same file, without named fields.
--   Hub/ReadSide: SnapshotCons, GetConCount, GetCon, GetEndpoint and Describe of the same file.
--   Security, with Security/Stem, /AllowList and /Rollback: SecurityStemOf, WriteAllowList,
--     TrustAndEnforce, UntrustPeer, LoadPeerKeys, TrustPublishedPeer and AdmitPatternPeer of
--     src/FacadeHub.cpp. Security/Provision: ProvisionSelf and GetSecurityInfo of the same file.
--     Security/Arm: ArmUnified of the same file.
--   Security/Facilities: the files, the key store and the authentication policy, as parameters.
--   Security/Directory and /Edge: EnsureSecurityDirLocked, SecurityPaths, EnsureRevocationList,
--     SetSecurityDir and SecureEdgeLocked of src/FacadeNetwork.cpp.
--   Link, with Link/Atomic and /Armed: Link of src/FacadeNetwork.cpp.
--   Timers, with Timers/Early, /Delivery and /Private: SetTimer, KillTimer, ArmPumpTimer,
--     On_PITimer, HandlePrivate and Ping of src/FacadeHub.cpp.
--   Registry, with Registry/Distinct and /Created: P2PF_CreateNetwork, Acquire, Release,
--     CreateHubEx, RemoveHub and CloseAllHubs of src/FacadeNetwork.cpp.
--   Topology, with Topology/Parsed and /Live: parse, createHubs, arm and closeAll of
--     include/TargetFacadeTopology.hpp.
--   Diagnostics, with Diagnostics/Unregister, /Severity and /Delivered: DeliverDiag, SetDiagSink
--     and the other diagnostics calls of src/FacadeNetwork.cpp.
--   Message: FacadeMessage of src/FacadeMessage.cpp. CopyOut: the buffer protocol of
--     src/FacadeInternal.h. Status: the codes of include/TargetFacade.h.
--   Platform: the calls into Windows and the C runtime, as parameters. Base: lists, wide strings,
--     decimal numbers and the two kinds of std::map.
--   Tests: the theorems at concrete inputs.
--
-- A wide string is the list of its UTF-16 units, and none is a NULL pointer. A std::map is the
-- list of its entries in key order. A state passes from call to call explicitly; a lock makes what
-- it guards one step. The kernel's pump runs beside its caller, so a call into the kernel yields
-- the callbacks that the pump made on the hub meanwhile, and these run in the model before the
-- call returns. A callback of the client that calls back into the hub is not modelled.
--
-- Bounds: an unsigned int wraps at 2 ^ 32 where the source lets it, in line numbers, sizes and
-- counts. Decimal printing is given ten rounds, and what is printed is a port of at most 65535.
-- The wait of CloseCon is bounded by its slices, as in the source, and so are the waits of
-- DrainCons. Where DrainCons asks the kernel of one connection after another, one state of the
-- kernel answers the whole sweep.
--
-- Diagnostics: no lock guards the slot, so each access to a shared field is a step. SetDiagSink is
-- related to deliveries and changes of the mask on other threads, not to another SetDiagSink.
--
-- Timers: a section under the lock is one step, and a step of another thread may come between two
-- of them. The tick count is a number that does not wrap. The narrowing to the kernel's P2Pmsecs_t
-- is a parameter, since its width is the kernel's; what is said of delays is said of those that it
-- keeps.
--
-- Not modelled: messages with named fields and their delivery, the closing of a hub behind its
-- drain, and the sentences of the diagnostic stream; the COM layer, the wrappers, the tests and
-- the build, which are glue around these.
pub mod Base
pub mod Status
pub mod Platform
pub mod Endpoint
pub mod CopyOut
pub mod Message
pub mod Deployment
pub mod Hub
pub mod Resolve
pub mod Security
pub mod Link
pub mod Timers
pub mod Registry
pub mod Topology
pub mod Diagnostics
mod Tests
