-- ===== src/Hub/Sending.antt =====
-- Sending: IsReservedName, IsPrivateName, PostMsg, Send, SendEx, SendText, Broadcast, BroadcastEx and
-- the reading of a broadcast in On_P2PeerBCast, of src/FacadeHub.cpp. Messages with named fields are
-- left out. A size_t holds 64 bits, so that the size of a frame does not wrap.
pub mod Frames
use target_facade.Base.{
  ℕ, zero, suc, ◌+◌, ◌*◌, ◌/◌, ◌%◌, ◌^◌, Bool, true, false, not, ◌&&◌, ◌||◌, List, [], ◌∷◌, ◌++◌,
  Option, none, some, ltb, leb, ◌==◌, if◌then◌else◌,
}
use target_facade.Base.Lists.{length, take, drop}
use target_facade.Base.Text.{WString, codes, is_empty, starts_with}
use target_facade.Base.SortedMap.{Map}
use target_facade.Status.{
  HResult, s_ok, s_false, e_pointer, e_invalid_arg, e_reserved_topic, e_closed, failed,
}
use target_facade.Message.{Bytes, max_payload, read_bytes, text_bytes}
use target_facade.Hub.{Hub, on_callbacks}
use target_facade.Hub.Kernel.{Kernel, Post, MsgName, bcast_name, topic_name}

unfoldable pub is_reserved_name : WString → Bool
is_reserved_name topic = starts_with (codes "P2Pmsg") topic

unfoldable pub is_private_name : WString → Bool
is_private_name topic = starts_with (codes "P2PF$") topic

pub record MsgOpts : Type 0 where
  pub priority : ℕ
  pub tag : ℕ
  pub flags : ℕ

abbrev pub pri_default : ℕ
pri_default = 4294967295

-- The properties, each only when it was asked for.
abbrev pub build_msg : WString → WString → MsgName → Bytes → Option MsgOpts → Post
build_msg source dest name body none = record {
  source = source;
  dest = dest;
  name = name;
  body = body;
  priority = none;
  tag = none;
  no_bounce = false;
}
build_msg source dest name body (some opts) = record {
  source = source;
  dest = dest;
  name = name;
  body = body;
  priority = if opts.priority == pri_default then none else some (opts.priority % 256);
  tag = if opts.tag == 0 then none else some opts.tag;
  no_bounce = opts.flags % 2 == 1;
}

-- The guards on a topic.
unfoldable pub check_topic : WString → HResult
check_topic topic =
    if is_empty topic
    then e_invalid_arg
    else if is_reserved_name topic || is_private_name topic
    then e_reserved_topic
    else s_ok

abbrev pub is_null : Option Bytes → Bool
is_null none = true
is_null (some b) = false

abbrev pub bcast_magic : ℕ
bcast_magic = 62154

-- the two bytes of a UINT16, low byte first
abbrev pub word_bytes : ℕ → Bytes
word_bytes n = (n % 256) ∷ (n / 256 % 256) ∷ []

abbrev pub units_bytes : WString → Bytes
units_bytes [] = []
units_bytes (c ∷ s) = (c % 256) ∷ (c / 256 % 256) ∷ units_bytes s

-- The header, the topic and the payload.
unfoldable pub broadcast_frame : WString → Bytes → Bytes
broadcast_frame topic payload =
    word_bytes bcast_magic ++ (word_bytes (length topic % 2 ^ 16) ++ (units_bytes topic ++ payload))

abbrev pub frame_size : WString → ℕ → ℕ
frame_size topic size = 4 + length topic * 2 + size

-- What BroadcastInternal refuses before it looks at the peers.
unfoldable pub check_broadcast : WString → Option Bytes → ℕ → HResult
check_broadcast topic payload size =
    if failed (check_topic topic)
    then check_topic topic
    else if is_null payload && not (size == 0)
    then e_pointer
    else if ltb 65535 (length topic) || ltb max_payload (frame_size topic size)
    then e_invalid_arg
    else s_ok

-- The peers that are logged in, in the order of the map.
unfoldable pub up_peers : Map Bool → List WString
up_peers [] = []
up_peers ((p, up) ∷ n) = if up then p ∷ up_peers n else up_peers n

-- The copies that a broadcast posts, one for each peer that is up.
abbrev pub copies : WString → List WString → Bytes → Option MsgOpts → List Post
copies source [] frame opts = []
copies source (p ∷ ps) frame opts =
    build_msg source p bcast_name frame opts ∷ copies source ps frame opts

-- What On_P2PeerBCast reads from a body: the topic and the payload of a frame, or none for a body
-- that it delivers as it is.
abbrev pub read_units : ℕ → Bytes → WString
read_units zero bs = []
read_units (suc n) (lo ∷ hi ∷ bs) = (lo + hi * 256) ∷ read_units n bs
read_units (suc n) bs = []

unfoldable pub read_frame : Bytes → Option (WString × Bytes)
read_frame (m ∷ m' ∷ n ∷ n' ∷ rest) =
    let chars = n + n' * 256 in
    if m + m' * 256 == bcast_magic && leb (chars * 2) (length rest)
    then some (read_units chars rest, drop (chars * 2) rest)
    else none
read_frame _ = none

module _ (k : Kernel) where
  abbrev pub post_built : Post → Hub → k.State → HResult × Hub × k.State
  post_built message h st =
      let r = k.post_msg message st in (if r.0 then s_ok else e_closed, on_callbacks r.1 h, r.2)

  unfoldable pub post_msg :
      WString
      → MsgName
      → Option Bytes
      → ℕ
      → Option MsgOpts
      → Hub
      → k.State
      → HResult × Hub × k.State
  post_msg dest name payload size opts h st =
      if ltb max_payload size
      then (e_invalid_arg, h, st)
      else if is_null payload && not (size == 0)
      then (e_pointer, h, st)
      else post_built (build_msg h.address dest name (read_bytes payload size) opts) h st

  -- Send, with no properties, and SendEx.
  unfoldable pub send :
      Option WString
      → Option WString
      → Option Bytes
      → ℕ
      → Option MsgOpts
      → Hub
      → k.State
      → HResult × Hub × k.State
  send none topic payload size opts h st = (e_pointer, h, st)
  send (some dest) none payload size opts h st = (e_pointer, h, st)
  send (some dest) (some topic) payload size opts h st =
      if failed (check_topic topic)
      then (check_topic topic, h, st)
      else post_msg dest (topic_name topic) payload size opts h st

  unfoldable pub send_text :
      Option WString → Option WString → Option WString → Hub → k.State → HResult × Hub × k.State
  send_text dest topic none h st = (e_pointer, h, st)
  send_text dest topic (some text) h st =
      if ltb max_payload ((length text + 1) * 2)
      then (e_invalid_arg, h, st)
      else send dest topic (some (text_bytes text)) ((length text + 1) * 2) none h st

  -- Every copy is posted; the code is the last failure, or S_OK.
  abbrev pub post_all : List Post → HResult → Hub → k.State → HResult × Hub × k.State
  post_all [] last h st = (last, h, st)
  post_all (m ∷ ms) last h st =
      let r = post_built m h st in post_all ms (if failed r.0 then r.0 else last) r.1 r.2

  abbrev pub post_copies : List Post → Hub → k.State → HResult × Hub × k.State
  post_copies [] h st = (s_false, h, st)
  post_copies (m ∷ ms) h st = post_all (m ∷ ms) s_ok h st

  -- Broadcast, with no properties, and BroadcastEx.
  unfoldable pub broadcast :
      Option WString → Option Bytes → ℕ → Option MsgOpts → Hub → k.State → HResult × Hub × k.State
  broadcast none payload size opts h st = (e_pointer, h, st)
  broadcast (some topic) payload size opts h st =
      if failed (check_broadcast topic payload size)
      then (check_broadcast topic payload size, h, st)
      else post_copies
          (copies h.address (up_peers h.peers) (broadcast_frame topic (read_bytes payload size))
            opts)
          h st
