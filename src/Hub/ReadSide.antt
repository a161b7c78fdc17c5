-- ===== src/Hub/ReadSide.antt =====
-- The read side of a hub: SnapshotCons, GetConCount, GetCon, GetEndpoint and Describe of
-- src/FacadeHub.cpp, with the flags of include/TargetFacade.h.
pub mod Snapshot
use target_facade.Base.{
  ℕ, ◌+◌, ◌*◌, ◌/◌, ◌%◌, ◌^◌, zero, suc, Bool, true, false, ◌||◌, List, [], ◌∷◌, ◌++◌, Option, none,
  some, ltb, ◌==◌, is_some, if◌then◌else◌,
}
use target_facade.Base.Lists.{length}
use target_facade.Base.Text.{WString, codes, equal}
use target_facade.Base.SortedMap.{Map, lookup}
use target_facade.Base.SortedMap.Order.{before}
use target_facade.Status.{HResult, s_ok, e_pointer, e_invalid_arg, e_unresolved, failed}
use target_facade.CopyOut.{Copied, copy_out}
use target_facade.Endpoint.Peer.{
  Relation, self, descendant, ancestor, unrelated, pattern_peer, classify_peer,
}
use target_facade.Hub.{Hub, ArmedCon}

-- The flags, each a bit of its own, so that `|` of different ones is a sum.
abbrev pub con_listen : ℕ
con_listen = 1

abbrev pub con_dial : ℕ
con_dial = 2

abbrev pub con_up : ℕ
con_up = 4

unfoldable pub relation_flag : Relation → ℕ
relation_flag self = 256
relation_flag descendant = 512
relation_flag ancestor = 1024
relation_flag unrelated = 2048
relation_flag pattern_peer = 4096

-- The rest of a ConRow, behind its peer.
pub record ConInfo : Type 0 where
  pub endpoint : WString
  pub flags : ℕ

abbrev pub role_flag : Bool → ℕ
role_flag true = con_listen
role_flag false = con_dial

abbrev pub up_flag : Bool → ℕ
up_flag true = con_up
up_flag false = 0

abbrev pub relation_to : WString → WString → ℕ
relation_to address peer = relation_flag (classify_peer (some address) (some peer))

unfoldable pub armed_row : WString → WString → ArmedCon → ConInfo
armed_row address peer a = record {
  endpoint = a.endpoint;
  flags = role_flag a.listen + relation_to address peer;
}

unfoldable pub peer_row : WString → WString → Bool → ConInfo
peer_row address peer up = record { endpoint = []; flags = up_flag up + relation_to address peer }

unfoldable pub both_row : WString → WString → ArmedCon → Bool → ConInfo
both_row address peer a up = record {
  endpoint = a.endpoint;
  flags = role_flag a.listen + (up_flag up + relation_to address peer);
}

-- The loop of SnapshotCons over the two maps in step.
unfoldable pub merge_rows : WString → Map ArmedCon → Map Bool → Map ConInfo
merge_rows address [] [] = []
merge_rows address ((j, a) ∷ m) [] = (j, armed_row address j a) ∷ merge_rows address m []
merge_rows address [] ((k, up) ∷ n) = (k, peer_row address k up) ∷ merge_rows address [] n
merge_rows address ((j, a) ∷ m) ((k, up) ∷ n) = elim (equal j k) [
  | true ↦ (j, both_row address j a up) ∷ merge_rows address m n
  | false ↦ elim (before j k) [
    | true ↦ (j, armed_row address j a) ∷ merge_rows address m ((k, up) ∷ n)
    | false ↦ (k, peer_row address k up) ∷ merge_rows address ((j, a) ∷ m) n
  ]
]

unfoldable pub snapshot_cons : Hub → Map ConInfo
snapshot_cons h = merge_rows h.address h.armed h.peers

-- The count through the out parameter, none for a NULL one.
unfoldable pub get_con_count : Bool → Hub → HResult × Option ℕ
get_con_count false h = (e_pointer, none)
get_con_count true h = (s_ok, some (length (snapshot_cons h) % 2 ^ 32))

abbrev pub nth_row : Map ConInfo → ℕ → Option (WString × ConInfo)
nth_row [] i = none
nth_row (r ∷ rs) zero = some r
nth_row (r ∷ rs) (suc i) = nth_row rs i

-- What GetCon leaves in its out parameters; each is none for a NULL argument.
pub record ConAnswer : Type 0 where
  pub status : HResult
  pub peer : Copied
  pub endpoint : Copied
  pub flags : Option ℕ

-- `cch ? CopyOut ( value, buf, cch ) : S_OK`
abbrev pub copy_if_asked : WString → Option WString → Option ℕ → Copied
copy_if_asked value buf none = record { status = s_ok; buf = buf; size = none }
copy_if_asked value buf (some have) = copy_out value buf (some have)

abbrev pub set_flags : ℕ → Option ℕ → Option ℕ
set_flags new none = none
set_flags new (some old) = some new

unfoldable pub get_con :
    ℕ → Option WString → Option ℕ → Option WString → Option ℕ → Option ℕ → Hub → ConAnswer
get_con index peer_buf peer_cch ep_buf ep_cch flags h = elim (nth_row (snapshot_cons h) index) [
  | none ↦ record {
    status = e_invalid_arg;
    peer = record { status = s_ok; buf = peer_buf; size = peer_cch };
    endpoint = record { status = s_ok; buf = ep_buf; size = ep_cch };
    flags = flags;
  }
  | some (peer, row) ↦
      let p = copy_if_asked peer peer_buf peer_cch in
      let e = copy_if_asked row.endpoint ep_buf ep_cch in
      record {
        status = if failed p.status then p.status else e.status;
        peer = p;
        endpoint = e;
        flags = set_flags row.flags flags;
      }
]

-- The endpoint that GetEndpoint copies out, none for P2PF_E_UNRESOLVED.
unfoldable pub known_endpoint : Option ArmedCon → Option Bool → Option WString
known_endpoint (some a) seen = some a.endpoint
known_endpoint none (some up) = some []
known_endpoint none none = none

abbrev copy_known : Option WString → Option WString → Option ℕ → Copied
copy_known none buf cch = record { status = e_unresolved; buf = buf; size = cch }
copy_known (some value) buf cch = copy_out value buf cch

unfoldable pub get_endpoint : Option WString → Option WString → Option ℕ → Hub → Copied
get_endpoint none buf cch h = record { status = e_pointer; buf = buf; size = cch }
get_endpoint (some peer) buf none h = record { status = e_pointer; buf = buf; size = none }
get_endpoint (some peer) buf (some have) h =
    copy_known (known_endpoint (lookup peer h.armed) (lookup peer h.peers)) buf (some have)

-- `( flags & bit ) != 0`, for a bit
abbrev pub has_bit : ℕ → ℕ → Bool
has_bit flags bit = (flags / bit) % 2 == 1

-- The switch on `flags & P2PF_REL_MASK`.
abbrev pub relation_text : ℕ → WString
relation_text bits =
    if bits == 256
    then codes "self"
    else if bits == 512
    then codes "descendant"
    else if bits == 1024
    then codes "ancestor"
    else if bits == 2048
    then codes "unrelated"
    else codes "pattern"

abbrev pub text_if : Bool → WString → WString
text_if true s = s
text_if false s = []

unfoldable pub flag_text : ℕ → WString
flag_text flags =
    text_if (has_bit flags con_listen) (codes "listen,")
    ++ (text_if (has_bit flags con_dial) (codes "dial,")
        ++ (text_if (has_bit flags con_up) (codes "up,") ++ relation_text (flags / 256 % 32 * 256)))

abbrev pub describe_row : WString × ConInfo → WString
describe_row (peer, row) =
    codes "con="
    ++ (peer
        ++ (codes "\t" ++ (row.endpoint ++ (codes "\t" ++ (flag_text row.flags ++ codes "\n")))))

abbrev pub describe_rows : Map ConInfo → WString
describe_rows [] = []
describe_rows (r ∷ rs) = describe_row r ++ describe_rows rs

abbrev pub description : Hub → WString
description h = codes "address=" ++ (h.address ++ (codes "\n" ++ describe_rows (snapshot_cons h)))

unfoldable pub describe : Option WString → Option ℕ → Hub → Copied
describe buf none h = record { status = e_pointer; buf = buf; size = none }
describe buf (some have) h = copy_out (description h) buf (some have)
