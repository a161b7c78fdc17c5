-- ===== src/Topology.antt =====
-- A process's hubs, endpoints and edges from one text: include/TargetFacadeTopology.hpp.
--
-- Its loop steps over line breaks as that of ParseFacadeEndpointMap does, so `split_lines` yields the
-- lines that it visits. A std::vector is a list.
pub mod Parsed
pub mod Live
use target_facade.Base.{
  ℕ, zero, suc, ◌+◌, ◌-◌, ◌%◌, ◌^◌, Bool, true, false, not, ◌&&◌, ◌||◌, List, [], ◌∷◌, ◌++◌, Option,
  none, some, leb, ◌==◌, if◌then◌else◌,
}
use target_facade.Base.Lists.{take, drop, length}
use target_facade.Base.Text.{WString, codes, equal, is_empty, has, find, trim}
use target_facade.Status.{HResult, s_ok, failed}
use target_facade.Endpoint.Map.{split_lines, is_comment}

pub record Edge : Type 0 where
  pub listener : WString
  pub dialer : WString
  -- empty: use the map, else in-process
  pub endpoint : WString

pub record Topology : Type 0 where
  pub hubs : List WString
  pub entries : List WString
  pub edges : List Edge
  pub map_text : WString
  pub map_lines : List ℕ

abbrev pub empty_topology : Topology
empty_topology = record { hubs = []; entries = []; edges = []; map_text = []; map_lines = [] }

abbrev pub is_blank : ℕ → Bool
is_blank c = c == b' ' || c == b'\t'

abbrev pub strip : WString → WString
strip s = trim is_blank s

-- `token (line, 0)` of a line that starts with no blank
unfoldable pub token : WString → WString
token [] = []
token (c ∷ s) = let rest = token s in if is_blank c then [] else c ∷ rest

unfoldable pub lower : WString → WString
lower [] = []
lower (c ∷ s) = (if leb b'A' c && leb c b'Z' then c - b'A' + b'a' else c) ∷ lower s

-- Around the first `sep`; all on the left where there is none.
unfoldable pub split_on : ℕ → WString → WString × WString
split_on sep [] = ([], [])
split_on sep (c ∷ s) = let r = split_on sep s in if c == sep then ([], s) else (c ∷ r.0, r.1)

-- around the first "->", none where there is no arrow
abbrev push_left : ℕ → Option (WString × WString) → Option (WString × WString)
push_left c none = none
push_left c (some r) = some (c ∷ r.0, r.1)

unfoldable pub split_arrow : WString → Option (WString × WString)
split_arrow [] = none
split_arrow (c ∷ []) = none
split_arrow (c ∷ d ∷ s) =
    let rest = push_left c (split_arrow (d ∷ s)) in
    if c == b'-' && d == b'>' then some ([], s) else rest

-- `s.find (L"//") != npos`
unfoldable pub has_slashes : WString → Bool
has_slashes [] = false
has_slashes (c ∷ []) = false
has_slashes (c ∷ d ∷ s) = (c == b'/' && d == b'/') || has_slashes (d ∷ s)

abbrev pub looks_like_endpoint : WString → Bool
looks_like_endpoint s = has b':' s || has_slashes s

-- `isHub` and `hasEntry`
unfoldable pub is_listed : WString → List WString → Bool
is_listed a [] = false
is_listed a (h ∷ hs) = equal h a || is_listed a hs

abbrev pub map_line : WString → WString → WString
map_line addr ep = addr ++ (codes " = " ++ ep)

unfoldable pub put_entry : WString → WString → ℕ → Topology → Option Topology
put_entry addr ep n t =
    if is_empty ep
    then some t
    else if is_listed addr t.entries
    then none
    else some (record t {
      map_text = t.map_text ++ (map_line addr ep ++ b'\n' ∷ []);
      map_lines = t.map_lines ++ n ∷ [];
      entries = t.entries ++ addr ∷ [];
    })

-- `hub` with true, `at` with false
unfoldable pub add_address : Bool → WString → WString → ℕ → Topology → Option Topology
add_address hub addr ep n t =
    let declared = record t { hubs = t.hubs ++ addr ∷ [] } in
    if is_empty addr || looks_like_endpoint addr
    then none
    else if not hub
    then (if is_empty ep then none else put_entry addr ep n t)
    else if is_listed addr t.hubs
    then none
    else put_entry addr ep n declared

unfoldable pub add_edge : WString → WString → WString → Topology → Option Topology
add_edge listener dialer ep t =
    if is_empty listener
      || (is_empty dialer
          || (equal listener dialer
              || (looks_like_endpoint listener || looks_like_endpoint dialer)))
    then none
    else if not (is_listed listener t.hubs) || not (is_listed dialer t.hubs)
    then none
    else some (record t {
      edges = t.edges ++ record { listener = listener; dialer = dialer; endpoint = ep } ∷ [];
    })

abbrev pub read_address : Bool → WString → ℕ → Topology → Option Topology
read_address hub rest n t =
    let r = split_on b'=' rest in add_address hub (strip r.0) (strip r.1) n t

abbrev pub read_edge : WString → Topology → Option Topology
read_edge rest t =
    let r = split_on b'=' rest in
    elim (split_arrow r.0) [
      | none ↦ none
      | some ends ↦ add_edge (strip ends.0) (strip ends.1) (strip r.1) t
    ]

abbrev pub by_verb : WString → WString → ℕ → Topology → Option Topology
by_verb verb rest n t =
    if equal verb (codes "hub")
    then read_address true rest n t
    else if equal verb (codes "at")
    then read_address false rest n t
    else if equal verb (codes "link")
    then read_edge rest t
    else none

-- One line, by its number; none where it is refused.
unfoldable pub read_verb_line : WString → ℕ → Topology → Option Topology
read_verb_line raw n t =
    let line = strip raw in
    let verb = strip (token line) in
    if is_comment line then some t else by_verb (lower verb) (strip (drop (length verb) line)) n t

-- The topology with S_OK, or P2PF_E_ENDPOINT with the number of the line.
pub data TopologyResult : Type 0 where
  topology : Topology → TopologyResult
  refused_at : ℕ → TopologyResult

unfoldable pub read_all : ℕ → Topology → List WString → TopologyResult
read_all n t [] = topology t
read_all n t (l ∷ ls) = elim (read_verb_line l ((n + 1) % 2 ^ 32) t) [
  | none ↦ refused_at ((n + 1) % 2 ^ 32)
  | some next ↦ read_all ((n + 1) % 2 ^ 32) next ls
]

unfoldable pub parse_topology : Option WString → TopologyResult
parse_topology none = topology empty_topology
parse_topology (some text) = read_all 0 empty_topology (split_lines text)

-- The wrapper of a network that a topology is armed on: what its calls return and leave.
pub record NetCalls : Type 1 where
  pub Net : Type 0
  -- a hub that createHub has made, as the wrapper holds it
  pub Held : Type 0
  -- none where it throws
  pub create_hub : WString → Net → Option Held × Net
  pub close : Held → Net → Net
  pub set_endpoint_map : WString → Net → HResult × ℕ × Net
  pub endpoint_for : WString → Net → WString
  pub link : WString → WString → Option WString → Net → HResult × Net

abbrev pub nth : List ℕ → ℕ → ℕ
nth [] i = 0
nth (n ∷ ns) zero = n
nth (n ∷ ns) (suc i) = nth ns i

-- the line of the caller's text for a line of the map's, 0 for none
unfoldable pub back_line : ℕ → Topology → ℕ
back_line n t = if leb 1 n && leb n (length t.map_lines) then nth t.map_lines (n - 1) else 0

abbrev pub is_s_ok : HResult → Bool
is_s_ok s_ok = true
is_s_ok _ = false

module _ (c : NetCalls) where
  abbrev pub given : WString → Option WString
  given [] = none
  given (u ∷ s) = some (u ∷ s)

  -- the loop of `arm`, with the worst success so far
  unfoldable pub arm_edges : List Edge → HResult → c.Net → HResult × c.Net
  arm_edges [] worst net = (worst, net)
  arm_edges (e ∷ es) worst net =
      let ep = if is_empty e.endpoint then c.endpoint_for e.listener net else e.endpoint in
      let r = c.link e.listener e.dialer (given ep) net in
      let rest = arm_edges es (if is_s_ok r.0 then worst else r.0) r.1 in
      if failed r.0 then r else rest

  -- `arm`, with what it writes to *badLine
  unfoldable pub arm : Topology → c.Net → HResult × ℕ × c.Net
  arm t net =
      let pushed = c.set_endpoint_map t.map_text net in
      let plain = arm_edges t.edges s_ok net in
      let armed = arm_edges t.edges s_ok pushed.2 in
      if is_empty t.map_text
      then (plain.0, 0, plain.1)
      else if failed pushed.0
      then (pushed.0, back_line pushed.1 t, pushed.2)
      else (armed.0, 0, armed.1)
