-- ===== src/Endpoint/Map.antt =====
-- ParseFacadeEndpointMap of src/FacadeEndpoint.cpp: a text of "address = endpoint" lines.
pub mod Lines
pub mod Entries
use target_facade.Base.{
  ℕ, zero, suc, ◌+◌, ◌%◌, ◌^◌, Bool, true, false, ◌&&◌, ◌||◌, List, [], ◌∷◌, Option, none, some,
  ◌==◌, if◌then◌else◌, is_some,
}
use target_facade.Base.Lists.{take, drop}
use target_facade.Base.Text.{WString, is_empty, find, trim}
use target_facade.Base.SortedMap.{Map, lookup, insert}
use target_facade.Status.{Result, ok, err}
use target_facade.Platform.{Platform}
use target_facade.Endpoint.Peer.{is_swapped_peer_argument}
use target_facade.Endpoint.{
  Transport, tcp, pipe, dmx, serial, FacadeEndpoint, blank_endpoint, format, parse_endpoint,
}

abbrev pub is_break : ℕ → Bool
is_break c = c == b'\n' || c == b'\r'

abbrev pub push_front : ℕ → List WString → List WString
push_front c [] = (c ∷ []) ∷ []
push_front c (l ∷ ls) = (c ∷ l) ∷ ls

-- The lines that the loop visits: each ends at "\n", "\r\n", "\r" or the end of the text, and the
-- last one is what stands behind the last break, empty or not.
unfoldable pub split_lines : WString → List WString
split_lines [] = [] ∷ []
split_lines (c ∷ []) = if is_break c then [] ∷ [] ∷ [] else (c ∷ []) ∷ []
split_lines (c ∷ d ∷ s) =
    let after_pair = [] ∷ split_lines s in
    let after_one = split_lines (d ∷ s) in
    if c == b'\r' && d == b'\n'
    then after_pair
    else if is_break c
    then [] ∷ after_one
    else push_front c after_one

abbrev pub is_serial : Transport → Bool
is_serial serial = true
is_serial _ = false

abbrev pub EndpointMap : Type 0
EndpointMap = Map WString

-- a line that is blank or a comment, behind its trim
abbrev pub is_comment : WString → Bool
is_comment [] = true
is_comment (c ∷ s) = c == b'#' || c == b';'

-- What stands behind the guards on one entry: none refuses the line.
unfoldable pub add_entry : EndpointMap → WString → Result FacadeEndpoint → Option EndpointMap
add_entry m addr (err c) = none
add_entry m addr (ok e) =
    if is_serial e.kind
    then none
    else if is_some (lookup addr m)
    then none
    else some (insert addr (format e) m)

unfoldable pub read_entry : Platform → EndpointMap → WString → WString → Option EndpointMap
read_entry p m addr ep =
    if is_empty addr || is_swapped_peer_argument (some addr)
    then none
    else add_entry m addr (parse_endpoint p (some ep) false blank_endpoint)

unfoldable pub split_entry : Platform → EndpointMap → WString → Option ℕ → Option EndpointMap
split_entry p m line none = none
split_entry p m line (some zero) = none
split_entry p m line (some (suc n)) =
    read_entry p m (trim p.is_space (take (suc n) line)) (trim p.is_space (drop (suc (suc n)) line))

-- One line against the map so far.
unfoldable pub read_line : Platform → EndpointMap → WString → Option EndpointMap
read_line p m raw =
    let line = trim p.is_space raw in
    if is_comment line then some m else split_entry p m line (find b'=' line)

-- The new map with S_OK, or P2PF_E_ENDPOINT with the number of the line.
pub data MapResult : Type 0 where
  parsed : EndpointMap → MapResult
  bad_line : ℕ → MapResult

-- The loop, at the line behind line `n`, as an unsigned int.
unfoldable pub read_lines : Platform → ℕ → EndpointMap → List WString → MapResult
read_lines p n m [] = parsed m
read_lines p n m (l ∷ ls) = elim (read_line p m l) [
  | none ↦ bad_line ((n + 1) % 2 ^ 32)
  | some next ↦ read_lines p ((n + 1) % 2 ^ 32) next ls
]

unfoldable pub parse_endpoint_map : Platform → Option WString → MapResult
parse_endpoint_map p none = parsed []
parse_endpoint_map p (some text) =
    if is_empty text then parsed [] else read_lines p 0 [] (split_lines text)
