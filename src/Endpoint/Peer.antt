-- ===== src/Endpoint/Peer.antt =====
-- src/FacadeEndpoint.cpp: the guards on a peer address, the topology classifier and the name of a
-- derived Dmx service.
pub mod Tree
pub mod Service
use target_facade.Base.{
  ℕ, zero, suc, Bool, true, false, ◌&&◌, ◌||◌, [], ◌∷◌, ◌++◌, Option, none, some, ◌==◌,
  if◌then◌else◌,
}
use target_facade.Base.Lists.{length}
use target_facade.Base.Text.{WString, codes, equal, is_empty, has, starts_with}

-- the characters of a P2Padomain pattern
abbrev pub is_wildcard : ℕ → Bool
is_wildcard c =
    c == b'*' || c == b'?' || c == b'#' || c == b'|' || c == b'<' || c == b'>' || c == b','

unfoldable pub is_pattern : WString → Bool
is_pattern [] = false
is_pattern (c ∷ s) = is_wildcard c || is_pattern s

-- `s[n]`, where the terminator stands behind the last unit
abbrev pub unit_at : WString → ℕ → ℕ
unit_at [] n = 0
unit_at (c ∷ s) zero = c
unit_at (c ∷ s) (suc n) = unit_at s n

unfoldable pub is_below : WString → WString → Bool
is_below parent child =
    if is_empty parent
    then false
    else starts_with parent child && unit_at child (length parent) == b'.'

-- `wcsstr (s, part) != 0`
unfoldable pub has_part : WString → WString → Bool
has_part part [] = starts_with part []
has_part part (c ∷ s) = starts_with part (c ∷ s) || has_part part s

-- none is a NULL argument
unfoldable pub is_swapped_peer_argument : Option WString → Bool
is_swapped_peer_argument none = false
is_swapped_peer_argument (some peer) = has b':' peer || has_part (codes "//") peer

pub data Relation : Type 0 where
  self descendant ancestor unrelated pattern_peer : Relation

unfoldable pub classify_peer : Option WString → Option WString → Relation
classify_peer none peer = pattern_peer
classify_peer (some address) none = pattern_peer
classify_peer (some address) (some peer) =
    if is_empty address || is_empty peer
    then pattern_peer
    else if is_pattern peer
    then pattern_peer
    else if equal address peer
    then self
    else if is_below address peer
    then descendant
    else if is_below peer address
    then ancestor
    else unrelated

unfoldable pub derive_dmx_service : WString → WString → WString
derive_dmx_service listener dialer = codes "P2PF|" ++ (listener ++ b'|' ∷ dialer)
