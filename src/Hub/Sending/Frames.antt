-- ===== src/Hub/Sending/Frames.antt =====
-- The frame of a broadcast, and the copies that are sent of it.
use target_facade.Base.{
  ℕ, suc, ◌+◌, ◌*◌, ◌/◌, ◌%◌, ◌^◌, ◌<◌, ◌≡◌, refl, ◌∙◌, ap, Bool, true, false, List, [], ◌∷◌, ◌++◌,
  Option, none, some, arith, leb, if◌then◌else◌,
}
use target_facade.Base.Lists.{length, drop, length-append, All}
use target_facade.Base.Text.{WString, equal, equal_iff}
use target_facade.Base.SortedMap.{Map, lookup, IsSorted, lookup-After}
use target_facade.Message.{Bytes}
use target_facade.Hub.{state_of}
use target_facade.Hub.Kernel.{Post}
use target_facade.Hub.Sending.{
  MsgOpts, units_bytes, broadcast_frame, up_peers, copies, read_units, read_frame,
}

abbrev pub IsUnit : ℕ → Type 0
IsUnit c = c < 2 ^ 16

word_back : (c : ℕ) → c < 2 ^ 16 → c % 256 + c / 256 % 256 * 256 ≡ c
word_back c small = omega arith

read_units-units_bytes :
    (topic : WString) (rest : Bytes)
    → All IsUnit topic
    → read_units (length topic) (units_bytes topic ++ rest) ≡ topic
read_units-units_bytes [] rest u = refl
read_units-units_bytes (c ∷ s) rest u =
    ap (λ d. d ∷ read_units (length s) (units_bytes s ++ rest)) (word_back c u.0)
    ∙ ap (◌∷◌ c) (read_units-units_bytes s rest u.1)

drop-units_bytes :
    (topic : WString) (rest : Bytes) → drop (length topic * 2) (units_bytes topic ++ rest) ≡ rest
drop-units_bytes [] rest = refl
drop-units_bytes (c ∷ s) rest =
    let two : suc (length s) * 2 ≡ suc (suc (length s * 2)) = omega arith in
    ap (λ n. drop n ((c % 256) ∷ (c / 256 % 256) ∷ (units_bytes s ++ rest))) two
    ∙ drop-units_bytes s rest

length-units_bytes : (topic : WString) → length (units_bytes topic) ≡ length topic * 2
length-units_bytes [] = refl
length-units_bytes (c ∷ s) = omega (arith, length-units_bytes s)

-- The receiver of a frame reads the topic and the payload that were framed, for a topic of fewer
-- than 2 ^ 16 units of 16 bits.
pub read_frame-broadcast_frame :
    (topic : WString) (payload : Bytes)
    → All IsUnit topic
    → length topic < 2 ^ 16
    → read_frame (broadcast_frame topic payload) ≡ some (topic, payload)
unfolding read_frame broadcast_frame
read_frame-broadcast_frame topic payload u short =
    let chars : length topic % 65536 % 256 + length topic % 65536 / 256 % 256 * 256 ≡ length topic =
      omega arith in
    let fits : leb (length topic * 2) (length (units_bytes topic ++ payload)) ≡ true =
      ground (arith, length-append (units_bytes topic) payload, length-units_bytes topic) in
    rw (chars, fits)
      (rw (read_units-units_bytes topic payload u, drop-units_bytes topic payload) refl)

-- How many of the copies go to a peer.
abbrev pub copies_to : WString → List Post → ℕ
copies_to p [] = 0
copies_to p (m ∷ ms) = if equal m.dest p then suc (copies_to p ms) else copies_to p ms

-- The copies of a broadcast are exactly one for each peer that is up, and none for any other, when
-- the map of peers is in key order.
pub copies-up :
    (p source : WString) (n : Map Bool) (frame : Bytes) (opts : Option MsgOpts)
    → IsSorted n
    → copies_to p (copies source (up_peers n) frame opts) ≡ (if state_of (lookup p n) then 1 else 0)
unfolding up_peers lookup
copies-up p source [] frame opts s = refl
copies-up p source ((j, true) ∷ n) frame none s =
    ground (arith, copies-up p source n frame none s.1, equal_iff j p, lookup-After j n s.0)
copies-up p source ((j, true) ∷ n) frame (some o) s =
    ground (arith, copies-up p source n frame (some o) s.1, equal_iff j p, lookup-After j n s.0)
copies-up p source ((j, false) ∷ n) frame opts s =
    ground (arith, copies-up p source n frame opts s.1, equal_iff j p, lookup-After j n s.0)
