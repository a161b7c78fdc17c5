-- ===== src/Endpoint/Map/Lines.antt =====
-- The lines of an endpoint map, and the line that a refused map is reported at.
use target_facade.Base.{
  ℕ, ◌+◌, ◌%◌, ◌^◌, ◌<◌, ◌≡◌, inl, inr, refl, ap, ◌∙◌, Bool, true, not, List, [], ◌∷◌, ◌++◌, none,
  some, arith, Option-cases,
}
use target_facade.Base.Lists.{length, all}
use target_facade.Base.Text.{WString}
use target_facade.Platform.{Platform}
use target_facade.Endpoint.Map.{
  is_break, split_lines, EndpointMap, read_line, parsed, bad_line, read_lines, parse_endpoint_map,
}

-- The lines with the break `sep` between them.
abbrev pub join : WString → WString → List WString → WString
join sep l [] = l
join sep l (k ∷ ls) = l ++ (sep ++ join sep k ls)

abbrev pub is_whole : WString → Bool
is_whole = all (λ c. not (is_break c))

-- how a line ends
pub data IsBreak : WString → Type 0 where
  unix : IsBreak (b'\n' ∷ [])
  dos : IsBreak (b'\r' ∷ b'\n' ∷ [])

split_lines-whole : (l : WString) → is_whole l ≡ true → split_lines l ≡ l ∷ []
unfolding split_lines
split_lines-whole [] h = refl
split_lines-whole (c ∷ []) h = ground arith
split_lines-whole (c ∷ d ∷ l) h = ground (arith, split_lines-whole (d ∷ l))

break_unix :
    (l rest : WString) → is_whole l ≡ true → split_lines (l ++ b'\n' ∷ rest) ≡ l ∷ split_lines rest
unfolding split_lines
break_unix [] [] h = refl
break_unix [] (d ∷ s) h = refl
break_unix (c ∷ []) rest h = ground (arith, break_unix [] rest refl)
break_unix (c ∷ d ∷ l) rest h = ground (arith, break_unix (d ∷ l) rest)

break_dos :
    (l rest : WString)
    → is_whole l ≡ true
    → split_lines (l ++ b'\r' ∷ b'\n' ∷ rest) ≡ l ∷ split_lines rest
unfolding split_lines
break_dos [] rest h = refl
break_dos (c ∷ []) rest h = ground (arith, break_dos [] rest refl)
break_dos (c ∷ d ∷ l) rest h = ground (arith, break_dos (d ∷ l) rest)

-- Lines without a break in them that are joined by "\n", or by "\r\n", split into those lines.
pub split_lines-join :
    {sep : WString} (b : IsBreak sep) (l : WString) (ls : List WString)
    → all is_whole (l ∷ ls) ≡ true
    → split_lines (join sep l ls) ≡ l ∷ ls
split_lines-join b l [] h = split_lines-whole l (ground arith)
split_lines-join unix l (k ∷ ls) h =
    break_unix l (join (b'\n' ∷ []) k ls) (ground arith)
    ∙ ap (◌∷◌ l) (split_lines-join unix k ls (ground arith))
split_lines-join dos l (k ∷ ls) h =
    break_dos l (join (b'\r' ∷ b'\n' ∷ []) k ls) (ground arith)
    ∙ ap (◌∷◌ l) (split_lines-join dos k ls (ground arith))

-- The line that a map is refused at: the lines before it are all accepted, it is not, and the
-- number reported counts it and all of those, blank lines and comments included.
pub record RefusedAt (p : Platform) (lines : List WString) (n : ℕ) : Type 0 where
  pub before : List WString
  pub line : WString
  pub later : List WString
  pub so_far : EndpointMap
  pub splits : lines ≡ before ++ line ∷ later
  pub accepted : read_lines p 0 [] before ≡ parsed so_far
  pub refused : read_line p so_far line ≡ none
  pub counts : n ≡ length before + 1

-- the same from the line behind line `k`, with the map `m`
record RefusedFrom (p : Platform) (k : ℕ) (m : EndpointMap) (lines : List WString) (n : ℕ)
    : Type 0 where
  before : List WString
  line : WString
  later : List WString
  so_far : EndpointMap
  splits : lines ≡ before ++ line ∷ later
  accepted : read_lines p k m before ≡ parsed so_far
  refused : read_line p so_far line ≡ none
  counts : n ≡ k + length before + 1

read_lines-RefusedFrom :
    (p : Platform) (k : ℕ) (m : EndpointMap) (lines : List WString) (n : ℕ)
    → k + length lines < 2 ^ 32
    → read_lines p k m lines ≡ bad_line n
    → RefusedFrom p k m lines n
unfolding read_lines
read_lines-RefusedFrom p k m [] n small h = cc
read_lines-RefusedFrom p k m (l ∷ ls) n small h = elim (Option-cases (read_line p m l)) [
  | inl r ↦ record {
    before = [];
    line = l;
    later = ls;
    so_far = m;
    splits = refl;
    accepted = refl;
    refused = r;
    counts = ground arith;
  }
  | inr (next, r) ↦
      let same : (k + 1) % 2 ^ 32 ≡ k + 1 = omega arith in
      let tail = read_lines-RefusedFrom p (k + 1) next ls n (omega arith) (ground arith) in
      record {
        before = l ∷ tail.before;
        line = tail.line;
        later = tail.later;
        so_far = tail.so_far;
        splits = ap (◌∷◌ l) tail.splits;
        accepted = ground (arith, tail.accepted);
        refused = tail.refused;
        counts = omega (arith, tail.counts);
      }
]

-- A map of fewer than 2 ^ 32 lines that is refused is refused at its first bad line, and that
-- line's number, counted from 1, is the one reported.
pub parse_endpoint_map-RefusedAt :
    (p : Platform) (text : WString) {n : ℕ}
    → length (split_lines text) < 2 ^ 32
    → parse_endpoint_map p (some text) ≡ bad_line n
    → RefusedAt p (split_lines text) n
unfolding parse_endpoint_map
parse_endpoint_map-RefusedAt p [] small h = ground arith
parse_endpoint_map-RefusedAt p (c ∷ text) {n} small h =
    let from = read_lines-RefusedFrom p 0 [] (split_lines (c ∷ text)) n (omega arith) h in
    record {
      before = from.before;
      line = from.line;
      later = from.later;
      so_far = from.so_far;
      splits = from.splits;
      accepted = from.accepted;
      refused = from.refused;
      counts = omega (arith, from.counts);
    }
