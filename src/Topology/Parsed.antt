-- ===== src/Topology/Parsed.antt =====
-- What a topology that parses has in it.
use target_facade.Base.{
  ℕ, ◌+◌, ◌≡◌, refl, inl, inr, Bool, true, false, not, ◌||◌, List, [], ◌∷◌, ◌++◌, Option, none,
  some, arith, if◌then◌else◌, Option-cases, if_both, ◌%◌, ◌^◌,
}
use mathlib.Core.Path.{subst}
use target_facade.Endpoint.Map.{split_lines, is_comment}
use target_facade.Base.Lists.{length, length-append, drop, All}
use target_facade.Base.Text.{WString, codes, equal, equal_iff, is_empty}
use target_facade.Topology.{
  Edge, Topology, empty_topology, is_listed, put_entry, add_address, add_edge, read_verb_line,
  read_all, parse_topology, topology, looks_like_endpoint, split_on, split_arrow, strip, read_edge,
  token, lower,
}

-- no text stands twice in the list
abbrev pub IsDistinct : List WString → Type 0
IsDistinct [] = Unit
IsDistinct (h ∷ hs) = (is_listed h hs ≡ false) × IsDistinct hs

-- an edge between two hubs of the list that are not the same
abbrev pub JoinsHubs : List WString → Edge → Type 0
JoinsHubs hubs e =
    (is_listed e.listener hubs ≡ true)
    × (is_listed e.dialer hubs ≡ true)
    × (equal e.listener e.dialer ≡ false)

pub record IsTopology (t : Topology) : Type 0 where
  pub hubs_distinct : IsDistinct t.hubs
  pub entries_distinct : IsDistinct t.entries
  pub edges_joined : All (JoinsHubs t.hubs) t.edges
  pub lines_counted : length t.map_lines ≡ length t.entries

is_listed-append :
    (a b : WString) (hs : List WString) → is_listed a (hs ++ b ∷ []) ≡ (is_listed a hs || equal b a)
unfolding is_listed
is_listed-append a b [] = ground arith
is_listed-append a b (h ∷ hs) = ground (arith, is_listed-append a b hs)

append-IsDistinct :
    (a : WString) (hs : List WString)
    → IsDistinct hs
    → is_listed a hs ≡ false
    → IsDistinct (hs ++ a ∷ [])
unfolding is_listed
append-IsDistinct a [] d new = (refl, tt)
append-IsDistinct a (h ∷ hs) d new = (
  ground (arith, is_listed-append h a hs, equal_iff h a, equal_iff a h, d.0),
  append-IsDistinct a hs d.1 (ground arith),
)

more_hubs-JoinsHubs :
    (a : WString) (hs : List WString) (es : List Edge)
    → All (JoinsHubs hs) es
    → All (JoinsHubs (hs ++ a ∷ [])) es
more_hubs-JoinsHubs a hs [] j = tt
more_hubs-JoinsHubs a hs (e ∷ es) j = (
  (
    ground (arith, is_listed-append e.listener a hs, j.0),
    ground (arith, is_listed-append e.dialer a hs, j.0),
    j.0.2,
  ),
  more_hubs-JoinsHubs a hs es j.1,
)

append-JoinsHubs :
    (e : Edge) (hs : List WString) (es : List Edge)
    → All (JoinsHubs hs) es
    → JoinsHubs hs e
    → All (JoinsHubs hs) (es ++ e ∷ [])
append-JoinsHubs e hs [] j new = (new, tt)
append-JoinsHubs e hs (f ∷ es) j new = (j.0, append-JoinsHubs e hs es j.1 new)

topology_inj : {t u : Topology} → topology t ≡ topology u → t ≡ u
topology_inj e = cc

empty_topology-IsTopology : IsTopology empty_topology
empty_topology-IsTopology = record {
  hubs_distinct = tt;
  entries_distinct = tt;
  edges_joined = tt;
  lines_counted = refl;
}

-- what a step leaves, unless it refuses the line
abbrev Keeps : Option Topology → Type 0
Keeps none = Unit
Keeps (some t) = IsTopology t

put_entry-Keeps :
    (addr ep : WString) (n : ℕ) (t : Topology) → IsTopology t → Keeps (put_entry addr ep n t)
unfolding put_entry
put_entry-Keeps addr ep n t i =
    if_both Keeps (is_empty ep) _ _ (λ e. i)
      (λ e.
        if_both Keeps (is_listed addr t.entries) _ _ (λ f. tt)
          (λ f. record {
            hubs_distinct = i.hubs_distinct;
            entries_distinct = append-IsDistinct addr t.entries i.entries_distinct f;
            edges_joined = i.edges_joined;
            lines_counted = omega (
              arith,
              length-append t.map_lines (n ∷ []),
              length-append t.entries (addr ∷ []),
              i.lines_counted,
            );
          }))

add_address-Keeps :
    (hub : Bool) (addr ep : WString) (n : ℕ) (t : Topology)
    → IsTopology t
    → Keeps (add_address hub addr ep n t)
unfolding add_address
add_address-Keeps hub addr ep n t i =
    if_both Keeps (is_empty addr || looks_like_endpoint addr) _ _ (λ e. tt)
      (λ e.
        if_both Keeps (not hub) _ _
          (λ f. if_both Keeps (is_empty ep) _ _ (λ g. tt) (λ g. put_entry-Keeps addr ep n t i))
          (λ f.
            if_both Keeps (is_listed addr t.hubs) _ _ (λ g. tt)
              (λ g.
                put_entry-Keeps addr ep n (record t { hubs = t.hubs ++ addr ∷ [] })
                  (record {
                    hubs_distinct = append-IsDistinct addr t.hubs i.hubs_distinct g;
                    entries_distinct = i.entries_distinct;
                    edges_joined = more_hubs-JoinsHubs addr t.hubs t.edges i.edges_joined;
                    lines_counted = i.lines_counted;
                  }))))

add_edge-Keeps :
    (listener dialer ep : WString) (t : Topology)
    → IsTopology t
    → Keeps (add_edge listener dialer ep t)
unfolding add_edge
add_edge-Keeps listener dialer ep t i =
    let e : Edge = record { listener = listener; dialer = dialer; endpoint = ep } in
    let u = record t { edges = t.edges ++ e ∷ [] } in
    let missing = not (is_listed listener t.hubs) || not (is_listed dialer t.hubs) in
    if_both Keeps
      (is_empty listener
        || (is_empty dialer
            || (equal listener dialer
                || (looks_like_endpoint listener || looks_like_endpoint dialer))))
      none (if missing then none else some u) (λ bad. tt)
      (λ fine.
        if_both Keeps missing none (some u) (λ absent. tt)
          (λ there. record {
            hubs_distinct = i.hubs_distinct;
            entries_distinct = i.entries_distinct;
            edges_joined =
                append-JoinsHubs e t.hubs t.edges i.edges_joined
                  (ground arith, ground arith, ground arith);
            lines_counted = i.lines_counted;
          }))

read_edge-Keeps : (rest : WString) (t : Topology) → IsTopology t → Keeps (read_edge rest t)
read_edge-Keeps rest t i = elim (Option-cases (split_arrow (split_on b'=' rest).0)) [
  | inl e ↦ rw (e, read_edge) tt
  | inr (ends, e) ↦
      rw (e, read_edge)
        (add_edge-Keeps (strip ends.0) (strip ends.1) (strip (split_on b'=' rest).1) t i)
]

read_verb_line-Keeps :
    (raw : WString) (n : ℕ) (t : Topology) → IsTopology t → Keeps (read_verb_line raw n t)
unfolding read_verb_line
read_verb_line-Keeps raw n t i =
    let line = strip raw in
    let verb = strip (token line) in
    let rest = strip (drop (length verb) line) in
    let r = split_on b'=' rest in
    if_both Keeps (is_comment line) _ _ (λ e. i)
      (λ e.
        if_both Keeps (equal (lower verb) (codes "hub")) _ _
          (λ f. add_address-Keeps true (strip r.0) (strip r.1) n t i)
          (λ f.
            if_both Keeps (equal (lower verb) (codes "at")) _ _
              (λ g. add_address-Keeps false (strip r.0) (strip r.1) n t i)
              (λ g.
                if_both Keeps (equal (lower verb) (codes "link")) _ _
                  (λ k. read_edge-Keeps rest t i) (λ k. tt))))

read_all-IsTopology :
    (n : ℕ) (t u : Topology) (ls : List WString)
    → IsTopology t
    → read_all n t ls ≡ topology u
    → IsTopology u
unfolding read_all
read_all-IsTopology n t u [] i e = subst IsTopology (topology_inj e) i
read_all-IsTopology n t u (l ∷ ls) i e =
    let number = (n + 1) % 2 ^ 32 in
    elim (Option-cases (read_verb_line l number t)) [
      | inl refused ↦ ground (arith, refused)
      | inr (next, read) ↦
          read_all-IsTopology number next u ls
            (subst Keeps read (read_verb_line-Keeps l number t i)) (rw (read, read_all) at e)
    ]

-- A topology text that parses declares no hub and no endpoint twice, each of its edges joins two
-- declared hubs that are not the same, and the map's lines are counted one for each endpoint.
pub parse_topology-IsTopology :
    (text : Option WString) (t : Topology) → parse_topology text ≡ topology t → IsTopology t
unfolding parse_topology
parse_topology-IsTopology none t e = subst IsTopology (topology_inj e) empty_topology-IsTopology
parse_topology-IsTopology (some text) t e =
    read_all-IsTopology 0 empty_topology t (split_lines text) empty_topology-IsTopology e
