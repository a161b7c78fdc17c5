-- ===== src/Tests/Topologies.antt =====
-- Topology texts and registries at inputs where the theorems apply.
use target_facade.Base.{refl, [], ◌∷◌, some}
use target_facade.Base.Text.{codes, equal, find, has, trim_left, trim_right}
use target_facade.Endpoint.Map.{split_lines}
use target_facade.Topology.{
  Topology, parse_topology, read_all, read_verb_line, token, lower, split_on, split_arrow,
  has_slashes, is_listed, put_entry, add_address, add_edge,
}
use target_facade.Topology.Parsed.{IsTopology, parse_topology-IsTopology}

abbrev two_hubs : Topology
two_hubs = record {
  hubs = codes "A" ∷ codes "B" ∷ [];
  entries = codes "A" ∷ [];
  edges = record { listener = codes "A"; dialer = codes "B"; endpoint = codes "dmx://x" } ∷ [];
  map_text = codes "A = tcp://h:1\n";
  map_lines = 1 ∷ [];
}

parse_topology-IsTopology_example : IsTopology two_hubs
unfolding parse_topology read_all read_verb_line token lower split_on split_arrow has_slashes
    is_listed put_entry add_address add_edge split_lines equal find has trim_left trim_right
parse_topology-IsTopology_example =
    parse_topology-IsTopology
      (some (codes "hub A = tcp://h:1\n# two\nHUB B\nlink A -> B = dmx://x")) two_hubs refl
