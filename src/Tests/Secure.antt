-- ===== src/Tests/Secure.antt =====
-- Secure hubs over files and a policy that can be run: a map from paths to the lines of allow-lists,
-- and a switch that is enforced wherever it is on.
use target_facade.Base.{
  ◌≡◌, ◌≢◌, refl, sym, Bool, true, false, List, [], ◌∷◌, ◌++◌, Option, none, some, arith,
  if◌then◌else◌, is_some, Option-cases, inl, inr,
}
use target_facade.Base.Text.{
  WString, codes, equal, equal_refl, has, starts_with, find, trim_left, trim_right,
}
use target_facade.Base.SortedMap.{Map, lookup, insert, erase, lookup-insert, lookup-erase}
use target_facade.Status.{e_con_duplicate, s_ok}
use target_facade.Endpoint.{blank_endpoint, FacadeEndpoint, dmx}
use target_facade.Hub.{Hub, SecKeys, new_hub}
use target_facade.Security.Facilities.{
  Policy, id_ok, id_err_io, Bytes, AllowEntry, appended, beside, IsFileStore, IsAuthSwitch,
}
use target_facade.Base.SortedMap.Order.{before}
use target_facade.Security.{
  write_list, append_all, trust_and_enforce, security_stem_of, stem_by, sanitise,
}
use target_facade.Security.AllowList.{entries, write_list-entries, write_list-nobody}
use target_facade.Security.Rollback.{
  trust_and_enforce-enforced, InPosture, trust_and_enforce-InPosture,
}
use target_facade.Security.Edge.{Side, trust_both, secure_edge}
use target_facade.Security.Edge.Secured.{trust_both-left_on}
use target_facade.Security.Edge.Refused.{Refused, Postures, secure_edge-Refused}
use target_facade.Security.Directory.{KeyDirectory, ensure_security_dir}
use target_facade.Security.{trust_published_peer, load_peer_keys}
use target_facade.Security.Edge.{trust_back}
use target_facade.Security.Arm.{
  Node, endpoint_of, secure_peer, arm_secured, arm_unified, Admitted, arm_unified-Admitted,
}
use target_facade.Hub.Kernel.{Kernel}
use target_facade.Hub.{on_callback, mark_peer}
use target_facade.Hub.Pump.{wait_slice}
use target_facade.Hub.Arming.{
  arm_resolved, arm_recorded, post, make_con, factory_of, family_to_set, report_relation, close_con,
  await_gone,
}
use target_facade.Endpoint.{
  parse_endpoint, parse_trimmed, parse_target, tcp_scheme, is_scheme, parse_named, strip_slashes,
}
use target_facade.Endpoint.Peer.{
  is_swapped_peer_argument, has_part, is_pattern, classify_peer, is_below,
}
use target_facade.Link.{
  Ends, Pair, link_hubs, link_by, edge_exists, secure_pair, arm_edge, arm_dialer, unwind,
}
use target_facade.Link.Atomic.{SameArmed, link_hubs-failed}
use target_facade.Link.Armed.{Linked, link_hubs-Linked}
use target_facade.Tests.Sample.{sample}
use target_facade.Tests.Hubs.{sample_kernel}

abbrev Files : Type 0
Files = Map (List AllowEntry)

abbrev or_none : Option (List AllowEntry) → List AllowEntry
or_none none = []
or_none (some es) = es

abbrev add_line : Bytes → AllowEntry → Files → Files
add_line path e d = insert path (or_none (lookup path d) ++ e ∷ []) d

abbrev move : WString → WString → Option (List AllowEntry) → Files → Bool × Files
move from to none d = (false, d)
move from to (some es) d = (true, insert to es d)

abbrev pub open_policy : Policy
open_policy = record {
  Disk = Files;
  Auth = Bool;
  IdKey = Bytes;
  AgreeKey = Bytes;
  utf8 = λ s. some s;
  delete_file = λ path d. erase path d;
  move_file = λ from to d. move from to (lookup from d) d;
  file_exists = λ path d. is_some (lookup path d);
  write_revocation_text = λ path d. (true, insert path [] d);
  create_directory = λ path d. (true, d);
  module_path = some (codes "C:\\bin\\facade.dll");
  append_allow_list = λ path who id agree d.
      (id_ok, add_line path (record { who = who; id = id; agree = agree }) d);
  load_public_key = λ path d. (id_ok, path);
  export_public = λ key. some key;
  load_agreement_public_key = λ path d. (id_err_io, path);
  export_agreement = λ key. some key;
  import_agreement = λ point. some point;
  save_agreement_public_key = λ path key d. (id_ok, d);
  fingerprint = λ point. point;
  provision_auth = λ path d a. (id_ok, path, d, a);
  set_agreement_key = λ path d a. (id_ok, d, a);
  get_agreement_public = λ a. none;
  set_revocation_list = λ path d a. (id_ok, a);
  set_allow_list = λ path d a. (if is_some (lookup path d) then id_ok else id_err_io, a);
  require_auth = λ on a. on;
  require_seal = λ on a. a;
  require_relay_auth = λ on a. a;
  auth_arms = λ d a. a;
  is_auth_required = λ a. a;
  can_auth_sign = λ a. true;
  can_open = λ a. true;
  is_seal_required = λ a. false;
  is_revocation_configured = λ a. true;
  is_revocation_usable = λ a. true;
}

-- a hub that requires authentication cannot enforce it
abbrev locked_policy : Policy
locked_policy = record open_policy { auth_arms = λ d a. false }

beside_apart : (s t : WString) → equal (s ++ b'.' ∷ t) s ≡ false
unfolding equal
beside_apart [] t = refl
beside_apart (c ∷ s) t = ground (arith, beside_apart s t)

some_path : {a b : Bytes} → some a ≡ some b → a ≡ b
some_path e = cc

append_line_sample :
    (path who id : Bytes) (agree : Option Bytes) (d : Files)
    → lookup path (add_line path (record { who = who; id = id; agree = agree }) d)
      ≡ appended (lookup path d) (record { who = who; id = id; agree = agree } ∷ [])
append_line_sample path who id agree d =
    let e : AllowEntry = record { who = who; id = id; agree = agree } in
    let look = lookup-insert path path (or_none (lookup path d) ++ e ∷ []) d in
    elim (Option-cases (lookup path d)) [
      | inl none_there ↦ ground (arith, look, none_there, equal_refl path)
      | inr (es, there) ↦ ground (arith, look, there, equal_refl path)
    ]

moved_sample :
    (from to : WString) (o : Option (List AllowEntry)) (d : Files)
    → (move from to o d).0 ≡ true
    → (lookup to (move from to o d).1 ≡ o) × (o ≢ none)
moved_sample from to none d h = cc
moved_sample from to (some es) d h =
    (ground (arith, lookup-insert to to es d, equal_refl to), λ e. cc)

not_moved_sample :
    (from to path : WString) (o : Option (List AllowEntry)) (d : Files)
    → (move from to o d).0 ≡ false
    → lookup path (move from to o d).1 ≡ lookup path d
not_moved_sample from to path none d h = refl
not_moved_sample from to path (some es) d h = cc

open_files : IsFileStore open_policy
open_files = record {
  lines = λ path d. lookup path d;
  append_line = λ path name who id agree d e good.
      rw (sym (some_path e)) (append_line_sample path who id agree d);
  append_apart = λ path name who id agree d e. rw (sym (some_path e)) (
      ground (
        arith,
        lookup-insert (beside path) path
            (or_none (lookup (beside path) d) ++ record { who = who; id = id; agree = agree } ∷ [])
            d,
        beside_apart path (codes "new"),
      ));
  delete_apart =
      λ path d. ground (arith, lookup-erase (beside path) path d, beside_apart path (codes "new"));
  move_lines = λ path d. moved_sample (beside path) path (lookup (beside path) d) d;
  move_refused = λ path d. not_moved_sample (beside path) path path (lookup (beside path) d) d;
}

open_switch : IsAuthSwitch open_policy
open_switch = record {
  require_sets = λ on a. refl;
  seal_keeps = λ on a. refl;
  relay_keeps = λ on a. refl;
  allow_keeps = λ path d a. refl;
}

locked_switch : IsAuthSwitch locked_policy
locked_switch = record {
  require_sets = λ on a. refl;
  seal_keeps = λ on a. refl;
  relay_keeps = λ on a. refl;
  allow_keeps = λ path d a. refl;
}

abbrev keys_a : SecKeys
keys_a = record { id = 1 ∷ []; agree = none; fingerprint = 1 ∷ [] }

abbrev keys_b : SecKeys
keys_b = record { id = 2 ∷ []; agree = some (3 ∷ []); fingerprint = 2 ∷ [] }

abbrev hub_a : Hub
hub_a = record (new_hub (codes "App") true false) {
  provisioned = true;
  sec_keys = keys_a;
  sec_dir = codes "k\\";
}

abbrev hub_b : Hub
hub_b = record (new_hub (codes "App.B") true false) {
  provisioned = true;
  sec_keys = keys_b;
  sec_dir = codes "k\\";
}

abbrev allow : WString
allow = codes "A.allow"

abbrev one_trusted : Map SecKeys
one_trusted = (codes "App.B", keys_b) ∷ []

write_list-entries_example :
    let r = write_list open_policy allow one_trusted false [] in
    (open_files.lines allow r.2
      ≡ some (record { who = codes "App.B"; id = 2 ∷ []; agree = some (3 ∷ []) } ∷ []))
    × (one_trusted ≢ [])
    × ((path : Bytes) × (some allow ≡ some path)
        × (open_policy.set_allow_list path r.2 false ≡ (id_ok, r.1)))
unfolding open_files lookup erase write_list append_all insert equal before
write_list-entries_example =
    write_list-entries open_policy open_files allow one_trusted false [] refl refl

write_list-nobody_example :
    let r = write_list open_policy allow [] false [] in
    (r.0 ≢ id_ok) × (r.1 ≡ false) × (open_files.lines allow r.2 ≡ open_files.lines allow [])
unfolding open_files lookup erase
write_list-nobody_example = write_list-nobody open_policy open_files allow false [] refl

trust_and_enforce-enforced_example :
    let r = trust_and_enforce open_policy (codes "App.B") keys_b (codes "k\\") hub_a false [] in
    ((other : WString)
      → lookup other r.1.trusted
        ≡ (if equal (codes "App.B") other then some keys_b else lookup other []))
    × (r.2 ≡ true)
    × (open_policy.auth_arms r.3 r.2 ≡ true)
    × (open_files.lines (codes "k\\App.allow") r.3
        ≡ some (entries open_policy open_files r.1.trusted))
unfolding trust_and_enforce write_list append_all lookup erase insert equal before open_files
    security_stem_of stem_by sanitise
trust_and_enforce-enforced_example =
    trust_and_enforce-enforced open_policy open_files open_switch (codes "App.B") keys_b
      (codes "k\\") hub_a false [] refl refl

trust_and_enforce-InPosture_example :
    let r = trust_and_enforce locked_policy (codes "App.B") keys_b (codes "k\\") hub_a false [] in
    InPosture locked_policy r.1 r.2
trust_and_enforce-InPosture_example =
    trust_and_enforce-InPosture locked_policy locked_switch (codes "App.B") keys_b (codes "k\\")
      hub_a false [] tt refl

trust_both-left_on_example :
    (trust_both open_policy
      (codes "k\\")
      (record { hub = hub_a; auth = false })
      (record { hub = hub_b; auth = false })
      []).1.auth
    ≡ true
unfolding trust_and_enforce write_list append_all lookup erase insert equal before security_stem_of
    stem_by sanitise
trust_both-left_on_example =
    trust_both-left_on open_policy open_switch (codes "k\\") (record { hub = hub_a; auth = false })
      (record { hub = hub_b; auth = false }) [] refl

abbrev dirs : KeyDirectory
dirs = record { dir = codes "k\\"; used = true }

secure_edge-Refused_example :
    let a : Side locked_policy = record { hub = hub_a; auth = false } in
    let b : Side locked_policy = record { hub = hub_b; auth = false } in
    let r = secure_edge locked_policy dirs a b [] in
    Refused locked_policy a b r.1 r.2 × Postures locked_policy r.1 r.2
unfolding secure_edge ensure_security_dir trust_both trust_and_enforce write_list append_all lookup
    erase insert equal before security_stem_of stem_by sanitise
secure_edge-Refused_example =
    secure_edge-Refused locked_policy locked_switch dirs (record { hub = hub_a; auth = false })
      (record { hub = hub_b; auth = false }) [] tt tt refl refl refl

abbrev node_a : Node sample_kernel open_policy
node_a = record { hub = hub_a; state = []; auth = false }

abbrev node_b : Node sample_kernel open_policy
node_b = record { hub = hub_b; state = []; auth = false }

abbrev at : FacadeEndpoint
at = record blank_endpoint { kind = dmx; name = codes "svc" }

arm_unified-Admitted_example :
    let r =
      arm_unified sample sample_kernel open_policy none
        (some (codes "App.B"))
        (some (codes "dmx://svc"))
        true
        node_a
        [] in
    Admitted sample sample_kernel open_policy (codes "App.B") node_a r.1 [] r.2
unfolding arm_unified endpoint_of arm_secured secure_peer trust_published_peer parse_endpoint
    parse_trimmed find trim_right trim_left parse_target tcp_scheme is_scheme parse_named
    strip_slashes is_swapped_peer_argument has has_part starts_with is_pattern equal load_peer_keys
    trust_and_enforce write_list append_all lookup erase insert before security_stem_of stem_by
    sanitise arm_resolved arm_recorded post make_con factory_of family_to_set classify_peer is_below
    report_relation on_callback mark_peer
arm_unified-Admitted_example =
    arm_unified-Admitted sample sample_kernel open_policy open_switch none (codes "App.B")
      (some (codes "dmx://svc")) true node_a [] at refl refl

abbrev ends : Ends
ends = record { listen = at; dial = at }

-- it refuses every connection of a hub that is full
abbrev full_kernel : Kernel
full_kernel = record sample_kernel {
  post_con =
      λ con st. elim st [ [] ↦ (true, [], con ∷ []) | other ∷ rest ↦ (false, [], other ∷ rest) ];
}

link_hubs-failed_example :
    let q : Pair full_kernel open_policy = record {
      a = record { hub = hub_a; state = []; auth = false };
      b = record { hub = hub_b; state = codes "Other" ∷ []; auth = false };
    } in
    SameArmed full_kernel open_policy
      (link_hubs full_kernel open_policy
        (codes "App")
        (codes "App.B")
        ends
        q
        (record { dirs = dirs; disk = [] })).1
      q
unfolding link_hubs link_by edge_exists secure_pair secure_edge ensure_security_dir trust_both
    trust_back arm_edge arm_dialer unwind close_con await_gone wait_slice is_swapped_peer_argument
    has has_part starts_with is_pattern equal load_peer_keys trust_and_enforce write_list append_all
    lookup erase insert before security_stem_of stem_by sanitise arm_resolved arm_recorded post
    make_con factory_of family_to_set classify_peer is_below report_relation on_callback mark_peer
link_hubs-failed_example =
    link_hubs-failed full_kernel open_policy (codes "App") (codes "App.B") ends
      (record {
        a = record { hub = hub_a; state = []; auth = false };
        b = record { hub = hub_b; state = codes "Other" ∷ []; auth = false };
      })
      (record { dirs = dirs; disk = [] }) e_con_duplicate tt tt refl refl refl refl

link_hubs-Linked_example :
    let q : Pair sample_kernel open_policy = record { a = node_a; b = node_b } in
    Linked sample_kernel open_policy true true
      (codes "App")
      (codes "App.B")
      ends
      q
      (link_hubs sample_kernel open_policy
        (codes "App")
        (codes "App.B")
        ends
        q
        (record { dirs = dirs; disk = [] })).1
unfolding link_hubs link_by edge_exists secure_pair secure_edge ensure_security_dir trust_both
    trust_back arm_edge arm_dialer unwind close_con await_gone wait_slice is_swapped_peer_argument
    has has_part starts_with is_pattern equal load_peer_keys trust_and_enforce write_list append_all
    lookup erase insert before security_stem_of stem_by sanitise arm_resolved arm_recorded post
    make_con factory_of family_to_set classify_peer is_below report_relation on_callback mark_peer
link_hubs-Linked_example =
    link_hubs-Linked sample_kernel open_policy open_switch (codes "App") (codes "App.B") ends
      (record { a = node_a; b = node_b }) (record { dirs = dirs; disk = [] }) s_ok refl refl
