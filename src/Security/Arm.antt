-- ===== src/Security/Arm.antt =====
-- Listen and Connect: ArmUnified, AdmitPatternPeer and TrustPublishedPeer of src/FacadeHub.cpp.
use target_facade.Base.{
  ◌≡◌, inl, inr, ◌∙◌, ap, Bool, true, false, not, ◌||◌, [], ◌∷◌, Option, none, some, arith,
  if◌then◌else◌, Bool-cases,
}
use target_facade.Base.Text.{WString, equal_refl, is_empty}
use target_facade.Base.SortedMap.{lookup, lookup-insert, IsSorted}
use target_facade.Status.{
  HResult, Result, ok, err, s_ok, e_pointer, e_invalid_arg, e_security, failed, Result-cases,
}
use target_facade.Platform.{Platform}
use target_facade.Endpoint.{FacadeEndpoint, blank_endpoint, parse_endpoint}
use target_facade.Endpoint.Peer.{is_pattern, is_swapped_peer_argument}
use target_facade.Hub.{Hub}
use target_facade.Hub.Kernel.{Kernel}
use target_facade.Hub.Arming.{arm_resolved}
use target_facade.Hub.Arming.Records.{arm_resolved-trusted}
use target_facade.Resolve.{Network, resolve_endpoint}
use target_facade.Security.{
  trust_published_peer, admit_pattern_peer, load_peer_keys, trust_and_enforce, write_allow_list,
  add_trust,
}
use target_facade.Security.Facilities.{Policy, IsAuthSwitch, id_ok}
use target_facade.Security.AllowList.{is_id_ok-true}
use target_facade.Security.Rollback.{trust_and_enforce-failed}

-- The endpoint that is armed: the one that was given, or what an omitted one resolves to.
unfoldable pub endpoint_of :
    Platform → Option Network → Hub → WString → Option WString → Bool → Result FacadeEndpoint
endpoint_of w owner h peer none listen = resolve_endpoint w owner h peer listen blank_endpoint
endpoint_of w owner h peer (some []) listen = resolve_endpoint w owner h peer listen blank_endpoint
endpoint_of w owner h peer (some (c ∷ s)) listen =
    parse_endpoint w (some (c ∷ s)) listen blank_endpoint

module _ (k : Kernel) (p : Policy) where
  -- A hub between two calls, with the state that the kernel and its policy keep for it.
  pub record Node : Type 0 where
    pub hub : Hub
    pub state : k.State
    pub auth : p.Auth

module _ (w : Platform) (k : Kernel) (p : Policy) where
  -- The gate of a secure hub, behind which a connection is armed.
  unfoldable pub secure_peer : WString → Node k p → p.Disk → HResult × Node k p × p.Disk
  secure_peer peer n d =
      let t = trust_published_peer p peer n.hub n.auth d in
      if not n.hub.secure
      then (s_ok, n, d)
      else if is_pattern peer
      then (admit_pattern_peer p n.auth d, n, d)
      else (t.0, record n { hub = t.1; auth = t.2 }, t.3)

  unfoldable pub arm_secured :
      WString → FacadeEndpoint → Bool → Node k p → p.Disk → HResult × Node k p × p.Disk
  arm_secured peer e listen n d =
      let s = secure_peer peer n d in
      let r = arm_resolved k (some peer) e listen s.1.hub s.1.state in
      if failed s.0 then s else (r.0, record s.1 { hub = r.1; state = r.2 }, s.2)

  -- ArmUnified: Listen with `true`, Connect with `false`.
  unfoldable pub arm_unified :
      Option Network
      → Option WString
      → Option WString
      → Bool
      → Node k p
      → p.Disk
      → HResult × Node k p × p.Disk
  arm_unified owner none endpoint listen n d = (e_pointer, n, d)
  arm_unified owner (some peer) endpoint listen n d =
      if is_empty peer || is_swapped_peer_argument (some peer)
      then (e_invalid_arg, n, d)
      else elim (endpoint_of w owner n.hub peer endpoint listen) [
        | err code ↦ (code, n, d)
        | ok e ↦ arm_secured peer e listen n d
      ]

  trust_published_peer-refused :
      (peer : WString) (h : Hub) (a : p.Auth) (d : p.Disk)
      → IsSorted h.trusted
      → failed (trust_published_peer p peer h a d).0 ≡ true
      → (trust_published_peer p peer h a d).1 ≡ h
  unfolding trust_published_peer
  trust_published_peer-refused peer h a d s bad =
      let keys = load_peer_keys p peer h.sec_dir d in
      ground (arith, trust_and_enforce-failed p peer keys.1 h.sec_dir h a d s)

  trust_published_peer-trusts :
      IsAuthSwitch p
      → (peer : WString) (h : Hub) (a : p.Auth) (d : p.Disk)
      → failed (trust_published_peer p peer h a d).0 ≡ false
      → (lookup peer (trust_published_peer p peer h a d).1.trusted
          ≡ some (load_peer_keys p peer h.sec_dir d).1)
        × (p.is_auth_required (trust_published_peer p peer h a d).2 ≡ true)
        × ((load_peer_keys p peer h.sec_dir d).0 ≡ id_ok)
  unfolding trust_published_peer trust_and_enforce
  trust_published_peer-trusts switch peer h a d good =
      let keys = load_peer_keys p peer h.sec_dir d in
      let w = write_allow_list p h.sec_dir (add_trust peer keys.1 h) a d in
      (
        ground (arith, lookup-insert peer peer keys.1 h.trusted, equal_refl peer),
        ground (arith, switch.require_sets true w.1),
        ground (arith, is_id_ok-true keys.0),
      )

  -- The gate of a secure hub.
  secure_peer-refused :
      (peer : WString) (n : Node k p) (d : p.Disk)
      → IsSorted n.hub.trusted
      → failed (secure_peer peer n d).0 ≡ true
      → ((secure_peer peer n d).1.hub ≡ n.hub) × ((secure_peer peer n d).1.state ≡ n.state)
  unfolding secure_peer
  secure_peer-refused peer n d s bad =
      (ground (arith, trust_published_peer-refused peer n.hub n.auth d s), ground arith)

  -- Listen and Connect refuse with E_SECURITY only before anything is armed: on a hub whose trusted
  -- peers are in key order, what the hub keeps and the state of the kernel are then as they were.
  arm_unified-refused :
      (owner : Option Network) (peer endpoint : Option WString) (listen : Bool) (n : Node k p)
      (d : p.Disk)
      → IsSorted n.hub.trusted
      → (arm_unified owner peer endpoint listen n d).0 ≡ e_security
      → ((arm_unified owner peer endpoint listen n d).1.hub ≡ n.hub)
        × ((arm_unified owner peer endpoint listen n d).1.state ≡ n.state)
  unfolding arm_unified arm_secured
  arm_unified-refused owner none endpoint listen n d s bad = cc
  arm_unified-refused owner (some peer) endpoint listen n d s bad =
      elim (Result-cases (endpoint_of w owner n.hub peer endpoint listen)) [
        | inl (e, found) ↦
            let g = secure_peer peer n d in
            let armed = arm_resolved-trusted k peer e listen g.1.hub g.1.state in
            (
              ground (arith, found, secure_peer-refused peer n d s, armed.1),
              ground (arith, found, secure_peer-refused peer n d s, armed.1),
            )
        | inr (code, none_found) ↦ (ground (arith, none_found), ground (arith, none_found))
      ]

  -- what the gate, or an arming call behind it, has made of a hub
  pub record Admitted (peer : WString) (n m : Node k p) (d e : p.Disk) : Type 0 where
    pub published :
        n.hub.secure ≡ true
        → is_pattern peer ≡ false
        → (lookup peer m.hub.trusted ≡ some (load_peer_keys p peer n.hub.sec_dir d).1)
          × (p.is_auth_required m.auth ≡ true)
          × ((load_peer_keys p peer n.hub.sec_dir d).0 ≡ id_ok)
    pub by_pattern : n.hub.secure ≡ true → is_pattern peer ≡ true → p.auth_arms d n.auth ≡ true
    pub plain : n.hub.secure ≡ false → (m.auth ≡ n.auth) × (e ≡ d)

  secure_peer-Admitted :
      IsAuthSwitch p
      → (peer : WString) (n : Node k p) (d : p.Disk) → failed (secure_peer peer n d).0 ≡ false
      → Admitted peer n (secure_peer peer n d).1 d (secure_peer peer n d).2
  unfolding secure_peer admit_pattern_peer
  secure_peer-Admitted switch peer n d good = record {
    published = λ s q.
        let facts = trust_published_peer-trusts switch peer n.hub n.auth d in
        (ground (arith, facts), ground (arith, facts), ground (arith, facts));
    by_pattern = λ s q. ground arith;
    plain = λ s. (ground arith, ground arith);
  }

  arm_secured-Admitted :
      IsAuthSwitch p
      → (peer : WString) (e : FacadeEndpoint) (listen : Bool) (n : Node k p) (d : p.Disk)
      → failed (arm_secured peer e listen n d).0 ≡ false
      → Admitted peer n (arm_secured peer e listen n d).1 d (arm_secured peer e listen n d).2
  unfolding arm_secured
  arm_secured-Admitted switch peer e listen n d good =
      let g = secure_peer peer n d in
      let armed = arm_resolved-trusted k peer e listen g.1.hub g.1.state in
      elim (Bool-cases (failed g.0)) [
        | inl refused ↦ ground (arith, refused)
        | inr passed ↦
            let gate = secure_peer-Admitted switch peer n d passed in
            rw passed (record {
              published = λ s q.
                  let had = gate.published s q in (ap (lookup peer) armed.0 ∙ had.0, had.1, had.2);
              by_pattern = gate.by_pattern;
              plain = gate.plain;
            })
      ]

  -- What Listen and Connect arm behind an endpoint that is found. On a secure hub the peer's published
  -- key was read, it stands in the set of trusted peers and authentication is required, or the peer is
  -- a pattern and the hub could already enforce authentication. The policy of a plain hub and the
  -- files are not touched.
  pub arm_unified-Admitted :
      IsAuthSwitch p
      → (owner : Option Network) (peer : WString) (endpoint : Option WString) (listen : Bool)
        (n : Node k p) (d : p.Disk) (e : FacadeEndpoint)
      → endpoint_of w owner n.hub peer endpoint listen ≡ ok e
      → failed (arm_unified owner (some peer) endpoint listen n d).0 ≡ false
      → Admitted peer n
          (arm_unified owner (some peer) endpoint listen n d).1
          d
          (arm_unified owner (some peer) endpoint listen n d).2
  unfolding arm_unified
  arm_unified-Admitted switch owner peer endpoint listen n d e found good =
      elim (Bool-cases (is_empty peer || is_swapped_peer_argument (some peer))) [
        | inl bad ↦ ground (arith, bad)
        | inr fine ↦
            rw (fine, found)
              (arm_secured-Admitted switch peer e listen n d (rw (fine, found) at good))
      ]
