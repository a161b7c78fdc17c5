-- ===== src/Link/Atomic.antt =====
-- What a Link that fails leaves of the records of its two hubs.
use target_facade.Base.{
  ◌≡◌, refl, sym, ◌∙◌, ap, inl, inr, Bool, true, false, none, some, arith, Bool-cases, Option-cases,
}
use mathlib.Core.Path.{subst}
use target_facade.Base.Text.{WString, is_empty}
use target_facade.Base.SortedMap.{lookup, erase, IsSorted}
use target_facade.Base.SortedMap.Extensional.{erase-insert}
use target_facade.Status.{HResult, failed}
use target_facade.Endpoint.{FacadeEndpoint, format}
use target_facade.Hub.{Hub, SecKeys}
use target_facade.Hub.Kernel.{Kernel}
use target_facade.Hub.Arming.{arm_resolved, close_con}
use target_facade.Hub.Arming.Records.{arm_resolved-failed, arm_resolved-records}
use target_facade.Hub.Arming.Retire.{close_con-SameRecords}
use target_facade.Security.{trust_and_enforce, untrust_peer, trusts}
use target_facade.Security.Facilities.{Policy}
use target_facade.Security.Directory.{ensure_security_dir}
use target_facade.Security.Edge.{Side, trust_back, trust_both, secure_edge}
use target_facade.Link.{
  Ends, Pair, Shared, edge_exists, unwind, arm_dialer, arm_edge, secure_pair, link_hubs, link_by,
  unwind_slices,
}

pub some_inj : {a b : HResult} → some a ≡ some b → a ≡ b
some_inj e = cc

module _ (p : Policy) where
  trust-armed :
      (peer : WString) (keys : SecKeys) (dir : WString) (h : Hub) (a : p.Auth) (d : p.Disk)
      → (trust_and_enforce p peer keys dir h a d).1.armed ≡ h.armed
  unfolding trust_and_enforce
  trust-armed peer keys dir h a d = ground arith

  untrust-armed :
      (peer dir : WString) (h : Hub) (a : p.Auth) (d : p.Disk)
      → (untrust_peer p peer dir h a d).1.armed ≡ h.armed
  unfolding untrust_peer
  untrust-armed peer dir h a d = ground arith

  trust_back-armed :
      (dir : WString) (already : Bool) (a b : Side p) (d : p.Disk)
      → ((trust_back p dir already a b d).1.hub.armed ≡ a.hub.armed)
        × ((trust_back p dir already a b d).2.hub.armed ≡ b.hub.armed)
  unfolding trust_back
  trust_back-armed dir already a b d =
      let t = trust_and_enforce p a.hub.address a.hub.sec_keys dir b.hub b.auth d in
      (
        ground (arith, untrust-armed b.hub.address dir a.hub a.auth t.3),
        ground (arith, trust-armed a.hub.address a.hub.sec_keys dir b.hub b.auth d),
      )

  trust_both-armed :
      (dir : WString) (a b : Side p) (d : p.Disk)
      → ((trust_both p dir a b d).1.hub.armed ≡ a.hub.armed)
        × ((trust_both p dir a b d).2.hub.armed ≡ b.hub.armed)
  unfolding trust_both
  trust_both-armed dir a b d =
      let t = trust_and_enforce p b.hub.address b.hub.sec_keys dir a.hub a.auth d in
      let a' : Side p = record { hub = t.1; auth = t.2 } in
      let back = trust_back-armed dir (trusts b.hub.address a.hub) a' b t.3 in
      let first = trust-armed b.hub.address b.hub.sec_keys dir a.hub a.auth d in
      elim (Bool-cases (failed t.0)) [
        | inl e ↦ rw e (first, refl)
        | inr e ↦ rw e (back.0 ∙ first, back.1)
      ]

module _ (k : Kernel) (p : Policy) where
  -- both hubs have recorded the same connections as before
  abbrev pub SameArmed : Pair k p → Pair k p → Type 0
  SameArmed q r = (q.a.hub.armed ≡ r.a.hub.armed) × (q.b.hub.armed ≡ r.b.hub.armed)

  secure_pair-SameArmed : (q : Pair k p) (s : Shared k p) → SameArmed (secure_pair k p q s).1 q
  unfolding secure_pair secure_edge
  secure_pair-SameArmed q s =
      let a : Side p = record { hub = q.a.hub; auth = q.a.auth } in
      let b : Side p = record { hub = q.b.hub; auth = q.b.auth } in
      let r = ensure_security_dir p s.dirs s.disk in
      let both = trust_both-armed p r.1.dir a b r.2 in
      (ground (arith, both.0), ground (arith, both.1))

  retracted :
      (dialer : WString) (e : FacadeEndpoint) (listen : Bool) (h : Hub) (st : k.State)
      → IsSorted h.armed
      → lookup dialer h.armed ≡ none
      → is_empty dialer ≡ false
      → failed (arm_resolved k (some dialer) e listen h st).0 ≡ false
      → let l = arm_resolved k (some dialer) e listen h st in
        (close_con k dialer unwind_slices l.1 l.2).1.armed ≡ h.armed
  retracted dialer e listen h st s fresh named good =
      let l = arm_resolved k (some dialer) e listen h st in
      (close_con-SameRecords k dialer unwind_slices l.1 l.2 named).armed
      ∙ ap (erase dialer) (arm_resolved-records k dialer e listen h st good)
      ∙ erase-insert dialer (record { endpoint = format e; listen = listen }) h.armed s fresh

  -- Both ends are armed or the records of both hubs are as they were.
  arm_edge-failed :
      (listener dialer : WString) (ends : Ends) (q : Pair k p)
      → IsSorted q.a.hub.armed
      → IsSorted q.b.hub.armed
      → lookup dialer q.a.hub.armed ≡ none
      → is_empty dialer ≡ false
      → failed (arm_edge k p listener dialer ends q).0 ≡ true
      → SameArmed (arm_edge k p listener dialer ends q).1 q
  unfolding arm_edge arm_dialer unwind
  arm_edge-failed listener dialer ends q sa sb fresh named bad =
      let l = arm_resolved k (some dialer) ends.listen true q.a.hub q.a.state in
      let r = arm_resolved k (some listener) ends.dial false q.b.hub q.b.state in
      let l_failed = arm_resolved-failed k (some dialer) ends.listen true q.a.hub q.a.state sa in
      let r_failed = arm_resolved-failed k (some listener) ends.dial false q.b.hub q.b.state sb in
      elim (Bool-cases (failed l.0)) [
        | inl e ↦ rw e (l_failed e, refl)
        | inr e ↦
            let back = retracted dialer ends.listen true q.a.hub q.a.state sa fresh named e in
            elim (Bool-cases (failed r.0)) [
              | inl f ↦ rw (e, f) (back, r_failed f)
              | inr f ↦ ground (arith, e, f)
            ]
      ]

  link_by-failed :
      (a_secure b_secure : Bool) (listener dialer : WString) (ends : Ends) (q : Pair k p)
      (s : Shared k p)
      → IsSorted q.a.hub.armed
      → IsSorted q.b.hub.armed
      → lookup dialer q.a.hub.armed ≡ none
      → is_empty dialer ≡ false
      → failed (link_by k p a_secure b_secure listener dialer ends q s).0 ≡ true
      → SameArmed (link_by k p a_secure b_secure listener dialer ends q s).1 q
  unfolding link_by
  link_by-failed false false listener dialer ends q s sa sb fresh named bad =
      arm_edge-failed listener dialer ends q sa sb fresh named bad
  link_by-failed true true listener dialer ends q s sa sb fresh named bad =
      let secured = secure_pair k p q s in
      let kept = secure_pair-SameArmed q s in
      let armed =
        arm_edge-failed listener dialer ends secured.1 (subst IsSorted (sym kept.0) sa)
          (subst IsSorted (sym kept.1) sb) (ap (lookup dialer) kept.0 ∙ fresh) named in
      elim (Bool-cases (failed secured.0)) [
        | inl e ↦ rw e kept
        | inr e ↦ let left = armed (rw e at bad) in rw e (left.0 ∙ kept.0, left.1 ∙ kept.1)
      ]
  link_by-failed false true listener dialer ends q s sa sb fresh named bad = (refl, refl)
  link_by-failed true false listener dialer ends q s sa sb fresh named bad = (refl, refl)

  -- A Link that fails behind the lookup of its hubs, for whatever reason and whether or not the hubs
  -- are secure, leaves the records of both hubs as they were, in key order as they stand, where the
  -- listener had no record of an earlier connection to the dialer.
  pub link_hubs-failed :
      (listener dialer : WString) (ends : Ends) (q : Pair k p) (s : Shared k p) (code : HResult)
      → IsSorted q.a.hub.armed
      → IsSorted q.b.hub.armed
      → lookup dialer q.a.hub.armed ≡ none
      → is_empty dialer ≡ false
      → (link_hubs k p listener dialer ends q s).0 ≡ some code
      → failed code ≡ true
      → SameArmed (link_hubs k p listener dialer ends q s).1 q
  unfolding link_hubs
  link_hubs-failed listener dialer ends q s code sa sb fresh named result bad =
      elim (Option-cases (edge_exists k p listener dialer q)) [
        | inl e ↦ ground (arith, e)
        | inr (true, e) ↦ rw (e, link_hubs) (refl, refl)
        | inr (false, e) ↦
            let inner =
              link_by-failed q.a.hub.secure q.b.hub.secure listener dialer ends q s sa sb fresh
                named in
            rw (e, link_hubs) (inner (ap failed (some_inj (rw (e, link_hubs) at result)) ∙ bad))
      ]
