-- ===== src/Link/Armed.antt =====
-- What a Link that succeeds has made of its two hubs.
use target_facade.Base.{
  ◌≡◌, refl, ◌∙◌, ap, inl, inr, Bool, true, false, some, arith, Bool-cases, Option-cases,
}
use target_facade.Base.Text.{WString, equal_refl}
use target_facade.Base.SortedMap.{lookup, lookup-insert}
use target_facade.Status.{HResult, failed}
use target_facade.Endpoint.{format}
use target_facade.Hub.{Hub, SecKeys}
use target_facade.Hub.Kernel.{Kernel}
use target_facade.Hub.Arming.{arm_resolved}
use target_facade.Hub.Arming.Records.{arm_resolved-armed, arm_resolved-trusted}
use target_facade.Security.{add_trust}
use target_facade.Security.Facilities.{Policy, IsAuthSwitch}
use target_facade.Security.Edge.{Side}
use target_facade.Security.Edge.Secured.{secure_edge-Secured}
use target_facade.Link.{
  Ends, Pair, Shared, edge_exists, unwind, arm_dialer, arm_edge, secure_pair, link_by, link_hubs,
}
use target_facade.Link.Atomic.{some_inj}

found :
    (peer : WString) (keys : SecKeys) (h : Hub)
    → lookup peer (add_trust peer keys h).trusted ≡ some keys
found peer keys h = ground (arith, lookup-insert peer peer keys h.trusted, equal_refl peer)

module _ (k : Kernel) (p : Policy) where
  -- each hub has recorded its end of the edge, under the address of the other
  pub record BothArmed (listener dialer : WString) (ends : Ends) (q : Pair k p) : Type 0 where
    pub listens :
        lookup dialer q.a.hub.armed ≡ some (record { endpoint = format ends.listen; listen = true })
    pub dials :
        lookup listener q.b.hub.armed
        ≡ some (record { endpoint = format ends.dial; listen = false })

  -- nothing of the policies and of the trusted peers has changed
  record SameTrust (q r : Pair k p) : Type 0 where
    trusted_a : q.a.hub.trusted ≡ r.a.hub.trusted
    trusted_b : q.b.hub.trusted ≡ r.b.hub.trusted
    auth_a : q.a.auth ≡ r.a.auth
    auth_b : q.b.auth ≡ r.b.auth

  unwind-failed :
      (dialer : WString) (code : HResult) (q : Pair k p)
      → failed code ≡ true
      → failed (unwind k p dialer code q).0 ≡ true
  unfolding unwind
  unwind-failed dialer code q bad = ground arith

  arm_edge-BothArmed :
      (listener dialer : WString) (ends : Ends) (q : Pair k p)
      → failed (arm_edge k p listener dialer ends q).0 ≡ false
      → BothArmed listener dialer ends (arm_edge k p listener dialer ends q).1
        × SameTrust (arm_edge k p listener dialer ends q).1 q
  unfolding arm_edge arm_dialer
  arm_edge-BothArmed listener dialer ends q good =
      let l = arm_resolved k (some dialer) ends.listen true q.a.hub q.a.state in
      let r = arm_resolved k (some listener) ends.dial false q.b.hub q.b.state in
      let l_trusted = arm_resolved-trusted k dialer ends.listen true q.a.hub q.a.state in
      let r_trusted = arm_resolved-trusted k listener ends.dial false q.b.hub q.b.state in
      elim (Bool-cases (failed l.0)) [
        | inl e ↦ let g = rw e at good in cc
        | inr e ↦ elim (Bool-cases (failed r.0)) [
          | inl f ↦
              let q' : Pair k p = record {
                a = record q.a { hub = l.1; state = l.2 };
                b = record q.b { hub = r.1; state = r.2 };
              } in
              let g = rw (e, f) at good in cc (unwind-failed dialer r.0 q' f)
          | inr f ↦
              let l_armed =
                (arm_resolved-armed k dialer ends.listen true q.a.hub q.a.state e).0 dialer in
              let r_armed =
                (arm_resolved-armed k listener ends.dial false q.b.hub q.b.state f).0 listener in
              rw (e, f)
                (
                  record {
                    listens = ground (arith, l_armed, equal_refl dialer);
                    dials = ground (arith, r_armed, equal_refl listener);
                  },
                  record {
                    trusted_a = l_trusted.0;
                    trusted_b = r_trusted.0;
                    auth_a = refl;
                    auth_b = refl;
                  },
                )
        ]
      ]

  -- what a link has made of its two hubs
  pub record Linked (a_secure b_secure : Bool) (listener dialer : WString) (ends : Ends)
      (q r : Pair k p) : Type 0 where
    pub armed : BothArmed listener dialer ends r
    pub alike : a_secure ≡ b_secure
    pub secured :
        a_secure ≡ true
        → (lookup q.b.hub.address r.a.hub.trusted ≡ some q.b.hub.sec_keys)
          × (lookup q.a.hub.address r.b.hub.trusted ≡ some q.a.hub.sec_keys)
          × (p.is_auth_required r.a.auth ≡ true)
          × (p.is_auth_required r.b.auth ≡ true)
    pub plain : a_secure ≡ false → (r.a.auth ≡ q.a.auth) × (r.b.auth ≡ q.b.auth)

  secure_pair-secured :
      IsAuthSwitch p
      → (q : Pair k p) (s : Shared k p) → failed (secure_pair k p q s).0 ≡ false
      → let r = (secure_pair k p q s).1 in
        (lookup q.b.hub.address r.a.hub.trusted ≡ some q.b.hub.sec_keys)
        × (lookup q.a.hub.address r.b.hub.trusted ≡ some q.a.hub.sec_keys)
        × (p.is_auth_required r.a.auth ≡ true)
        × (p.is_auth_required r.b.auth ≡ true)
  unfolding secure_pair
  secure_pair-secured switch q s good =
      let a : Side p = record { hub = q.a.hub; auth = q.a.auth } in
      let b : Side p = record { hub = q.b.hub; auth = q.b.auth } in
      let done = secure_edge-Secured p switch s.dirs a b s.disk good in
      (
        ap (λ (h : Hub). lookup b.hub.address h.trusted) done.listener
            ∙ found b.hub.address b.hub.sec_keys a.hub,
        ap (λ (h : Hub). lookup a.hub.address h.trusted) done.dialer
            ∙ found a.hub.address a.hub.sec_keys b.hub,
        done.listener_enforces,
        done.dialer_enforces,
      )

  both_armed :
      (listener dialer : WString) (ends : Ends) (q r t : Pair k p)
      → BothArmed listener dialer ends r × SameTrust r t
      → (lookup q.b.hub.address t.a.hub.trusted ≡ some q.b.hub.sec_keys)
        × (lookup q.a.hub.address t.b.hub.trusted ≡ some q.a.hub.sec_keys)
        × (p.is_auth_required t.a.auth ≡ true)
        × (p.is_auth_required t.b.auth ≡ true)
      → (lookup q.b.hub.address r.a.hub.trusted ≡ some q.b.hub.sec_keys)
        × (lookup q.a.hub.address r.b.hub.trusted ≡ some q.a.hub.sec_keys)
        × (p.is_auth_required r.a.auth ≡ true)
        × (p.is_auth_required r.b.auth ≡ true)
  both_armed listener dialer ends q r t (armed, kept) had = (
    ap (lookup q.b.hub.address) kept.trusted_a ∙ had.0,
    ap (lookup q.a.hub.address) kept.trusted_b ∙ had.1,
    ap p.is_auth_required kept.auth_a ∙ had.2,
    ap p.is_auth_required kept.auth_b ∙ had.3,
  )

  link_by-Linked :
      IsAuthSwitch p
      → (a_secure b_secure : Bool) (listener dialer : WString) (ends : Ends) (q : Pair k p)
        (s : Shared k p)
      → failed (link_by k p a_secure b_secure listener dialer ends q s).0 ≡ false
      → Linked a_secure b_secure listener dialer ends q
          (link_by k p a_secure b_secure listener dialer ends q s).1
  unfolding link_by
  link_by-Linked switch false false listener dialer ends q s good =
      let (armed, kept) = arm_edge-BothArmed listener dialer ends q good in
      record {
        armed = armed;
        alike = refl;
        secured = λ e. cc;
        plain = λ e. (kept.auth_a, kept.auth_b);
      }
  link_by-Linked switch true true listener dialer ends q s good =
      let secured = secure_pair k p q s in
      elim (Bool-cases (failed secured.0)) [
        | inl e ↦ let g = rw e at good in cc
        | inr e ↦
            let r = arm_edge k p listener dialer ends secured.1 in
            let both = arm_edge-BothArmed listener dialer ends secured.1 (rw e at good) in
            let trust = secure_pair-secured switch q s e in
            rw e (record {
              armed = both.0;
              alike = refl;
              secured = λ s. both_armed listener dialer ends q r.1 secured.1 both trust;
              plain = λ s. cc;
            })
      ]
  link_by-Linked switch false true listener dialer ends q s good = cc
  link_by-Linked switch true false listener dialer ends q s good = cc

  -- A Link that succeeds behind the lookup of its hubs has recorded both ends, each under the address
  -- of the other hub; both hubs are secure or neither is. Two secure hubs then trust each other with
  -- the points that the other holds, and both require authentication; the policies of two plain hubs
  -- are as they were.
  pub link_hubs-Linked :
      IsAuthSwitch p
      → (listener dialer : WString) (ends : Ends) (q : Pair k p) (s : Shared k p) (code : HResult)
      → (link_hubs k p listener dialer ends q s).0 ≡ some code
      → failed code ≡ false
      → Linked q.a.hub.secure q.b.hub.secure listener dialer ends q
          (link_hubs k p listener dialer ends q s).1
  unfolding link_hubs
  link_hubs-Linked switch listener dialer ends q s code result good =
      elim (Option-cases (edge_exists k p listener dialer q)) [
        | inl e ↦ ground (arith, e)
        | inr (true, e) ↦ ground (arith, e)
        | inr (false, e) ↦
            let inner =
              link_by-Linked switch q.a.hub.secure q.b.hub.secure listener dialer ends q s in
            rw (e, link_hubs) (inner (ap failed (some_inj (rw (e, link_hubs) at result)) ∙ good))
      ]
