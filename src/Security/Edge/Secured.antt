-- ===== src/Security/Edge/Secured.antt =====
-- What an edge leaves of the switch of its two hubs, and of whom they trust when it is secured.
use target_facade.Base.{◌≡◌, refl, ◌∙◌, ap, inl, inr, Bool, true, false, ◌&&◌, arith, Bool-cases}
use target_facade.Base.Text.{WString}
use target_facade.Status.{failed}
use target_facade.Hub.{Hub, SecKeys}
use target_facade.Security.{
  trust_and_enforce, untrust_peer, trusts, write_allow_list, drop_trust, add_trust,
}
use target_facade.Security.Facilities.{Policy, IsAuthSwitch}
use target_facade.Security.Directory.{KeyDirectory, ensure_security_dir}
use target_facade.Security.Rollback.{write_list-switch}
use target_facade.Security.{key_path}
use target_facade.Security.Edge.{Side, trust_back, trust_both, secure_edge}

module _ (p : Policy) where
  -- a call of TrustAndEnforce that succeeded, with its callee shut
  pub granted :
      IsAuthSwitch p
      → (peer : WString) (keys : SecKeys) (dir : WString) (h : Hub) (a : p.Auth) (d : p.Disk)
      → failed (trust_and_enforce p peer keys dir h a d).0 ≡ false
      → ((trust_and_enforce p peer keys dir h a d).1 ≡ add_trust peer keys h)
        × (p.is_auth_required (trust_and_enforce p peer keys dir h a d).2 ≡ true)
  unfolding trust_and_enforce
  granted switch peer keys dir h a d good =
      let w = write_allow_list p dir (add_trust peer keys h) a d in
      (ground arith, ground (arith, switch.require_sets true w.1))

  -- what an edge that is secured leaves of its two hubs
  pub record Secured (a b a' b' : Side p) : Type 0 where
    pub listener : a'.hub ≡ add_trust b.hub.address b.hub.sec_keys a.hub
    pub dialer : b'.hub ≡ add_trust a.hub.address a.hub.sec_keys b.hub
    pub listener_enforces : p.is_auth_required a'.auth ≡ true
    pub dialer_enforces : p.is_auth_required b'.auth ≡ true

  trust_back-granted :
      IsAuthSwitch p
      → (dir : WString) (already : Bool) (a b : Side p) (d : p.Disk)
      → failed (trust_back p dir already a b d).0 ≡ false
      → ((trust_back p dir already a b d).1 ≡ a)
        × ((trust_back p dir already a b d).2.hub ≡ add_trust a.hub.address a.hub.sec_keys b.hub)
        × (p.is_auth_required (trust_back p dir already a b d).2.auth ≡ true)
  unfolding trust_back
  trust_back-granted switch dir already a b d good =
      let t = trust_and_enforce p a.hub.address a.hub.sec_keys dir b.hub b.auth d in
      elim (Bool-cases (failed t.0)) [
        | inl e ↦ ground (arith, e)
        | inr e ↦
            let back = granted switch a.hub.address a.hub.sec_keys dir b.hub b.auth d e in
            rw e (refl, back.0, back.1)
      ]

  trust_both-Secured :
      IsAuthSwitch p
      → (dir : WString) (a b : Side p) (d : p.Disk) → failed (trust_both p dir a b d).0 ≡ false
      → Secured a b (trust_both p dir a b d).1 (trust_both p dir a b d).2
  unfolding trust_both
  trust_both-Secured switch dir a b d good =
      let t = trust_and_enforce p b.hub.address b.hub.sec_keys dir a.hub a.auth d in
      let a' : Side p = record { hub = t.1; auth = t.2 } in
      elim (Bool-cases (failed t.0)) [
        | inl e ↦ ground (arith, e)
        | inr e ↦
            let first = granted switch b.hub.address b.hub.sec_keys dir a.hub a.auth d e in
            let back =
              trust_back-granted switch dir (trusts b.hub.address a.hub) a' b t.3 (rw e at good) in
            rw e (record {
              listener = ap (λ (x : Side p). x.hub) back.0 ∙ first.0;
              dialer = back.1 ∙ ap (λ (g : Hub). add_trust g.address g.sec_keys b.hub) first.0;
              listener_enforces = ap (λ (x : Side p). p.is_auth_required x.auth) back.0 ∙ first.1;
              dialer_enforces = back.2;
            })
      ]

  -- An edge that is secured: each hub trusts the other with the very points that the other holds and
  -- its other peers as before, nothing else of it changes, and both require authentication.
  pub secure_edge-Secured :
      IsAuthSwitch p
      → (n : KeyDirectory) (a b : Side p) (d : p.Disk) → failed (secure_edge p n a b d).0 ≡ false
      → Secured a b (secure_edge p n a b d).1 (secure_edge p n a b d).2
  unfolding secure_edge
  secure_edge-Secured switch n a b d good =
      let r = ensure_security_dir p n d in
      elim (Bool-cases (failed r.0)) [
        | inl e ↦ ground (arith, e)
        | inr e ↦ elim (Bool-cases (a.hub.provisioned && b.hub.provisioned)) [
          | inr f ↦ ground (arith, e, f)
          | inl f ↦ rw (e, f) (trust_both-Secured switch r.1.dir a b r.2 (rw (e, f) at good))
        ]
      ]

  untrust_peer-switch :
      IsAuthSwitch p
      → (peer dir : WString) (h : Hub) (a : p.Auth) (d : p.Disk)
      → p.is_auth_required (untrust_peer p peer dir h a d).2 ≡ p.is_auth_required a
  unfolding untrust_peer
  untrust_peer-switch switch peer dir h a d = ground (
    arith,
    write_list-switch p switch (key_path dir h.address ".allow") (drop_trust peer h).trusted a d,
  )

  pub trust_back-switch :
      IsAuthSwitch p
      → (dir : WString) (already : Bool) (a b : Side p) (d : p.Disk)
      → p.is_auth_required (trust_back p dir already a b d).1.auth ≡ p.is_auth_required a.auth
  unfolding trust_back
  trust_back-switch switch dir already a b d =
      let t = trust_and_enforce p a.hub.address a.hub.sec_keys dir b.hub b.auth d in
      ground (arith, untrust_peer-switch switch b.hub.address dir a.hub a.auth t.3)

  -- Where the listener of an edge could be secured, it requires authentication behind the call,
  -- also when the dialer then refused and the trust that the listener had granted was withdrawn.
  pub trust_both-left_on :
      IsAuthSwitch p
      → (dir : WString) (a b : Side p) (d : p.Disk)
      → failed (trust_and_enforce p b.hub.address b.hub.sec_keys dir a.hub a.auth d).0 ≡ false
      → p.is_auth_required (trust_both p dir a b d).1.auth ≡ true
  unfolding trust_both
  trust_both-left_on switch dir a b d good =
      let t = trust_and_enforce p b.hub.address b.hub.sec_keys dir a.hub a.auth d in
      let a' : Side p = record { hub = t.1; auth = t.2 } in
      rw good (
        trust_back-switch switch dir (trusts b.hub.address a.hub) a' b t.3
        ∙ (granted switch b.hub.address b.hub.sec_keys dir a.hub a.auth d good).1)
