-- ===== src/Security/Edge/Refused.antt =====
-- What an edge that cannot be secured leaves of its two hubs.
use target_facade.Base.{
  ◌≡◌, refl, sym, ◌∙◌, ap, inl, inr, Bool, true, false, ◌&&◌, ◌||◌, arith, if◌then◌else◌, is_some,
  Bool-cases, Option-cases,
}
use target_facade.Base.Text.{WString, equal, equal_iff, is_empty}
use target_facade.Base.SortedMap.{Map, lookup, lookup-insert, IsSorted}
use target_facade.Base.SortedMap.Extensional.{erase-insert}
use target_facade.Status.{failed}
use target_facade.Hub.{Hub, SecKeys}
use target_facade.Security.{
  trust_and_enforce, untrust_peer, trusts, drop_trust, add_trust, is_nobody,
}
use target_facade.Security.Facilities.{Policy, IsAuthSwitch}
use target_facade.Security.Directory.{KeyDirectory, ensure_security_dir}
use target_facade.Security.Rollback.{
  trust_and_enforce-failed, InPosture, trust_and_enforce-InPosture,
}
use target_facade.Security.Edge.Secured.{granted, trust_back-switch}
use mathlib.Core.Path.{subst}
use target_facade.Security.Edge.{Side, trust_back, trust_both, secure_edge}

module _ (p : Policy) where
  trusted_then_withdrawn :
      (peer : WString) (keys : SecKeys) (h g : Hub)
      → IsSorted h.trusted
      → is_some (lookup peer h.trusted) ≡ false
      → g ≡ add_trust peer keys h
      → drop_trust peer g ≡ h
  trusted_then_withdrawn peer keys h g s fresh e = elim (Option-cases (lookup peer h.trusted)) [
    | inl missing ↦
        ap (drop_trust peer) e
        ∙ ap (λ (m : Map SecKeys). record h { trusted = m })
            (erase-insert peer keys h.trusted s missing)
    | inr (old, there) ↦ ground (arith, there)
  ]

  trust_and_enforce-added :
      (peer : WString) (keys : SecKeys) (dir : WString) (h : Hub) (a : p.Auth) (d : p.Disk)
      → failed (trust_and_enforce p peer keys dir h a d).0 ≡ false
      → ((trust_and_enforce p peer keys dir h a d).1 ≡ add_trust peer keys h)
        × (is_empty peer ≡ false)
  unfolding trust_and_enforce
  trust_and_enforce-added peer keys dir h a d good = (ground arith, ground arith)

  -- What a hub trusts is as it was, but that the keys of one peer that it trusts may be others.
  pub record TrustsAlike (peer : WString) (g h : Hub) : Type 0 where
    pub same_keys :
        (other : WString)
        → equal peer other ≡ false
        → lookup other g.trusted ≡ lookup other h.trusted
    pub same_peers :
        (other : WString) → is_some (lookup other g.trusted) ≡ is_some (lookup other h.trusted)

  untrust_peer-drops :
      (peer dir : WString) (h : Hub) (a : p.Auth) (d : p.Disk)
      → is_empty peer ≡ false
      → (untrust_peer p peer dir h a d).1 ≡ drop_trust peer h
  unfolding untrust_peer
  untrust_peer-drops peer dir h a d named = ground arith

  alike_self : (peer : WString) (h : Hub) → TrustsAlike peer h h
  alike_self peer h = record { same_keys = λ other e. refl; same_peers = λ other. refl }

  alike_added :
      (peer : WString) (keys : SecKeys) (h : Hub)
      → is_some (lookup peer h.trusted) ≡ true
      → TrustsAlike peer (add_trust peer keys h) h
  alike_added peer keys h there = record {
    same_keys = λ other e. ground (arith, lookup-insert peer other keys h.trusted);
    same_peers =
        λ other. ground (arith, lookup-insert peer other keys h.trusted, equal_iff peer other);
  }

  -- what an edge that cannot be secured leaves of its two hubs
  pub record Refused (a b a' b' : Side p) : Type 0 where
    pub dialer : b'.hub ≡ b.hub
    pub listener : TrustsAlike b.hub.address a'.hub a.hub
    pub withdrawn : trusts b.hub.address a.hub ≡ false → a'.hub ≡ a.hub

  untouched : (a b a' b' : Side p) → a'.hub ≡ a.hub → b'.hub ≡ b.hub → Refused a b a' b'
  untouched a b a' b' same_a same_b = record {
    dialer = same_b;
    listener =
        subst (λ g. TrustsAlike b.hub.address g a.hub) (sym same_a)
          (alike_self b.hub.address a.hub);
    withdrawn = λ e. same_a;
  }

  -- what the second pass leaves when it fails, by whether the trust stood before
  trust_back-failed :
      (dir : WString) (already : Bool) (a b : Side p) (d : p.Disk)
      → IsSorted b.hub.trusted
      → is_empty b.hub.address ≡ false
      → failed (trust_back p dir already a b d).0 ≡ true
      → ((trust_back p dir already a b d).2.hub ≡ b.hub)
        × ((trust_back p dir already a b d).1.hub
            ≡ (if already then a.hub else drop_trust b.hub.address a.hub))
  unfolding trust_back
  trust_back-failed dir already a b d sb named bad =
      let t = trust_and_enforce p a.hub.address a.hub.sec_keys dir b.hub b.auth d in
      (
        ground
            (arith, trust_and_enforce-failed p a.hub.address a.hub.sec_keys dir b.hub b.auth d sb),
        ground (arith, untrust_peer-drops b.hub.address dir a.hub a.auth t.3 named),
      )

  trusts_named :
      (peer : WString) (h : Hub)
      → is_empty peer ≡ false
      → trusts peer h ≡ is_some (lookup peer h.trusted)
  unfolding trusts
  trusts_named peer h named = ground arith

  trust_back-Refused :
      (dir : WString) (a b a' : Side p) (keys : SecKeys) (d : p.Disk)
      → IsSorted a.hub.trusted
      → IsSorted b.hub.trusted
      → is_empty b.hub.address ≡ false
      → a'.hub ≡ add_trust b.hub.address keys a.hub
      → failed (trust_back p dir (trusts b.hub.address a.hub) a' b d).0 ≡ true
      → Refused a b
          (trust_back p dir (trusts b.hub.address a.hub) a' b d).1
          (trust_back p dir (trusts b.hub.address a.hub) a' b d).2
  trust_back-Refused dir a b a' keys d sa sb named granted bad =
      let there = trusts_named b.hub.address a.hub named in
      let left = trust_back-failed dir (trusts b.hub.address a.hub) a' b d sb named bad in
      elim (Bool-cases (trusts b.hub.address a.hub)) [
        | inl before ↦
            let same =
              left.1
              ∙ ap (λ x. if x then a'.hub else drop_trust b.hub.address a'.hub) before
              ∙ granted in
            record {
              dialer = left.0;
              listener =
                  subst (λ g. TrustsAlike b.hub.address g a.hub) (sym same)
                    (alike_added b.hub.address keys a.hub (sym there ∙ before));
              withdrawn = λ e. cc;
            }
        | inr fresh ↦
            let same =
              left.1
              ∙ ap (λ x. if x then a'.hub else drop_trust b.hub.address a'.hub) fresh
              ∙ trusted_then_withdrawn b.hub.address keys a.hub a'.hub sa (sym there ∙ fresh)
                  granted in
            record {
              dialer = left.0;
              listener =
                  subst (λ g. TrustsAlike b.hub.address g a.hub) (sym same)
                    (alike_self b.hub.address a.hub);
              withdrawn = λ e. same;
            }
      ]

  trust_both-Refused :
      (dir : WString) (a b : Side p) (d : p.Disk)
      → IsSorted a.hub.trusted
      → IsSorted b.hub.trusted
      → failed (trust_both p dir a b d).0 ≡ true
      → Refused a b (trust_both p dir a b d).1 (trust_both p dir a b d).2
  unfolding trust_both
  trust_both-Refused dir a b d sa sb bad =
      let t = trust_and_enforce p b.hub.address b.hub.sec_keys dir a.hub a.auth d in
      let a' : Side p = record { hub = t.1; auth = t.2 } in
      elim (Bool-cases (failed t.0)) [
        | inl first ↦ rw first (
            untouched a b a' b
              (trust_and_enforce-failed p b.hub.address b.hub.sec_keys dir a.hub a.auth d sa first)
              refl)
        | inr granted ↦
            let added =
              trust_and_enforce-added b.hub.address b.hub.sec_keys dir a.hub a.auth d granted in
            rw granted (
              trust_back-Refused dir a b a' b.hub.sec_keys t.3 sa sb added.1 added.0
                (rw granted at bad))
      ]

  -- a hub that trusts someone requires authentication
  abbrev pub IsEnforced : Side p → Type 0
  IsEnforced x = (is_nobody x.hub.trusted || p.is_auth_required x.auth) ≡ true

  -- the policies of the two hubs: that of the dialer in its posture, that of the listener not relaxed
  pub record Postures (a b : Side p) : Type 0 where
    pub dialer : InPosture p b.hub b.auth
    pub listener : IsEnforced a

  InPosture-IsEnforced : (x : Side p) → InPosture p x.hub x.auth → IsEnforced x
  InPosture-IsEnforced x i = ground (arith, i)

  trust_back-Postures :
      IsAuthSwitch p
      → (dir : WString) (already : Bool) (a b : Side p) (d : p.Disk) → IsSorted b.hub.trusted
      → InPosture p b.hub b.auth
      → p.is_auth_required a.auth ≡ true
      → Postures (trust_back p dir already a b d).1 (trust_back p dir already a b d).2
  unfolding trust_back
  trust_back-Postures switch dir already a b d sb ib on =
      let t = trust_and_enforce p a.hub.address a.hub.sec_keys dir b.hub b.auth d in
      let kept =
        trust_and_enforce-InPosture p switch a.hub.address a.hub.sec_keys dir b.hub b.auth d sb
          ib in
      let same = trust_back-switch p switch dir already a b d in
      record { dialer = ground (arith, kept); listener = ground (arith, same) }

  trust_both-Postures :
      IsAuthSwitch p
      → (dir : WString) (a b : Side p) (d : p.Disk) → IsSorted a.hub.trusted
      → IsSorted b.hub.trusted
      → InPosture p a.hub a.auth
      → InPosture p b.hub b.auth
      → Postures (trust_both p dir a b d).1 (trust_both p dir a b d).2
  unfolding trust_both
  trust_both-Postures switch dir a b d sa sb ia ib =
      let t = trust_and_enforce p b.hub.address b.hub.sec_keys dir a.hub a.auth d in
      let a' : Side p = record { hub = t.1; auth = t.2 } in
      elim (Bool-cases (failed t.0)) [
        | inl first ↦ rw first (record {
          dialer = ib;
          listener = InPosture-IsEnforced a' (
              trust_and_enforce-InPosture p switch b.hub.address b.hub.sec_keys dir a.hub a.auth d
                sa ia);
        })
        | inr good ↦ rw good (
            trust_back-Postures switch dir (trusts b.hub.address a.hub) a' b t.3 sb ib
              (granted p switch b.hub.address b.hub.sec_keys dir a.hub a.auth d good).1)
      ]

  -- An edge that cannot be secured, between two hubs whose trusted peers are in key order and that
  -- require authentication exactly when they trust someone. Of the hub objects: that of the dialer is
  -- as it was, and the listener's keeps the peers that it trusted, of which only the dialer may have
  -- other keys, and is as it was where it did not trust the dialer before. Of the policies: the dialer
  -- still requires authentication exactly when it trusts someone, and the listener does at least then.
  -- The allow-lists, in force and in files, are not part of it.
  pub secure_edge-Refused :
      IsAuthSwitch p
      → (n : KeyDirectory) (a b : Side p) (d : p.Disk) → IsSorted a.hub.trusted
      → IsSorted b.hub.trusted
      → InPosture p a.hub a.auth
      → InPosture p b.hub b.auth
      → failed (secure_edge p n a b d).0 ≡ true
      → Refused a b (secure_edge p n a b d).1 (secure_edge p n a b d).2
        × Postures (secure_edge p n a b d).1 (secure_edge p n a b d).2
  unfolding secure_edge
  secure_edge-Refused switch n a b d sa sb ia ib bad =
      let r = ensure_security_dir p n d in
      let still : Postures a b = record { dialer = ib; listener = InPosture-IsEnforced a ia } in
      elim (Bool-cases (failed r.0)) [
        | inl e ↦ rw e (untouched a b a b refl refl, still)
        | inr e ↦ elim (Bool-cases (a.hub.provisioned && b.hub.provisioned)) [
          | inr f ↦ rw (e, f) (untouched a b a b refl refl, still)
          | inl f ↦
              rw (e, f)
                (
                  trust_both-Refused r.1.dir a b r.2 sa sb (rw (e, f) at bad),
                  trust_both-Postures switch r.1.dir a b r.2 sa sb ia ib,
                )
        ]
      ]
