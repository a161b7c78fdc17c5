-- ===== src/Security/Edge.antt =====
-- Both ends of an edge between two secure hubs: SecureEdgeLocked of src/FacadeNetwork.cpp.
pub mod Refused
pub mod Secured
use target_facade.Base.{
  ◌≡◌, ◌≢◌, refl, sym, ◌∙◌, ap, inl, inr, Bool, true, false, not, ◌&&◌, ◌||◌, Option, none, some,
  arith, if◌then◌else◌, is_some, Bool-cases, Option-cases,
}
use target_facade.Base.Text.{WString, equal, equal_iff, is_empty}
use target_facade.Base.SortedMap.{Map, lookup, insert, erase, lookup-insert, IsSorted}
use target_facade.Base.SortedMap.Extensional.{erase-insert}
use target_facade.Status.{HResult, s_ok, e_security, failed}
use target_facade.Hub.{Hub, SecKeys}
use target_facade.Security.{
  trust_and_enforce, untrust_peer, trusts, write_allow_list, drop_trust, add_trust,
}
use target_facade.Security.Facilities.{Policy, IsAuthSwitch}
use target_facade.Security.Directory.{KeyDirectory, ensure_security_dir}
use target_facade.Security.Rollback.{trust_and_enforce-failed}
use mathlib.Core.Path.{subst}

module _ (p : Policy) where
  -- a hub and the kernel's policy for it
  pub record Side : Type 0 where
    pub hub : Hub
    pub auth : p.Auth

  -- The second pass of the loop, behind a first one that left `a`.
  unfoldable pub trust_back : WString → Bool → Side → Side → p.Disk → HResult × Side × Side × p.Disk
  trust_back dir already a b d =
      let t = trust_and_enforce p a.hub.address a.hub.sec_keys dir b.hub b.auth d in
      let u = untrust_peer p b.hub.address dir a.hub a.auth t.3 in
      let b' : Side = record { hub = t.1; auth = t.2 } in
      if not (failed t.0)
      then (s_ok, a, b', t.3)
      else if already
      then (e_security, a, b', t.3)
      else (e_security, record { hub = u.1; auth = u.2 }, b', u.3)

  unfoldable pub trust_both : WString → Side → Side → p.Disk → HResult × Side × Side × p.Disk
  trust_both dir a b d =
      let t = trust_and_enforce p b.hub.address b.hub.sec_keys dir a.hub a.auth d in
      let a' : Side = record { hub = t.1; auth = t.2 } in
      if failed t.0
      then (e_security, a', b, t.3)
      else trust_back dir (trusts b.hub.address a.hub) a' b t.3

  unfoldable pub secure_edge :
      KeyDirectory → Side → Side → p.Disk → HResult × Side × Side × p.Disk × KeyDirectory
  secure_edge n a b d =
      let r = ensure_security_dir p n d in
      let t = trust_both r.1.dir a b r.2 in
      if failed r.0
      then (r.0, a, b, r.2, r.1)
      else if not (a.hub.provisioned && b.hub.provisioned)
      then (e_security, a, b, r.2, r.1)
      else (t.0, t.1, t.2, t.3, r.1)
