-- ===== src/Security/Rollback.antt =====
-- What TrustAndEnforce leaves of the set of trusted peers and of the switch that it turns.
use target_facade.Base.{
  ◌≡◌, refl, ap, inl, inr, true, false, not, [], ◌∷◌, Option, none, some, arith, if◌then◌else◌,
  Option-cases,
}
use target_facade.Base.Text.{WString, equal}
use target_facade.Base.SortedMap.{Map, lookup, insert, lookup-insert, IsSorted}
use target_facade.Base.SortedMap.Extensional.{insert_back, erase-insert}
use target_facade.Status.{failed}
use target_facade.Hub.{Hub, SecKeys}
use target_facade.Security.{
  trust_and_enforce, restore_trust, add_trust, write_list, key_path, is_nobody, append_all,
}
use target_facade.Security.Facilities.{
  Policy, IsAuthSwitch, IsFileStore, apply_default_posture, id_ok, beside,
}
use target_facade.Security.AllowList.{entries, write_list-entries, is_id_ok-true}

restored :
    (peer : WString) (keys : SecKeys) (old : Option SecKeys) (h : Hub)
    → IsSorted h.trusted
    → lookup peer h.trusted ≡ old
    → restore_trust peer old (add_trust peer keys h) ≡ h
restored peer keys none h s e =
    ap (λ (m : Map SecKeys). record h { trusted = m }) (erase-insert peer keys h.trusted s e)
restored peer keys (some old) h s e =
    ap (λ (m : Map SecKeys). record h { trusted = m }) (insert_back peer old keys h.trusted s e)

is_nobody-insert :
    (peer : WString) (keys : SecKeys) (m : Map SecKeys) → is_nobody (insert peer keys m) ≡ false
unfolding insert
is_nobody-insert peer keys [] = refl
is_nobody-insert peer keys ((who, old) ∷ m) = ground arith

module _ (p : Policy) where
  -- A call of TrustAndEnforce that fails, for whatever reason, on a hub whose trusted peers are in
  -- key order leaves the whole of what the hub keeps as it was, the keys of a peer that it trusted
  -- before included.
  pub trust_and_enforce-failed :
      (peer : WString) (keys : SecKeys) (dir : WString) (h : Hub) (a : p.Auth) (d : p.Disk)
      → IsSorted h.trusted
      → failed (trust_and_enforce p peer keys dir h a d).0 ≡ true
      → (trust_and_enforce p peer keys dir h a d).1 ≡ h
  unfolding trust_and_enforce
  trust_and_enforce-failed peer keys dir h a d s bad =
      ground (arith, restored peer keys (lookup peer h.trusted) h s)

  -- A call of TrustAndEnforce that succeeds, where the file beside the allow-list can be deleted, has
  -- added the peer with its keys to those that the hub trusts and left the others, the hub requires
  -- authentication and can enforce it, and the allow-list's file holds the trusted peers and no other.
  pub trust_and_enforce-enforced :
      (store : IsFileStore p)
      → IsAuthSwitch p
      → (peer : WString) (keys : SecKeys) (dir : WString) (h : Hub) (a : p.Auth) (d : p.Disk)
      → store.lines
          (beside (key_path dir h.address ".allow"))
          (p.delete_file (beside (key_path dir h.address ".allow")) d)
        ≡ none
      → failed (trust_and_enforce p peer keys dir h a d).0 ≡ false
      → let r = trust_and_enforce p peer keys dir h a d in
        ((other : WString)
          → lookup other r.1.trusted
            ≡ (if equal peer other then some keys else lookup other h.trusted))
        × (p.is_auth_required r.2 ≡ true)
        × (p.auth_arms r.3 r.2 ≡ true)
        × (store.lines (key_path dir h.address ".allow") r.3 ≡ some (entries p store r.1.trusted))
  unfolding trust_and_enforce
  trust_and_enforce-enforced store switch peer keys dir h a d deleted good =
      let listed = insert peer keys h.trusted in
      let allow = key_path dir h.address ".allow" in
      let w = write_list p allow listed a d in
      let written = write_list-entries p store allow listed a d deleted in
      let code = is_id_ok-true w.0 in
      let required = switch.require_sets true w.1 in
      (
        λ other. ground (arith, lookup-insert peer other keys h.trusted),
        ground (arith, required),
        ground arith,
        ground (arith, code, λ (e : w.0 ≡ id_ok). (written e).0),
      )

  -- A hub requires authentication exactly when it trusts someone.
  abbrev pub InPosture : Hub → p.Auth → Type 0
  InPosture h a = p.is_auth_required a ≡ not (is_nobody h.trusted)

  pub write_list-switch :
      IsAuthSwitch p
      → (allow : WString) (m : Map SecKeys) (a : p.Auth) (d : p.Disk)
      → p.is_auth_required (write_list p allow m a d).1 ≡ p.is_auth_required a
  unfolding write_list
  write_list-switch switch allow m a d = elim (Option-cases (p.utf8 (beside allow))) [
    | inl e ↦ ground (arith, e)
    | inr (name, e) ↦ elim (Option-cases (p.utf8 allow)) [
      | inl f ↦ ground (arith, e, f)
      | inr (path, f) ↦
          let w = append_all p name m (p.delete_file (beside allow) d) in
          ground (arith, e, f, switch.allow_keeps path (p.move_file (beside allow) allow w.1).1 a)
    ]
  ]

  posture_default :
      IsAuthSwitch p → (a : p.Auth) → p.is_auth_required (apply_default_posture p a) ≡ false
  unfolding apply_default_posture
  posture_default switch a = ground (
    arith,
    switch.require_sets false a,
    switch.seal_keeps false (p.require_auth false a),
    switch.relay_keeps false (p.require_seal false (p.require_auth false a)),
  )

  -- TrustAndEnforce, whatever comes of it, keeps the posture of a hub whose trusted peers are in key
  -- order: enforcement goes on with the first peer, it is put back when the first peer is refused,
  -- and a hub that already trusts someone is never relaxed by a call that failed.
  pub trust_and_enforce-InPosture :
      IsAuthSwitch p
      → (peer : WString) (keys : SecKeys) (dir : WString) (h : Hub) (a : p.Auth) (d : p.Disk)
      → IsSorted h.trusted
      → InPosture h a
      → InPosture
          (trust_and_enforce p peer keys dir h a d).1
          (trust_and_enforce p peer keys dir h a d).2
  unfolding trust_and_enforce
  trust_and_enforce-InPosture switch peer keys dir h a d s i =
      let allow = key_path dir h.address ".allow" in
      let listed = add_trust peer keys h in
      let w = write_list p allow listed.trusted a d in
      let enforced = p.require_auth true w.1 in
      let back = restored peer keys (lookup peer h.trusted) h s refl in
      let again =
        write_list p allow (restore_trust peer (lookup peer h.trusted) listed).trusted enforced
          w.2 in
      ground (
        arith,
        back,
        is_nobody-insert peer keys h.trusted,
        write_list-switch switch allow listed.trusted a d,
        switch.require_sets true w.1,
        write_list-switch switch allow (restore_trust peer (lookup peer h.trusted) listed).trusted
            enforced w.2,
        posture_default switch again.1,
      )
