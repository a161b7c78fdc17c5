-- ===== src/Registry/Created.antt =====
-- The hub that CreateHubEx makes.
use target_facade.Base.{
  ℕ, ◌≡◌, refl, sym, ap, ◌∙◌, inl, inr, Bool, true, false, not, ◌||◌, ◌/◌, ◌==◌, [], ◌∷◌, ◌++◌,
  Option, some, arith, Bool-cases, if_both,
}
use mathlib.Core.Path.{subst}
use target_facade.Base.Text.{WString, is_empty}
use target_facade.Status.{HResult, failed}
use target_facade.Hub.{Hub, new_hub}
use target_facade.Security.Facilities.{Policy, is_id_ok}
use target_facade.Security.Directory.{security_paths, revocation_path}
use target_facade.Security.Provision.{provision_self, provision_self-Provisioning}
use target_facade.Registry.{
  LiveHub, HubList, is_taken, publish_hub, HubRequest, Spawn, Estate, start_and_publish,
  create_secure, create_by, create_at, create_hub_ex, secure_flag, caller_pumped_flag,
}

-- what a call that creates a hub has made of the list, by the list that its last section found
pub record Created (address : WString) (secure pumped : Bool) (handle : ℕ) (before after : HubList)
    : Type 0 where
  pub live : LiveHub
  pub listed : after ≡ before ++ live ∷ []
  pub free : is_taken address before ≡ false
  pub handled : live.handle ≡ handle
  pub named : live.hub.address ≡ address
  pub as_secure : live.hub.secure ≡ secure
  pub as_pumped : live.hub.caller_pumped ≡ pumped
  pub keyed : secure ≡ true → live.hub.provisioned ≡ true

module _ (p : Policy) where
  start_and_publish-Created :
      (hub : Hub) (pumped : Bool) (sp : Spawn p) (s : Estate p)
      → (hub.secure ≡ true → hub.provisioned ≡ true)
      → failed (start_and_publish p hub pumped sp s).0 ≡ false
      → Created hub.address hub.secure pumped sp.handle
          (sp.meanwhile s.hubs)
          (start_and_publish p hub pumped sp s).2.hubs
  unfolding start_and_publish publish_hub
  start_and_publish-Created hub pumped sp s keyed good = record {
    live = record { handle = sp.handle; hub = record hub { caller_pumped = pumped } };
    listed = ground arith;
    free = ground arith;
    handled = refl;
    named = refl;
    as_secure = refl;
    as_pumped = refl;
    keyed = keyed;
  }

  create_secure-Created :
      (address : WString) (pumped : Bool) (sp : Spawn p) (s : Estate p)
      → failed (create_secure p address pumped sp s).0 ≡ false
      → Created address true pumped sp.handle
          (sp.meanwhile s.hubs)
          (create_secure p address pumped sp s).2.hubs
  unfolding create_secure
  create_secure-Created address pumped sp s good =
      let paths = security_paths p s.dirs s.disk in
      let revoke = revocation_path p paths.1.dir in
      let fresh = new_hub address true false in
      let made = provision_self p paths.1.dir revoke fresh sp.fresh_auth paths.2 in
      let facts =
        provision_self-Provisioning p paths.1.dir revoke fresh sp.fresh_auth paths.2 refl in
      let keyed : Estate p = record { hubs = s.hubs; dirs = paths.1; disk = made.3 } in
      elim (Bool-cases (failed paths.0)) [
        | inl e ↦ ground (arith, e)
        | inr e ↦ elim (Bool-cases (is_id_ok made.0)) [
          | inr f ↦ ground (arith, e, f)
          | inl f ↦
              let all =
                start_and_publish-Created made.1 pumped sp keyed (λ x. facts.agrees ∙ f)
                  (rw (e, f) at good) in
              rw (e, f)
                (record {
                  live = all.live;
                  listed = all.listed;
                  free =
                      ap (λ a. is_taken a (sp.meanwhile s.hubs)) (sym facts.same_hub.0) ∙ all.free;
                  handled = all.handled;
                  named = all.named ∙ facts.same_hub.0;
                  as_secure = all.as_secure ∙ facts.same_hub.1;
                  as_pumped = all.as_pumped;
                  keyed = λ x. all.keyed (facts.same_hub.1);
                })
        ]
      ]

  create_by-Created :
      (secure : Bool) (address : WString) (pumped : Bool) (sp : Spawn p) (s : Estate p)
      → failed (create_by p secure address pumped sp s).0 ≡ false
      → Created address secure pumped sp.handle
          (sp.meanwhile s.hubs)
          (create_by p secure address pumped sp s).2.hubs
  unfolding create_by
  create_by-Created true address pumped sp s good = create_secure-Created address pumped sp s good
  create_by-Created false address pumped sp s good =
      start_and_publish-Created (new_hub address false false) pumped sp s (λ e. cc) good

  abbrev CreatedFor :
      WString → HubRequest → Spawn p → Estate p → HResult × Option ℕ × Estate p → Type 0
  CreatedFor address q sp s r =
      failed r.0 ≡ false
      → Created address (secure_flag q.flags) (caller_pumped_flag q.flags) sp.handle
          (sp.meanwhile s.hubs) r.2.hubs
        × (q.flags / 4 ≡ 0)

  create_at-CreatedFor :
      (address : WString) (q : HubRequest) (sp : Spawn p) (s : Estate p)
      → CreatedFor address q sp s (create_at p (some address) q sp s)
  unfolding create_at
  create_at-CreatedFor address q sp s =
      let kept = CreatedFor address q sp s in
      if_both kept (not q.has_events || not q.has_out) _ _ (λ e good. cc)
        (λ e.
          if_both kept (is_empty address) _ _ (λ f good. cc)
            (λ f.
              if_both kept (not (q.flags / 4 == 0)) _ _ (λ g good. cc)
                (λ g.
                  if_both kept (is_taken address s.hubs) _ _ (λ h good. cc)
                    (λ h good. (
                      create_by-Created (secure_flag q.flags) address (caller_pumped_flag q.flags)
                          sp s good,
                      ground arith,
                    )))))

  -- CreateHubEx that succeeds has put one hub at the end of the list that it found when it published,
  -- in which its address was free, with the address and the posture that it was called for; a secure
  -- hub has been given its keys. It fails for flags that it does not know.
  pub create_hub_ex-Created :
      (q : HubRequest) (address : WString) (sp : Spawn p) (s : Estate p)
      → q.address ≡ some address
      → failed (create_hub_ex p q sp s).0 ≡ false
      → Created address
          (secure_flag q.flags)
          (caller_pumped_flag q.flags)
          sp.handle
          (sp.meanwhile s.hubs)
          (create_hub_ex p q sp s).2.hubs
        × ((q.flags / 4) ≡ 0)
  unfolding create_hub_ex
  create_hub_ex-Created q address sp s named good =
      subst (λ o. CreatedFor address q sp s (create_at p o q sp s)) (sym named)
        (create_at-CreatedFor address q sp s) good
