-- ===== src/Security/Provision.antt =====
-- The keys of the hub itself: ProvisionSelf and GetSecurityInfo of src/FacadeHub.cpp.
use target_facade.Base.{
  ◌≡◌, ◌≢◌, ◌↔◌, refl, sym, ap, ◌∙◌, Bool, true, false, not, ◌&&◌, [], Option, none, some, arith,
  if◌then◌else◌, inl, inr, Option-cases,
}
use target_facade.Base.Text.{WString}
use target_facade.Hub.{Hub, SecKeys}
use target_facade.Security.{key_path}
use target_facade.Security.AllowList.{is_id_ok-true}
use target_facade.Security.Facilities.{
  Policy, IdResult, id_ok, id_err_args, id_err_format, id_err_io, id_other, is_id_ok, Bytes,
}

-- The paths of ProvisionSelf, narrow.
pub record KeyFiles : Type 0 where
  pub key : Bytes
  pub agree : Bytes
  pub key_pub : Bytes
  pub agree_pub : Bytes
  pub revoked : Bytes

abbrev both : Option Bytes → Option Bytes → Option (Bytes × Bytes)
both (some a) (some b) = some (a, b)
both _ b = none

abbrev key_files : Option (Bytes × Bytes) → Option (Bytes × Bytes) → Option Bytes → Option KeyFiles
key_files (some (k, a)) (some (kp, ap)) (some r) =
    some (record { key = k; agree = a; key_pub = kp; agree_pub = ap; revoked = r })
key_files _ b r = none

is_id_ok-false : (e : IdResult) → e ≢ id_ok → is_id_ok e ≡ false
is_id_ok-false id_ok h = absurd (h refl)
is_id_ok-false id_err_args h = refl
is_id_ok-false id_err_format h = refl
is_id_ok-false id_err_io h = refl
is_id_ok-false (id_other n) h = refl

module _ (p : Policy) where
  abbrev pub files_of : WString → WString → WString → Option KeyFiles
  files_of dir address revoke =
      key_files
        (both (p.utf8 (key_path dir address ".key")) (p.utf8 (key_path dir address ".agree")))
        (both (p.utf8 (key_path dir address ".key.pub"))
          (p.utf8 (key_path dir address ".agree.pub")))
        (p.utf8 revoke)

  -- The agreement point is published where the hub has one that imports.
  unfoldable pub publish_agreement : Bytes → Option Bytes → p.Disk → IdResult × p.Disk
  publish_agreement path none d = (id_ok, d)
  publish_agreement path (some point) d = elim (p.import_agreement point) [
    | none ↦ (id_ok, d)
    | some key ↦ p.save_agreement_public_key path key d
  ]

  -- ProvisionSelf behind the public half of the identity
  unfoldable pub provision_rest :
      KeyFiles → Bytes → Bytes → WString → Hub → p.Auth → p.Disk → IdResult × Hub × p.Auth × p.Disk
  provision_rest files point print dir h a d =
      let agree = p.get_agreement_public a in
      let s = publish_agreement files.agree_pub agree d in
      let r = p.set_revocation_list files.revoked s.1 a in
      let keys : SecKeys = record { id = point; agree = agree; fingerprint = print } in
      if not (is_id_ok s.0)
      then (s.0, h, a, s.1)
      else if not (is_id_ok r.0)
      then (r.0, h, r.1, s.1)
      else (id_ok, record h { sec_keys = keys; sec_dir = dir; provisioned = true }, r.1, s.1)

  unfoldable pub provision_keys :
      KeyFiles → WString → Hub → p.Auth → p.Disk → IdResult × Hub × p.Auth × p.Disk
  provision_keys files dir h a d =
      let made = p.provision_auth files.key d a in
      let agreed = p.set_agreement_key files.agree made.2 made.3 in
      let read = p.load_public_key files.key_pub agreed.1 in
      if not (is_id_ok made.0)
      then (made.0, h, made.3, made.2)
      else if not (is_id_ok agreed.0)
      then (agreed.0, h, agreed.2, agreed.1)
      else if not (is_id_ok read.0)
      then (read.0, h, agreed.2, agreed.1)
      else elim (p.export_public read.1) [
        | none ↦ (id_err_format, h, agreed.2, agreed.1)
        | some point ↦ provision_rest files point made.1 dir h agreed.2 agreed.1
      ]

  unfoldable pub provision_self :
      WString → WString → Hub → p.Auth → p.Disk → IdResult × Hub × p.Auth × p.Disk
  provision_self dir revoke h a d =
      if h.provisioned then (id_ok, h, a, d) else elim (files_of dir h.address revoke) [
        | none ↦ (id_err_args, h, a, d)
        | some files ↦ provision_keys files dir h a d
      ]

  -- The flags that GetSecurityInfo reads, P2PF_SEC_REQUIRED first.
  pub record SecurityFlags : Type 0 where
    pub required : Bool
    pub can_sign : Bool
    pub can_open : Bool
    pub armed : Bool
    pub sealed : Bool
    pub revocation : Bool

  abbrev pub security_flags : p.Auth → p.Disk → SecurityFlags
  security_flags a d = record {
    required = p.is_auth_required a;
    can_sign = p.can_auth_sign a;
    can_open = p.can_open a;
    armed = p.auth_arms d a;
    sealed = p.is_seal_required a;
    revocation = p.is_revocation_configured a && p.is_revocation_usable a;
  }

  -- What GetSecurityInfo copies out as the hub's fingerprint.
  abbrev pub shown_fingerprint : Hub → Bytes
  shown_fingerprint h = if h.provisioned then h.sec_keys.fingerprint else []

  -- what is made of a hub that was not provisioned
  pub record Provisioning (dir : WString) (h : Hub) (r : IdResult × Hub × p.Auth × p.Disk)
      : Type 0 where
    pub agrees : r.1.provisioned ≡ is_id_ok r.0
    pub settled : is_id_ok r.0 ≡ true → r.1.sec_dir ≡ dir
    pub same_hub :
        (r.1.address ≡ h.address) × (r.1.secure ≡ h.secure) × (r.1.caller_pumped ≡ h.caller_pumped)
    pub untouched : is_id_ok r.0 ≡ false → r.1 ≡ h

  provision_rest-Provisioning :
      (files : KeyFiles) (point print : Bytes) (dir : WString) (h : Hub) (a : p.Auth) (d : p.Disk)
      → h.provisioned ≡ false
      → Provisioning dir h (provision_rest files point print dir h a d)
  unfolding provision_rest
  provision_rest-Provisioning files point print dir h a d fresh = record {
    agrees = ground arith;
    settled = ground arith;
    same_hub = (ground arith, ground arith, ground arith);
    untouched = ground arith;
  }

  provision_keys-Provisioning :
      (files : KeyFiles) (dir : WString) (h : Hub) (a : p.Auth) (d : p.Disk)
      → h.provisioned ≡ false
      → Provisioning dir h (provision_keys files dir h a d)
  unfolding provision_keys
  provision_keys-Provisioning files dir h a d fresh =
      let made = p.provision_auth files.key d a in
      let agreed = p.set_agreement_key files.agree made.2 made.3 in
      let read = p.load_public_key files.key_pub agreed.1 in
      elim (Option-cases (p.export_public read.1)) [
        | inl e ↦ record {
          agrees = ground (arith, e);
          settled = ground (arith, e);
          same_hub = (ground (arith, e), ground (arith, e), ground (arith, e));
          untouched = ground (arith, e);
        }
        | inr (point, e) ↦
            let rest =
              provision_rest-Provisioning files point made.1 dir h agreed.2 agreed.1 fresh in
            record {
              agrees = ground (arith, e, rest.agrees);
              settled = ground (arith, e, rest.settled);
              same_hub = (
                ground (arith, e, rest.same_hub),
                ground (arith, e, rest.same_hub),
                ground (arith, e, rest.same_hub),
              );
              untouched = ground (arith, e, rest.untouched);
            }
      ]

  pub provision_self-Provisioning :
      (dir revoke : WString) (h : Hub) (a : p.Auth) (d : p.Disk)
      → h.provisioned ≡ false
      → Provisioning dir h (provision_self dir revoke h a d)
  unfolding provision_self
  provision_self-Provisioning dir revoke h a d fresh =
      elim (Option-cases (files_of dir h.address revoke)) [
        | inl e ↦ record {
          agrees = ground (arith, e);
          settled = ground (arith, e);
          same_hub = (ground (arith, e), ground (arith, e), ground (arith, e));
          untouched = ground (arith, e);
        }
        | inr (files, e) ↦
            let keys = provision_keys-Provisioning files dir h a d fresh in
            record {
              agrees = ground (arith, e, keys.agrees);
              settled = ground (arith, e, keys.settled);
              same_hub = (
                ground (arith, e, keys.same_hub),
                ground (arith, e, keys.same_hub),
                ground (arith, e, keys.same_hub),
              );
              untouched = ground (arith, e, keys.untouched);
            }
      ]

  provision_self-provisioned :
      (dir revoke : WString) (h : Hub) (a : p.Auth) (d : p.Disk)
      → h.provisioned ≡ true
      → provision_self dir revoke h a d ≡ (id_ok, h, a, d)
  unfolding provision_self
  provision_self-provisioned dir revoke h a d e = ground arith

  -- A hub that is not provisioned becomes so exactly when ProvisionSelf succeeds, a call that fails
  -- leaves what the hub keeps as it was, and a second call that succeeded answers without touching a
  -- file, the policy or the hub, wherever it is pointed.
  pub provision_self-once :
      (dir revoke dir' revoke' : WString) (h : Hub) (a : p.Auth) (d : p.Disk)
      → h.provisioned ≡ false
      → let r = provision_self dir revoke h a d in
        ((r.0 ≡ id_ok) ↔ (r.1.provisioned ≡ true))
        × (r.0 ≢ id_ok → r.1 ≡ h)
        × (r.0 ≡ id_ok
            → (r.1.sec_dir ≡ dir)
              × (provision_self dir' revoke' r.1 r.2 r.3 ≡ (id_ok, r.1, r.2, r.3)))
  provision_self-once dir revoke dir' revoke' h a d fresh =
      let r = provision_self dir revoke h a d in
      let made = provision_self-Provisioning dir revoke h a d fresh in
      (
        (λ e. made.agrees ∙ ap is_id_ok e, λ e. is_id_ok-true r.0 (sym made.agrees ∙ e)),
        λ ne. made.untouched (is_id_ok-false r.0 ne),
        λ e. (
          made.settled (ap is_id_ok e),
          provision_self-provisioned dir' revoke' r.1 r.2 r.3 (made.agrees ∙ ap is_id_ok e),
        ),
      )
