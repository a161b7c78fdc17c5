-- ===== src/Security.antt =====
-- Whom a secure hub trusts, and what it writes of it: the security part of src/FacadeHub.cpp.
--
-- The sentences that go to the diagnostic stream beside a refusal are left out. An address that the
-- code takes as a null or an empty pointer with one meaning is a string here, empty for both.
pub mod Facilities
pub mod Stem
pub mod AllowList
pub mod Rollback
pub mod Provision
pub mod Directory
pub mod Edge
pub mod Arm
use Prim.Native.Nat.{bit_xor}
use target_facade.Base.{
  ℕ, zero, suc, ◌+◌, ◌-◌, ◌*◌, ◌/◌, ◌%◌, ◌^◌, Bool, true, false, not, ◌&&◌, ◌||◌, List, [], ◌∷◌,
  ◌++◌, String, Option, none, some, ltb, leb, ◌==◌, if◌then◌else◌, is_some,
}
use target_facade.Base.Lists.{length, take, all}
use target_facade.Base.Text.{WString, codes, is_empty}
use target_facade.Base.SortedMap.{Map, lookup, insert, erase}
use target_facade.Status.{HResult, s_ok, e_invalid_arg, e_security}
use target_facade.Hub.{Hub, SecKeys, no_keys}
use Facilities.{
  Policy, IdResult, id_ok, id_err_args, id_err_format, id_err_io, is_id_ok, Bytes, beside,
  apply_default_posture,
}

-- The longest address that a file stem takes whole.
abbrev pub stem_max : ℕ
stem_max = 96

abbrev pub is_plain : ℕ → Bool
is_plain c =
    (leb b'a' c && leb c b'z')
    || ((leb b'A' c && leb c b'Z')
        || ((leb b'0' c && leb c b'9') || (c == b'.' || (c == b'-' || c == b'_'))))

unfoldable pub sanitise : WString → WString
sanitise [] = []
sanitise (c ∷ s) = (if is_plain c then c else b'_') ∷ sanitise s

-- FNV-1a over the units of the address, in 32 bits
unfoldable pub fnv_hash : ℕ → WString → ℕ
fnv_hash hash [] = hash
fnv_hash hash (c ∷ s) = fnv_hash ((bit_xor hash c * 16777619) % 2 ^ 32) s

abbrev pub hex_digit : ℕ → ℕ
hex_digit d = if ltb d 10 then b'0' + d else b'a' + (d - 10)

-- so many hexadecimal digits, zeros in front
unfoldable pub hex_onto : ℕ → ℕ → WString → WString
hex_onto zero n rest = rest
hex_onto (suc digits) n rest = hex_onto digits (n / 16) (hex_digit (n % 16) ∷ rest)

-- `"-%08x"`
abbrev pub stem_tail : WString → WString
stem_tail address = b'-' ∷ hex_onto 8 (fnv_hash 2166136261 address) []

-- The name behind the substitution, and whether anything was substituted, cut or made up.
abbrev pub or_hub : WString → Bool → WString × Bool
or_hub [] mangled = (codes "hub", true)
or_hub (c ∷ s) mangled = (c ∷ s, mangled)

-- by what is taken of the address
unfoldable pub stem_by : WString → WString → WString
stem_by taken address =
    let out = or_hub (sanitise taken) (ltb stem_max (length address) || not (all is_plain taken)) in
    if out.1 then out.0 ++ stem_tail address else out.0

unfoldable pub security_stem_of : WString → WString
unfolding stem_by
security_stem_of address = stem_by (take stem_max address) address

abbrev pub key_path : WString → WString → String → WString
key_path dir address suffix = dir ++ (security_stem_of address ++ codes suffix)

-- `m_mapTrusted[peer] = keys`
abbrev pub add_trust : WString → SecKeys → Hub → Hub
add_trust peer keys h = record h { trusted = insert peer keys h.trusted }

abbrev pub drop_trust : WString → Hub → Hub
drop_trust peer h = record h { trusted = erase peer h.trusted }

-- RestoreTrust, by what the peer's entry was
abbrev pub restore_trust : WString → Option SecKeys → Hub → Hub
restore_trust peer none h = drop_trust peer h
restore_trust peer (some old) h = add_trust peer old h

-- `m_mapTrusted.empty ()`
abbrev pub is_nobody : Map SecKeys → Bool
is_nobody [] = true
is_nobody (e ∷ m) = false

unfoldable pub trusts : WString → Hub → Bool
trusts peer h = if is_empty peer then false else is_some (lookup peer h.trusted)

module _ (p : Policy) where
  -- The loop of WriteAllowList over the trusted peers.
  unfoldable pub append_all : Bytes → Map SecKeys → p.Disk → IdResult × p.Disk
  append_all temp [] d = (id_ok, d)
  append_all temp ((who, keys) ∷ m) d = elim (p.utf8 who) [
    | none ↦ (id_err_args, d)
    | some w ↦
        let r = p.append_allow_list temp w keys.id keys.agree d in
        let rest = append_all temp m r.1 in if is_id_ok r.0 then rest else r
  ]

  abbrev load_list : WString → p.Disk → p.Auth → IdResult × p.Auth × p.Disk
  load_list allow d a = elim (p.utf8 allow) [
    | none ↦ (id_err_args, a, d)
    | some path ↦ let r = p.set_allow_list path d a in (r.0, r.1, d)
  ]

  abbrev publish : WString → WString → p.Disk → p.Auth → IdResult × p.Auth × p.Disk
  publish temp allow d a =
      let moved = p.move_file temp allow d in
      if moved.0 then load_list allow moved.1 a else (id_err_io, a, p.delete_file temp moved.1)

  -- what is written to the file beside the allow-list
  abbrev written : WString → Bytes → Map SecKeys → p.Disk → IdResult × p.Disk
  written temp path trusted d = append_all path trusted (p.delete_file temp d)

  -- WriteAllowList, at the allow-list's path
  unfoldable pub write_list : WString → Map SecKeys → p.Auth → p.Disk → IdResult × p.Auth × p.Disk
  write_list allow trusted a d =
      let temp = beside allow in
      elim (p.utf8 temp) [
        | none ↦ (id_err_args, a, d)
        | some path ↦
            let w = written temp path trusted d in
            if is_id_ok w.0 then publish temp allow w.1 a else (w.0, a, p.delete_file temp w.1)
      ]

  abbrev pub write_allow_list : WString → Hub → p.Auth → p.Disk → IdResult × p.Auth × p.Disk
  write_allow_list dir h a d = write_list (key_path dir h.address ".allow") h.trusted a d

  -- TrustAndEnforce behind a refusal of AuthArm
  abbrev pub give_up_trust :
      WString → WString → Hub → Hub → p.Auth → p.Disk → HResult × Hub × p.Auth × p.Disk
  give_up_trust peer dir before listed a d =
      let back = restore_trust peer (lookup peer before.trusted) listed in
      let again = write_allow_list dir back a d in
      (
        e_security,
        back,
        if is_nobody before.trusted then apply_default_posture p again.1 else again.1,
        again.2,
      )

  unfoldable pub trust_and_enforce :
      WString → SecKeys → WString → Hub → p.Auth → p.Disk → HResult × Hub × p.Auth × p.Disk
  trust_and_enforce peer keys dir h a d =
      let listed = add_trust peer keys h in
      let w = write_allow_list dir listed a d in
      let enforced = p.require_auth true w.1 in
      if is_empty peer
      then (e_invalid_arg, h, a, d)
      else if not (is_id_ok w.0)
      then (e_security, restore_trust peer (lookup peer h.trusted) listed, w.1, w.2)
      else if p.auth_arms w.2 enforced
      then (s_ok, listed, enforced, w.2)
      else give_up_trust peer dir h listed enforced w.2

  unfoldable pub untrust_peer :
      WString → WString → Hub → p.Auth → p.Disk → IdResult × Hub × p.Auth × p.Disk
  untrust_peer peer dir h a d =
      let left = drop_trust peer h in
      let w = write_allow_list dir left a d in
      if is_empty peer then (id_err_args, h, a, d) else (w.0, left, w.1, w.2)

  -- LoadPeerKeys behind the two paths
  abbrev read_keys : Bytes → Bytes → p.Disk → IdResult × SecKeys
  read_keys pub_path agree_path d =
      let r = p.load_public_key pub_path d in
      let g = p.load_agreement_public_key agree_path d in
      if not (is_id_ok r.0) then (r.0, no_keys) else elim (p.export_public r.1) [
        | none ↦ (id_err_format, no_keys)
        | some point ↦ (
          id_ok,
          record {
            id = point;
            agree = if is_id_ok g.0 then p.export_agreement g.1 else none;
            fingerprint = p.fingerprint point;
          },
        )
      ]

  unfoldable pub load_peer_keys : WString → WString → p.Disk → IdResult × SecKeys
  load_peer_keys peer dir d =
      if is_empty peer
      then (id_err_args, no_keys)
      else elim (p.utf8 (key_path dir peer ".key.pub")) [
        | none ↦ (id_err_args, no_keys)
        | some pub_path ↦ elim (p.utf8 (key_path dir peer ".agree.pub")) [
          | none ↦ (id_err_args, no_keys)
          | some agree_path ↦ read_keys pub_path agree_path d
        ]
      ]

  -- TrustPublishedPeer
  unfoldable pub trust_published_peer :
      WString → Hub → p.Auth → p.Disk → HResult × Hub × p.Auth × p.Disk
  trust_published_peer peer h a d =
      let keys = load_peer_keys peer h.sec_dir d in
      if is_empty h.sec_dir || not (is_id_ok keys.0)
      then (e_security, h, a, d)
      else trust_and_enforce peer keys.1 h.sec_dir h a d

  unfoldable pub admit_pattern_peer : p.Auth → p.Disk → HResult
  admit_pattern_peer a d = if p.auth_arms d a then s_ok else e_security
