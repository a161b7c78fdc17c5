-- ===== src/Security/Directory.antt =====
-- Where the keys of the process are: EnsureSecurityDirLocked, SecurityPaths, EnsureRevocationList
-- and SetSecurityDir of src/FacadeNetwork.cpp.
use target_facade.Base.{
  ℕ, suc, ◌≡◌, refl, ◌∙◌, Bool, true, false, not, ◌||◌, List, [], ◌∷◌, ◌++◌, Option, none, some,
  arith, ◌==◌, inl, inr, Option-cases, if◌then◌else◌,
}
use target_facade.Base.Lists.{take}
use target_facade.Base.Text.{WString, codes, is_empty, reverse_find}
use target_facade.Status.{HResult, s_ok, e_security, failed}
use target_facade.Security.Facilities.{Policy}

-- m_csSecDir and m_bSecUsed
pub record KeyDirectory : Type 0 where
  pub dir : WString
  pub used : Bool

-- the directory of a path, with its backslash, and the facade's own below it
abbrev pub beside_module : WString → Option WString
beside_module path = elim (reverse_find b'\\' path) [
  | none ↦ none
  | some i ↦ some (take (suc i) path ++ codes "p2p\\")
]

-- A name that ends in a separator; `dir` is not empty.
abbrev pub last_unit : ℕ → WString → ℕ
last_unit c [] = c
last_unit c (d ∷ s) = last_unit d s

abbrev pub with_separator : WString → WString
with_separator dir =
    let last = last_unit 0 dir in if last == b'\\' || last == b'/' then dir else dir ++ codes "\\"

-- the calls that read or change the directory
pub data DirCall : Type 0 where
  ensure_call paths_call : DirCall
  set_call : Option WString → DirCall

named-ne-nil : (s : WString) → is_empty (s ++ codes "p2p\\") ≡ false
named-ne-nil [] = refl
named-ne-nil (c ∷ s) = refl

module _ (p : Policy) where
  unfoldable pub ensure_security_dir : KeyDirectory → p.Disk → HResult × KeyDirectory × p.Disk
  ensure_security_dir n d =
      if not (is_empty n.dir) then (s_ok, record n { used = true }, d) else elim p.module_path [
        | none ↦ (e_security, n, d)
        | some path ↦ elim (beside_module path) [
          | none ↦ (e_security, n, d)
          | some dir ↦
              let made = p.create_directory dir d in
              if made.0
              then (s_ok, record { dir = dir; used = true }, made.1)
              else (e_security, n, made.1)
        ]
      ]

  unfoldable pub ensure_revocation_list : WString → p.Disk → Bool × p.Disk
  ensure_revocation_list path d =
      if p.file_exists path d then (true, d) else p.write_revocation_text path d

  abbrev pub revocation_path : WString → WString
  revocation_path dir = dir ++ codes "peers.revoked"

  unfoldable pub security_paths : KeyDirectory → p.Disk → HResult × KeyDirectory × p.Disk
  security_paths n d =
      let r = ensure_security_dir n d in
      let e = ensure_revocation_list (revocation_path r.1.dir) r.2 in
      if failed r.0 then r else (if e.0 then s_ok else e_security, r.1, e.1)

  unfoldable pub set_security_dir :
      Option WString → KeyDirectory → p.Disk → HResult × KeyDirectory × p.Disk
  set_security_dir named n d = if n.used then (e_security, n, d) else elim named [
    | none ↦ (s_ok, record n { dir = [] }, d)
    | some [] ↦ (s_ok, record n { dir = [] }, d)
    | some (c ∷ s) ↦
        let dir = with_separator (c ∷ s) in
        let made = p.create_directory dir d in
        if made.0 then (s_ok, record n { dir = dir }, made.1) else (e_security, n, made.1)
  ]

  abbrev pub dir_call : DirCall → KeyDirectory → p.Disk → KeyDirectory × p.Disk
  dir_call ensure_call n d = let r = ensure_security_dir n d in (r.1, r.2)
  dir_call paths_call n d = let r = security_paths n d in (r.1, r.2)
  dir_call (set_call named) n d = let r = set_security_dir named n d in (r.1, r.2)

  abbrev pub dir_calls : List DirCall → KeyDirectory → p.Disk → KeyDirectory × p.Disk
  dir_calls [] n d = (n, d)
  dir_calls (c ∷ cs) n d = let r = dir_call c n d in dir_calls cs r.0 r.1

  dir_call-kept :
      (c : DirCall) (n : KeyDirectory) (d : p.Disk)
      → n.used ≡ true
      → is_empty n.dir ≡ false
      → ((dir_call c n d).0.used ≡ true) × ((dir_call c n d).0.dir ≡ n.dir)
  unfolding ensure_security_dir security_paths set_security_dir
  dir_call-kept ensure_call n d u f = ground arith
  dir_call-kept paths_call n d u f = ground arith
  dir_call-kept (set_call named) n d u f = ground arith

  dir_calls-kept :
      (cs : List DirCall) (n : KeyDirectory) (d : p.Disk)
      → n.used ≡ true
      → is_empty n.dir ≡ false
      → (dir_calls cs n d).0.dir ≡ n.dir
  dir_calls-kept [] n d u f = refl
  dir_calls-kept (c ∷ cs) n d u f =
      let kept = dir_call-kept c n d u f in
      let r = dir_call c n d in dir_calls-kept cs r.0 r.1 kept.0 (rw (kept.1) f) ∙ kept.1

  ensure_settled :
      (n : KeyDirectory) (d : p.Disk)
      → failed (ensure_security_dir n d).0 ≡ false
      → ((ensure_security_dir n d).1.used ≡ true)
        × (is_empty (ensure_security_dir n d).1.dir ≡ false)
  unfolding ensure_security_dir
  ensure_settled n d good = elim (Option-cases p.module_path) [
    | inl e ↦ ground (arith, e)
    | inr (path, e) ↦ elim (Option-cases (reverse_find b'\\' path)) [
      | inl f ↦ ground (arith, e, f)
      | inr (i, f) ↦ ground (arith, e, f, named-ne-nil (take (suc i) path))
    ]
  ]

  set_security_dir-used :
      (named : Option WString) (n : KeyDirectory) (d : p.Disk)
      → n.used ≡ true
      → set_security_dir named n d ≡ (e_security, n, d)
  unfolding set_security_dir
  set_security_dir-used named n d u = ground arith

  -- Once the directory has been resolved for a hub, no later call moves it: each hub of the process
  -- finds its keys, and those of its peers, in the same place, and SetSecurityDir is refused.
  pub ensure_security_dir-settles :
      (cs : List DirCall) (n : KeyDirectory) (d : p.Disk)
      → failed (ensure_security_dir n d).0 ≡ false
      → let r = ensure_security_dir n d in
        let later = dir_calls cs r.1 r.2 in
        (is_empty r.1.dir ≡ false)
        × (later.0.dir ≡ r.1.dir)
        × ((named : Option WString) → (set_security_dir named r.1 r.2 ≡ (e_security, r.1, r.2)))
  ensure_security_dir-settles cs n d good =
      let r = ensure_security_dir n d in
      let settled = ensure_settled n d good in
      (
        settled.1,
        dir_calls-kept cs r.1 r.2 settled.0 settled.1,
        λ named. set_security_dir-used named r.1 r.2 settled.0,
      )
