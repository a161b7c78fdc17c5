-- ===== src/Security/AllowList.antt =====
-- What WriteAllowList leaves in the allow-list's file.
use target_facade.Base.{
  ◌≡◌, ◌≢◌, inl, inr, refl, ◌∙◌, ap, true, List, [], ◌∷◌, Option, none, some, append_assoc, arith,
  Option-cases,
}
use target_facade.Base.Text.{WString}
use target_facade.Base.SortedMap.{Map}
use target_facade.Hub.{SecKeys}
use target_facade.Security.{append_all, write_list}
use target_facade.Security.Facilities.{
  Policy, IdResult, id_ok, id_err_args, id_err_format, id_err_io, id_other, is_id_ok, Bytes,
  AllowEntry, IsFileStore, appended, beside,
}

pub is_id_ok-true : (e : IdResult) → is_id_ok e ≡ true → e ≡ id_ok
is_id_ok-true id_ok h = refl
is_id_ok-true id_err_args h = cc
is_id_ok-true id_err_format h = cc
is_id_ok-true id_err_io h = cc
is_id_ok-true (id_other n) h = cc

module _ (p : Policy) (store : IsFileStore p) where
  abbrev narrow : Option Bytes → Bytes
  narrow none = []
  narrow (some bytes) = bytes

  -- the lines that a set of trusted peers stands for, in the order of the map
  abbrev pub entries : Map SecKeys → List AllowEntry
  entries [] = []
  entries ((who, keys) ∷ m) =
      record { who = narrow (p.utf8 who); id = keys.id; agree = keys.agree } ∷ entries m

  appended_twice :
      (o : Option (List AllowEntry)) (e : AllowEntry) (es : List AllowEntry)
      → appended (appended o (e ∷ [])) es ≡ appended o (e ∷ es)
  appended_twice none e [] = refl
  appended_twice none e (f ∷ es) = refl
  appended_twice (some old) e [] = refl
  appended_twice (some old) e (f ∷ es) = ap some (append_assoc old (e ∷ []) (f ∷ es))

  append_all-lines :
      (path : WString) (name : Bytes) (m : Map SecKeys) (d : p.Disk)
      → p.utf8 path ≡ some name
      → is_id_ok (append_all p name m d).0 ≡ true
      → store.lines path (append_all p name m d).1 ≡ appended (store.lines path d) (entries m)
  unfolding append_all
  append_all-lines path name [] d named good = refl
  append_all-lines path name ((who, keys) ∷ m) d named good = elim (Option-cases (p.utf8 who)) [
    | inl e ↦ ground (arith, e)
    | inr (w, e) ↦ ground (
      arith,
      e,
      append_all-lines path name m (p.append_allow_list name w keys.id keys.agree d).1 named,
      store.append_line path name w keys.id keys.agree d named,
      is_id_ok-true (p.append_allow_list name w keys.id keys.agree d).0,
      appended_twice (store.lines path d) (record { who = w; id = keys.id; agree = keys.agree })
          (entries m),
    )
  ]

  append_all-apart :
      (path : WString) (name : Bytes) (m : Map SecKeys) (d : p.Disk)
      → p.utf8 (beside path) ≡ some name
      → store.lines path (append_all p name m d).1 ≡ store.lines path d
  unfolding append_all
  append_all-apart path name [] d named = refl
  append_all-apart path name ((who, keys) ∷ m) d named = elim (Option-cases (p.utf8 who)) [
    | inl e ↦ rw (e, append_all) refl
    | inr (w, e) ↦
        rw (e, append_all)
          (ground (
            arith,
            append_all-apart path name m (p.append_allow_list name w keys.id keys.agree d).1 named,
            store.append_apart path name w keys.id keys.agree d named,
          ))
  ]

  nonempty :
      (m : Map SecKeys)
      → appended none (entries m) ≢ none
      → (appended none (entries m) ≡ some (entries m)) × (m ≢ [])
  nonempty [] h = absurd (h refl)
  nonempty ((who, keys) ∷ m) h = (refl, λ e. cc)

  -- what a successful WriteAllowList went through
  record Steps (allow : WString) (trusted : Map SecKeys) (a : p.Auth) (d : p.Disk) : Type 0 where
    temp_name : Bytes
    allow_name : Bytes
    temp_named : p.utf8 (beside allow) ≡ some temp_name
    allow_named : p.utf8 allow ≡ some allow_name
    appended_all :
        is_id_ok (append_all p temp_name trusted (p.delete_file (beside allow) d)).0 ≡ true
    moved :
        (p.move_file
          (beside allow)
          allow
          (append_all p temp_name trusted (p.delete_file (beside allow) d)).1).0
        ≡ true
    disk :
        (write_list p allow trusted a d).2
        ≡ (p.move_file
            (beside allow)
            allow
            (append_all p temp_name trusted (p.delete_file (beside allow) d)).1).1
    taken :
        p.set_allow_list allow_name (write_list p allow trusted a d).2 a
        ≡ (id_ok, (write_list p allow trusted a d).1)

  write_list-Steps :
      (allow : WString) (trusted : Map SecKeys) (a : p.Auth) (d : p.Disk)
      → (write_list p allow trusted a d).0 ≡ id_ok
      → Steps allow trusted a d
  unfolding write_list
  write_list-Steps allow trusted a d good = elim (Option-cases (p.utf8 (beside allow))) [
    | inl e ↦ ground (arith, e)
    | inr (name, e) ↦ elim (Option-cases (p.utf8 allow)) [
      | inl f ↦ ground (arith, e, f)
      | inr (path, f) ↦ record {
        temp_name = name;
        allow_name = path;
        temp_named = e;
        allow_named = f;
        appended_all = ground (arith, e, f);
        moved = ground (arith, e, f);
        disk = ground (arith, e, f);
        taken = ground (arith, e, f);
      }
    ]
  ]

  -- Where the file beside the allow-list can be deleted, WriteAllowList succeeds only for a hub that
  -- trusts someone; then the allow-list holds one line for each trusted peer, in the order of the
  -- map, and no other, and SetAllowList has taken that very file.
  pub write_list-entries :
      (allow : WString) (trusted : Map SecKeys) (a : p.Auth) (d : p.Disk)
      → store.lines (beside allow) (p.delete_file (beside allow) d) ≡ none
      → (write_list p allow trusted a d).0 ≡ id_ok
      → (store.lines allow (write_list p allow trusted a d).2 ≡ some (entries trusted))
        × (trusted ≢ [])
        × ((path : Bytes) × (p.utf8 allow ≡ some path)
            × (p.set_allow_list path (write_list p allow trusted a d).2 a
                ≡ (id_ok, (write_list p allow trusted a d).1)))
  write_list-entries allow trusted a d deleted good =
      let s = write_list-Steps allow trusted a d good in
      let before = p.delete_file (beside allow) d in
      let w = append_all p s.temp_name trusted before in
      let built =
        append_all-lines (beside allow) s.temp_name trusted before s.temp_named s.appended_all in
      let replaced = store.move_lines allow w.1 s.moved in
      let left = built ∙ ap (λ o. appended o (entries trusted)) deleted in
      let held = nonempty trusted (λ e. replaced.1 (left ∙ e)) in
      (
        ap (store.lines allow) s.disk ∙ replaced.0 ∙ left ∙ held.0,
        held.1,
        (s.allow_name, s.allow_named, s.taken),
      )

  -- Where the file beside the allow-list can be deleted, WriteAllowList for a hub that trusts nobody
  -- fails, and it leaves the lines of the allow-list and the hub's policy as they were.
  pub write_list-nobody :
      (allow : WString) (a : p.Auth) (d : p.Disk)
      → store.lines (beside allow) (p.delete_file (beside allow) d) ≡ none
      → ((write_list p allow [] a d).0 ≢ id_ok)
        × ((write_list p allow [] a d).1 ≡ a)
        × (store.lines allow (write_list p allow [] a d).2 ≡ store.lines allow d)
  unfolding write_list append_all
  write_list-nobody allow a d deleted = elim (Option-cases (p.utf8 (beside allow))) [
    | inl e ↦ ground (arith, e)
    | inr (path, e) ↦ ground (
      arith,
      e,
      store.move_lines allow (p.delete_file (beside allow) d),
      store.move_refused allow (p.delete_file (beside allow) d),
      store.delete_apart allow d,
      store.delete_apart allow
          (p.move_file (beside allow) allow (p.delete_file (beside allow) d)).1,
    )
  ]
