-- ===== src/Message/Lookup.antt =====
-- What the read side of a message answers after SetField and RemoveField.
use target_facade.Base.{
  ℕ, ◌≡◌, refl, ap, false, List, [], ◌∷◌, ◌++◌, Option, none, some, arith, leb, if◌then◌else◌,
  is_some, inl, inr, Option-cases, map,
}
use target_facade.Base.Lists.{length}
use target_facade.Base.Text.{WString, equal, equal_iff, equal_refl}
use target_facade.Status.{s_ok, e_no_field}
use target_facade.CopyOut.{copy_out_bytes}
use target_facade.Message.{
  Bytes, Field, Message, max_fields, find_field, store_value, erase_field, read_bytes, put_field,
  set_field, remove_field, get_field, refused,
}
use target_facade.Message.Invariant.{IsWellFormed, Distinct}

find-store_self :
    (name : WString) (value : Bytes) (fs : List Field) (f : Field)
    → find_field name fs ≡ some f
    → find_field name (store_value name value fs) ≡ some (record f { value = value })
unfolding find_field store_value
find-store_self name value [] f h = cc
find-store_self name value (g ∷ fs) f h = ground (arith, find-store_self name value fs f)

find-store_ne :
    (name n : WString) (value : Bytes) (fs : List Field)
    → equal name n ≡ false
    → find_field n (store_value name value fs) ≡ find_field n fs
unfolding find_field store_value
find-store_ne name n value [] h = refl
find-store_ne name n value (g ∷ fs) h = ground (
  arith,
  find-store_ne name n value fs,
  equal_iff g.name name,
  equal_iff g.name n,
  equal_iff name n,
)

find-append_new :
    (n : WString) (fs : List Field) (g : Field)
    → find_field n fs ≡ none
    → find_field n (fs ++ g ∷ []) ≡ (if equal g.name n then some g else none)
unfolding find_field
find-append_new n [] g h = refl
find-append_new n (f ∷ fs) g h = ground (arith, find-append_new n fs g)

find-append_ne :
    (n : WString) (fs : List Field) (g : Field)
    → equal g.name n ≡ false
    → find_field n (fs ++ g ∷ []) ≡ find_field n fs
unfolding find_field
find-append_ne n [] g h = ground arith
find-append_ne n (f ∷ fs) g h = ground (arith, find-append_ne n fs g)

-- a field that the write side put there
abbrev Holds : WString → Bytes → Option Field → Type 0
Holds name value none = ⊥
Holds name value (some f) = f.value ≡ value

put_self :
    (name : WString) (value : Bytes) (m : Message)
    → (put_field (find_field name m.fields) name value m).0 ≡ s_ok
    → Holds name value
        (find_field name (put_field (find_field name m.fields) name value m).1.fields)
unfolding put_field
put_self name value m h = elim (Option-cases (find_field name m.fields)) [
  | inl e ↦
      let room : leb max_fields (length m.fields) ≡ false = ground (arith, e) in
      let new : Field = record { name = name; value = value } in
      rw e (rw room (rw (find-append_new name m.fields new e) (rw equal_refl refl)))
  | inr (f, e) ↦ rw e (rw (find-store_self name value m.fields f e) refl)
]

put_ne :
    (name n : WString) (value : Bytes) (m : Message)
    → equal name n ≡ false
    → find_field n (put_field (find_field name m.fields) name value m).1.fields
      ≡ find_field n m.fields
unfolding put_field
put_ne name n value m h = elim (Option-cases (find_field name m.fields)) [
  | inl e ↦ ground (arith, e, find-append_ne n m.fields (record { name = name; value = value }) h)
  | inr (f, e) ↦ ground (arith, e, find-store_ne name n value m.fields h)
]

put-get_field :
    (name : WString) (value : Bytes) (buf : Option Bytes) (have : ℕ) (m : Message)
    → Holds name value (find_field name m.fields)
    → get_field (some name) buf (some have) m ≡ copy_out_bytes value buf (some have)
unfolding get_field
put-get_field name value buf have m h = ground arith

-- A SetField that succeeds makes GetField of that name answer the bytes that were given, whether
-- the field was there before or not.
pub get_field-set_field_self :
    (name : WString) (value : Option Bytes) (size : ℕ) (m : Message) (buf : Option Bytes) (have : ℕ)
    → (set_field (some name) value size m).0 ≡ s_ok
    → get_field (some name) buf (some have) (set_field (some name) value size m).1
      ≡ copy_out_bytes (read_bytes value size) buf (some have)
unfolding set_field
get_field-set_field_self name value size m buf have h =
    let bytes = read_bytes value size in
    let put = put_field (find_field name m.fields) name bytes m in
    ground (
      arith,
      λ (o : put.0 ≡ s_ok). put-get_field name bytes buf have put.1 (put_self name bytes m o),
    )

-- SetField of one name, whether it succeeds or not, changes nothing that GetField answers of
-- another name.
pub get_field-set_field_ne :
    (name n : WString) (value : Option Bytes) (size : ℕ) (m : Message) (buf : Option Bytes)
    (have : Option ℕ)
    → equal name n ≡ false
    → get_field (some n) buf have (set_field (some name) value size m).1
      ≡ get_field (some n) buf have m
unfolding set_field get_field
get_field-set_field_ne name n value size m buf none h = refl
get_field-set_field_ne name n value size m buf (some have) h =
    ground (arith, put_ne name n (read_bytes value size) m h)

abbrev pub names : List Field → List WString
names fs = map (λ f. f.name) fs

names-store_value :
    (name : WString) (value : Bytes) (fs : List Field)
    → names (store_value name value fs) ≡ names fs
unfolding store_value
names-store_value name value [] = refl
names-store_value name value (f ∷ fs) = ground (arith, names-store_value name value fs)

names-append : (fs : List Field) (g : Field) → names (fs ++ g ∷ []) ≡ names fs ++ g.name ∷ []
names-append [] g = refl
names-append (f ∷ fs) g = ap (◌∷◌ f.name) (names-append fs g)

-- Insertion order: a SetField that succeeds leaves the order of the names as it was, with the name
-- put at the end exactly if no field had it.
pub names-set_field :
    (name : WString) (value : Option Bytes) (size : ℕ) (m : Message)
    → (set_field (some name) value size m).0 ≡ s_ok
    → names (set_field (some name) value size m).1.fields
      ≡ (if is_some (find_field name m.fields) then names m.fields else names m.fields ++ name ∷ [])
unfolding set_field put_field
names-set_field name value size m h = elim (Option-cases (find_field name m.fields)) [
  | inl e ↦
      ground
        (arith, e, names-append m.fields (record { name = name; value = read_bytes value size }))
  | inr (f, e) ↦ ground (arith, e, names-store_value name (read_bytes value size) m.fields)
]

find-none_of :
    (n : WString) (fs : List Field) → is_some (find_field n fs) ≡ false → find_field n fs ≡ none
find-none_of n fs h = ground arith

find-erase :
    (name n : WString) (fs : List Field)
    → Distinct fs
    → find_field n (erase_field name fs) ≡ (if equal name n then none else find_field n fs)
unfolding find_field erase_field
find-erase name n [] d = ground arith
find-erase name n (f ∷ fs) d = ground (
  arith,
  find-erase name n fs d.1,
  equal_iff f.name name,
  equal_iff f.name n,
  equal_iff name n,
  find-none_of f.name fs d.0,
)

-- In a message within its limits, a RemoveField that removes makes GetField answer that the field
-- is not there, and changes nothing that GetField answers of another name.
get_field-remove_field :
    (name n : WString) (m : Message) (buf : Option Bytes) (have : ℕ)
    → IsWellFormed m
    → (remove_field (some name) m).0 ≡ s_ok
    → get_field (some n) buf (some have) (remove_field (some name) m).1 ≡ (
        if equal name n
        then refused e_no_field buf (some have)
        else get_field (some n) buf (some have) m)
unfolding remove_field get_field
get_field-remove_field name n m buf have v h = ground (arith, find-erase name n m.fields v.distinct)
