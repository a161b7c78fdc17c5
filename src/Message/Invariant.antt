-- ===== src/Message/Invariant.antt =====
-- The limits of a message, and the calls on it.
use target_facade.Base.{
  ℕ, zero, suc, ◌+◌, ◌*◌, ◌%◌, ◌^◌, ◌≤◌, ◌≡◌, refl, true, false, ◌||◌, List, [], ◌∷◌, ◌++◌, Option,
  none, some, arith, leb, is_some, inl, inr, Bool-cases, Option-cases,
}
use target_facade.Base.Lists.{length, length-append, take, All}
use target_facade.Base.Text.{WString, equal, equal_iff, is_empty}
use target_facade.Status.{failed}
use target_facade.Message.{
  Bytes, Field, Message, empty_message, max_fields, max_field_name, max_field_size, max_payload,
  is_reserved_field, find_field, store_value, erase_field, read_bytes, set_payload, put_field,
  set_field, text_bytes, set_field_text, remove_field, clear, Call, payload_call, field_call,
  text_call, remove_call, clear_call, call, run_calls,
}

pub record IsField (f : Field) : Type 0 where
  pub filled : is_empty f.name ≡ false
  pub own_name : is_reserved_field f.name ≡ false
  pub name_fits : length f.name ≤ max_field_name
  pub value_fits : length f.value ≤ max_field_size

-- No two fields share a name.
abbrev pub Distinct : List Field → Type 0
Distinct [] = Unit
Distinct (f ∷ fs) = (is_some (find_field f.name fs) ≡ false) × Distinct fs

pub record IsWellFormed (m : Message) : Type 0 where
  pub payload_fits : length m.payload ≤ max_payload
  pub count_fits : length m.fields ≤ max_fields
  pub each : All IsField m.fields
  pub distinct : Distinct m.fields

length-read_bytes : (b : Option Bytes) (size : ℕ) → length (read_bytes b size) ≤ size
length-read_bytes none size = omega arith
length-read_bytes (some b) size = take_short size b
  where
    take_short : (n : ℕ) (b : Bytes) → length (take n b) ≤ n
    take_short zero b = omega arith
    take_short (suc n) [] = omega arith
    take_short (suc n) (x ∷ b) = omega (arith, take_short n b)

length-store_value :
    (name : WString) (value : Bytes) (fs : List Field)
    → length (store_value name value fs) ≡ length fs
unfolding store_value
length-store_value name value [] = refl
length-store_value name value (f ∷ fs) = ground (arith, length-store_value name value fs)

store_value-each :
    (name : WString) (value : Bytes) (fs : List Field)
    → length value ≤ max_field_size
    → All IsField fs
    → All IsField (store_value name value fs)
unfolding store_value
store_value-each name value [] h a = tt
store_value-each name value (f ∷ fs) h a = ground (arith, store_value-each name value fs h a.1)

find_field-store_value :
    (n name : WString) (value : Bytes) (fs : List Field)
    → is_some (find_field n (store_value name value fs)) ≡ is_some (find_field n fs)
unfolding store_value find_field
find_field-store_value n name value [] = refl
find_field-store_value n name value (f ∷ fs) =
    ground (arith, find_field-store_value n name value fs)

store_value-Distinct :
    (name : WString) (value : Bytes) (fs : List Field)
    → Distinct fs
    → Distinct (store_value name value fs)
unfolding store_value
store_value-Distinct name value [] d = tt
store_value-Distinct name value (f ∷ fs) d =
    ground
      (arith, store_value-Distinct name value fs d.1, find_field-store_value f.name name value fs)

append-each :
    (fs : List Field) (g : Field) → All IsField fs → IsField g → All IsField (fs ++ g ∷ [])
append-each [] g a h = (h, tt)
append-each (f ∷ fs) g a h = (a.0, append-each fs g a.1 h)

find_field-append :
    (n : WString) (fs : List Field) (g : Field)
    → is_some (find_field n (fs ++ g ∷ [])) ≡ (is_some (find_field n fs) || equal g.name n)
unfolding find_field
find_field-append n [] g = ground arith
find_field-append n (f ∷ fs) g = ground (arith, find_field-append n fs g)

append-Distinct :
    (fs : List Field) (g : Field)
    → Distinct fs
    → is_some (find_field g.name fs) ≡ false
    → Distinct (fs ++ g ∷ [])
unfolding find_field
append-Distinct [] g d h = (refl, tt)
append-Distinct (f ∷ fs) g d h = ground (
  arith,
  append-Distinct fs g d.1,
  find_field-append f.name fs g,
  equal_iff f.name g.name,
  equal_iff g.name f.name,
)

length-erase_field : (name : WString) (fs : List Field) → length (erase_field name fs) ≤ length fs
unfolding erase_field
length-erase_field name [] = omega arith
length-erase_field name (f ∷ fs) = ground (arith, length-erase_field name fs)

erase_field-each :
    (name : WString) (fs : List Field) → All IsField fs → All IsField (erase_field name fs)
unfolding erase_field
erase_field-each name [] a = tt
erase_field-each name (f ∷ fs) a = ground (arith, erase_field-each name fs a.1)

find_field-erase_field_none :
    (n name : WString) (fs : List Field)
    → is_some (find_field n fs) ≡ false
    → is_some (find_field n (erase_field name fs)) ≡ false
unfolding erase_field find_field
find_field-erase_field_none n name [] h = refl
find_field-erase_field_none n name (f ∷ fs) h =
    ground (arith, find_field-erase_field_none n name fs)

erase_field-Distinct :
    (name : WString) (fs : List Field) → Distinct fs → Distinct (erase_field name fs)
unfolding erase_field
erase_field-Distinct name [] d = tt
erase_field-Distinct name (f ∷ fs) d =
    ground (arith, erase_field-Distinct name fs d.1, find_field-erase_field_none f.name name fs d.0)

put_field-IsWellFormed :
    (name : WString) (value : Bytes) (m : Message)
    → IsWellFormed m
    → IsField (record { name = name; value = value })
    → IsWellFormed (put_field (find_field name m.fields) name value m).1
unfolding put_field
put_field-IsWellFormed name value m v f = elim (Option-cases (find_field name m.fields)) [
  | inl e ↦ elim (Bool-cases (leb max_fields (length m.fields))) [
    | inl full ↦ rw e (rw full v)
    | inr room ↦ rw e (
        rw room (record {
          payload_fits = v.payload_fits;
          count_fits =
              ground (arith, length-append m.fields (record { name = name; value = value } ∷ []));
          each = append-each m.fields (record { name = name; value = value }) v.each f;
          distinct =
              append-Distinct m.fields (record { name = name; value = value }) v.distinct (rw e);
        }))
  ]
  | inr (old, e) ↦ rw e (record {
    payload_fits = v.payload_fits;
    count_fits = omega (arith, length-store_value name value m.fields, v.count_fits);
    each = store_value-each name value m.fields f.value_fits v.each;
    distinct = store_value-Distinct name value m.fields v.distinct;
  })
]

set_field-IsWellFormed :
    (name : Option WString) (value : Option Bytes) (size : ℕ) (m : Message)
    → IsWellFormed m
    → IsWellFormed (set_field name value size m).1
unfolding set_field
set_field-IsWellFormed none value size m v = v
set_field-IsWellFormed (some name) value size m v = ground (
  arith,
  λ (a : is_empty name ≡ false) (b : is_reserved_field name ≡ false)
        (c : length name ≤ max_field_name) (d : size ≤ max_field_size).
      put_field-IsWellFormed name (read_bytes value size) m v (record {
        filled = a;
        own_name = b;
        name_fits = c;
        value_fits = omega (arith, length-read_bytes value size);
      }),
)

call-IsWellFormed : (c : Call) (m : Message) → IsWellFormed m → IsWellFormed (call c m).1
unfolding call set_payload set_field_text remove_field clear
call-IsWellFormed (payload_call payload size) m v = ground (arith, length-read_bytes payload size)
call-IsWellFormed (field_call name value size) m v = set_field-IsWellFormed name value size m v
call-IsWellFormed (text_call name none) m v = v
call-IsWellFormed (text_call name (some text)) m v =
    set_field-IsWellFormed name (some (text_bytes text)) ((length text + 1) * 2 % 2 ^ 32) m v
call-IsWellFormed (remove_call none) m v = v
call-IsWellFormed (remove_call (some name)) m v = ground (
  arith,
  length-erase_field name m.fields,
  erase_field-each name m.fields v.each,
  erase_field-Distinct name m.fields v.distinct,
)
call-IsWellFormed clear_call m v = ground arith

-- Whatever calls are made on a new message, and in whatever order, its payload stays within
-- MAX_PAYLOAD and it holds at most MAX_FIELDS fields, each with a name of its own that is neither
-- empty, nor reserved, nor longer than MAX_FIELD_NAME, and a value within MAX_FIELD_SIZE.
pub run_calls-IsWellFormed : (cs : List Call) → IsWellFormed (run_calls cs empty_message)
run_calls-IsWellFormed cs = from cs empty_message (omega arith)
  where
    from : (cs : List Call) (m : Message) → IsWellFormed m → IsWellFormed (run_calls cs m)
    from [] m v = v
    from (c ∷ cs) m v = from cs (call c m).1 (call-IsWellFormed c m v)

-- A call that fails leaves the message as it was.
pub call-failed : (c : Call) (m : Message) → failed (call c m).0 ≡ true → (call c m).1 ≡ m
unfolding call set_payload set_field set_field_text remove_field clear put_field
call-failed (text_call name none) m h = refl
call-failed (text_call none (some text)) m h = refl
call-failed (remove_call none) m h = refl
call-failed _ m h = ground arith
