-- ===== src/Message.antt =====
-- src/FacadeMessage.h, src/FacadeMessage.cpp: a message, a payload and an ordered list of named
-- blobs. Bytes are numbers. A pointer and a size are an optional memory, none for NULL, and a
-- number; the code reads that many bytes of it.
pub mod Invariant
pub mod Lookup
use target_facade.Base.{
  ℕ, zero, suc, ◌+◌, ◌*◌, ◌%◌, ◌/◌, ◌^◌, Bool, true, false, not, ◌&&◌, ◌||◌, List, [], ◌∷◌, ◌++◌,
  Option, none, some, ltb, leb, ◌==◌, if◌then◌else◌, is_some,
}
use target_facade.Base.Lists.{length, take}
use target_facade.Base.Text.{WString, codes, equal, is_empty, starts_with}
use target_facade.Status.{
  HResult, s_ok, s_false, e_pointer, e_invalid_arg, e_reserved_topic, e_field_limit, e_no_field,
}
use target_facade.CopyOut.{Copied, copy_out, copy_out_bytes}

abbrev pub Bytes : Type 0
Bytes = List ℕ

abbrev pub max_fields : ℕ
max_fields = 64

abbrev pub max_field_name : ℕ
max_field_name = 63

abbrev pub max_field_size : ℕ
max_field_size = 8192

abbrev pub max_payload : ℕ
max_payload = 24 * 1024

pub record Field : Type 0 where
  pub name : WString
  pub value : Bytes

pub record Message : Type 0 where
  pub payload : Bytes
  pub fields : List Field

-- FacadeMessage::FacadeMessage
abbrev pub empty_message : Message
empty_message = record { payload = []; fields = [] }

unfoldable pub is_reserved_field : WString → Bool
is_reserved_field name = starts_with (codes "P2PF") name

-- FacadeMessage::Find
unfoldable pub find_field : WString → List Field → Option Field
find_field name [] = none
find_field name (f ∷ fs) = if equal f.name name then some f else find_field name fs

-- `pField->aValue = …` on the field that Find answers
unfoldable pub store_value : WString → Bytes → List Field → List Field
store_value name value [] = []
store_value name value (f ∷ fs) =
    let rest = f ∷ store_value name value fs in
    if equal f.name name then record f { value = value } ∷ fs else rest

-- `m_aFields.erase ( it )` on the first field of that name
unfoldable pub erase_field : WString → List Field → List Field
erase_field name [] = []
erase_field name (f ∷ fs) =
    let rest = f ∷ erase_field name fs in if equal f.name name then fs else rest

abbrev pub is_null : Option Bytes → Bool
is_null none = true
is_null (some b) = false

-- `assign (p, p + size)`
abbrev pub read_bytes : Option Bytes → ℕ → Bytes
read_bytes none size = []
read_bytes (some b) size = take size b

unfoldable pub set_payload : Option Bytes → ℕ → Message → HResult × Message
set_payload payload size m =
    if ltb max_payload size
    then (e_invalid_arg, m)
    else if is_null payload && not (size == 0)
    then (e_pointer, m)
    else (s_ok, record m { payload = read_bytes payload size })

-- Behind the guards of SetField, on the field that Find answers.
unfoldable pub put_field : Option Field → WString → Bytes → Message → HResult × Message
put_field (some f) name value m = (s_ok, record m { fields = store_value name value m.fields })
put_field none name value m =
    if leb max_fields (length m.fields)
    then (e_field_limit, m)
    else (s_ok, record m { fields = m.fields ++ record { name = name; value = value } ∷ [] })

unfoldable pub set_field : Option WString → Option Bytes → ℕ → Message → HResult × Message
set_field none value size m = (e_pointer, m)
set_field (some name) value size m =
    if is_empty name
    then (e_invalid_arg, m)
    else if is_reserved_field name
    then (e_reserved_topic, m)
    else if is_null value && not (size == 0)
    then (e_pointer, m)
    else if ltb max_field_name (length name) || ltb max_field_size size
    then (e_field_limit, m)
    else put_field (find_field name m.fields) name (read_bytes value size) m

-- The bytes of a text and its terminator, low byte first.
abbrev pub text_bytes : WString → Bytes
text_bytes [] = 0 ∷ 0 ∷ []
text_bytes (c ∷ s) = (c % 256) ∷ (c / 256) ∷ text_bytes s

unfoldable pub set_field_text : Option WString → Option WString → Message → HResult × Message
set_field_text name none m = (e_pointer, m)
set_field_text name (some text) m =
    set_field name (some (text_bytes text)) ((length text + 1) * 2 % 2 ^ 32) m

unfoldable pub remove_field : Option WString → Message → HResult × Message
remove_field none m = (e_pointer, m)
remove_field (some name) m =
    if is_some (find_field name m.fields)
    then (s_ok, record m { fields = erase_field name m.fields })
    else (s_false, m)

-- The count through the out parameter.
unfoldable pub get_field_count : Message → ℕ
get_field_count m = length m.fields % 2 ^ 32

abbrev nth_field : List Field → ℕ → Option Field
nth_field [] i = none
nth_field (f ∷ fs) zero = some f
nth_field (f ∷ fs) (suc i) = nth_field fs i

abbrev pub refused : HResult → Option Bytes → Option ℕ → Copied
refused code buf size = record { status = code; buf = buf; size = size }

unfoldable pub get_field_name : ℕ → Option WString → Option ℕ → Message → Copied
get_field_name index buf cch m = elim (nth_field m.fields index) [
  | none ↦ refused e_invalid_arg buf cch
  | some f ↦ copy_out f.name buf cch
]

abbrev copy_field : Option Field → Option Bytes → Option ℕ → Copied
copy_field none buf size = refused e_no_field buf size
copy_field (some f) buf size = copy_out_bytes f.value buf size

unfoldable pub get_field : Option WString → Option Bytes → Option ℕ → Message → Copied
get_field none buf size m = refused e_pointer buf size
get_field (some name) buf none m = refused e_pointer buf none
get_field (some name) buf (some have) m = copy_field (find_field name m.fields) buf (some have)

unfoldable pub clear : Message → HResult × Message
clear m = (s_ok, record m { payload = []; fields = [] })

-- The calls that change a message.
pub data Call : Type 0 where
  payload_call : Option Bytes → ℕ → Call
  field_call : Option WString → Option Bytes → ℕ → Call
  text_call : Option WString → Option WString → Call
  remove_call : Option WString → Call
  clear_call : Call

unfoldable pub call : Call → Message → HResult × Message
call (payload_call payload size) m = set_payload payload size m
call (field_call name value size) m = set_field name value size m
call (text_call name text) m = set_field_text name text m
call (remove_call name) m = remove_field name m
call clear_call m = clear m

-- The message that a sequence of calls leaves.
abbrev pub run_calls : List Call → Message → Message
run_calls [] m = m
run_calls (c ∷ cs) m = run_calls cs (call c m).1
