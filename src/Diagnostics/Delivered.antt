-- ===== src/Diagnostics/Delivered.antt =====
-- What a client asks of the network about diagnostics: GetDiagText and GetDiagInfo on the event that
-- is being delivered on its thread, and IsDiagWanted, of src/FacadeNetwork.cpp.
use target_facade.Base.{
  ℕ, zero, suc, ◌+◌, ◌*◌, ◌/◌, ◌%◌, Bool, not, ◌&&◌, ◌||◌, Option, none, some, is_some, ◌==◌,
  if◌then◌else◌, List, [],
}
use target_facade.Base.Text.{WString}
use target_facade.CopyOut.{Copied, copy_out}
use target_facade.Status.{HResult, s_ok, e_pointer, e_invalid_arg, e_no_diag}
use target_facade.Diagnostics.{DiagSlot}

-- What the kernel's getters yield of an event, each none where it throws.
pub record Event : Type 0 where
  pub message : Option WString
  pub module_text : Option WString
  pub advice : Option WString
  pub service : Option WString
  pub group : Option WString
  pub class_text : Option WString
  pub hresult_text : Option WString
  pub hresult : Option ℕ
  pub time : Option ℕ

unfoldable pub text_of : Event → ℕ → Option (Option WString)
text_of e part =
    if part == 1
    then some e.message
    else if part == 2
    then some e.module_text
    else if part == 3
    then some e.advice
    else if part == 4
    then some e.service
    else if part == 5
    then some e.group
    else if part == 6
    then some e.class_text
    else if part == 7
    then some e.hresult_text
    else none

abbrev pub or_empty : Option WString → WString
or_empty none = []
or_empty (some t) = t

abbrev pub copy_part : Option (Option WString) → Option (List ℕ) → ℕ → Copied
copy_part none buf have = record { status = e_invalid_arg; buf = buf; size = some have }
copy_part (some t) buf have = copy_out (or_empty t) buf (some have)

unfoldable pub get_diag_text : Option Event → ℕ → Option (List ℕ) → Option ℕ → Copied
get_diag_text rec part buf none = record { status = e_pointer; buf = buf; size = none }
get_diag_text none part buf (some have) = record { status = e_no_diag; buf = buf; size = some have }
get_diag_text (some e) part buf (some have) = copy_part (text_of e part) buf have

abbrev pub or_zero : Option ℕ → ℕ
or_zero none = 0
or_zero (some n) = n

-- the code and the time, each where it is asked for; a getter that throws leaves 0 in both
abbrev pub info_of : Bool → Bool → Option ℕ → Option ℕ → Option ℕ × Option ℕ
info_of wants_code wants_time code time =
    let asked = λ (wanted : Bool) (n : ℕ). if wanted then some n else none in
    let code_threw = wants_code && not (is_some code) in
    let threw = code_threw || (wants_time && not (is_some time)) in
    if threw
    then (asked wants_code 0, asked wants_time 0)
    else (asked wants_code (or_zero code), asked wants_time (or_zero time))

-- GetDiagInfo, by which of its outputs the caller asks for and the thread that it runs on
unfoldable pub get_diag_info :
    Option Event → Bool → Bool → Bool → ℕ → HResult × Option ℕ × Option ℕ × Option ℕ
get_diag_info none wants_code wants_time wants_thread thread = (e_no_diag, none, none, none)
get_diag_info (some e) wants_code wants_time wants_thread thread =
    let r = info_of wants_code wants_time e.hresult e.time in
    (s_ok, r.0, r.1, if wants_thread then some thread else none)

-- `&` on numbers of so many bits
unfoldable pub bit_and : ℕ → ℕ → ℕ → ℕ
bit_and zero a b = 0
bit_and (suc n) a b = a % 2 * (b % 2) + 2 * bit_and n (a / 2) (b / 2)

unfoldable pub is_diag_wanted : ℕ → Bool → DiagSlot → HResult × Option ℕ
is_diag_wanted mask has_out d =
    if not has_out
    then (e_pointer, none)
    else (s_ok, some (if is_some d.sink then bit_and 32 mask d.mask else 0))
