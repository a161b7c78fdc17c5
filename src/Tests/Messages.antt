-- ===== src/Tests/Messages.antt =====
-- Messages and the buffer protocol at concrete values.
use target_facade.Base.{◌≡◌, refl, [], ◌∷◌, List, some}
use target_facade.Base.Text.{codes, equal, starts_with}
use target_facade.CopyOut.{copy_out_bytes}
use target_facade.Message.{
  Message, empty_message, Call, field_call, text_call, call, run_calls, set_field, put_field,
  find_field, set_field_text, get_field, is_reserved_field,
}
use target_facade.Message.Invariant.{IsWellFormed, run_calls-IsWellFormed, call-failed}
use target_facade.Message.Lookup.{get_field-set_field_self}

abbrev script : List Call
script =
    field_call (some (codes "id")) (some (1 ∷ 2 ∷ [])) 2
    ∷ text_call (some (codes "who")) (some (codes "me"))
    ∷ field_call (some (codes "P2PFx")) (some (1 ∷ [])) 1
    ∷ []

abbrev filled : Message
filled = record {
  payload = [];
  fields =
      record { name = codes "id"; value = 1 ∷ 2 ∷ [] }
      ∷ record { name = codes "who"; value = b'm' ∷ 0 ∷ b'e' ∷ 0 ∷ 0 ∷ 0 ∷ [] }
      ∷ [];
}

run_script : run_calls script empty_message ≡ filled
unfolding call set_field set_field_text put_field find_field equal is_reserved_field starts_with
run_script = refl

run_calls-IsWellFormed_example : IsWellFormed (run_calls script empty_message)
run_calls-IsWellFormed_example = run_calls-IsWellFormed script

filled-IsWellFormed : IsWellFormed filled
filled-IsWellFormed = rw run_script at (run_calls-IsWellFormed script)

call-failed_example : (call (field_call (some (codes "P2PFx")) (some (1 ∷ [])) 1) filled).1 ≡ filled
unfolding call set_field is_reserved_field starts_with
call-failed_example = call-failed (field_call (some (codes "P2PFx")) (some (1 ∷ [])) 1) filled refl

get_field-set_field_self_example :
    get_field
      (some (codes "who"))
      (some [])
      (some 9)
      (set_field (some (codes "who")) (some (7 ∷ 8 ∷ [])) 1 filled).1
    ≡ copy_out_bytes (7 ∷ []) (some []) (some 9)
unfolding set_field put_field find_field equal is_reserved_field starts_with
get_field-set_field_self_example =
    get_field-set_field_self (codes "who") (some (7 ∷ 8 ∷ [])) 1 filled (some []) 9 refl
