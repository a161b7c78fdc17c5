-- ===== src/Status.antt =====
-- include/TargetFacade.h: the HRESULT values that the facade returns. Two different HRESULTs are
-- two different constructors; their numbers play no part in the code.
use target_facade.Base.{Bool, true, false, if◌then◌else◌, ◌≡◌, refl, ◌⊎◌, inl, inr}

pub data HResult : Type 0 where
  s_ok s_false s_unrelated_link : HResult
  e_pointer e_invalid_arg e_out_of_memory e_fail e_more_data : HResult
  e_abi_mismatch e_startup e_hub_spawn e_con_factory e_con_duplicate e_reserved_topic : HResult
  e_closed e_hub_duplicate e_endpoint e_unresolved e_no_hub e_link_partial : HResult
  e_no_peer e_timeout e_no_sink e_option e_pump_thread e_no_message e_no_field : HResult
  e_field_limit e_not_pumped e_pump_owner e_no_diag e_security : HResult

-- `FAILED (hr)`
abbrev pub failed : HResult → Bool
failed s_ok = false
failed s_false = false
failed s_unrelated_link = false
failed _ = true

-- What a function yields through an out parameter when it returns S_OK, or the code that it
-- returns without writing one.
pub data Result {ℓ} (A : Type ℓ) : Type ℓ where
  err : HResult → Result A
  ok : A → Result A

infixl 5 ◌>>=◌
abbrev pub ◌>>=◌ {κ ℓ} : {B : Type κ} {A : Type ℓ} → Result A → (A → Result B) → Result B
err code >>= next = err code
ok out >>= next = next out

-- `if ( bad ) return code;`
abbrev pub refuse : Bool → HResult → Result (Unit {0})
refuse bad code = if bad then err code else ok tt

infixl 5 ◌>>◌
abbrev pub ◌>>◌ {κ} : {B : Type κ} → Result (Unit {0}) → Result B → Result B
err code >> rest = err code
ok u >> rest = rest

pub bind-eq-ok {ℓ κ} :
    {A : Type ℓ} {B : Type κ} (first : Result A) (next : A → Result B) {final : B}
    → first >>= next ≡ ok final
    → (mid : A) × (first ≡ ok mid) × (next mid ≡ ok final)
bind-eq-ok (err code) next run = cc
bind-eq-ok (ok mid) next run = (mid, refl, run)

pub Result-cases {ℓ} :
    {A : Type ℓ} (r : Result A) → ((a : A) × (r ≡ ok a)) ⊎ ((c : HResult) × (r ≡ err c))
Result-cases (err c) = inr (c, refl)
Result-cases (ok a) = inl (a, refl)
