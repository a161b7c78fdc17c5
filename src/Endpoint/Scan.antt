-- ===== src/Endpoint/Scan.antt =====
-- ScanUInt of src/FacadeEndpoint.cpp.
use target_facade.Base.{
  ℕ, ◌+◌, ◌-◌, ◌*◌, ◌%◌, ◌^◌, ◌≡◌, refl, not, ◌&&◌, ◌||◌, [], ◌∷◌, Option, none, some, arith, ltb,
  if◌then◌else◌,
}
use target_facade.Base.Lists.{all}
use target_facade.Base.Text.{WString, is_empty}
use target_facade.Base.Decimal.{is_digit, digits_value}

abbrev pub u32_max : ℕ
u32_max = 0xFFFFFFFF

-- The accumulator saturates.
abbrev pub saturate : ℕ → ℕ
saturate n = if ltb u32_max n then u32_max else n

unfoldable pub scan_digits : ℕ → WString → Option ℕ
scan_digits acc [] = some acc
scan_digits acc (c ∷ s) =
    let rest = scan_digits (saturate ((acc * 10 + (c - b'0')) % 2 ^ 64)) s in
    if ltb c b'0' || ltb b'9' c then none else rest

unfoldable pub scan_uint : Option WString → Option ℕ
unfolding scan_digits
scan_uint none = none
scan_uint (some []) = none
scan_uint (some (c ∷ s)) = scan_digits 0 (c ∷ s)

scan_digits_value :
    (acc : ℕ) (s : WString)
    → scan_digits (saturate acc) s
      ≡ (if all is_digit s then some (saturate (digits_value acc s)) else none)
unfolding scan_digits
scan_digits_value acc [] = refl
scan_digits_value acc (c ∷ s) = ground (arith, scan_digits_value (acc * 10 + (c - b'0')) s)

-- A text is accepted exactly when it is one decimal digit or more and nothing else, and reads as
-- its decimal value, or as 0xFFFFFFFF where that is larger.
pub scan_uint_value :
    (s : WString)
    → scan_uint (some s)
      ≡ (if not (is_empty s) && all is_digit s then some (saturate (digits_value 0 s)) else none)
unfolding scan_uint
scan_uint_value [] = refl
scan_uint_value (c ∷ s) = scan_digits_value 0 (c ∷ s)
