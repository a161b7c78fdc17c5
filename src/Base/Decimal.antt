-- ===== src/Base/Decimal.antt =====
-- The `%u` of CString::Format, for an unsigned int of 32 bits.
use target_facade.Base.{
  ℕ, zero, suc, ◌+◌, ◌-◌, ◌*◌, ◌/◌, ◌%◌, ◌^◌, ◌<◌, ◌≡◌, refl, ap, Bool, true, false, ◌&&◌, [], ◌∷◌,
  arith, ◌==◌, leb, if◌then◌else◌,
}
use native.Mathlib.Nat.{pow-suc}
use target_facade.Base.Lists.{all}
use target_facade.Base.Text.{WString, is_empty}

abbrev pub is_digit : ℕ → Bool
is_digit c = leb b'0' c && leb c b'9'

-- The number that a run of digits after the number `acc` reads as.
abbrev pub digits_value : ℕ → WString → ℕ
digits_value acc [] = acc
digits_value acc (c ∷ s) = digits_value (acc * 10 + (c - b'0')) s

-- `rounds` bounds the number of digits: ten for 32 bits.
pub decimal_onto : ℕ → ℕ → WString → WString
decimal_onto zero n rest = rest
decimal_onto (suc rounds) n rest =
    let shown = (b'0' + n % 10) ∷ rest in
    let more = decimal_onto rounds (n / 10) shown in if n / 10 == 0 then shown else more

unfoldable pub decimal : ℕ → WString
unfolding decimal_onto
decimal n = decimal_onto 10 n []

decimal_onto_value :
    (rounds n : ℕ) (rest : WString)
    → n < 10 ^ rounds
    → digits_value 0 (decimal_onto rounds n rest) ≡ digits_value n rest
unfolding decimal_onto
decimal_onto_value zero n rest h = ap (λ k. digits_value k rest) (omega arith)
decimal_onto_value (suc rounds) n rest h =
    let small : n / 10 < 10 ^ rounds = omega (arith, pow-suc 10 rounds) in
    ground (arith, decimal_onto_value rounds (n / 10) ((b'0' + n % 10) ∷ rest) small)

decimal_onto_digits :
    (rounds n : ℕ) (rest : WString)
    → all is_digit rest ≡ true
    → all is_digit (decimal_onto rounds n rest) ≡ true
unfolding decimal_onto
decimal_onto_digits zero n rest h = h
decimal_onto_digits (suc rounds) n rest h =
    ground (arith, decimal_onto_digits rounds (n / 10) ((b'0' + n % 10) ∷ rest))

-- The digits of a 32-bit number read back as the number.
pub decimal_value : (n : ℕ) → n < 2 ^ 32 → digits_value 0 (decimal n) ≡ n
unfolding decimal
decimal_value n h = decimal_onto_value 10 n [] (omega arith)

pub decimal_digits : (n : ℕ) → all is_digit (decimal n) ≡ true
unfolding decimal
decimal_digits n = decimal_onto_digits 10 n [] refl

decimal_onto-ne-nil :
    (rounds n c : ℕ) (rest : WString) → is_empty (decimal_onto rounds n (c ∷ rest)) ≡ false
unfolding decimal_onto
decimal_onto-ne-nil zero n c rest = refl
decimal_onto-ne-nil (suc rounds) n c rest =
    ground (arith, decimal_onto-ne-nil rounds (n / 10) (b'0' + n % 10) (c ∷ rest))

pub decimal-ne-nil : (n : ℕ) → is_empty (decimal n) ≡ false
unfolding decimal decimal_onto
decimal-ne-nil n = ground (arith, decimal_onto-ne-nil 9 (n / 10) (b'0' + n % 10) [])
