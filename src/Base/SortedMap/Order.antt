-- ===== src/Base/SortedMap/Order.antt =====
-- `<` on std::wstring: by the first units that differ, a proper prefix first.
use target_facade.Base.{◌≡◌, refl, Bool, true, false, ◌&&◌, ◌||◌, [], ◌∷◌, arith, ltb, ◌==◌}
use target_facade.Base.Text.{WString, equal}

unfoldable pub before : WString → WString → Bool
before [] [] = false
before [] (y ∷ b) = true
before (x ∷ a) [] = false
before (x ∷ a) (y ∷ b) = ltb x y || (x == y && before a b)

pub before_irrefl : (a : WString) → before a a ≡ false
unfolding before
before_irrefl [] = refl
before_irrefl (x ∷ a) = ground (arith, before_irrefl a)

pub before_trans : (a b c : WString) → before a b ≡ true → before b c ≡ true → before a c ≡ true
unfolding before
before_trans [] [] [] h k = cc
before_trans [] (y ∷ b) [] h k = cc
before_trans [] b (z ∷ c) h k = refl
before_trans (x ∷ a) [] c h k = cc
before_trans (x ∷ a) (y ∷ b) [] h k = cc
before_trans (x ∷ a) (y ∷ b) (z ∷ c) h k = ground (arith, before_trans a b c)

-- Two keys are equal or one comes first.
pub before_total : (a b : WString) → equal a b ≡ false → before a b ≡ false → before b a ≡ true
unfolding before equal
before_total [] [] h k = cc
before_total [] (y ∷ b) h k = cc
before_total (x ∷ a) [] h k = refl
before_total (x ∷ a) (y ∷ b) h k = ground (arith, before_total a b)
