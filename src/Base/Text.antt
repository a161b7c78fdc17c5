-- ===== src/Base/Text.antt =====
-- Wide strings: lists of UTF-16 units, the terminator left out, with the operations of CString
-- and of <wchar.h> that the program calls.
use Prim.Native.Char.{code}
use target_facade.Base.{
  ℕ, suc, String, Bool, true, false, ◌&&◌, ◌||◌, List, [], ◌∷◌, Option, none, some, ◌≡◌, ◌↔◌, refl,
  arith, ◌==◌, if◌then◌else◌,
}

abbrev pub WString : Type 0
WString = List ℕ

-- The units of a literal; every literal of the program is ASCII.
abbrev pub codes : String → WString
codes String.[] = []
codes (String.◌∷◌ c s) = code c ∷ codes s

-- `wcscmp (a, b) == 0`
unfoldable pub equal : WString → WString → Bool
equal [] [] = true
equal (x ∷ xs) (y ∷ ys) = x == y && equal xs ys
equal _ _ = false

pub equal_iff : (s t : WString) → (equal s t ≡ true) ↔ (s ≡ t)
unfolding equal
equal_iff [] _ = ground arith
equal_iff _ [] = ground arith
equal_iff (c ∷ s) (d ∷ t) = ground (arith, equal_iff s t)

pub equal_refl : (a : WString) → equal a a ≡ true
equal_refl a = (equal_iff a a).1 refl

abbrev pub is_empty : WString → Bool
is_empty [] = true
is_empty (c ∷ s) = false

-- `s.Find (c) >= 0`
unfoldable pub has : ℕ → WString → Bool
has c [] = false
has c (x ∷ s) = x == c || has c s

-- `s.Find (c)`, none for -1
unfoldable pub find : ℕ → WString → Option ℕ
find c [] = none
find c (x ∷ s) = if x == c then some 0 else elim (find c s) [ none ↦ none | some n ↦ some (suc n) ]

-- `s.ReverseFind (c)`
unfoldable pub reverse_find : ℕ → WString → Option ℕ
reverse_find c [] = none
reverse_find c (x ∷ s) = elim (reverse_find c s) [
  | none ↦ if x == c then some 0 else none
  | some n ↦ some (suc n)
]

-- `wcsncmp (prefix, s, wcslen (prefix)) == 0`
unfoldable pub starts_with : WString → WString → Bool
starts_with [] s = true
starts_with (x ∷ p) [] = false
starts_with (x ∷ p) (y ∷ s) = x == y && starts_with p s

module _ (blank : ℕ → Bool) where
  unfoldable pub trim_left : WString → WString
  trim_left [] = []
  trim_left (c ∷ s) = if blank c then trim_left s else c ∷ s

  abbrev trim_cons : ℕ → WString → WString
  trim_cons c [] = if blank c then [] else c ∷ []
  trim_cons c (d ∷ s) = c ∷ d ∷ s

  unfoldable pub trim_right : WString → WString
  trim_right [] = []
  trim_right (c ∷ s) = trim_cons c (trim_right s)

  abbrev pub trim : WString → WString
  trim s = trim_right (trim_left s)
