-- ===== src/Base/TextLaws.antt =====
-- Laws of the searches and of trimming in Base/Text.antt.
use target_facade.Base.{
  ℕ, zero, suc, Bool, true, false, not, ◌||◌, [], ◌∷◌, ◌++◌, none, some, ◌≡◌, refl, arith, ◌==◌,
  inl, inr, Bool-cases, Option-cases,
}
use target_facade.Base.Lists.{length, take, drop}
use target_facade.Base.Text.{WString, has, find, reverse_find, trim_left, trim_right, trim}

pub has-append : (c : ℕ) (a b : WString) → has c (a ++ b) ≡ (has c a || has c b)
unfolding has
has-append c [] b = refl
has-append c (x ∷ a) b = ground (arith, has-append c a b)

pub find-append : (c : ℕ) (a b : WString) → has c a ≡ false → find c (a ++ c ∷ b) ≡ some (length a)
unfolding has find
find-append c [] b h = ground arith
find-append c (x ∷ a) b h = ground (arith, find-append c a b)

pub find-none : (c : ℕ) (s : WString) → find c s ≡ none → has c s ≡ false
unfolding has find
find-none c [] h = refl
find-none c (x ∷ s) h = ground (arith, find-none c s)

pub find-some_split :
    (c : ℕ) (s : WString) (n : ℕ)
    → find c s ≡ some n
    → (s ≡ take n s ++ c ∷ drop (suc n) s) × (has c (take n s) ≡ false)
unfolding has find
find-some_split c [] n h = cc
find-some_split c (x ∷ s) n h = elim (Bool-cases (x == c)) [
  | inl e ↦ ground arith
  | inr e ↦ elim (Option-cases (find c s)) [
    | inl m ↦ ground arith
    | inr (k, m) ↦ ground (arith, find-some_split c s k m)
  ]
]

pub reverse_find-none_of : (c : ℕ) (s : WString) → has c s ≡ false → reverse_find c s ≡ none
unfolding has reverse_find
reverse_find-none_of c [] h = refl
reverse_find-none_of c (x ∷ s) h = ground (arith, reverse_find-none_of c s)

pub reverse_find-append :
    (c : ℕ) (a b : WString) → has c b ≡ false → reverse_find c (a ++ c ∷ b) ≡ some (length a)
unfolding reverse_find
reverse_find-append c [] b h = ground (arith, reverse_find-none_of c b)
reverse_find-append c (x ∷ a) b h = ground (arith, reverse_find-append c a b)

pub reverse_find-none : (c : ℕ) (s : WString) → reverse_find c s ≡ none → has c s ≡ false
unfolding has reverse_find
reverse_find-none c [] h = refl
reverse_find-none c (x ∷ s) h = ground (arith, reverse_find-none c s)

pub reverse_find-some_split :
    (c : ℕ) (s : WString) (n : ℕ)
    → reverse_find c s ≡ some n
    → (s ≡ take n s ++ c ∷ drop (suc n) s) × (has c (drop (suc n) s) ≡ false)
unfolding has reverse_find
reverse_find-some_split c [] n h = cc
reverse_find-some_split c (x ∷ s) n h = elim (Option-cases (reverse_find c s)) [
  | inl m ↦ ground (arith, reverse_find-none c s m)
  | inr (k, m) ↦ ground (arith, reverse_find-some_split c s k m)
]

module _ (blank : ℕ → Bool) where
  -- the first unit, if there is one, is no blank
  abbrev pub head_kept : WString → Bool
  head_kept [] = true
  head_kept (c ∷ s) = not (blank c)

  -- the last unit, if there is one, is no blank
  abbrev pub last_kept : WString → Bool
  last_kept [] = true
  last_kept (c ∷ []) = not (blank c)
  last_kept (c ∷ d ∷ s) = last_kept (d ∷ s)

  pub head_kept-trim_left : (s : WString) → head_kept (trim_left blank s) ≡ true
  unfolding trim_left
  head_kept-trim_left [] = refl
  head_kept-trim_left (c ∷ s) = ground (arith, head_kept-trim_left s)

  pub last_kept-trim_right : (s : WString) → last_kept (trim_right blank s) ≡ true
  unfolding trim_right
  last_kept-trim_right [] = refl
  last_kept-trim_right (c ∷ s) = ground (arith, last_kept-trim_right s)

  pub trim_left-kept : (s : WString) → head_kept s ≡ true → trim_left blank s ≡ s
  unfolding trim_left
  trim_left-kept [] h = refl
  trim_left-kept (c ∷ s) h = ground arith

  pub trim_right-kept : (s : WString) → last_kept s ≡ true → trim_right blank s ≡ s
  unfolding trim_right
  trim_right-kept [] h = refl
  trim_right-kept (c ∷ []) h = ground arith
  trim_right-kept (c ∷ d ∷ s) h = rw (trim_right-kept (d ∷ s) h)

  pub head_kept-trim_right :
      (s : WString) → head_kept s ≡ true → head_kept (trim_right blank s) ≡ true
  unfolding trim_right
  head_kept-trim_right [] h = refl
  head_kept-trim_right (c ∷ s) h = ground arith

  pub last_kept-trim : (s : WString) → last_kept (trim blank s) ≡ true
  last_kept-trim s = last_kept-trim_right (trim_left blank s)

  pub head_kept-trim : (s : WString) → head_kept (trim blank s) ≡ true
  head_kept-trim s = head_kept-trim_right (trim_left blank s) (head_kept-trim_left s)

  -- What starts and ends with no blank is trimmed to itself.
  pub trim-kept : (s : WString) → head_kept s ≡ true → last_kept s ≡ true → trim blank s ≡ s
  trim-kept s h l = rw (trim_left-kept s h) (trim_right-kept s l)

  pub last_kept-append :
      (a : WString) (c : ℕ) (b : WString) → last_kept (a ++ c ∷ b) ≡ last_kept (c ∷ b)
  last_kept-append [] c b = refl
  last_kept-append (x ∷ []) c b = refl
  last_kept-append (x ∷ y ∷ a) c b = last_kept-append (y ∷ a) c b

  pub last_kept-drop : (n : ℕ) (s : WString) → last_kept s ≡ true → last_kept (drop n s) ≡ true
  last_kept-drop zero s h = h
  last_kept-drop (suc n) [] h = refl
  last_kept-drop (suc n) (x ∷ []) h = ground (arith, last_kept-drop n [])
  last_kept-drop (suc n) (x ∷ y ∷ s) h = last_kept-drop n (y ∷ s) h
