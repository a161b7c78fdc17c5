-- ===== src/Base/SortedMap.antt =====
-- std::map with keys of type std::wstring: the entries in the order of their keys.
pub mod Order
pub mod Extensional
use target_facade.Base.{
  ℕ, ◌≡◌, ◌≢◌, ◌↔◌, ◌⊎◌, inl, inr, refl, sym, Bool, true, false, ◌&&◌, ◌||◌, List, [], ◌∷◌, Option,
  none, some, arith, ltb, ◌==◌, if◌then◌else◌, is_some, Bool-cases,
}
use target_facade.Base.Lists.{All}
use target_facade.Base.Text.{WString, equal, equal_iff, equal_refl}
use Order.{before, before_trans, before_irrefl, before_total}
use mathlib.Core.Path.{subst}

abbrev pub Map {ℓ} : Type ℓ → Type ℓ
Map V = List (WString × V)

unlike : (j k : WString) → equal j k ≡ false → equal k j ≡ false
unlike j k h = ground (arith, equal_iff j k, equal_iff k j)

module _ {ℓ} {V : Type ℓ} where
  -- `m.find (k)`, none for `m.end ()`
  unfoldable pub lookup : WString → Map V → Option V
  lookup k [] = none
  lookup k ((j, v) ∷ m) = if equal j k then some v else lookup k m

  -- `m[k] = v`
  unfoldable pub insert : WString → V → Map V → Map V
  insert k v [] = (k, v) ∷ []
  insert k v ((j, w) ∷ m) =
      let rest = (j, w) ∷ insert k v m in
      if equal j k then (k, v) ∷ m else if before k j then (k, v) ∷ (j, w) ∷ m else rest

  -- `m.erase (k)`
  unfoldable pub erase : WString → Map V → Map V
  erase k [] = []
  erase k ((j, v) ∷ m) = let rest = erase k m in if equal j k then rest else (j, v) ∷ rest

  pub lookup-insert :
      (k j : WString) (v : V) (m : Map V)
      → lookup j (insert k v m) ≡ (if equal k j then some v else lookup j m)
  unfolding lookup insert
  lookup-insert k j v [] = refl
  lookup-insert k j v ((i, w) ∷ m) =
      ground (arith, equal_iff k j, equal_iff i k, equal_iff i j, lookup-insert k j v m)

  pub lookup-erase :
      (k j : WString) (m : Map V) → lookup j (erase k m) ≡ (if equal k j then none else lookup j m)
  unfolding lookup erase
  lookup-erase k j [] = ground arith
  lookup-erase k j ((i, w) ∷ m) =
      ground (arith, equal_iff k j, equal_iff i k, equal_iff i j, lookup-erase k j m)

  -- every key of the map comes after `k`
  abbrev pub After : WString → Map V → Type 0
  After k [] = Unit
  After k ((j, v) ∷ m) = (before k j ≡ true) × After k m

  abbrev pub IsSorted : Map V → Type 0
  IsSorted [] = Unit
  IsSorted ((j, v) ∷ m) = After j m × IsSorted m

  After-insert :
      (i k : WString) (v : V) (m : Map V) → before i k ≡ true → After i m → After i (insert k v m)
  unfolding insert
  After-insert i k v [] b h = (b, tt)
  After-insert i k v ((j, w) ∷ m) b h = ground (arith, After-insert i k v m)

  pub After-trans : (i k : WString) (m : Map V) → before i k ≡ true → After k m → After i m
  After-trans i k [] b h = tt
  After-trans i k ((j, w) ∷ m) b h = (before_trans i k j b h.0, After-trans i k m b h.1)

  pub insert-IsSorted : (k : WString) (v : V) (m : Map V) → IsSorted m → IsSorted (insert k v m)
  unfolding insert
  insert-IsSorted k v [] h = (tt, tt)
  insert-IsSorted k v ((j, w) ∷ m) h = elim (Bool-cases (equal j k)) [
    | inl e ↦ rw e (subst (λ i. After i m) ((equal_iff j k).0 e) h.0, h.1)
    | inr e ↦ elim (Bool-cases (before k j)) [
      | inl b ↦ rw (e, b) ((b, After-trans k j m b h.0), h)
      | inr b ↦
          rw (e, b)
            (
              After-insert j k v m (before_total k j (unlike j k e) b) h.0,
              insert-IsSorted k v m h.1,
            )
    ]
  ]

  After-erase : (i k : WString) (m : Map V) → After i m → After i (erase k m)
  unfolding erase
  After-erase i k [] h = tt
  After-erase i k ((j, w) ∷ m) h = ground (arith, After-erase i k m)

  pub erase-IsSorted : (k : WString) (m : Map V) → IsSorted m → IsSorted (erase k m)
  unfolding erase
  erase-IsSorted k [] h = tt
  erase-IsSorted k ((j, w) ∷ m) h = ground (arith, After-erase j k m h.0, erase-IsSorted k m h.1)

  -- A key that every key of the map comes after is not in it.
  pub lookup-After : (k : WString) (m : Map V) → After k m → lookup k m ≡ none
  unfolding lookup
  lookup-After k [] h = refl
  lookup-After k ((j, w) ∷ m) h =
      ground (arith, equal_iff j k, before_irrefl k, lookup-After k m h.1)
