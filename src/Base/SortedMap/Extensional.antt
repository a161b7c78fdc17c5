-- ===== src/Base/SortedMap/Extensional.antt =====
-- Sorted maps by what their keys find.
use target_facade.Base.{◌≡◌, inl, inr, refl, sym, false, [], ◌∷◌, some, none, arith, Bool-cases}
use mathlib.Core.Path.{subst}
use target_facade.Base.Text.{WString, equal, equal_iff, equal_refl}
use target_facade.Base.SortedMap.{
  Map, lookup, insert, erase, lookup-insert, lookup-erase, IsSorted, insert-IsSorted,
  erase-IsSorted, After, lookup-After, After-trans,
}
use target_facade.Base.SortedMap.Order.{before, before_irrefl, before_total}

module _ {ℓ} {V : Type ℓ} where
  abbrev Agree : Map V → Map V → Type ℓ
  Agree m n = (k : WString) → lookup k m ≡ lookup k n

  -- A first key that comes before the other map's first one is found in one map only.
  early :
      (j k : WString) (v w : V) (m n : Map V)
      → Agree ((j, v) ∷ m) ((k, w) ∷ n)
      → After k n
      → before j k ≡ false
  unfolding lookup
  early j k v w m n agree a = elim (Bool-cases (before j k)) [
    | inl b ↦ absurd (
        ground (
          arith,
          agree j,
          equal_refl j,
          equal_iff k j,
          before_irrefl j,
          lookup-After j n (After-trans j k n b a),
        ))
    | inr b ↦ b
  ]

  tails-Agree :
      (j : WString) (v : V) (m n : Map V)
      → Agree ((j, v) ∷ m) ((j, v) ∷ n)
      → After j m
      → After j n
      → Agree m n
  unfolding lookup
  tails-Agree j v m n agree a b k =
      ground (arith, agree k, equal_iff j k, lookup-After j m a, lookup-After j n b)

  cons_ext :
      (j k : WString) (v w : V) (m n : Map V)
      → j ≡ k
      → Agree ((j, v) ∷ m) ((k, w) ∷ n)
      → IsSorted ((j, v) ∷ m)
      → IsSorted ((k, w) ∷ n)
      → (Agree m n → m ≡ n)
      → ◌≡◌ {A = Map V} ((j, v) ∷ m) ((k, w) ∷ n)
  unfolding lookup
  cons_ext j k v w m n same agree s t rest =
      let values : v ≡ w = ground (arith, agree j, equal_refl j, equal_iff k j) in
      let after : After j n = subst (λ i. After i n) (sym same) t.0 in
      let agree' : Agree ((j, v) ∷ m) ((j, v) ∷ n) =
        subst (λ i. Agree ((j, v) ∷ m) ((i, v) ∷ n)) (sym same)
          (subst (λ x. Agree ((j, v) ∷ m) ((k, x) ∷ n)) (sym values) agree) in
      let tail : m ≡ n = rest (tails-Agree j v m n agree' s.0 after) in cc

  opposite : (m n : Map V) → Agree m n → Agree n m
  opposite m n agree k = sym (agree k)

  -- Two sorted maps in which every key finds the same are one.
  pub map_ext : (m n : Map V) → IsSorted m → IsSorted n → Agree m n → m ≡ n
  unfolding lookup
  map_ext [] [] s t agree = refl
  map_ext [] ((k, w) ∷ n) s t agree = absurd (ground (arith, agree k, equal_refl k))
  map_ext ((j, v) ∷ m) [] s t agree = absurd (ground (arith, agree j, equal_refl j))
  map_ext ((j, v) ∷ m) ((k, w) ∷ n) s t agree =
      let no_gap = early j k v w m n agree t.0 in
      let same : j ≡ k = elim (Bool-cases (equal j k)) [
        | inl e ↦ (equal_iff j k).0 e
        | inr e ↦ absurd (
            ground (
              arith,
              before_total j k e no_gap,
              early k j w v n m (opposite ((j, v) ∷ m) ((k, w) ∷ n) agree) s.0,
            ))
      ] in
      cons_ext j k v w m n same agree s t (map_ext m n s.1 t.1)

  -- Putting back what an insertion replaced.
  pub insert_back :
      (k : WString) (v w : V) (m : Map V)
      → IsSorted m
      → lookup k m ≡ some v
      → insert k v (insert k w m) ≡ m
  insert_back k v w m s found =
      map_ext (insert k v (insert k w m)) m
        (insert-IsSorted k v (insert k w m) (insert-IsSorted k w m s)) s
        (λ j.
          ground (arith, lookup-insert k j v (insert k w m), lookup-insert k j w m, equal_iff k j))

  -- Removing what an insertion added.
  pub erase-insert :
      (k : WString) (w : V) (m : Map V)
      → IsSorted m
      → lookup k m ≡ none
      → erase k (insert k w m) ≡ m
  erase-insert k w m s missing =
      map_ext (erase k (insert k w m)) m (erase-IsSorted k (insert k w m) (insert-IsSorted k w m s))
        s
        (λ j. ground (arith, lookup-erase k j (insert k w m), lookup-insert k j w m, equal_iff k j))
