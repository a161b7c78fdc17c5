-- ===== src/Base/Table.antt =====
-- std::map with keys of type unsigned int, of which only find, assignment and erase are asked.
use target_facade.Base.{ℕ, ◌≡◌, List, [], ◌∷◌, Option, none, some, arith, ◌==◌, if◌then◌else◌}

abbrev pub Table {ℓ} : Type ℓ → Type ℓ
Table V = List (ℕ × V)

module _ {ℓ} {V : Type ℓ} where
  unfoldable pub row : ℕ → Table V → Option V
  row k [] = none
  row k ((j, v) ∷ m) = if j == k then some v else row k m

  unfoldable pub remove : ℕ → Table V → Table V
  remove k [] = []
  remove k ((j, v) ∷ m) = let rest = remove k m in if j == k then rest else (j, v) ∷ rest

  unfoldable pub put : ℕ → V → Table V → Table V
  put k v m = (k, v) ∷ remove k m

  pub row-remove : (k j : ℕ) (m : Table V) → row j (remove k m) ≡ (if k == j then none else row j m)
  unfolding row remove
  row-remove k j [] = ground arith
  row-remove k j ((i, w) ∷ m) = ground (arith, row-remove k j m)

  pub row-put :
      (k j : ℕ) (v : V) (m : Table V) → row j (put k v m) ≡ (if k == j then some v else row j m)
  unfolding row put
  row-put k j v m = ground (arith, row-remove k j m)
