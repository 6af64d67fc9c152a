-- ===== src/Base/IdMap.antt =====
-- `HashMap` and `IdHashMap` of the standard library with `u64` keys, as an association list.
-- Nothing here depends on the order in which a map is iterated.
pub mod Totals
use win_blaze.Base.{ℕ, ◌≡◌, refl, Option, none, some, List, [], ◌∷◌, arith, ◌==◌, if◌then◌else◌}

abbrev pub IdMap {ℓ} : Type ℓ → Type ℓ
IdMap V = List (ℕ × V)

module _ {ℓ} {V : Type ℓ} where
  unfoldable pub get : IdMap V → ℕ → Option V
  get [] k = none
  get ((j, v) ∷ m) k = if j == k then some v else get m k

  unfoldable pub remove : IdMap V → ℕ → IdMap V
  remove [] k = []
  remove ((j, v) ∷ m) k = let rest = remove m k in if j == k then rest else (j, v) ∷ rest

  unfoldable pub insert : IdMap V → ℕ → V → IdMap V
  unfolding remove
  insert m k v = (k, v) ∷ remove m k

  pub get-remove : (m : IdMap V) (k j : ℕ) → get (remove m k) j ≡ (if k == j then none else get m j)
  unfolding get remove
  get-remove [] k j = ground arith
  get-remove ((i, v) ∷ m) k j = ground (arith, get-remove m k j)

  pub get-insert :
      (m : IdMap V) (k : ℕ) (v : V) (j : ℕ)
      → get (insert m k v) j ≡ (if k == j then some v else get m j)
  unfolding get insert
  get-insert m k v j = ground (arith, get-remove m k j)

  pub get-nil : (k : ℕ) → get [] k ≡ none
  unfolding get
  get-nil k = refl
