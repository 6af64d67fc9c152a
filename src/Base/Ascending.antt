-- ===== src/Base/Ascending.antt =====
-- Records in strictly ascending order of their keys, from a bound on, and sorting such a list.
use win_blaze.Base.{
  ℕ, suc, ◌≤◌, ◌<◌, ◌≡◌, refl, List, [], ◌∷◌, ◌++◌, arith, leb, if◌then◌else◌, All,
}

module _ {ℓ} {A : Type ℓ} (key : A → ℕ) where
  abbrev pub Ascending : ℕ → List A → Type 0
  Ascending bound [] = Unit
  Ascending bound (x ∷ xs) = (bound ≤ key x) × Ascending (suc (key x)) xs

  -- `sort_unstable_by_key`, for lists whose keys are distinct: stability does not show
  unfoldable pub insert_by : A → List A → List A
  insert_by x [] = x ∷ []
  insert_by x (y ∷ ys) = if leb (key x) (key y) then x ∷ y ∷ ys else y ∷ insert_by x ys

  unfoldable pub sort_by_key : List A → List A
  unfolding insert_by
  sort_by_key [] = []
  sort_by_key (x ∷ xs) = insert_by x (sort_by_key xs)

  sort_by_key-from : (bound : ℕ) (xs : List A) → Ascending bound xs → sort_by_key xs ≡ xs
  unfolding sort_by_key
  sort_by_key-from bound [] h = refl
  sort_by_key-from bound (x ∷ []) h = refl
  sort_by_key-from bound (x ∷ y ∷ ys) h =
      rw (sort_by_key-from (suc (key x)) (y ∷ ys) h.1) (ground arith)

  -- A list in ascending order is left as it is.
  pub sort_by_key-Ascending : (xs : List A) → Ascending 0 xs → sort_by_key xs ≡ xs
  sort_by_key-Ascending = sort_by_key-from 0

  pub insert_by-last :
      (x : A) (ys : List A) → All (λ y. key y < key x) ys → insert_by x ys ≡ ys ++ x ∷ []
  unfolding insert_by
  insert_by-last x [] h = refl
  insert_by-last x (y ∷ ys) h = ground (arith, insert_by-last x ys)
