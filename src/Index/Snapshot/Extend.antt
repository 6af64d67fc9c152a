-- ===== src/Index/Snapshot/Extend.antt =====
-- The maps of volumes and sessions: filled from records in ascending order and sorted again, they
-- give back the records.
use win_blaze.Base.{
  ℕ, suc, ◌≤◌, ◌<◌, ◌≡◌, refl, ◌∙◌, List, [], ◌∷◌, ◌++◌, map, arith, leb, All, Bool-cases, inl, inr,
}
use mathlib.Core.List.{append_assoc, append-nil}
use win_blaze.Base.IdMap
use win_blaze.Base.IdMap.{IdMap}
use win_blaze.Base.Ascending.{Ascending, insert_by, sort_by_key, insert_by-last}
use win_blaze.Index.Snapshot.State.{extend}

module _ {A : Type 0} (key : A → ℕ) where
  values : IdMap A → List A
  values = map (λ e. e.1)

  -- Each entry stands under the key of its value, which is below a bound.
  Keyed : ℕ → IdMap A → Type 0
  Keyed bound [] = Unit
  Keyed bound ((k, x) ∷ m) = (k ≡ key x) × (k < bound) × Keyed bound m

  Keyed-mono : (a b : ℕ) (m : IdMap A) → a ≤ b → Keyed a m → Keyed b m
  unfolding Keyed
  Keyed-mono a b [] h w = tt
  Keyed-mono a b ((k, x) ∷ m) h (e, lt, w) = (e, omega arith, Keyed-mono a b m h w)

  remove-absent : (k : ℕ) (m : IdMap A) → Keyed k m → IdMap.remove m k ≡ m
  unfolding Keyed IdMap.remove
  remove-absent k [] w = refl
  remove-absent k ((j, x) ∷ m) (e, lt, w) = ground (arith, remove-absent k m w)

  insert_by-All :
      (bound : ℕ) (x : A) (ys : List A)
      → key x < bound
      → All (λ y. key y < bound) ys
      → All (λ y. key y < bound) (insert_by key x ys)
  unfolding insert_by
  insert_by-All bound x [] h w = (h, tt)
  insert_by-All bound x (y ∷ ys) h (lt, w) = elim (Bool-cases (leb (key x) (key y))) [
    | inl t ↦ rw t (h, (lt, w))
    | inr f ↦ rw f (lt, insert_by-All bound x ys h w)
  ]

  sorted_below :
      (bound : ℕ) (m : IdMap A)
      → Keyed bound m
      → All (λ y. key y < bound) (sort_by_key key (values m))
  unfolding Keyed values sort_by_key
  sorted_below bound [] w = tt
  sorted_below bound ((k, x) ∷ m) (e, lt, w) =
      insert_by-All bound x (sort_by_key key (values m)) (omega arith) (sorted_below bound m w)

  sorted_cons :
      (x : A) (m : IdMap A)
      → Keyed (key x) m
      → sort_by_key key (values ((key x, x) ∷ m)) ≡ sort_by_key key (values m) ++ x ∷ []
  unfolding values sort_by_key
  sorted_cons x m w = insert_by-last key x _ (sorted_below (key x) m w)

  Keyed-cons : (x : A) (m : IdMap A) → Keyed (key x) m → Keyed (suc (key x)) ((key x, x) ∷ m)
  unfolding Keyed
  Keyed-cons x m w = (refl, omega arith, Keyed-mono (key x) (suc (key x)) m (omega arith) w)

  sort_by_key-extend_from :
      (bound : ℕ) (m : IdMap A) (xs : List A)
      → Keyed bound m
      → Ascending key bound xs
      → sort_by_key key (values (extend key m xs)) ≡ sort_by_key key (values m) ++ xs
  unfolding extend IdMap.insert
  sort_by_key-extend_from bound m [] w h = rw append-nil
  sort_by_key-extend_from bound m (x ∷ xs) w h =
      let w' : Keyed (key x) m = Keyed-mono bound (key x) m h.0 w in
      rw (remove-absent (key x) m w') (
        sort_by_key-extend_from (suc (key x)) ((key x, x) ∷ m) xs (Keyed-cons x m w') h.1
        ∙ rw (sorted_cons x m w') (append_assoc (sort_by_key key (values m)) (x ∷ []) xs))

  pub sort_by_key-extend :
      (xs : List A) → Ascending key 0 xs → sort_by_key key (map (λ e. e.1) (extend key [] xs)) ≡ xs
  unfolding values Keyed sort_by_key
  sort_by_key-extend xs h = sort_by_key-extend_from 0 [] xs tt h
