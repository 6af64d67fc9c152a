-- ===== src/Base/IdMap/Totals.antt =====
-- Maps whose keys are distinct, and sums over their values.
use win_blaze.Base.{
  ℕ, ◌+◌, ◌≡◌, refl, Bool-cases, inl, inr, Option, none, some, [], ◌∷◌, arith, ◌==◌,
}
use mathlib.Core.Path.{subst}
use win_blaze.Base.IdMap.{IdMap, get, insert, remove, get-remove}

module _ {ℓ} {V : Type ℓ} where
  unfoldable pub HasDistinctKeys : IdMap V → Type ℓ
  unfolding get
  HasDistinctKeys [] = Unit
  HasDistinctKeys ((k, v) ∷ m) = (get m k ≡ none) × HasDistinctKeys m

  abbrev pub total : (V → ℕ) → IdMap V → ℕ
  total f [] = 0
  total f ((k, v) ∷ m) = f v + total f m

  abbrev pub total_at : (V → ℕ) → Option V → ℕ
  total_at f none = 0
  total_at f (some v) = f v

  pub remove-HasDistinctKeys :
      (m : IdMap V) (k : ℕ) → HasDistinctKeys m → HasDistinctKeys (remove m k)
  unfolding remove HasDistinctKeys
  remove-HasDistinctKeys [] k h = h
  remove-HasDistinctKeys ((j, v) ∷ m) k h =
      ground (arith, remove-HasDistinctKeys m k h.1, get-remove m k j)

  pub insert-HasDistinctKeys :
      (m : IdMap V) (k : ℕ) (v : V) → HasDistinctKeys m → HasDistinctKeys (insert m k v)
  unfolding insert HasDistinctKeys
  insert-HasDistinctKeys m k v h =
      let gone : get (remove m k) k ≡ none = rw (get-remove m k k) (ground arith) in
      (gone, remove-HasDistinctKeys m k h)

  pub remove-none : (m : IdMap V) (k : ℕ) → get m k ≡ none → remove m k ≡ m
  unfolding get remove
  remove-none [] k e = refl
  remove-none ((j, v) ∷ m) k e = ground (arith, remove-none m k)

  pub total-remove :
      (f : V → ℕ) (m : IdMap V) (k : ℕ)
      → HasDistinctKeys m
      → total f (remove m k) + total_at f (get m k) ≡ total f m
  unfolding get remove HasDistinctKeys
  total-remove f [] k h = refl
  total-remove f ((j, v) ∷ m) k h = elim (Bool-cases (j == k)) [
    | inl e ↦
        let same : j ≡ k = ground arith in
        let absent : get m k ≡ none = subst (λ i. get m i ≡ none) same h.0 in
        ground (arith, remove-none m k absent)
    | inr e ↦ rw e (ground (arith, total-remove f m k h.1))
  ]

  pub total-insert :
      (f : V → ℕ) (m : IdMap V) (k : ℕ) (v : V)
      → HasDistinctKeys m
      → total f (insert m k v) + total_at f (get m k) ≡ f v + total f m
  unfolding insert
  total-insert f m k v h = ground (arith, total-remove f m k h)
