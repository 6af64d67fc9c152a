-- ===== src/Core/Aggregation/Chains.antt =====
-- The loop that climbs from a directory to the root, on a parent map without cycles.
use win_blaze.Base.{
  ℕ, zero, suc, ◌<◌, ◌≤◌, ◌≡◌, refl, sym, ap, ◌∙◌, ◌⊎◌, inl, inr, Bool-cases, Option-cases, Bool,
  true, false, ◌&&◌, ◌||◌, Option, none, some, arith, ◌==◌, if◌then◌else◌,
}
use win_blaze.Base.IdMap
use win_blaze.Base.IdMap.{IdMap, get-insert}
use win_blaze.Core.Aggregation.{
  DirectoryAggregation, ParentMap, Aggregates, and_then_parent, increment,
}

-- `id` is `current`, or above it in the parent map: both are directories of the map.
pub is_above : ℕ → ParentMap → ℕ → ℕ → Bool
is_above zero parents id current = false
is_above (suc fuel) parents id current = elim (IdMap.get parents current) [
  | none ↦ false
  | some o ↦ elim o [
    | none ↦ current == id
    | some parent ↦ let rest = is_above fuel parents id parent in (current == id) || rest
  ]
]

abbrev pub is_key {ℓ} : {V : Type ℓ} → Option V → Bool
is_key none = false
is_key (some v) = true

-- The two maps are collected from the same directories.
abbrev pub HasKeysOf : ParentMap → Aggregates → Type 0
HasKeysOf parents aggregates =
    (id : ℕ) → is_key (IdMap.get aggregates id) ≡ is_key (IdMap.get parents id)

-- A parent has a lower rank than its child.
abbrev pub IsRanked : (ℕ → ℕ) → ParentMap → Type 0
IsRanked rank parents =
    (id parent : ℕ) → IdMap.get parents id ≡ some (some parent) → rank parent < rank id

pub Parent-cases :
    (o : Option (Option ℕ)) → (o ≡ none) ⊎ ((o ≡ some none) ⊎ ((p : ℕ) × (o ≡ some (some p))))
Parent-cases none = inl refl
Parent-cases (some none) = inr (inl refl)
Parent-cases (some (some p)) = inr (inr (p, refl))

module _ (fuel : ℕ) (parents : ParentMap) (id current : ℕ) where
  is_above-outside :
      IdMap.get parents current ≡ none → is_above (suc fuel) parents id current ≡ false
  unfolding is_above
  is_above-outside e = rw (e, is_above) refl

  pub is_above-top :
      IdMap.get parents current ≡ some none
      → is_above (suc fuel) parents id current ≡ (current == id)
  unfolding is_above
  is_above-top e = rw (e, is_above) refl

  pub is_above-under :
      (parent : ℕ)
      → IdMap.get parents current ≡ some (some parent)
      → is_above (suc fuel) parents id current
        ≡ ((current == id) || is_above fuel parents id parent)
  unfolding is_above
  is_above-under parent e = rw (e, is_above) refl

module _ (rank : ℕ → ℕ) (parents : ParentMap) (ranked : IsRanked rank parents) where
  rank_of_is_above :
      (fuel id current : ℕ) → is_above fuel parents id current ≡ true → rank id ≤ rank current
  unfolding is_above
  rank_of_is_above zero id current h = absurd (ground arith)
  rank_of_is_above (suc fuel) id current h = elim (Parent-cases (IdMap.get parents current)) [
    | inl e ↦ absurd (ground (arith, h, is_above-outside fuel parents id current e))
    | inr (inl e) ↦
        let same : current ≡ id = ground (arith, h, is_above-top fuel parents id current e) in
        rw same (omega arith)
    | inr (inr (parent, e)) ↦ ground (
      arith,
      is_above-under fuel parents id current parent e,
      rank_of_is_above fuel id parent,
      ranked current parent e,
    )
  ]

abbrev pub Add : Type 0
Add = Bool → DirectoryAggregation → DirectoryAggregation

module _ (add : Add) (fuel : ℕ) (parents : ParentMap) (first : Bool) (aggregates : Aggregates)
    (current : ℕ) where
  pub increment-outside :
      IdMap.get aggregates current ≡ none
      → increment add (suc fuel) parents first aggregates current ≡ some aggregates
  unfolding increment
  increment-outside e = simp (e, increment)

  pub increment-top :
      (a : DirectoryAggregation)
      → IdMap.get aggregates current ≡ some a
      → IdMap.get parents current ≡ some none
      → increment add (suc fuel) parents first aggregates current
        ≡ some (IdMap.insert aggregates current (add first a))
  unfolding increment
  increment-top a e p = simp (e, p, increment)

  pub increment-under :
      (a : DirectoryAggregation) (parent : ℕ)
      → IdMap.get aggregates current ≡ some a
      → IdMap.get parents current ≡ some (some parent)
      → increment add (suc fuel) parents first aggregates current
        ≡ increment add fuel parents false (IdMap.insert aggregates current (add first a)) parent
  unfolding increment
  increment-under a parent e p = simp (e, p, increment)

  -- The same, for a parent map that may lack the directory.
  pub increment-last :
      (a : DirectoryAggregation)
      → IdMap.get aggregates current ≡ some a
      → and_then_parent (IdMap.get parents current) ≡ none
      → increment add (suc fuel) parents first aggregates current
        ≡ some (IdMap.insert aggregates current (add first a))
  unfolding increment
  increment-last a e p = simp (e, p, increment)

  pub increment-next :
      (a : DirectoryAggregation) (parent : ℕ)
      → IdMap.get aggregates current ≡ some a
      → and_then_parent (IdMap.get parents current) ≡ some parent
      → increment add (suc fuel) parents first aggregates current
        ≡ increment add fuel parents false (IdMap.insert aggregates current (add first a)) parent
  unfolding increment
  increment-next a parent e p = simp (e, p, increment)

-- What an increment that starts at `current` leaves in the aggregate of `id`.
abbrev pub added : Add → ℕ → ParentMap → Bool → ℕ → ℕ → DirectoryAggregation → DirectoryAggregation
added add fuel parents first id current a =
    if is_above fuel parents id current then add (first && (current == id)) a else a

pub record Climbs (add : Add) (fuel : ℕ) (parents : ParentMap) (first : Bool)
    (aggregates : Aggregates) (current : ℕ) : Type 0 where
  pub after : Aggregates
  pub ends : increment add fuel parents first aggregates current ≡ some after
  pub keys : HasKeysOf parents after
  pub adds :
      (id : ℕ) (a : DirectoryAggregation)
      → IdMap.get aggregates id ≡ some a
      → IdMap.get after id ≡ some (added add fuel parents first id current a)

insert-HasKeysOf :
    (parents : ParentMap) (aggregates : Aggregates) (current : ℕ) (a b : DirectoryAggregation)
    → HasKeysOf parents aggregates
    → IdMap.get aggregates current ≡ some a
    → HasKeysOf parents (IdMap.insert aggregates current b)
insert-HasKeysOf parents aggregates current a b keys e id =
    ground (arith, get-insert aggregates current b id, keys id, keys current, e)

outside :
    (parents : ParentMap) (aggregates : Aggregates) (current : ℕ)
    → HasKeysOf parents aggregates
    → IdMap.get parents current ≡ none
    → IdMap.get aggregates current ≡ none
outside parents aggregates current keys p = ground (arith, keys current, p)

inside :
    (parents : ParentMap) (aggregates : Aggregates) (current : ℕ)
    → HasKeysOf parents aggregates
    → (o : Option ℕ) → IdMap.get parents current ≡ some o
    → (a : DirectoryAggregation) × (IdMap.get aggregates current ≡ some a)
inside parents aggregates current keys o p = elim (Option-cases (IdMap.get aggregates current)) [
  | inl e ↦ absurd (ground (arith, keys current, p, e))
  | inr found ↦ found
]

and-true : (b : Bool) → (b && true) ≡ b
and-true true = refl
and-true false = refl

and-false : (b : Bool) → (b && false) ≡ false
and-false true = refl
and-false false = refl

some_inj : {a b : DirectoryAggregation} → some a ≡ some b → a ≡ b
some_inj e = cc

module _ (add : Add) (first : Bool) (aggregates : Aggregates) (current id : ℕ)
    (a b : DirectoryAggregation) (ea : IdMap.get aggregates current ≡ some a)
    (eb : IdMap.get aggregates id ≡ some b) where
  inserted_same :
      (current == id) ≡ true
      → IdMap.get (IdMap.insert aggregates current (add first a)) id
        ≡ some (add (first && (current == id)) b)
  inserted_same t =
      let same : current ≡ id = ground (arith, t) in
      let values : a ≡ b = some_inj (sym ea ∙ ap (IdMap.get aggregates) same ∙ eb) in
      rw (get-insert aggregates current (add first a) id, t, and-true first, values) refl

  inserted_other :
      (current == id) ≡ false
      → IdMap.get (IdMap.insert aggregates current (add first a)) id ≡ some b
  inserted_other t = rw (get-insert aggregates current (add first a) id, t) eb

module _ (add : Add) (rank : ℕ → ℕ) (parents : ParentMap) (ranked : IsRanked rank parents) where
  top_adds :
      (fuel : ℕ) (first : Bool) (aggregates : Aggregates) (current id : ℕ)
      (a b : DirectoryAggregation)
      → IdMap.get aggregates current ≡ some a
      → IdMap.get aggregates id ≡ some b
      → IdMap.get parents current ≡ some none
      → IdMap.get (IdMap.insert aggregates current (add first a)) id
        ≡ some (added add (suc fuel) parents first id current b)
  top_adds fuel first aggregates current id a b ea eb p =
      rw (is_above-top fuel parents id current p) (elim (Bool-cases (current == id)) [
        | inl t ↦ inserted_same add first aggregates current id a b ea eb t ∙ rw t refl
        | inr t ↦ inserted_other add first aggregates current id a b ea eb t ∙ rw t refl
      ])

  under_adds :
      (fuel : ℕ) (first : Bool) (aggregates after : Aggregates) (current parent id : ℕ)
      (a b : DirectoryAggregation)
      → IdMap.get aggregates current ≡ some a
      → IdMap.get aggregates id ≡ some b
      → IdMap.get parents current ≡ some (some parent)
      → ((c : DirectoryAggregation)
          → IdMap.get (IdMap.insert aggregates current (add first a)) id ≡ some c
          → IdMap.get after id ≡ some (added add fuel parents false id parent c))
      → IdMap.get after id ≡ some (added add (suc fuel) parents first id current b)
  under_adds fuel first aggregates after current parent id a b ea eb p rest =
      rw (is_above-under fuel parents id current parent p) (elim (Bool-cases (current == id)) [
        | inl t ↦
            let same : current ≡ id = ground (arith, t) in
            let below : is_above fuel parents id parent ≡ false = ground (
              arith,
              rank_of_is_above rank parents ranked fuel id parent,
              ranked current parent p,
              ap rank same,
            ) in
            rest _ (inserted_same add first aggregates current id a b ea eb t) ∙ rw (below, t) refl
        | inr t ↦
            rest _ (inserted_other add first aggregates current id a b ea eb t)
            ∙ rw (t, and-false first) refl
      ])

  -- On a map without cycles the loop ends, and adds to the directories above the start, once each.
  pub increment-Climbs :
      (fuel : ℕ) (first : Bool) (aggregates : Aggregates) (current : ℕ)
      → rank current < fuel
      → HasKeysOf parents aggregates
      → Climbs add fuel parents first aggregates current
  increment-Climbs zero first aggregates current lt keys = absurd (omega arith)
  increment-Climbs (suc fuel) first aggregates current lt keys =
      elim (Parent-cases (IdMap.get parents current)) [
        | inl p ↦ record {
          after = aggregates;
          ends =
              increment-outside add fuel parents first aggregates current
                (outside parents aggregates current keys p);
          keys = keys;
          adds = λ id a e. rw (is_above-outside fuel parents id current p) e;
        }
        | inr (inl p) ↦
            let (a, e) = inside parents aggregates current keys none p in
            record {
              after = IdMap.insert aggregates current (add first a);
              ends = increment-top add fuel parents first aggregates current a e p;
              keys = insert-HasKeysOf parents aggregates current a (add first a) keys e;
              adds = λ id b eb. top_adds fuel first aggregates current id a b e eb p;
            }
        | inr (inr (parent, p)) ↦
            let (a, e) = inside parents aggregates current keys (some parent) p in
            let up =
              increment-Climbs fuel false (IdMap.insert aggregates current (add first a)) parent
                (omega (arith, ranked current parent p))
                (insert-HasKeysOf parents aggregates current a (add first a) keys e) in
            record {
              after = up.after;
              ends =
                  increment-under add fuel parents first aggregates current a parent e p ∙ up.ends;
              keys = up.keys;
              adds = λ id b eb.
                  under_adds fuel first aggregates up.after current parent id a b e eb p
                    (up.adds id);
            }
      ]
