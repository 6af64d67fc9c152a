-- ===== src/Index/Query/Filters/Prepared.antt =====
-- The prepared extensions are the normalized ones, in order, however many there are.
use win_blaze.Base.{
  ℕ, suc, ◌+◌, ◌≤◌, ◌<◌, zero, ◌≡◌, refl, sym, ap, ◌⊎◌, inl, inr, Bool-cases, Option-cases, true,
  false, Option, none, some, List, [], ◌∷◌, ◌++◌, arith, ltb, length, set, take, length-set,
}
use win_blaze.Base.Text.{Text}
use win_blaze.Index.Query.Filters.{
  is_nil, normalize_extension, PreparedExtensions, no_extensions, prepare, prepare_all, as_slice,
}

abbrev cons_some : Option Text → List Text → List Text
cons_some none texts = texts
cons_some (some text) texts = text ∷ texts

-- `filter_map(normalize_extension)`
abbrev pub normalized : (Text → Text) → List Text → List Text
normalized trim [] = []
normalized trim (extension ∷ extensions) =
    cons_some (normalize_extension trim extension) (normalized trim extensions)

-- Either nothing overflowed, or there are more than the slots hold.
IsPrepared : PreparedExtensions → Type 0
IsPrepared p =
    ((p.overflow ≡ []) × (p.len ≤ length p.inline))
    ⊎ ((is_nil p.overflow ≡ false) × (length p.inline ≤ p.len))

take-set :
    (n : ℕ) (xs : List Text) (x : Text)
    → n < length xs
    → take (suc n) (set xs n x) ≡ take n xs ++ x ∷ []
take-set n [] x h = absurd (omega arith)
take-set zero (y ∷ xs) x h = refl
take-set (suc n) (y ∷ xs) x h = ap (λ zs. y ∷ zs) (take-set n xs x (omega arith))

take-all : (n : ℕ) (xs : List Text) → length xs ≤ n → take n xs ≡ xs
take-all zero [] h = refl
take-all (suc n) [] h = refl
take-all zero (x ∷ xs) h = absurd (omega arith)
take-all (suc n) (x ∷ xs) h = ap (λ zs. x ∷ zs) (take-all n xs (omega arith))

is_nil-append : (xs : List Text) (x : Text) → is_nil (xs ++ x ∷ []) ≡ false
is_nil-append [] x = refl
is_nil-append (y ∷ xs) x = refl

is_nil-eq : (xs : List Text) → xs ≡ [] → is_nil xs ≡ true
is_nil-eq xs e = rw e refl

append_nil : (xs : List Text) → xs ++ [] ≡ xs
append_nil [] = refl
append_nil (x ∷ xs) = ap (λ zs. x ∷ zs) (append_nil xs)

append_assoc : (xs ys zs : List Text) → xs ++ ys ++ zs ≡ xs ++ (ys ++ zs)
append_assoc [] ys zs = refl
append_assoc (x ∷ xs) ys zs = ap (λ ws. x ∷ ws) (append_assoc xs ys zs)

abbrev Prepares : PreparedExtensions → Text → PreparedExtensions → Type 0
Prepares p e after = IsPrepared after × (as_slice after ≡ as_slice p ++ e ∷ [])

prepare-Prepares : (p : PreparedExtensions) (e : Text) → IsPrepared p → Prepares p e (prepare p e)
unfolding prepare as_slice IsPrepared
prepare-Prepares p e h = elim (Bool-cases (ltb p.len (length p.inline))) [
  | inl t ↦
      let lt : p.len < length p.inline = ground (arith, t) in
      elim h [
        | inl (none_yet, le) ↦
            let more : p.len + 1 ≤ length (set p.inline p.len e) =
              omega (arith, lt, length-set p.inline p.len e) in
            let one : p.len + 1 ≡ suc p.len = omega arith in
            rw (t, prepare)
              (
                inl (none_yet, more),
                rw (is_nil-eq p.overflow none_yet, one) (take-set p.len p.inline e lt),
              )
        | inr (over, ge) ↦ absurd (omega (arith, lt, ge))
      ]
  | inr t ↦
      let ge : length p.inline ≤ p.len = ground (arith, t) in
      elim h [
        | inl (none_yet, le) ↦
            let nil = is_nil-eq p.overflow none_yet in
            rw (t, prepare, nil)
              (
                inr (is_nil-append p.inline e, omega (arith, ge)),
                rw (is_nil-append p.inline e, take-all p.len p.inline ge) refl,
              )
        | inr (over, le) ↦
            rw (t, prepare, over)
              (
                inr (is_nil-append p.overflow e, omega (arith, ge)),
                rw (is_nil-append p.overflow e) refl,
              )
      ]
]

module _ (trim : Text → Text) (extension : Text) (extensions : List Text) where
  normalized-none :
      normalize_extension trim extension ≡ none
      → normalized trim (extension ∷ extensions) ≡ normalized trim extensions
  normalized-none e = rw e refl

  normalized-some :
      (text : Text)
      → normalize_extension trim extension ≡ some text
      → normalized trim (extension ∷ extensions) ≡ text ∷ normalized trim extensions
  normalized-some text e = rw e refl

module _ (trim : Text → Text) where
  prepare_all-normalized :
      (p : PreparedExtensions) (extensions : List Text)
      → IsPrepared p
      → as_slice (prepare_all trim p extensions) ≡ as_slice p ++ normalized trim extensions
  unfolding prepare_all
  prepare_all-normalized p [] h = sym (append_nil (as_slice p))
  prepare_all-normalized p (extension ∷ extensions) h =
      elim (Option-cases (normalize_extension trim extension)) [
        | inl e ↦
            let skip : prepare_all trim p (extension ∷ extensions) ≡ prepare_all trim p extensions =
              simp (e, prepare_all) in
            let rest = normalized-none trim extension extensions e in
            rw (skip, rest) (prepare_all-normalized p extensions h)
        | inr (text, e) ↦
            let (later, one) = prepare-Prepares p text h in
            let step : prepare_all trim p (extension ∷ extensions)
                ≡ prepare_all trim (prepare p text) extensions =
              simp (e, prepare_all) in
            let rest = normalized-some trim extension extensions text e in
            rw (step, rest, prepare_all-normalized (prepare p text) extensions later, one)
              (append_assoc (as_slice p) (text ∷ []) (normalized trim extensions))
      ]

  -- However many extensions a query has, in the eight slots or beyond them, the slice that
  -- candidates are compared with is the normalized extensions in order.
  pub prepare_all-as_slice :
      (extensions : List Text)
      → as_slice (prepare_all trim no_extensions extensions) ≡ normalized trim extensions
  unfolding as_slice IsPrepared
  prepare_all-as_slice extensions =
      prepare_all-normalized no_extensions extensions (inl (refl, omega arith))
