-- ===== src/Scanner/Allocation/Bits.antt =====
-- The bits of a window, marked and moved.
use win_blaze.Base.{
  ℕ, zero, suc, ◌+◌, ◌-◌, ◌*◌, ◌/◌, ◌%◌, ◌^◌, ◌≤◌, ◌<◌, ◌≡◌, ◌≢◌, refl, sym, ap, ◌∙◌, inl, inr,
  Bool-cases, Bool, true, false, not, ◌||◌, Option, none, some, List, [], ◌∷◌, ◌++◌, arith, ltb,
  leb, ◌==◌, if◌then◌else◌, length, get_elem?, take, drop, replicate, length-append, length-take,
  length-drop, length-set, length-replicate, get_elem?-set, get_elem?-take, get_elem?-append,
  get_elem?-of_lt, get_elem?-of_le, lt_of_get_elem?,
}
use Prim.Native.Nat.{bit_and, bit_or}
use mathlib.Core.Path.{subst}
use win_blaze.Base.Bits.{has_bit, has_bit-bit_or, has_bit-zero, bit_and_pow}
use win_blaze.Scanner.Allocation.{word_of, mark, copy_from_slice}

abbrev bit_in : Option ℕ → ℕ → Bool
bit_in none k = false
bit_in (some word) k = has_bit k word

-- The window has the bit of the file, and it is set.
unfoldable pub has : ℕ → List ℕ → ℕ → Bool
has first words file = bit_in (word_of first words file) ((file - first) % 64)

word_of-cases :
    (first : ℕ) (words : List ℕ) (file word : ℕ)
    → word_of first words file ≡ some word
    → (first ≤ file) × (get_elem? words ((file - first) / 64) ≡ some word)
unfolding word_of
word_of-cases first words file word e = ground (arith, e)

has-at_least :
    (first : ℕ) (words : List ℕ) (x : ℕ)
    → first ≤ x
    → has first words x ≡ bit_in (get_elem? words ((x - first) / 64)) ((x - first) % 64)
unfolding has word_of
has-at_least first words x le = ground arith

has-below : (first : ℕ) (words : List ℕ) (x : ℕ) → x < first → has first words x ≡ false
unfolding has word_of
has-below first words x lt = ground arith

same_place : (a b : ℕ) → (a / 64 == b / 64) ≡ true → (a % 64 == b % 64) ≡ (a == b)
same_place a b h =
    let e : a / 64 ≡ b / 64 = ground (arith, h) in
    elim (Bool-cases (a == b)) [
      | inl t ↦ let f : a ≡ b = ground (arith, t) in rw f (ground arith)
      | inr t ↦
          let g : a % 64 ≢ b % 64 =
            λ m. let f : a ≡ b = omega (arith, e, m) in absurd (ground (arith, t, f)) in
          ground (arith, t, g)
    ]

other_place : (first a b : ℕ) → ((a - first) / 64 == (b - first) / 64) ≡ false → (a == b) ≡ false
other_place first a b h = elim (Bool-cases (a == b)) [
  | inl t ↦
      let e : a ≡ b = ground (arith, t) in
      absurd (ground (arith, h, ap (λ (c : ℕ). (c - first) / 64) e))
  | inr f ↦ f
]

same_offset : (first a b : ℕ) → first ≤ a → first ≤ b → (a - first == b - first) ≡ (a == b)
same_offset first a b p q = ground arith

pub has-mark :
    (first : ℕ) (words : List ℕ) (file word x : ℕ)
    → word_of first words file ≡ some word
    → has first (mark first words file word) x ≡ ((file == x) || has first words x)
unfolding mark
has-mark first words file word x e = elim (Bool-cases (ltb x first)) [
  | inl t ↦
      let lt : x < first = ground (arith, t) in
      let (from, found) = word_of-cases first words file word e in
      rw (has-below first words x lt, has-below first (mark first words file word) x lt)
        (ground arith)
  | inr t ↦
      let le : first ≤ x = ground (arith, t) in
      let (from, found) = word_of-cases first words file word e in
      let marked =
        get_elem?-set words ((file - first) / 64) (bit_or word (2 ^ ((file - first) % 64)))
          ((x - first) / 64) (lt_of_get_elem? words ((file - first) / 64) found) in
      rw
        (
          has-at_least first words x le,
          has-at_least first (mark first words file word) x le,
          marked,
        )
        (elim (Bool-cases ((file - first) / 64 == (x - first) / 64)) [
          | inl same ↦
              let place =
                same_place (file - first) (x - first) same ∙ same_offset first file x from le in
              let at_x : get_elem? words ((x - first) / 64) ≡ some word =
                let i : (file - first) / 64 ≡ (x - first) / 64 = ground (arith, same) in
                subst (λ j. get_elem? words j ≡ some word) i found in
              rw (same, at_x, has_bit-bit_or ((x - first) % 64) ((file - first) % 64) word, place)
                refl
          | inr other ↦
              let differ : (file == x) ≡ false = other_place first file x other in
              rw (other, differ) refl
        ])
]

-- A file for which the window, of `n` words, has no bit.
abbrev pub outside : ℕ → ℕ → ℕ → Bool
outside first n x = ltb x first || leb n ((x - first) / 64)

pub outside-word_of :
    (first : ℕ) (words : List ℕ) (x : ℕ)
    → outside first (length words) x ≡ true
    → word_of first words x ≡ none
unfolding word_of
outside-word_of first words x h = ground (arith, h, get_elem?-of_le words ((x - first) / 64))

pub word_of-outside :
    (first : ℕ) (words : List ℕ) (x : ℕ)
    → word_of first words x ≡ none
    → outside first (length words) x ≡ true
unfolding word_of
word_of-outside first words x e = elim (Bool-cases (outside first (length words) x)) [
  | inl t ↦ t
  | inr f ↦
      let lt : (x - first) / 64 < length words = ground (arith, f) in
      let (word, found) = get_elem?-of_lt words ((x - first) / 64) lt in
      absurd (ground (arith, f, e, found))
]

pub has-outside :
    (first : ℕ) (words : List ℕ) (x : ℕ) → word_of first words x ≡ none → has first words x ≡ false
unfolding has
has-outside first words x e = rw e refl

pub length-mark :
    (first : ℕ) (words : List ℕ) (file word : ℕ)
    → length (mark first words file word) ≡ length words
unfolding mark
length-mark first words file word = length-set words _ _

zeros : (n i k : ℕ) → bit_in (get_elem? (replicate n 0) i) k ≡ false
zeros zero i k = refl
zeros (suc n) zero k = has_bit-zero k
zeros (suc n) (suc i) k = zeros n i k

get_elem?-drop : (m : ℕ) (xs : List ℕ) (j : ℕ) → get_elem? (drop m xs) j ≡ get_elem? xs (m + j)
get_elem?-drop zero xs j = let e : 0 + j ≡ j = omega arith in rw e refl
get_elem?-drop (suc m) [] j = refl
get_elem?-drop (suc m) (x ∷ xs) j =
    let e : suc m + j ≡ suc (m + j) = omega arith in rw e (get_elem?-drop m xs j)

pub has-replicate : (first n x : ℕ) → has first (replicate n 0) x ≡ false
has-replicate first n x = elim (Bool-cases (ltb x first)) [
  | inl t ↦ has-below first (replicate n 0) x (ground (arith, t))
  | inr t ↦
      has-at_least first (replicate n 0) x (ground (arith, t))
      ∙ zeros n ((x - first) / 64) ((x - first) % 64)
]

-- A window of zeros, with the words of another one copied into it.
module _ (first n : ℕ) (words : List ℕ) (offset : ℕ) (fits : offset + length words ≤ n) where
  abbrev blank : List ℕ
  blank = replicate n 0

  abbrev after_words : List ℕ
  after_words = drop (offset + length words) blank

  abbrev pub copied : List ℕ
  copied = take offset blank ++ (words ++ after_words)

  pub copy_from_slice-copied : copy_from_slice blank offset words ≡ some copied
  unfolding copy_from_slice
  copy_from_slice-copied =
      let e : leb (offset + length words) (length blank) ≡ true =
        ground (arith, fits, length-replicate {A = ℕ} n 0) in
      rw e refl

  length_before : length (take offset blank) ≡ offset
  length_before = omega (arith, length-take offset blank, length-replicate {A = ℕ} n 0)

  whole_length : length copied ≡ length (take offset blank) + length (words ++ after_words)
  whole_length = length-append (take offset blank) (words ++ after_words)

  whole :
      (i : ℕ)
      → get_elem? copied i ≡ (
          if ltb i (length (take offset blank))
          then get_elem? (take offset blank) i
          else get_elem? (words ++ after_words) (i - length (take offset blank)))
  whole i = get_elem?-append (take offset blank) (words ++ after_words) i

  pub length-copied : length copied ≡ n
  length-copied = omega (
    arith,
    whole_length,
    length-append words after_words,
    length_before,
    length-drop (offset + length words) blank,
    length-replicate {A = ℕ} n 0,
  )

  -- The word at `i`: one of the old ones, or zero.
  word_before : (i k : ℕ) → i < offset → bit_in (get_elem? copied i) k ≡ false
  word_before i k lt =
      let at_i : get_elem? copied i ≡ get_elem? blank i =
        ground (arith, length_before, whole i, get_elem?-take offset blank i) in
      ap (λ o. bit_in o k) at_i ∙ zeros n i k

  word_within :
      (i k : ℕ)
      → offset ≤ i
      → bit_in (get_elem? copied i) k ≡ bit_in (get_elem? words (i - offset)) k
  word_within i k le =
      let at_i : get_elem? copied i ≡ get_elem? (words ++ after_words) (i - offset) =
        ground (arith, length_before, whole i) in
      ap (λ o. bit_in o k) at_i ∙ (elim (Bool-cases (ltb (i - offset) (length words))) [
        | inl t ↦
            let here : get_elem? (words ++ after_words) (i - offset)
                ≡ get_elem? words (i - offset) =
              ground (arith, t, get_elem?-append words after_words (i - offset)) in
            ap (λ o. bit_in o k) here
        | inr t ↦
            let there : get_elem? (words ++ after_words) (i - offset)
                ≡ get_elem? blank (offset + length words + (i - offset - length words)) =
              ground (
                arith,
                t,
                get_elem?-append words after_words (i - offset),
                get_elem?-drop (offset + length words) blank (i - offset - length words),
              ) in
            let past : get_elem? words (i - offset) ≡ none =
              get_elem?-of_le words (i - offset) (ground (arith, t)) in
            ap (λ o. bit_in o k) there
            ∙ zeros n (offset + length words + (i - offset - length words)) k
            ∙ sym (ap (λ o. bit_in o k) past)
      ])

  at_word :
      (x : ℕ)
      → first ≤ x
      → bit_in (get_elem? copied ((x - first) / 64)) ((x - first) % 64)
        ≡ has (first + 64 * offset) words x
  at_word x le = elim (Bool-cases (ltb ((x - first) / 64) offset)) [
    | inl t ↦
        word_before ((x - first) / 64) ((x - first) % 64) (ground (arith, t))
        ∙ sym (has-below (first + 64 * offset) words x (ground (arith, t)))
    | inr t ↦
        let above : first + 64 * offset ≤ x = ground (arith, t, le) in
        let index : (x - (first + 64 * offset)) / 64 ≡ (x - first) / 64 - offset =
          omega (arith, above) in
        let bit : (x - (first + 64 * offset)) % 64 ≡ (x - first) % 64 = omega (arith, above) in
        word_within ((x - first) / 64) ((x - first) % 64) (ground (arith, t))
        ∙ rw (has-at_least (first + 64 * offset) words x above, index, bit) refl
  ]

  pub has-copied : (x : ℕ) → has first copied x ≡ has (first + 64 * offset) words x
  has-copied x = elim (Bool-cases (ltb x first)) [
    | inl t ↦
        has-below first copied x (ground (arith, t))
        ∙ sym (has-below (first + 64 * offset) words x (ground (arith, t)))
    | inr t ↦ has-at_least first copied x (ground (arith, t)) ∙ at_word x (ground (arith, t))
  ]

-- The test of `insert` on the word of a file, and the bit of the file.
pub test-has :
    (first : ℕ) (words : List ℕ) (file word : ℕ)
    → word_of first words file ≡ some word
    → (bit_and word (2 ^ ((file - first) % 64)) == 0) ≡ not (has first words file)
unfolding has
test-has first words file word e = bit_and_pow ((file - first) % 64) word ∙ sym (rw (e, has) refl)
