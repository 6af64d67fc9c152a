-- ===== src/Scanner/Allocation/Claims.antt =====
-- An identity is new exactly when it was not claimed before.
use mathlib.Core.Path.{subst}
use win_blaze.Base.{
  ℕ, suc, ◌≡◌, refl, sym, ◌∙◌, inl, inr, Bool-cases, Option-cases, Bool, true, false, not, ◌||◌,
  Option, none, some, List, [], ◌∷◌, arith, leb, ◌==◌, length, All,
}
use win_blaze.Scanner.Allocation.{
  DenseIdentities, NarrowIdentities, is_member, word_of, claim_bit, insert_sparse, insert_narrow,
}
use win_blaze.Scanner.Allocation.Bits.{
  has-mark, has-outside, outside, word_of-outside, outside-word_of, length-mark, test-has,
}
use win_blaze.Scanner.Allocation.Compacted.{has_dense, holds, IsU64, IsWindow, IsNarrow, some_inj}
use win_blaze.Scanner.Allocation.Narrow.{compact-Keeps}

-- The call tells whether the identity is new, and leaves it claimed beside the others.
pub record Claims (self : NarrowIdentities) (file : ℕ) (result : Option (Bool × NarrowIdentities))
    : Type 0 where
  pub after : NarrowIdentities
  pub ends : result ≡ some (not (holds self file), after)
  pub narrow : IsNarrow after
  pub same : (x : ℕ) → holds after x ≡ ((file == x) || holds self x)

-- To add an element that is there changes nothing.
pub held : (p : ℕ → Bool) (file : ℕ) → p file ≡ true → (x : ℕ) → p x ≡ ((file == x) || p x)
held p file h x = elim (Bool-cases (file == x)) [
  | inl t ↦
      let e : file ≡ x = ground (arith, t) in
      let there : p x ≡ true = subst (λ y. p y ≡ true) e h in rw (t, there) refl
  | inr t ↦ rw t refl
]

module _ (order : List ℕ → List ℕ) (self : NarrowIdentities) (file : ℕ) (narrow : IsNarrow self)
    (small : IsU64 file) (absent : has_dense self.dense file ≡ false)
    (beside : (dense : DenseIdentities)
      → self.dense ≡ some dense
      → outside dense.first (length dense.words) file ≡ true) where
  with_file : NarrowIdentities
  with_file = record self { sparse = file ∷ self.sparse }

  with_file-IsNarrow : IsNarrow with_file
  unfolding with_file
  with_file-IsNarrow = record {
    small = (small, narrow.small);
    window = λ dense e.
        let w = narrow.window dense e in
        record {
          aligned = w.aligned;
          nonempty = w.nonempty;
          within = w.within;
          beside = (beside dense e, w.beside);
        };
  }

  with_file-holds : (x : ℕ) → holds with_file x ≡ ((file == x) || holds self x)
  unfolding with_file holds is_member
  with_file-holds x = ground arith

  is_new : is_member file self.sparse ≡ holds self file
  unfolding holds
  is_new = ground (arith, absent)

  insert_sparse-Claims : Claims self file (insert_sparse order self file)
  unfolding insert_sparse with_file
  insert_sparse-Claims = elim (Bool-cases (is_member file self.sparse)) [
    | inl t ↦
        rw (t, insert_sparse)
          record {
            after = self;
            ends = ground (arith, t, is_new);
            narrow = narrow;
            same = held (holds self) file (rw (sym is_new) t);
          }
    | inr t ↦ elim (Bool-cases (leb self.next_compaction (suc (length self.sparse)))) [
      | inl u ↦
          let kept = compact-Keeps order with_file with_file-IsNarrow in
          rw (t, u, kept.ends, insert_sparse)
            record {
              after = kept.after;
              ends = ground (arith, t, is_new);
              narrow = kept.narrow;
              same = λ x. kept.same x ∙ with_file-holds x;
            }
      | inr u ↦
          rw (t, u, insert_sparse)
            record {
              after = with_file;
              ends = ground (arith, t, is_new);
              narrow = with_file-IsNarrow;
              same = with_file-holds;
            }
    ]
  ]

-- No element of the hash set is a file of the window.
not_member :
    (first : ℕ) (words sparse : List ℕ) (file word : ℕ)
    → word_of first words file ≡ some word
    → All (λ f. outside first (length words) f ≡ true) sparse
    → is_member file sparse ≡ false
unfolding is_member
not_member first words [] file word e h = refl
not_member first words (f ∷ sparse) file word e h = elim (Bool-cases (f == file)) [
  | inl t ↦
      let same : f ≡ file = ground (arith, t) in
      let gone : word_of first words file ≡ none =
        outside-word_of first words file
          (subst (λ y. outside first (length words) y ≡ true) same h.0) in
      absurd (cc)
  | inr t ↦ rw (t, not_member first words sparse file word e h.1) refl
]

module _ (self : NarrowIdentities) (file : ℕ) (narrow : IsNarrow self) (dense : DenseIdentities)
    (some_dense : self.dense ≡ some dense) (word : ℕ)
    (found : word_of dense.first dense.words file ≡ some word) where
  marked : NarrowIdentities
  marked = record self { dense = some (claim_bit dense file word).1 }

  marked-IsNarrow : IsNarrow marked
  unfolding marked claim_bit
  marked-IsNarrow =
      let w = narrow.window dense some_dense in
      let l = length-mark dense.first dense.words file word in
      record {
        small = narrow.small;
        window = λ d e. subst (IsWindow self.sparse) (some_inj e) record {
          aligned = w.aligned;
          nonempty = rw l w.nonempty;
          within = rw l w.within;
          beside =
              subst (λ n. All (λ f. outside dense.first n f ≡ true) self.sparse) (sym l) w.beside;
        };
      }

  marked-Claims : Claims self file (some ((claim_bit dense file word).0, marked))
  unfolding marked claim_bit holds has_dense
  marked-Claims =
      let w = narrow.window dense some_dense in
      let alone = not_member dense.first dense.words self.sparse file word found w.beside in
      let test = test-has dense.first dense.words file word found in
      record {
        after = marked;
        ends = rw (some_dense, alone, test) refl;
        narrow = marked-IsNarrow;
        same =
            λ x. rw some_dense (ground (arith, has-mark dense.first dense.words file word x found));
      }

-- An identity is reported new exactly when it was not claimed, and is then claimed, beside those
-- before; no call panics.
pub insert_narrow-Claims :
    (order : List ℕ → List ℕ) (self : NarrowIdentities) (file : ℕ)
    → IsNarrow self
    → IsU64 file
    → Claims self file (insert_narrow order self file)
unfolding insert_narrow has_dense marked
insert_narrow-Claims order self file narrow small = elim (Option-cases self.dense) [
  | inl e ↦
      let through : insert_narrow order self file ≡ insert_sparse order self file =
        simp (e, insert_narrow) in
      rw through
        (insert_sparse-Claims order self file narrow small (rw e refl) (λ d f. absurd (cc)))
  | inr (dense, e) ↦ elim (Option-cases (word_of dense.first dense.words file)) [
    | inl n ↦
        let through : insert_narrow order self file ≡ insert_sparse order self file =
          simp (e, n, insert_narrow) in
        rw through (
          insert_sparse-Claims order self file narrow small
            (rw e (has-outside dense.first dense.words file n))
            (λ d f.
              subst (λ w. outside w.first (length w.words) file ≡ true) (some_inj (sym e ∙ f))
                (word_of-outside dense.first dense.words file n)))
    | inr (word, f) ↦
        let through : insert_narrow order self file
            ≡ some ((claim_bit dense file word).0, marked self file narrow dense e word f) =
          simp (e, f, insert_narrow) in
        rw through (marked-Claims self file narrow dense e word f)
  ]
]
