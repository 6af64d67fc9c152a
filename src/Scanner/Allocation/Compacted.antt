-- ===== src/Scanner/Allocation/Compacted.antt =====
-- `compact` keeps the identities, and does not panic.
use win_blaze.Base.{
  ℕ, ◌+◌, ◌-◌, ◌*◌, ◌/◌, ◌%◌, ◌^◌, ◌≤◌, ◌≡◌, refl, sym, ap, ◌∙◌, inl, inr, Option-cases, Bool, true,
  false, ◌||◌, Option, none, some, List, [], ◌∷◌, arith, length, replicate, length-replicate, All,
}
use mathlib.Core.Path.{subst}
use win_blaze.Base.Bytes.{u64_max}
use win_blaze.Scanner.Allocation.{
  DenseIdentities, NarrowIdentities, is_member, word_of, mark, Retained, retain, old_words,
  count_of, rebuild,
}
use win_blaze.Scanner.Allocation.Bits.{
  has, has-mark, has-replicate, outside, word_of-outside, length-mark, copied,
  copy_from_slice-copied, length-copied, has-copied,
}

unfoldable pub has_dense : Option DenseIdentities → ℕ → Bool
has_dense none x = false
has_dense (some dense) x = has dense.first dense.words x

-- The identity was claimed.
unfoldable pub holds : NarrowIdentities → ℕ → Bool
holds self x = is_member x self.sparse || has_dense self.dense x

-- A window of whole words, within the 64-bit numbers, beside which the hash set lies.
pub record IsWindow (sparse : List ℕ) (dense : DenseIdentities) : Type 0 where
  pub aligned : dense.first % 64 ≡ 0
  pub nonempty : 1 ≤ length dense.words
  pub within : dense.first + 64 * length dense.words ≤ 2 ^ 64
  pub beside : All (λ file. outside dense.first (length dense.words) file ≡ true) sparse

abbrev pub IsU64 : ℕ → Type 0
IsU64 file = file ≤ u64_max

pub record IsNarrow (self : NarrowIdentities) : Type 0 where
  pub small : All IsU64 self.sparse
  pub window : (dense : DenseIdentities) → self.dense ≡ some dense → IsWindow self.sparse dense

record Retains (first : ℕ) (words files : List ℕ) (result : Retained) : Type 0 where
  same_length : length result.words ≡ length words
  same :
      (x : ℕ)
      → (is_member x result.sparse || has first result.words x)
        ≡ (is_member x files || has first words x)
  beside : All (λ file. outside first (length words) file ≡ true) result.sparse
  small : All IsU64 files → All IsU64 result.sparse

module _ (first : ℕ) where
  retain-none :
      (words : List ℕ) (count file : ℕ) (files : List ℕ)
      → word_of first words file ≡ none
      → retain first words count (file ∷ files)
        ≡ (let rest = retain first words count files in record rest { sparse = file ∷ rest.sparse })
  unfolding retain
  retain-none words count file files e = rw (e, retain) refl

  retain-some :
      (words : List ℕ) (count file : ℕ) (files : List ℕ) (word : ℕ)
      → word_of first words file ≡ some word
      → retain first words count (file ∷ files)
        ≡ retain first (mark first words file word) (count + 1) files
  unfolding retain
  retain-some words count file files word e = rw (e, retain) refl

  retain-Retains :
      (files words : List ℕ) (count : ℕ)
      → Retains first words files (retain first words count files)
  unfolding retain is_member
  retain-Retains [] words count = record {
    same_length = refl;
    same = λ x. refl;
    beside = tt;
    small = λ h. h;
  }
  retain-Retains (file ∷ files) words count = elim (Option-cases (word_of first words file)) [
    | inl e ↦
        let r = retain-Retains files words count in
        rw (retain-none words count file files e) record {
          same_length = r.same_length;
          same = λ x. ground (arith, r.same x);
          beside = (word_of-outside first words file e, r.beside);
          small = λ h. (h.0, r.small h.1);
        }
    | inr (word, e) ↦
        let marked = mark first words file word in
        let r = retain-Retains files marked (count + 1) in
        let l = length-mark first words file word in
        rw (retain-some words count file files word e) record {
          same_length = r.same_length ∙ l;
          same = λ x. ground (arith, r.same x, has-mark first words file word x e);
          beside =
              subst
                (λ n.
                  All (λ f. outside first n f ≡ true)
                    (retain first marked (count + 1) files).sparse)
                l r.beside;
          small = λ h. r.small h.1;
        }
  ]

-- What a window needs of another one that takes its place.
pub record Takes (old : Option DenseIdentities) (first words : ℕ) : Type 0 where
  pub aligned : first % 64 ≡ 0
  pub nonempty : 1 ≤ words
  pub within : first + 64 * words ≤ 2 ^ 64
  pub room :
      (dense : DenseIdentities)
      → old ≡ some dense
      → (dense.first % 64 ≡ 0)
        × ((first ≤ dense.first) × ((dense.first - first) / 64 + length dense.words ≤ words))

record Carries (old : Option DenseIdentities) (first words : ℕ) : Type 0 where
  after : List ℕ
  ends : old_words old first words ≡ some after
  same_length : length after ≡ words
  same : (x : ℕ) → has first after x ≡ has_dense old x

old_words-Carries :
    (old : Option DenseIdentities) (first words : ℕ)
    → Takes old first words
    → Carries old first words
unfolding old_words has_dense
old_words-Carries none first words t = record {
  after = replicate words 0;
  ends = refl;
  same_length = length-replicate words 0;
  same = has-replicate first words;
}
old_words-Carries (some dense) first words t =
    let (aligned, (below, room)) = t.room dense refl in
    let offset = (dense.first - first) / 64 in
    let start : first + 64 * offset ≡ dense.first = omega (arith, aligned, t.aligned, below) in
    record {
      after = copied first words dense.words offset room;
      ends = copy_from_slice-copied first words dense.words offset room;
      same_length = length-copied first words dense.words offset room;
      same = λ x.
          has-copied first words dense.words offset room x ∙ ap (λ s. has s dense.words x) start;
    }

pub some_inj : {a b : DenseIdentities} → some a ≡ some b → a ≡ b
some_inj e = cc

-- A state with the same identities.
pub record Keeps (self : NarrowIdentities) (result : Option NarrowIdentities) : Type 0 where
  pub after : NarrowIdentities
  pub ends : result ≡ some after
  pub narrow : IsNarrow after
  pub same : (x : ℕ) → holds after x ≡ holds self x

pub rebuild-Keeps :
    (self : NarrowIdentities) (first words : ℕ)
    → Takes self.dense first words
    → All IsU64 self.sparse
    → Keeps self (rebuild self first words)
unfolding rebuild holds has_dense
rebuild-Keeps self first words t small =
    let c = old_words-Carries self.dense first words t in
    let r = retain-Retains first self.sparse c.after (count_of self.dense) in
    let retained = retain first c.after (count_of self.dense) self.sparse in
    let l : length retained.words ≡ words = r.same_length ∙ c.same_length in
    rw (c.ends, rebuild)
      record {
        after = _;
        ends = refl;
        narrow = record {
          small = r.small small;
          window = λ d e. subst (IsWindow retained.sparse) (some_inj e) record {
            aligned = t.aligned;
            nonempty = rw l t.nonempty;
            within = rw l t.within;
            beside =
                subst (λ n. All (λ f. outside first n f ≡ true) retained.sparse) (sym r.same_length)
                  r.beside;
          };
        };
        same = λ x. r.same x ∙ ap (λ b. is_member x self.sparse || b) (c.same x);
      }
