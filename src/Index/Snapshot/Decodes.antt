-- ===== src/Index/Snapshot/Decodes.antt =====
-- "This decoder reads these bytes as this value, whatever follows", with a rule for each way in which
-- the decoders are built.
pub mod Primitive
pub mod Items
pub mod Sizes
pub mod Records
use win_blaze.Base.{
  ℕ, zero, suc, ◌+◌, ◌-◌, ◌≡◌, refl, ap, sym, ◌∙◌, Bool, true, false, List, [], ◌∷◌, ◌++◌, arith,
  ltb, length, take, drop, length-append, take-append_length, drop-append_length,
}
use mathlib.Core.List.{append_assoc, append-nil}
use mathlib.Core.Path.{subst}
use win_blaze.Index.Snapshot.Reader.{
  Result, ok, SnapshotReader, Decoder, ◌>>=◌, ◌>>◌, pure, read_exact,
}

-- A reader whose stated length is the true one.
abbrev pub over : List ℕ → SnapshotReader
over bytes = record { inner = bytes; remaining = length bytes }

pub record Decodes {A : Type 0} (d : Decoder A) (bytes : List ℕ) (a : A) : Type 0 where
  pub at : (rest : List ℕ) → d (over (bytes ++ rest)) ≡ ok (a, over rest)

pub Decodes-pure : {A : Type 0} (a : A) → Decodes (pure a) [] a
unfolding pure
Decodes-pure a = record { at = λ rest. refl }

module _ {A B : Type 0} {m : Decoder A} (f : A → Decoder B) where
  -- One decoder after another reads the one's bytes and then the other's.
  pub Decodes-bind :
      {bytes more : List ℕ} {a : A} {b : B}
      → Decodes m bytes a
      → Decodes (f a) more b
      → Decodes (m >>= f) (bytes ++ more) b
  unfolding ◌>>=◌
  Decodes-bind {bytes} {more} h k = record {
    at = λ rest. rw (append_assoc bytes more rest) (rw (h.at (more ++ rest), ◌>>=◌) (k.at rest));
  }

  -- A step that reads nothing.
  pub Decodes-step :
      {more : List ℕ} {a : A} {b : B}
      → Decodes m [] a
      → Decodes (f a) more b
      → Decodes (m >>= f) more b
  Decodes-step h k = Decodes-bind h k

-- The last step of a decoder.
pub Decodes-map :
    {A B : Type 0} {m : Decoder A} (f : A → Decoder B) {bytes : List ℕ} {a : A} {b : B}
    → Decodes m bytes a
    → Decodes (f a) [] b
    → Decodes (m >>= f) bytes b
Decodes-map {m = m} f {bytes} {b = b} h k =
    subst (λ bs. Decodes (m >>= f) bs b) (append-nil bytes) (Decodes-bind f h k)

-- A test that reads nothing, and passes because of the bytes that follow it.
pub Decodes-guarded :
    {B : Type 0} (m : Decoder (Unit {0})) (k : Decoder B) {bytes : List ℕ} {b : B}
    → ((rest : List ℕ) → m (over (bytes ++ rest)) ≡ ok (tt, over (bytes ++ rest)))
    → Decodes k bytes b
    → Decodes (m >> k) bytes b
unfolding ◌>>=◌ ◌>>◌
Decodes-guarded m k passes h = record { at = λ rest. rw (passes rest, ◌>>=◌) (h.at rest) }

-- A test on what was already read.
pub Decodes-then :
    {B : Type 0} {m : Decoder (Unit {0})} {k : Decoder B} {bytes : List ℕ} {b : B}
    → Decodes m [] tt
    → Decodes k bytes b
    → Decodes (m >> k) bytes b
Decodes-then {m = m} {k = k} {bytes} t h = Decodes-guarded m k (λ rest. t.at (bytes ++ rest)) h

Decodes-read_exact-length : (bytes : List ℕ) → Decodes (read_exact (length bytes)) bytes bytes
unfolding read_exact
Decodes-read_exact-length bytes = record {
  at = λ rest. ground (
    arith,
    length-append bytes rest,
    take-append_length bytes rest,
    drop-append_length bytes rest,
  );
}

pub Decodes-read_exact :
    (n : ℕ) (bytes : List ℕ) → length bytes ≡ n → Decodes (read_exact n) bytes bytes
Decodes-read_exact n bytes e = rw (← e) (Decodes-read_exact-length bytes)
