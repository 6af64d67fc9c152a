-- ===== src/Index/Snapshot/Decodes/Items.antt =====
-- Collections: the count, the test that the count can be true, and the items.
use win_blaze.Base.{ℕ, ◌*◌, ◌≤◌, ◌<◌, ◌≡◌, List, [], ◌∷◌, ◌++◌, arith, length, length-append, All}
use Prim.Native.String.{String}
use native.Mathlib.Nat.{le-div_iff_mul-le}
use win_blaze.Base.Bytes.{IsU64}
use win_blaze.Index.Snapshot.Reader.{ok, Decoder, ◌>>=◌, ◌>>◌, repeat, validate_collection_len}
use win_blaze.Index.Snapshot.Primitive.{read_len}
use win_blaze.Index.Snapshot.Records.{write_each, write_items, read_items}
use win_blaze.Index.Snapshot.Decodes.{
  over, Decodes, Decodes-pure, Decodes-bind, Decodes-map, Decodes-guarded,
}
use win_blaze.Index.Snapshot.Decodes.Primitive.{Decodes-len}

module _ {A : Type 0} (P : A → Type 0) (read : Decoder A) (write : A → List ℕ)
    (item : (x : A) → P x → Decodes read (write x) x) where
  Decodes-repeat :
      (xs : List A) → All P xs → Decodes (repeat (length xs) read) (write_each write xs) xs
  unfolding repeat
  Decodes-repeat [] h = Decodes-pure []
  Decodes-repeat (x ∷ xs) h =
      Decodes-bind _ (item x h.0) (Decodes-map _ (Decodes-repeat xs h.1) (Decodes-pure (x ∷ xs)))

pub length-write_each :
    {A : Type 0} (min : ℕ) (write : A → List ℕ)
    → ((x : A) → min ≤ length (write x))
    → (xs : List A) → length xs * min ≤ length (write_each write xs)
length-write_each min write size [] = omega arith
length-write_each min write size (x ∷ xs) = omega (
  arith,
  length-append (write x) (write_each write xs),
  size x,
  length-write_each min write size xs,
)

-- A count passes the test when that many items of the least size follow.
validate_lem :
    (len min : ℕ) (message : String) (rest : List ℕ)
    → 0 < min
    → len * min ≤ length rest
    → validate_collection_len len min message (over rest) ≡ ok (tt, over rest)
unfolding validate_collection_len
validate_lem len min message rest pos h =
    ground (arith, (le-div_iff_mul-le {x = len} {y = length rest} pos).1 h)

-- A count, its test, and any loop that reads as many items as the count says.
pub Decodes-counted :
    {A B : Type 0} (min : ℕ) (message : String) (write : A → List ℕ)
    → 0 < min
    → ((x : A) → min ≤ length (write x))
    → (xs : List A) (loop : ℕ → Decoder B) {b : B} → IsU64 (length xs)
    → Decodes (loop (length xs)) (write_each write xs) b
    → Decodes
        (do len ← read_len; validate_collection_len len min message; loop len)
        (write_items write xs)
        b
Decodes-counted min message write pos size xs loop fits h =
    Decodes-bind _ (Decodes-len (length xs) fits) (
      Decodes-guarded _ _
        (λ rest. validate_lem (length xs) min message (write_each write xs ++ rest) pos (
          omega
            (arith, length-append (write_each write xs) rest, length-write_each min write size xs)))
        h)

pub Decodes-items :
    {A : Type 0} (P : A → Type 0) (read : Decoder A) (write : A → List ℕ)
    → ((x : A) → P x → Decodes read (write x) x)
    → (min : ℕ) (message : String) → 0 < min
    → ((x : A) → min ≤ length (write x))
    → (xs : List A) → IsU64 (length xs)
    → All P xs
    → Decodes (read_items min message read) (write_items write xs) xs
unfolding read_items
Decodes-items P read write item min message pos size xs fits h =
    Decodes-counted min message write pos size xs (λ len. repeat len read) fits
      (Decodes-repeat P read write item xs h)
