-- ===== src/Index/Snapshot/Reader.antt =====
-- `SnapshotReader` of src/WinBlaze.Index/src/store.rs over bytes in memory, the errors, and the `?`
-- operator as a monad. `remaining` starts as the length that the caller states, which need not be
-- that of the bytes.
use win_blaze.Base.{
  ℕ, zero, suc, ◌-◌, ◌/◌, List, [], ◌∷◌, length, take, drop, ltb, ◌==◌, if◌then◌else◌,
}
use Prim.Native.String.{String}

-- `Io` is `UnexpectedEof`, the only I/O error of a reader over bytes.
pub data IndexStorageError : Type 0 where
  io : IndexStorageError
  corrupt_snapshot : String → IndexStorageError

pub data Result {ℓ} (A : Type ℓ) : Type ℓ where
  ok : A → Result A
  err : IndexStorageError → Result A

pub record SnapshotReader : Type 0 where
  pub inner : List ℕ
  pub remaining : ℕ

abbrev pub Decoder : Type 0 → Type 0
Decoder A = SnapshotReader → Result (A × SnapshotReader)

infixl 5 ◌>>=◌ ◌>>◌
unfoldable pub ◌>>=◌ : {A B : Type 0} → Decoder A → (A → Decoder B) → Decoder B
◌>>=◌ m f r = elim (m r) [ ok (a, r') ↦ f a r' | err e ↦ err e ]

unfoldable pub ◌>>◌ : {B : Type 0} → Decoder (Unit {0}) → Decoder B → Decoder B
unfolding ◌>>=◌
m >> k = m >>= λ _. k

unfoldable pub pure : {A : Type 0} → A → Decoder A
pure a r = ok (a, r)

unfoldable pub fail : {A : Type 0} → String → Decoder A
fail message r = err (corrupt_snapshot message)

-- `SnapshotReader::read_exact`: the stated length is tested first, then the bytes themselves.
unfoldable pub read_exact : ℕ → Decoder (List ℕ)
read_exact n r =
    if ltb r.remaining n
    then err io
    else if ltb (length r.inner) n
    then err io
    else ok (take n r.inner, record { inner = drop n r.inner; remaining = r.remaining - n })

-- `validate_collection_len`: a count is refused if that many smallest items cannot follow.
unfoldable pub validate_collection_len : ℕ → ℕ → String → Decoder (Unit {0})
validate_collection_len len min_bytes_per_item message r =
    if min_bytes_per_item == 0
    then ok (tt, r)
    else if ltb (r.remaining / min_bytes_per_item) len
    then err (corrupt_snapshot message)
    else ok (tt, r)

-- `for _ in 0..len { items.push(read(cursor)?) }`
unfoldable pub repeat : {A : Type 0} → ℕ → Decoder A → Decoder (List A)
unfolding ◌>>=◌ pure
repeat zero read = pure []
repeat (suc len) read = do item ← read; items ← repeat len read; pure (item ∷ items)
