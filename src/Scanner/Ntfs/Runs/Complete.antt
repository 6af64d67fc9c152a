-- ===== src/Scanner/Ntfs/Runs/Complete.antt =====
-- A run list that is written as NTFS writes it decodes to the extents that it stands for.
use win_blaze.Base.{
  ℕ, zero, suc, ◌+◌, ◌*◌, ◌/◌, ◌%◌, ◌^◌, ◌≤◌, ◌<◌, ◌≡◌, ◌≢◌, refl, sym, ◌∙◌, some, List, [], ◌∷◌,
  ◌++◌, arith, length, take, drop, ap, length-append, take-append_of_eq, drop-append_of_eq,
  drop-drop,
}
use mathlib.Core.List.{append_assoc, append-nil}
use win_blaze.Base.Int.{ℤ, pos, ◌+ℤ◌}
use win_blaze.Base.Bytes.{to_le_bytes, from_le_bytes, length-to_le_bytes, from_le_bytes-to_le_bytes}
use win_blaze.Scanner.Ntfs.Runs.{
  ok, next, run_step, placed, decode_loop, decode_data_runs, sign_extend, checked_add_i64, finish,
}
use win_blaze.Scanner.Ntfs.Runs.Sign.{
  signed_bits, HasBytes, signed_bits-lt, sign_extend-signed_bits,
}
use win_blaze.Scanner.Ntfs.Runs.Sound.{loop_next}

-- A run as NTFS describes it: a length in clusters and a signed step from the last cluster number,
-- each with the number of bytes that it is written in.
pub record Run : Type 0 where
  pub length_size : ℕ
  pub offset_size : ℕ
  pub clusters : ℕ
  pub delta : ℤ

pub record IsRun (r : Run) : Type 0 where
  pub length_pos : 0 < r.length_size
  pub length_max : r.length_size ≤ 8
  pub offset_pos : 0 < r.offset_size
  pub offset_max : r.offset_size ≤ 8
  pub clusters_pos : 0 < r.clusters
  pub clusters_fit : r.clusters < 256 ^ r.length_size
  pub delta_fits : HasBytes r.offset_size r.delta

abbrev pub header_of : Run → ℕ
header_of r = r.offset_size * 16 + r.length_size

abbrev pub body_of : Run → List ℕ
body_of r =
    to_le_bytes r.length_size r.clusters
    ++ to_le_bytes r.offset_size (signed_bits r.offset_size r.delta)

-- The bytes of a run list, up to its terminator.
unfoldable pub write_runs : List Run → List ℕ
write_runs [] = []
write_runs (r ∷ rs) = header_of r ∷ (body_of r ++ write_runs rs)

-- The extents that runs stand for, from a cluster number on: every cluster number on the way is on
-- the volume, and every product fits 64 bits.
pub data Laid (bytes_per_cluster : ℕ) : ℤ → List Run → List (ℕ × ℕ) → Type 0 where
  done : {lcn : ℤ} → Laid bytes_per_cluster lcn [] []
  run :
      {lcn : ℤ} {r : Run} {rs : List Run} {start size : ℕ} {extents : List (ℕ × ℕ)} (n : ℕ)
      → IsRun r
      → lcn +ℤ r.delta ≡ pos n
      → n < 2 ^ 63
      → start ≡ n * bytes_per_cluster
      → start < 2 ^ 64
      → size ≡ r.clusters * bytes_per_cluster
      → size < 2 ^ 64
      → Laid bytes_per_cluster (pos n) rs extents
      → Laid bytes_per_cluster lcn (r ∷ rs) ((start, size) ∷ extents)

module _ (r : Run) (w : IsRun r) (rest : List ℕ) where
  header_fields : (header_of r % 16 ≡ r.length_size) × (header_of r / 16 ≡ r.offset_size)
  header_fields = (omega (arith, w.length_max), omega (arith, w.length_max))

  offset_bytes : List ℕ
  offset_bytes = to_le_bytes r.offset_size (signed_bits r.offset_size r.delta)

  length-offset_bytes : length offset_bytes ≡ r.offset_size
  unfolding offset_bytes
  length-offset_bytes = length-to_le_bytes r.offset_size _

  length-length_bytes : length (to_le_bytes r.length_size r.clusters) ≡ r.length_size
  length-length_bytes = length-to_le_bytes r.length_size _

  take_length : take r.length_size (body_of r ++ rest) ≡ to_le_bytes r.length_size r.clusters
  take_length = rw append_assoc (take-append_of_eq r.length_size _ _ length-length_bytes)

  drop_length : drop r.length_size (body_of r ++ rest) ≡ offset_bytes ++ rest
  unfolding offset_bytes
  drop_length = rw append_assoc (drop-append_of_eq r.length_size _ _ length-length_bytes)

  take_offset : take r.offset_size (drop r.length_size (body_of r ++ rest)) ≡ offset_bytes
  take_offset = rw drop_length (take-append_of_eq r.offset_size _ _ length-offset_bytes)

  drop_body : drop (r.length_size + r.offset_size) (body_of r ++ rest) ≡ rest
  drop_body =
      drop-drop r.length_size r.offset_size (body_of r ++ rest)
      ∙ rw drop_length (drop-append_of_eq r.offset_size _ _ length-offset_bytes)

  length_word : from_le_bytes (to_le_bytes r.length_size r.clusters) ≡ r.clusters
  length_word = from_le_bytes-to_le_bytes r.length_size r.clusters w.clusters_fit

  offset_word : sign_extend r.offset_size (from_le_bytes offset_bytes) ≡ r.delta
  unfolding offset_bytes
  offset_word =
      rw
        (from_le_bytes-to_le_bytes r.offset_size _
          (signed_bits-lt r.offset_size r.delta w.delta_fits))
        (sign_extend-signed_bits r.offset_size r.delta w.offset_pos w.offset_max w.delta_fits)

  header_pos : 0 < header_of r
  header_pos = omega (arith, w.length_pos)

  drop_header : drop (header_of r % 16 + header_of r / 16) (body_of r ++ rest) ≡ rest
  drop_header = rw (header_fields.0, header_fields.1) drop_body

  length_body : r.length_size + r.offset_size ≤ length (body_of r ++ rest)
  unfolding offset_bytes
  length_body = rw append_assoc (
      omega (
        arith,
        length-append (to_le_bytes r.length_size r.clusters) (offset_bytes ++ rest),
        length-append offset_bytes rest,
        length-offset_bytes,
        length-length_bytes,
      ))

  placed-body :
      (n bpc : ℕ)
      → n < 2 ^ 63
      → n * bpc < 2 ^ 64
      → r.clusters * bpc < 2 ^ 64
      → placed r.clusters bpc (some (pos n)) ≡ next (pos n) (n * bpc, r.clusters * bpc)
  unfolding placed
  placed-body n bpc small fits fits' = ground (arith, w.clusters_pos)

  checked_add-body :
      (lcn : ℤ) (n : ℕ)
      → lcn +ℤ r.delta ≡ pos n
      → n < 2 ^ 63
      → checked_add_i64 lcn r.delta ≡ some (pos n)
  unfolding checked_add_i64
  checked_add-body lcn n e small = rw e (ground arith)

  run_step-body :
      (lcn : ℤ) (n bpc : ℕ)
      → lcn +ℤ r.delta ≡ pos n
      → n < 2 ^ 63
      → n * bpc < 2 ^ 64
      → r.clusters * bpc < 2 ^ 64
      → run_step (header_of r) (body_of r ++ rest) lcn bpc
        ≡ next (pos n) (n * bpc, r.clusters * bpc)
  unfolding run_step
  run_step-body lcn n bpc e small fits fits' =
      rw
        (
          header_fields.0,
          header_fields.1,
          take_length,
          take_offset,
          length_word,
          offset_word,
          checked_add-body lcn n e small,
        )
        (ground (
          arith,
          placed-body n bpc small fits fits',
          length_body,
          w.length_pos,
          w.length_max,
          w.offset_pos,
          w.offset_max,
        ))

-- A round on a header that is not 0.
loop_round :
    (fuel header : ℕ) (rest : List ℕ) (lcn : ℤ) (bpc : ℕ) (extents : List (ℕ × ℕ)) {lcn' : ℤ}
    {extent : ℕ × ℕ}
    → 0 < header
    → run_step header rest lcn bpc ≡ next lcn' extent
    → decode_loop (suc fuel) (header ∷ rest) lcn bpc extents
      ≡ decode_loop fuel (drop (header % 16 + header / 16) rest) lcn' bpc (extents ++ extent ∷ [])
loop_round fuel zero rest lcn bpc extents p e = absurd (omega arith)
loop_round fuel (suc header) rest lcn bpc extents p e = loop_next fuel header rest lcn bpc extents e

decode_loop-end :
    (fuel : ℕ) (tail : List ℕ) (lcn : ℤ) (bpc : ℕ) (extents : List (ℕ × ℕ))
    → decode_loop fuel (0 ∷ tail) lcn bpc extents ≡ finish extents
unfolding decode_loop
decode_loop-end fuel tail lcn bpc extents = refl

module _ (bpc : ℕ) (tail : List ℕ) where
  decode_loop-write_runs :
      (fuel : ℕ) {lcn : ℤ} {rs : List Run} {es : List (ℕ × ℕ)} (extents : List (ℕ × ℕ))
      → Laid bpc lcn rs es
      → length rs ≤ fuel
      → decode_loop fuel (write_runs rs ++ 0 ∷ tail) lcn bpc extents ≡ finish (extents ++ es)
  unfolding write_runs
  decode_loop-write_runs fuel extents done h =
      decode_loop-end fuel tail _ bpc extents ∙ ap finish (sym (append-nil extents))
  decode_loop-write_runs zero extents (run n w e small s sf t tf more) h = absurd (omega arith)
  decode_loop-write_runs (suc fuel) extents
        (run {lcn = lcn} {r = r} {rs = rs} {start = start} {size = size} {extents = es} n w e small
          s sf t tf more)
        h =
      let rest = write_runs rs ++ 0 ∷ tail in
      let fits : n * bpc < 2 ^ 64 = omega (arith, s, sf) in
      let fits' : r.clusters * bpc < 2 ^ 64 = omega (arith, t, tf) in
      let step : run_step (header_of r) (body_of r ++ rest) lcn bpc ≡ next (pos n) (start, size) =
        rw (s, t) (run_step-body r w rest lcn n bpc e small fits fits') in
      let round =
        loop_round fuel (header_of r) (body_of r ++ rest) lcn bpc extents (header_pos r w rest)
          step in
      let on =
        decode_loop-write_runs fuel (extents ++ (start, size) ∷ []) more (omega (arith, h)) in
      rw (append_assoc (body_of r) (write_runs rs) (0 ∷ tail)) (
        round
        ∙ rw (drop_header r w rest) (on ∙ ap finish (append_assoc extents ((start, size) ∷ []) es)))

length-write_runs : (rs : List Run) → length rs ≤ length (write_runs rs)
unfolding write_runs
length-write_runs [] = omega arith
length-write_runs (r ∷ rs) =
    omega (arith, length-write_runs rs, length-append (body_of r) (write_runs rs))

finish-some : (es : List (ℕ × ℕ)) → es ≢ [] → finish es ≡ ok es
unfolding finish
finish-some [] h = absurd (h refl)
finish-some (e ∷ es) h = refl

-- Runs that NTFS could have written (lengths and steps in one to eight bytes, cluster numbers
-- and byte extents in range, at least one run) decode, from the bytes of the run list, its
-- terminator and whatever stands behind it, to exactly the extents that they stand for.
pub decode_data_runs-write_runs :
    (bpc : ℕ) (tail : List ℕ) (rs : List Run) (es : List (ℕ × ℕ))
    → Laid bpc (pos 0) rs es
    → es ≢ []
    → decode_data_runs (write_runs rs ++ 0 ∷ tail) bpc ≡ ok es
unfolding decode_data_runs
decode_data_runs-write_runs bpc tail rs es laid some_run =
    decode_loop-write_runs bpc tail _ [] laid
      (omega (arith, length-write_runs rs, length-append (write_runs rs) (0 ∷ tail)))
    ∙ finish-some es some_run
