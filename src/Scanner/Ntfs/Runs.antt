-- ===== src/Scanner/Ntfs/Runs.antt =====
-- `decode_data_runs` of src/WinBlaze.Scanner/src/ntfs.rs. The cursor into the slice is the list of
-- the bytes from it on. A run's bytes are gathered by `|=` of shifted bytes, which are disjoint, so
-- the words are `from_le_bytes` of them. `exhausted` is no value of the source: the fuel ran out.

pub mod Sign
pub mod Sound
pub mod Complete
use win_blaze.Base.{
  ℕ, zero, suc, ◌+◌, ◌-◌, ◌*◌, ◌/◌, ◌%◌, ◌^◌, ◌≤◌, ◌<◌, ◌≡◌, Bool, true, false, ◌||◌, Option, none,
  some, List, [], ◌∷◌, ◌++◌, ltb, leb, ◌==◌, if◌then◌else◌, length, take, drop,
}
use win_blaze.Base.Int.{ℤ, pos, negsuc, ◌+ℤ◌}
use win_blaze.Base.Bytes.{from_le_bytes, bits_i64}

pub data RunError : Type 0 where
  invalid_header truncated sparse_run offset_overflow before_volume size_overflow no_runs : RunError

pub data RunResult : Type 0 where
  ok : List (ℕ × ℕ) → RunResult
  err : RunError → RunResult
  exhausted : RunResult

-- `(delta << shift) >> shift` on an `i64`, whose bits are `delta`
shift_right_ℤ : ℤ → ℕ → ℤ
shift_right_ℤ (pos n) shift = pos (n / 2 ^ shift)
shift_right_ℤ (negsuc n) shift = negsuc (n / 2 ^ shift)

unfoldable pub sign_extend : ℕ → ℕ → ℤ
unfolding shift_right_ℤ
sign_extend offset_size delta =
    let shift = 64 - 8 * offset_size in shift_right_ℤ (bits_i64 (delta * 2 ^ shift % 2 ^ 64)) shift

in_i64 : ℤ → Bool
in_i64 (pos n) = ltb n (2 ^ 63)
in_i64 (negsuc n) = ltb n (2 ^ 63)

-- `i64::checked_add`
unfoldable pub checked_add_i64 : ℤ → ℤ → Option ℤ
unfolding in_i64
checked_add_i64 a b = if in_i64 (a +ℤ b) then some (a +ℤ b) else none

-- `u64::checked_mul`
unfoldable pub checked_mul : ℕ → ℕ → Option ℕ
checked_mul a b = if ltb (a * b) (2 ^ 64) then some (a * b) else none

-- the extent of a run, from its cluster number, length and the cluster size
extent_of : Option ℕ → Option ℕ → Option (ℕ × ℕ)
extent_of (some start) (some length_bytes) = some (start, length_bytes)
extent_of _ _ = none

pub data Step : Type 0 where
  next : ℤ → ℕ × ℕ → Step
  stop : RunError → Step

sized : ℤ → Option (ℕ × ℕ) → Step
sized lcn none = stop size_overflow
sized lcn (some extent) = next lcn extent

unfoldable pub placed : ℕ → ℕ → Option ℤ → Step
unfolding checked_mul extent_of sized
placed run_length bytes_per_cluster none = stop offset_overflow
placed run_length bytes_per_cluster (some (negsuc n)) = stop before_volume
placed run_length bytes_per_cluster (some (pos lcn)) =
    if run_length == 0
    then stop before_volume
    else sized (pos lcn)
        (extent_of (checked_mul lcn bytes_per_cluster) (checked_mul run_length bytes_per_cluster))

-- One round of the loop, on a nonzero header and the bytes behind it.
unfoldable pub run_step : ℕ → List ℕ → ℤ → ℕ → Step
unfolding sign_extend checked_add_i64
run_step header rest current_lcn bytes_per_cluster =
    let length_size = header % 16 in
    let offset_size = header / 16 in
    if length_size == 0 || ltb 8 length_size || ltb 8 offset_size
    then stop invalid_header
    else if ltb (length rest) (length_size + offset_size)
    then stop truncated
    else if offset_size == 0
    then stop sparse_run
    else placed (from_le_bytes (take length_size rest)) bytes_per_cluster (
        checked_add_i64 current_lcn
          (sign_extend offset_size (from_le_bytes (take offset_size (drop length_size rest)))))

unfoldable pub finish : List (ℕ × ℕ) → RunResult
finish [] = err no_runs
finish (e ∷ extents) = ok (e ∷ extents)

unfoldable pub decode_loop : ℕ → List ℕ → ℤ → ℕ → List (ℕ × ℕ) → RunResult
unfolding run_step placed finish
decode_loop fuel [] current_lcn bytes_per_cluster extents = finish extents
decode_loop fuel (zero ∷ rest) current_lcn bytes_per_cluster extents = finish extents
decode_loop zero (suc h ∷ rest) current_lcn bytes_per_cluster extents = exhausted
decode_loop (suc fuel) (suc h ∷ rest) current_lcn bytes_per_cluster extents =
    elim (run_step (suc h) rest current_lcn bytes_per_cluster) [
      | stop error ↦ err error
      | next lcn extent ↦
          decode_loop fuel (drop (suc h % 16 + suc h / 16) rest) lcn bytes_per_cluster
            (extents ++ extent ∷ [])
    ]

-- A round takes its header at least, so as many rounds as bytes are enough.
unfoldable pub decode_data_runs : List ℕ → ℕ → RunResult
unfolding decode_loop
decode_data_runs runs bytes_per_cluster =
    decode_loop (length runs) runs (pos 0) bytes_per_cluster []
