-- ===== src/Scanner/Ntfs/Runs/Sound.antt =====
-- `decode_data_runs` on any bytes at all.
use win_blaze.Base.{
  ℕ, zero, suc, ◌+◌, ◌*◌, ◌/◌, ◌%◌, ◌^◌, ◌≤◌, ◌<◌, ◌≡◌, ◌≢◌, refl, Option, none, some, List, [],
  ◌∷◌, ◌++◌, arith, length, take, drop, length-drop, sym, ◌∙◌, All, All-append, ◌⊎◌, inl, inr,
}
use win_blaze.Base.Int.{ℤ, pos, negsuc}
use win_blaze.Base.Bytes.{from_le_bytes}
use mathlib.Core.Path.{subst}
use win_blaze.Scanner.Ntfs.Runs.{
  RunError, ok, err, exhausted, Step, next, stop, run_step, placed, finish, decode_loop,
  decode_data_runs, checked_add_i64, sign_extend,
}

-- An extent starts on a cluster, is a positive number of clusters long, and both fit 64 bits.
pub record IsExtent (bytes_per_cluster : ℕ) (e : ℕ × ℕ) : Type 0 where
  pub start : (lcn : ℕ) × (e.0 ≡ lcn * bytes_per_cluster) × (e.0 < 2 ^ 64)
  pub size : (clusters : ℕ) × (0 < clusters) × (e.1 ≡ clusters * bytes_per_cluster) × (e.1 < 2 ^ 64)

Step-cases :
    (s : Step) → ((lcn : ℤ) × (e : ℕ × ℕ) × (s ≡ next lcn e)) ⊎ ((x : RunError) × (s ≡ stop x))
Step-cases (next lcn e) = inl (lcn, e, refl)
Step-cases (stop x) = inr (x, refl)

placed-IsExtent :
    (clusters bpc : ℕ) (o : Option ℤ) (lcn : ℤ) (e : ℕ × ℕ)
    → placed clusters bpc o ≡ next lcn e
    → IsExtent bpc e
unfolding placed
placed-IsExtent clusters bpc none lcn e h = absurd (ground arith)
placed-IsExtent clusters bpc (some (negsuc n)) lcn e h = absurd (ground arith)
placed-IsExtent clusters bpc (some (pos n)) lcn e h = record {
  start = (n, ground arith, ground arith);
  size = (clusters, ground arith, ground arith, ground arith);
}

run_step-placed :
    (header : ℕ) (rest : List ℕ) (current : ℤ) (bpc : ℕ) (lcn : ℤ) (e : ℕ × ℕ)
    → run_step header rest current bpc ≡ next lcn e
    → (clusters : ℕ) × (o : Option ℤ) × (placed clusters bpc o ≡ next lcn e)
unfolding run_step
run_step-placed header rest current bpc lcn e h = (
  from_le_bytes (take (header % 16) rest),
  checked_add_i64 current
      (sign_extend (header / 16) (from_le_bytes (take (header / 16) (drop (header % 16) rest)))),
  ground arith,
)

run_step-IsExtent :
    (header : ℕ) (rest : List ℕ) (current : ℤ) (bpc : ℕ) (lcn : ℤ) (e : ℕ × ℕ)
    → run_step header rest current bpc ≡ next lcn e
    → IsExtent bpc e
run_step-IsExtent header rest current bpc lcn e h =
    let (clusters, o, h') = run_step-placed header rest current bpc lcn e h in
    placed-IsExtent clusters bpc o lcn e h'

finish-ne-exhausted : (extents : List (ℕ × ℕ)) → finish extents ≢ exhausted
unfolding finish
finish-ne-exhausted [] h = cc
finish-ne-exhausted (e ∷ es) h = cc

-- One round of the loop, by what the step says.
pub loop_next :
    (fuel header : ℕ) (rest : List ℕ) (lcn : ℤ) (bpc : ℕ) (extents : List (ℕ × ℕ)) {lcn' : ℤ}
    {extent : ℕ × ℕ}
    → run_step (suc header) rest lcn bpc ≡ next lcn' extent
    → decode_loop (suc fuel) (suc header ∷ rest) lcn bpc extents
      ≡ decode_loop fuel
          (drop (suc header % 16 + suc header / 16) rest)
          lcn'
          bpc
          (extents ++ extent ∷ [])
unfolding decode_loop
loop_next fuel header rest lcn bpc extents e = rw (e, decode_loop)

loop_err :
    (fuel header : ℕ) (rest : List ℕ) (lcn : ℤ) (bpc : ℕ) (extents : List (ℕ × ℕ)) {x : RunError}
    → run_step (suc header) rest lcn bpc ≡ stop x
    → decode_loop (suc fuel) (suc header ∷ rest) lcn bpc extents ≡ err x
unfolding decode_loop
loop_err fuel header rest lcn bpc extents e = rw (e, decode_loop)

decode_loop-ne-exhausted :
    (fuel : ℕ) (runs : List ℕ) (lcn : ℤ) (bpc : ℕ) (extents : List (ℕ × ℕ))
    → length runs ≤ fuel
    → decode_loop fuel runs lcn bpc extents ≢ exhausted
decode_loop-ne-exhausted fuel [] lcn bpc extents h =
    unfold decode_loop in finish-ne-exhausted extents
decode_loop-ne-exhausted fuel (zero ∷ rest) lcn bpc extents h =
    unfold decode_loop in finish-ne-exhausted extents
decode_loop-ne-exhausted zero (suc header ∷ rest) lcn bpc extents h = absurd (omega arith)
decode_loop-ne-exhausted (suc fuel) (suc header ∷ rest) lcn bpc extents h =
    let more = suc header % 16 + suc header / 16 in
    elim (Step-cases (run_step (suc header) rest lcn bpc)) [
      | inr (x, e) ↦ λ h. cc (loop_err fuel header rest lcn bpc extents e)
      | inl (lcn', extent, e) ↦
          subst (λ r. r ≢ exhausted) (sym (loop_next fuel header rest lcn bpc extents e))
            (decode_loop-ne-exhausted fuel (drop more rest) lcn' bpc (extents ++ extent ∷ [])
              (omega (arith, length-drop more rest)))
    ]

-- Decoding any bytes as a run list ends within as many rounds as there are bytes.
pub decode_data_runs-ne-exhausted :
    (runs : List ℕ) (bpc : ℕ) → decode_data_runs runs bpc ≢ exhausted
unfolding decode_data_runs
decode_data_runs-ne-exhausted runs bpc =
    decode_loop-ne-exhausted (length runs) runs (pos 0) bpc [] (omega arith)

finish-ok :
    (bpc : ℕ) (extents out : List (ℕ × ℕ))
    → All (IsExtent bpc) extents
    → finish extents ≡ ok out
    → All (IsExtent bpc) out × (out ≢ [])
unfolding finish
finish-ok bpc [] out h e = absurd (cc)
finish-ok bpc (x ∷ xs) out h e = let e' : x ∷ xs ≡ out = ground arith in rw (← e') (h, λ f. cc)

decode_loop_sound :
    (fuel : ℕ) (runs : List ℕ) (lcn : ℤ) (bpc : ℕ) (extents out : List (ℕ × ℕ))
    → All (IsExtent bpc) extents
    → decode_loop fuel runs lcn bpc extents ≡ ok out
    → All (IsExtent bpc) out × (out ≢ [])
decode_loop_sound fuel [] lcn bpc extents out h e =
    finish-ok bpc extents out h (unfold decode_loop in e)
decode_loop_sound fuel (zero ∷ rest) lcn bpc extents out h e =
    finish-ok bpc extents out h (unfold decode_loop in e)
decode_loop_sound zero (suc header ∷ rest) lcn bpc extents out h e =
    absurd (unfold decode_loop in cc)
decode_loop_sound (suc fuel) (suc header ∷ rest) lcn bpc extents out h e =
    let more = suc header % 16 + suc header / 16 in
    elim (Step-cases (run_step (suc header) rest lcn bpc)) [
      | inr (x, s) ↦ absurd (cc (e, loop_err fuel header rest lcn bpc extents s))
      | inl (lcn', extent, s) ↦
          decode_loop_sound fuel (drop more rest) lcn' bpc (extents ++ extent ∷ []) out
            (All-append (IsExtent bpc) extents (extent ∷ []) h
              (run_step-IsExtent (suc header) rest lcn bpc lcn' extent s, tt))
            (sym (loop_next fuel header rest lcn bpc extents s) ∙ e)
    ]

-- Whatever the bytes are, what is decoded is a list of at least one extent, each on a cluster
-- boundary, not empty in clusters, and within 64 bits.
pub decode_data_runs_sound :
    (runs : List ℕ) (bpc : ℕ) (out : List (ℕ × ℕ))
    → decode_data_runs runs bpc ≡ ok out
    → All (IsExtent bpc) out × (out ≢ [])
unfolding decode_data_runs
decode_data_runs_sound runs bpc out e = decode_loop_sound (length runs) runs (pos 0) bpc [] out tt e
