-- ===== src/Base/Words.antt =====
-- The saturating operations of `u64`.
use win_blaze.Base.{ℕ, ◌+◌, ◌*◌, min}
use win_blaze.Base.Bytes.{u64_max}

abbrev pub saturating_add : ℕ → ℕ → ℕ
saturating_add a b = min u64_max (a + b)

abbrev pub saturating_mul : ℕ → ℕ → ℕ
saturating_mul a b = min u64_max (a * b)
