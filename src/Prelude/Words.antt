-- ===== src/Prelude/Words.antt =====
-- The greatest `usize`, and additions that stop there.
use Prim.Native.Nat.{ℕ, ◌+◌, ◌-◌, ◌^◌, min}

abbrev pub usize_max : ℕ
usize_max = 2 ^ 64 - 1

abbrev pub sat_add : ℕ → ℕ → ℕ
sat_add a b = min (a + b) usize_max
