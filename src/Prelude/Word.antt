-- ===== src/Prelude/Word.antt =====
-- Unsigned machine integers. A value stays a plain number; the operations of Rust's `u64` and `u32`
-- keep their wrap-around or their saturation. `saturating_sub` is the truncated `-` of the numbers.
use Prim.Native.Nat.{ℕ, ◌+◌, ◌-◌, ◌%◌, ◌^◌, min}

abbrev pub u64_mod : ℕ
u64_mod = 2 ^ 64

abbrev pub u64_max : ℕ
u64_max = 2 ^ 64 - 1

abbrev pub u32_mod : ℕ
u32_mod = 2 ^ 32

-- `a.saturating_add(b)` on `u64`.
abbrev pub sat_add : ℕ → ℕ → ℕ
sat_add a b = min (a + b) u64_max

-- `a + b` and `a - b` on `u64` in a release build.
abbrev pub wrap_add : ℕ → ℕ → ℕ
wrap_add a b = (a + b) % u64_mod

abbrev pub wrap_sub : ℕ → ℕ → ℕ
wrap_sub a b = (a + u64_mod - b) % u64_mod
