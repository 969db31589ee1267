-- ===== src/Prelude/Machine.antt =====
-- Fixed-width arithmetic of the source: `usize` is 64 bits wide, and overflow of a plain `+`
-- wraps, as in the release profile.

use Prim.Native.Nat.{ℕ, ◌+◌, ◌-◌, ◌*◌, ◌%◌, ◌^◌, min}

abbrev pub u16_max : ℕ
u16_max = 2 ^ 16 - 1

abbrev pub u32_max : ℕ
u32_max = 2 ^ 32 - 1

abbrev pub usize_max : ℕ
usize_max = 2 ^ 64 - 1

-- `saturating_add` at `usize` and at `u32`; `saturating_sub` is `◌-◌` itself.
abbrev pub sat_add : ℕ → ℕ → ℕ
sat_add a b = min (a + b) usize_max

abbrev pub sat_mul : ℕ → ℕ → ℕ
sat_mul a b = min (a * b) usize_max

abbrev pub sat_add32 : ℕ → ℕ → ℕ
sat_add32 a b = min (a + b) u32_max

abbrev pub wrap32 : ℕ → ℕ
wrap32 a = a % 2 ^ 32

-- A sum of `usize`.
abbrev pub wrap_add : ℕ → ℕ → ℕ
wrap_add a b = (a + b) % 2 ^ 64
