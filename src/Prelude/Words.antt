-- ===== src/Prelude/Words.antt =====
-- The `u64` and `u32` arithmetic of the source: wrapping, checked, and the page masks.
use Prim.Native.Nat.{ℕ, ◌+◌, ◌-◌, ◌*◌, ◌/◌, ◌%◌, ◌^◌}
use mathlib.Core.Option.{Option, none, some}
use crab_efi.Prelude.Tests.{ltb, if◌then◌else◌}

abbrev pub u64_mod : ℕ
u64_mod = 2 ^ 64

-- `u64::MAX`
abbrev pub u64_max : ℕ
u64_max = 2 ^ 64 - 1

-- `a + b`, `a - b` in release builds, which wrap.
abbrev pub add64 : ℕ → ℕ → ℕ
add64 a b = (a + b) % u64_mod

abbrev pub sub64 : ℕ → ℕ → ℕ
sub64 a b = (a + u64_mod - b) % u64_mod

-- `u64::checked_add`, `u64::checked_mul`.
abbrev pub checked_add : ℕ → ℕ → Option ℕ
checked_add a b = if ltb (a + b) u64_mod then some (a + b) else none

abbrev pub checked_mul : ℕ → ℕ → Option ℕ
checked_mul a b = if ltb (a * b) u64_mod then some (a * b) else none

-- The same for `u32`.
abbrev pub u32_mod : ℕ
u32_mod = 2 ^ 32

abbrev pub add32 : ℕ → ℕ → ℕ
add32 a b = (a + b) % u32_mod

abbrev pub mul32 : ℕ → ℕ → ℕ
mul32 a b = a * b % u32_mod

abbrev pub sub32 : ℕ → ℕ → ℕ
sub32 a b = (a + u32_mod - b) % u32_mod

abbrev pub checked_add32 : ℕ → ℕ → Option ℕ
checked_add32 a b = if ltb (a + b) u32_mod then some (a + b) else none

abbrev pub checked_mul32 : ℕ → ℕ → Option ℕ
checked_mul32 a b = if ltb (a * b) u32_mod then some (a * b) else none

-- `x & !(unit - 1)` at a power of two.
abbrev pub align_down : ℕ → ℕ → ℕ
align_down x unit = x / unit * unit
