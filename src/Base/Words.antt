-- ===== src/Base/Words.antt =====
-- Go's unsigned words as numbers, with the wrap-around written out.
use Prim.Native.Nat.{ℕ, ◌+◌, ◌-◌, ◌*◌, ◌/◌, ◌%◌, ◌^◌}
use mathlib.Core.Bool.{true, false}
use go_mls.Base.Tests.{ltb}

-- The number of values of a `uint32` and of a `uint64`.
abbrev pub u32 : ℕ
u32 = 2 ^ 32

abbrev pub u64 : ℕ
u64 = 2 ^ 64

abbrev pub add32 : ℕ → ℕ → ℕ
add32 a b = (a + b) % u32

abbrev pub sub32 : ℕ → ℕ → ℕ
sub32 a b = (a + u32 - b) % u32

abbrev pub mul32 : ℕ → ℕ → ℕ
mul32 a b = a * b % u32

-- `a << k`; a shift by the width or more gives 0.
abbrev pub shl32 : ℕ → ℕ → ℕ
shl32 a k = elim (ltb k 32) [ true ↦ a * 2 ^ k % u32 | false ↦ 0 ]

abbrev pub shl64 : ℕ → ℕ → ℕ
shl64 a k = elim (ltb k 64) [ true ↦ a * 2 ^ k % u64 | false ↦ 0 ]

-- `a >> k`
abbrev pub shr : ℕ → ℕ → ℕ
shr a k = a / 2 ^ k

-- `k - 1` on a `uint`, which is 64 bits wide.
abbrev pub pred64 : ℕ → ℕ
pred64 k = (k + u64 - 1) % u64

-- `^a` on a `uint`
abbrev pub complement64 : ℕ → ℕ
complement64 a = u64 - 1 - a
