-- ===== src/Base/Word.antt =====
-- Machine words: the unsigned types as native numbers with their wrap-around written out.
use Prim.Native.Nat.{ℕ, ◌+◌, ◌-◌, ◌/◌, ◌%◌, ◌^◌}
use mathlib.Core.Bool.{Bool}
use os_assignment_nhom.Base.Tests.{ltb, if◌then◌else◌}

-- `uint64_t` and `uint32_t` arithmetic.
abbrev pub u64 : ℕ → ℕ
u64 x = x % 2 ^ 64

abbrev pub u32 : ℕ → ℕ
u32 x = x % 2 ^ 32

-- `DIV_ROUND_UP(n, d)` on `addr_t`
abbrev pub div_round_up : ℕ → ℕ → ℕ
div_round_up n d = u64 (n + d - 1) / d

-- An `int` is its 32-bit pattern; a conversion to it keeps the low 32 bits.
abbrev pub int : ℕ → ℕ
int x = u32 x

-- `a < b` on `int`s
abbrev pub int_lt : ℕ → ℕ → Bool
int_lt a b = ltb (u32 (a + 2 ^ 31)) (u32 (b + 2 ^ 31))

-- An `int` converted to `uint64_t`: its sign is extended.
abbrev pub sign_extend : ℕ → ℕ
sign_extend x = if ltb x (2 ^ 31) then x else x + (2 ^ 64 - 2 ^ 32)

-- The rounds of `for (int i = 0; i < n; i++)`: none for a negative bound.
abbrev pub rounds : ℕ → ℕ
rounds n = if ltb n (2 ^ 31) then n else 0
