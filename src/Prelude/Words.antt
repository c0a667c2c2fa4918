-- ===== src/Prelude/Words.antt =====
-- 32-bit words, the `uint` and the `int` of the kernel: a word is the number below 2 ^ 32 that its
-- bits spell, and a signed comparison reads those bits as two's complement.
use Prim.Native.Nat.{ℕ, ◌+◌, ◌%◌}
use mathlib.Core.Bool.{Bool}
use os_wsl.Prelude.Tests.{ltb, leb}

abbrev pub u32 : ℕ → ℕ
u32 n = n % 4294967296

-- 2 ^ 31: a word below it is a non-negative `int`.
abbrev pub int_min : ℕ
int_min = 2147483648

-- -1 as an `int`.
abbrev pub minus_one : ℕ
minus_one = 4294967295

-- Shifting by 2 ^ 31 carries the signed order over to the unsigned one.
abbrev pub bias : ℕ → ℕ
bias n = u32 (n + int_min)

abbrev pub int_le : ℕ → ℕ → Bool
int_le a b = leb (bias a) (bias b)

abbrev pub int_lt : ℕ → ℕ → Bool
int_lt a b = ltb (bias a) (bias b)
