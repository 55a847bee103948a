-- ===== src/Base/Word.antt =====
-- 32-bit machine words as native numbers below 2 ^ 32: the operators of C on `uint32_t`.
use Prim.Native.Nat.{ℕ, ◌+◌, ◌-◌, ◌*◌, ◌/◌, ◌%◌, ◌^◌, bit_and, bit_xor}
use mathlib.Core.Bool.{Bool, not}
use system_on_chip_design_pr.Base.Tests.{ltb, ◌==◌, if◌then◌else◌}

abbrev pub u32 : ℕ → ℕ
u32 n = n % 2 ^ 32

abbrev pub add32 : ℕ → ℕ → ℕ
add32 a b = (a + b) % 2 ^ 32

abbrev pub sub32 : ℕ → ℕ → ℕ
sub32 a b = (a + 2 ^ 32 - b) % 2 ^ 32

abbrev pub neg32 : ℕ → ℕ
neg32 a = (2 ^ 32 - a) % 2 ^ 32

-- `~a`.
abbrev pub not32 : ℕ → ℕ
not32 a = bit_xor a 0xFFFF_FFFF

-- `a << n` and `a >> n` for n < 32.
abbrev pub shl32 : ℕ → ℕ → ℕ
shl32 a n = a * 2 ^ n % 2 ^ 32

abbrev pub shr32 : ℕ → ℕ → ℕ
shr32 a n = a / 2 ^ n

-- `(signed)a < 0`, read off the top bit.
abbrev pub is_neg : ℕ → Bool
is_neg a = not (ltb a (2 ^ 31))

-- `(signed)a >> n` for n < 32: the sign bit fills from the left.
abbrev pub sar32 : ℕ → ℕ → ℕ
sar32 a n = if is_neg a then a / 2 ^ n + (2 ^ 32 - 2 ^ (32 - n)) else a / 2 ^ n

-- `(signed)a < (signed)b`: flipping the sign bit turns the signed order into the unsigned one.
abbrev pub slt32 : ℕ → ℕ → Bool
slt32 a b = ltb ((a + 2 ^ 31) % 2 ^ 32) ((b + 2 ^ 31) % 2 ^ 32)

-- `a & m` taken as a condition.
abbrev pub any_bit : ℕ → ℕ → Bool
any_bit a m = not (bit_and a m == 0)

-- `(a & m) == m`.
abbrev pub all_bits : ℕ → ℕ → Bool
all_bits a m = bit_and a m == m
