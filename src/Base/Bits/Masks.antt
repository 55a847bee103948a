-- ===== src/Base/Bits/Masks.antt =====
-- The bits of masks: powers of two, complements, and the test `a & m`.
use Prim.Native.Nat.{ℕ, zero, suc, ◌+◌, ◌-◌, ◌*◌, ◌/◌, ◌%◌, ◌^◌, ◌≤◌, ◌<◌}
use mathlib.Core.Path.{◌≡◌, refl, ap}
use mathlib.Core.Bool.{false, not}
use native.Mathlib.Nat.{pow-suc, one-le-pow}
use native.Mathlib.Omega.{arith}
use system_on_chip_design_pr.Base.Tests.{ltb, ◌==◌, if◌then◌else◌}
use system_on_chip_design_pr.Base.Word.{not32, any_bit}
use system_on_chip_design_pr.Base.Bits.{bit, bit-bit_xor, bit_and_field}

pub zero-bit : (k : ℕ) → bit k 0 ≡ false
unfolding bit
zero-bit zero = refl
zero-bit (suc k) = zero-bit k

-- A number below `2 ^ n` has no bits from `n` on.
pub bit_small : (n k a : ℕ) → a < 2 ^ n → n ≤ k → bit k a ≡ false
unfolding bit
bit_small zero k a h l = let e : a ≡ 0 = omega arith in rw e (zero-bit k)
bit_small (suc n) zero a h l = absurd (omega arith)
bit_small (suc n) (suc k) a h l = bit_small n k (a / 2) (omega (arith, pow-suc 2 n)) (omega arith)

-- `2 ^ j` has the one bit `j`.
pub bit-pow : (j k : ℕ) → bit k (2 ^ j) ≡ (j == k)
unfolding bit
bit-pow zero zero = refl
bit-pow zero (suc k) = ground (arith, zero-bit k)
bit-pow (suc j) zero = ground (arith, pow-suc 2 j)
bit-pow (suc j) (suc k) =
    let e : 2 ^ suc j / 2 ≡ 2 ^ j = omega (arith, pow-suc 2 j) in rw e (ground (arith, bit-pow j k))

-- `2 ^ n - 1` has the bits below `n`.
pub bit_ones : (n k : ℕ) → bit k (2 ^ n - 1) ≡ ltb k n
unfolding bit
bit_ones zero k = ground (arith, zero-bit k)
bit_ones (suc n) zero = ground (arith, pow-suc 2 n, one-le-pow n 2)
bit_ones (suc n) (suc k) =
    let e : (2 ^ suc n - 1) / 2 ≡ 2 ^ n - 1 = omega (arith, pow-suc 2 n, one-le-pow n 2) in
    rw e (ground (arith, bit_ones n k))

-- `~m` has the bits below 32 that `m` has not.
pub bit-not32 : (m k : ℕ) → k < 32 → bit k (not32 m) ≡ not (bit k m)
bit-not32 m k h = ground (arith, bit-bit_xor k m 0xFFFF_FFFF, bit_ones 32 k)

-- `a` shifted left by `n`.
pub bit_shift : (n k a : ℕ) → bit k (a * 2 ^ n) ≡ (if ltb k n then false else bit (k - n) a)
unfolding bit
bit_shift zero k a = ground arith
bit_shift (suc n) zero a = ground (arith, ap (λ (t : ℕ). a * t) (pow-suc 2 n))
bit_shift (suc n) (suc k) a =
    let e : a * 2 ^ suc n / 2 ≡ a * 2 ^ n = omega (arith, ap (λ (t : ℕ). a * t) (pow-suc 2 n)) in
    rw e (ground (arith, bit_shift n k a))

bit_cut : (k q r : ℕ) → r < 2 ^ k → bit k (q * 2 ^ k + r) ≡ not (q % 2 == 0)
unfolding bit
bit_cut zero q r h = ground arith
bit_cut (suc k) q r h =
    let e : (q * 2 ^ suc k + r) / 2 ≡ q * 2 ^ k + r / 2 =
      omega (arith, ap (λ (t : ℕ). q * t) (pow-suc 2 k)) in
    rw e (bit_cut k q (r / 2) (omega (arith, pow-suc 2 k)))

-- Bit `k` by division.
pub bit_value : (k a : ℕ) → bit k a ≡ not (a / 2 ^ k % 2 == 0)
bit_value k a =
    let e : a / 2 ^ k * 2 ^ k + a % 2 ^ k ≡ a = omega arith in
    rw (← bit_cut k (a / 2 ^ k) (a % 2 ^ k) (ground (arith, one-le-pow k 2)), e) refl

is_zero-mul : (x y : ℕ) → x < 2 → 1 ≤ y → (x * y == 0) ≡ (x == 0)
is_zero-mul zero y h p = ground arith
is_zero-mul (suc zero) y h p = ground arith
is_zero-mul (suc (suc x)) y h p = absurd (omega arith)

-- The test of a single bit.
pub any_bit-pow : (j a : ℕ) → any_bit a (2 ^ j) ≡ bit j a
any_bit-pow j a =
    ground (
      arith,
      one-le-pow j 2,
      bit_value j a,
      bit_and_field j 1 a,
      is_zero-mul (a / 2 ^ j % 2) (2 ^ j),
    )
