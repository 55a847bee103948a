-- ===== src/Base/Bits.antt =====
-- The bit operations at variables: one bit of a word, and words cut at a bit position.
mod Step
pub mod Masks
use Step.{bit_and-halves, bit_or-halves, bit_xor-halves}
use Prim.Native.Nat.{ℕ, zero, suc, ◌+◌, ◌-◌, ◌*◌, ◌/◌, ◌%◌, ◌^◌, ◌≤◌, ◌<◌, min, max}
use Prim.Native.Nat.{bit_and, bit_or, bit_xor, bit_and-bitwise, bit_or-bitwise}
use mathlib.Core.Path.{◌≡◌, refl, ap}
use mathlib.Core.Bool.{Bool, true, false, not, ◌&&◌, ◌||◌}
use native.Mathlib.Nat.{pow-suc, one-le-pow}
use native.Mathlib.Omega.{arith}
use system_on_chip_design_pr.Base.Tests.{ltb, ◌==◌, if◌then◌else◌}

-- Bit `k` of `a`.
unfoldable pub bit : ℕ → ℕ → Bool
bit zero a = not (a % 2 == 0)
bit (suc k) a = bit k (a / 2)

half-bit_and : (a b : ℕ) → bit_and a b / 2 ≡ bit_and (a / 2) (b / 2)
half-bit_and a b = omega (arith, bit_and-halves a b)

half-bit_or : (a b : ℕ) → bit_or a b / 2 ≡ bit_or (a / 2) (b / 2)
half-bit_or a b = omega (arith, bit_or-halves a b)

half-bit_xor : (a b : ℕ) → bit_xor a b / 2 ≡ bit_xor (a / 2) (b / 2)
half-bit_xor a b = omega (arith, bit_xor-halves a b)

pub bit-bit_and : (k a b : ℕ) → bit k (bit_and a b) ≡ (bit k a && bit k b)
unfolding bit
bit-bit_and zero a b = ground (arith, bit_and-halves a b)
bit-bit_and (suc k) a b = rw (half-bit_and a b) (bit-bit_and k (a / 2) (b / 2))

pub bit-bit_or : (k a b : ℕ) → bit k (bit_or a b) ≡ (bit k a || bit k b)
unfolding bit
bit-bit_or zero a b = ground (arith, bit_or-halves a b)
bit-bit_or (suc k) a b = rw (half-bit_or a b) (bit-bit_or k (a / 2) (b / 2))

pub bit-bit_xor : (k a b : ℕ) → bit k (bit_xor a b) ≡ (if bit k a then not (bit k b) else bit k b)
unfolding bit
bit-bit_xor zero a b = ground (arith, bit_xor-halves a b)
bit-bit_xor (suc k) a b = rw (half-bit_xor a b) (bit-bit_xor k (a / 2) (b / 2))

-- Two numbers with the same bits below `n`, and no others, are equal.
pub bit_ext : (n a b : ℕ) → a < 2 ^ n → b < 2 ^ n → ((k : ℕ) → k < n → bit k a ≡ bit k b) → a ≡ b
unfolding bit
bit_ext zero a b p q h = omega arith
bit_ext (suc n) a b p q h = ground (
  arith,
  pow-suc 2 n,
  h 0 (omega arith),
  bit_ext n (a / 2) (b / 2) (omega (arith, pow-suc 2 n)) (omega (arith, pow-suc 2 n))
      (λ k l. h (suc k) (omega arith)),
)

-- A second operand of 0, by a bound on the first.
zero_bounded : (bound x : ℕ) → x ≤ bound → (bit_and x 0 ≡ 0) × (bit_or x 0 ≡ x)
zero_bounded bound zero below = (refl, refl)
zero_bounded zero (suc x) below = absurd (omega arith)
zero_bounded (suc bound) (suc x) below =
    let (meet, join) = zero_bounded bound (suc x / 2) (omega arith) in
    (omega (arith, bit_and-halves (suc x) 0, meet), omega (arith, bit_or-halves (suc x) 0, join))

pub bit_and-zero : (x : ℕ) → bit_and x 0 ≡ 0
bit_and-zero x = (zero_bounded x x (omega arith)).0

pub zero-bit_and : (x : ℕ) → bit_and 0 x ≡ 0
zero-bit_and = bit_and-bitwise 0

pub bit_or-zero : (x : ℕ) → bit_or x 0 ≡ x
bit_or-zero x = (zero_bounded x x (omega arith)).1

pub zero-bit_or : (x : ℕ) → bit_or 0 x ≡ x
zero-bit_or = bit_or-bitwise 0

shift_once : (m e : ℕ) → m * 2 ^ suc e ≡ 2 * (m * 2 ^ e)
shift_once m e = omega (arith, ap (λ (p : ℕ). m * p) (pow-suc 2 e))

-- Both numbers cut at bit `k`: the operation acts on the upper and on the lower parts.
pub bit_and_cut :
    (k q r t s : ℕ)
    → r < 2 ^ k
    → s < 2 ^ k
    → bit_and (q * 2 ^ k + r) (t * 2 ^ k + s) ≡ bit_and q t * 2 ^ k + bit_and r s
bit_and_cut zero q r t s p l = ground (arith, bit_and-zero 0)
bit_and_cut (suc k) q r t s p l = ground (
  arith,
  pow-suc 2 k,
  shift_once q k,
  shift_once t k,
  shift_once (bit_and q t) k,
  bit_and-halves (q * 2 ^ suc k + r) (t * 2 ^ suc k + s),
  bit_and-halves r s,
  bit_and_cut k q (r / 2) t (s / 2) (omega (arith, pow-suc 2 k)) (omega (arith, pow-suc 2 k)),
)

pub bit_or_cut :
    (k q r t s : ℕ)
    → r < 2 ^ k
    → s < 2 ^ k
    → bit_or (q * 2 ^ k + r) (t * 2 ^ k + s) ≡ bit_or q t * 2 ^ k + bit_or r s
bit_or_cut zero q r t s p l = ground (arith, bit_or-zero 0)
bit_or_cut (suc k) q r t s p l = ground (
  arith,
  pow-suc 2 k,
  shift_once q k,
  shift_once t k,
  shift_once (bit_or q t) k,
  bit_or-halves (q * 2 ^ suc k + r) (t * 2 ^ suc k + s),
  bit_or-halves r s,
  bit_or_cut k q (r / 2) t (s / 2) (omega (arith, pow-suc 2 k)) (omega (arith, pow-suc 2 k)),
)

-- A mask of `k` low ones is the remainder by `2 ^ k`.
pub bit_and_ones : (k a : ℕ) → a < 2 ^ k → bit_and a (2 ^ k - 1) ≡ a
bit_and_ones zero a h = ground (arith, bit_and-zero a)
bit_and_ones (suc k) a h = ground (
  arith,
  pow-suc 2 k,
  one-le-pow k 2,
  bit_and-halves a (2 ^ suc k - 1),
  bit_and_ones k (a / 2) (omega (arith, pow-suc 2 k)),
)

-- The same for two numbers given whole.
pub bit_and_at :
    (k a b : ℕ)
    → bit_and a b ≡ bit_and (a / 2 ^ k) (b / 2 ^ k) * 2 ^ k + bit_and (a % 2 ^ k) (b % 2 ^ k)
bit_and_at k a b =
    ground (arith, one-le-pow k 2, bit_and_cut k (a / 2 ^ k) (a % 2 ^ k) (b / 2 ^ k) (b % 2 ^ k))

pub bit_or_at :
    (k a b : ℕ)
    → bit_or a b ≡ bit_or (a / 2 ^ k) (b / 2 ^ k) * 2 ^ k + bit_or (a % 2 ^ k) (b % 2 ^ k)
bit_or_at k a b =
    ground (arith, one-le-pow k 2, bit_or_cut k (a / 2 ^ k) (a % 2 ^ k) (b / 2 ^ k) (b % 2 ^ k))

-- `a & (2 ^ k - 1)`.
pub bit_and_mask : (k a : ℕ) → bit_and a (2 ^ k - 1) ≡ a % 2 ^ k
bit_and_mask k a = ground (
  arith,
  one-le-pow k 2,
  bit_and_cut k (a / 2 ^ k) (a % 2 ^ k) 0 (2 ^ k - 1),
  bit_and-zero (a / 2 ^ k),
  bit_and_ones k (a % 2 ^ k),
)

-- A field of `n` bits from bit `k` on, left in its place.
pub bit_and_field : (k n a : ℕ) → bit_and a ((2 ^ n - 1) * 2 ^ k) ≡ a / 2 ^ k % 2 ^ n * 2 ^ k
bit_and_field k n a = ground (
  arith,
  one-le-pow k 2,
  bit_and_cut k (a / 2 ^ k) (a % 2 ^ k) (2 ^ n - 1) 0,
  bit_and-zero (a % 2 ^ k),
  bit_and_mask n (a / 2 ^ k),
)

-- `|` of fields that do not meet is a sum.
pub bit_or_sum : (k q r : ℕ) → r < 2 ^ k → bit_or (q * 2 ^ k) r ≡ q * 2 ^ k + r
bit_or_sum k q r h =
    ground (arith, one-le-pow k 2, bit_or_cut k q 0 0 r, bit_or-zero q, zero-bit_or r)

-- A field of `n` bits put with `|` into a place that holds zeros.
pub bit_or_hole :
    (k n q d r : ℕ)
    → r < 2 ^ k
    → d < 2 ^ n
    → bit_or (q * 2 ^ n * 2 ^ k + r) (d * 2 ^ k) ≡ (q * 2 ^ n + d) * 2 ^ k + r
bit_or_hole k n q d r p l =
    ground (arith, one-le-pow k 2, bit_or_cut k (q * 2 ^ n) r d 0, bit_or_sum n q d, bit_or-zero r)
