-- ===== src/Base/Bits/Step.antt =====
-- One equation for the lowest binary digit of each native bit operation.
use Prim.Native.Nat.{
  ℕ, zero, suc, ◌+◌, ◌*◌, ◌/◌, ◌%◌, ◌≤◌, ◌<◌, min, max, bit_and, bit_or, bit_xor, digits,
  bit_and-bitwise, bit_or-bitwise, bit_xor-bitwise, differ,
}
use mathlib.Core.Path.{◌≡◌, refl}
use native.Mathlib.Omega.{arith}

module _ (z : ℕ → ℕ) (f : ℕ → ℕ → ℕ) where
  -- More fuel than the first number is as good as the number itself.
  enough : (n m x y : ℕ) → x ≤ n → x ≤ m → digits z f n x y ≡ digits z f m x y
  enough zero zero x y p q = refl
  enough zero (suc m) zero y p q = refl
  enough zero (suc m) (suc x) y p q = absurd (omega arith)
  enough (suc n) zero zero y p q = refl
  enough (suc n) zero (suc x) y p q = absurd (omega arith)
  enough (suc n) (suc m) zero y p q = refl
  enough (suc n) (suc m) (suc x) y p q =
      rw (enough n m (suc x / 2) (y / 2) (omega arith) (omega arith))

  -- One digit at a time, for a first number that is not zero.
  bitwise-suc :
      (x y : ℕ)
      → digits z f (suc x) (suc x) y
        ≡ digits z f (suc x / 2) (suc x / 2) (y / 2) * 2 + f (suc x % 2) (y % 2)
  bitwise-suc x y = rw (enough x (suc x / 2) (suc x / 2) (y / 2) (omega arith) (omega arith))

abbrev pub xor_digit : ℕ → ℕ → ℕ
xor_digit x y = (x + y) % 2

differ_digit : (x y : ℕ) → x < 2 → y < 2 → differ x y ≡ xor_digit x y
differ_digit zero y p q = omega arith
differ_digit (suc zero) zero p q = refl
differ_digit (suc zero) (suc zero) p q = refl
differ_digit (suc zero) (suc (suc y)) p q = absurd (omega arith)
differ_digit (suc (suc x)) y p q = absurd (omega arith)

pub bit_and-halves : (x y : ℕ) → bit_and x y ≡ bit_and (x / 2) (y / 2) * 2 + min (x % 2) (y % 2)
bit_and-halves zero y = simp bit_and-bitwise (omega arith)
bit_and-halves (suc x) y = simp bit_and-bitwise (bitwise-suc (λ d. 0) min x y)

pub bit_or-halves : (x y : ℕ) → bit_or x y ≡ bit_or (x / 2) (y / 2) * 2 + max (x % 2) (y % 2)
bit_or-halves zero y = simp bit_or-bitwise (omega arith)
bit_or-halves (suc x) y = simp bit_or-bitwise (bitwise-suc (λ d. d) max x y)

pub bit_xor-halves :
    (x y : ℕ) → bit_xor x y ≡ bit_xor (x / 2) (y / 2) * 2 + xor_digit (x % 2) (y % 2)
bit_xor-halves zero y = simp bit_xor-bitwise (omega arith)
bit_xor-halves (suc x) y =
    simp (← differ_digit (suc x % 2) (y % 2) (omega arith) (omega arith), bit_xor-bitwise)
      (bitwise-suc (λ d. d) differ x y)
