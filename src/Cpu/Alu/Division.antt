-- ===== src/Cpu/Alu/Division.antt =====
-- The division instructions.
use system_on_chip_design_pr.Base.{
  ℕ, ◌+◌, ◌-◌, ◌*◌, ◌/◌, ◌%◌, ◌^◌, ◌<◌, ◌≤◌, ◌≡◌, ap, arith, ◌==◌, neg32, is_neg, if◌then◌else◌,
  Bool-cases, inl, inr,
}
use system_on_chip_design_pr.Isa.Inst.{div, divu, rem, remu}
use system_on_chip_design_pr.Cpu.Alu.{alu_multiply, signed_quotient, signed_remainder}

divu-remu :
    (a b : ℕ)
    → a < 2 ^ 32
    → b < 2 ^ 32
    → (alu_multiply divu a b * b + alu_multiply remu a b) % 2 ^ 32 ≡ a
unfolding alu_multiply
divu-remu a b p q = ground arith

-- The products of a negated factor, with no subtraction.
neg-mul : (q b : ℕ) → q < 2 ^ 32 → neg32 q * b + q * b ≡ (if q == 0 then 0 else 2 ^ 32 * b)
neg-mul q b h = ground (arith, ap (λ (t : ℕ). t * b) (negated q h))
  where
    negated : (q : ℕ) → q < 2 ^ 32 → neg32 q + q ≡ (if q == 0 then 0 else 2 ^ 32)
    negated q h = ground arith

mul_complement : (q n : ℕ) → n ≤ 2 ^ 32 → q * (2 ^ 32 - n) + q * n ≡ q * 2 ^ 32
mul_complement q n h =
    let e : 2 ^ 32 - n + n ≡ 2 ^ 32 = omega arith in omega (arith, ap (λ (t : ℕ). q * t) e)

-- The three mixed cases of signs, for a quotient and a remainder of magnitudes.
module _ (m n q r : ℕ) (fits : m ≤ 2 ^ 31) (pos : 0 < m) (div_mod : q * n + r ≡ m) (small : r < n)
    (bound : n ≤ 2 ^ 31) where
  quotient-le : q ≤ m
  quotient-le = grind arith

  negative_positive : (neg32 q * n + neg32 r) % 2 ^ 32 ≡ 2 ^ 32 - m
  negative_positive = ground (arith, quotient-le, neg-mul q n)

  positive_negative : (neg32 q * (2 ^ 32 - n) + r) % 2 ^ 32 ≡ m
  positive_negative = ground (arith, quotient-le, neg-mul q (2 ^ 32 - n), mul_complement q n)

  negative_negative : (q * (2 ^ 32 - n) + neg32 r) % 2 ^ 32 ≡ 2 ^ 32 - m
  negative_negative = ground (arith, quotient-le, mul_complement q n)

div_mod_lem : (m n : ℕ) → m / n * n + m % n ≡ m
div_mod_lem m n = omega arith

-- The identity for signed operands, apart from a zero divisor.
signed_identity :
    (a b : ℕ)
    → a < 2 ^ 32
    → b < 2 ^ 32
    → 0 < b
    → 0 < a
    → (signed_quotient a b * b + signed_remainder a b) % 2 ^ 32 ≡ a
signed_identity a b p l pos posa = elim (Bool-cases (is_neg a)) [
  | inl na ↦ elim (Bool-cases (is_neg b)) [
    | inl nb ↦
        rw (na, nb)
          (ground (
            arith,
            negative_negative (neg32 a) (neg32 b) (neg32 a / neg32 b) (neg32 a % neg32 b),
            div_mod_lem (neg32 a) (neg32 b),
          ))
    | inr nb ↦
        rw (na, nb)
          (ground (
            arith,
            negative_positive (neg32 a) b (neg32 a / b) (neg32 a % b),
            div_mod_lem (neg32 a) b,
          ))
  ]
  | inr na ↦ elim (Bool-cases (is_neg b)) [
    | inl nb ↦
        rw (na, nb)
          (ground (
            arith,
            positive_negative a (neg32 b) (a / neg32 b) (a % neg32 b),
            div_mod_lem a (neg32 b),
          ))
    | inr nb ↦ rw (na, nb) (ground (arith, div_mod_lem a b))
  ]
]

div-rem :
    (a b : ℕ)
    → a < 2 ^ 32
    → b < 2 ^ 32
    → (alu_multiply div a b * b + alu_multiply rem a b) % 2 ^ 32 ≡ a
unfolding alu_multiply
div-rem a b p q = ground (arith, signed_identity a b)

-- For all 32-bit operands, a zero divisor and the overflow included, the quotient and the remainder
-- give the dividend back, modulo 2^32: the signed ones, and the unsigned ones.
pub division-identity :
    (a b : ℕ)
    → a < 2 ^ 32
    → b < 2 ^ 32
    → ((alu_multiply div a b * b + alu_multiply rem a b) % 2 ^ 32 ≡ a)
      × ((alu_multiply divu a b * b + alu_multiply remu a b) % 2 ^ 32 ≡ a)
division-identity a b p q = (div-rem a b p q, divu-remu a b p q)
