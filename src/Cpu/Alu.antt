-- ===== src/Cpu/Alu.antt =====
-- The values that the arithmetic branches of `Riscv::execute` compute, in isa_sim/riscv.cpp.
-- Sums, differences and products wrap at 32 bits, signed ones too. A shift by 32 or more has no
-- meaning in C++.
pub mod Division
use system_on_chip_design_pr.Base.{
  ℕ, ◌+◌, ◌-◌, ◌*◌, ◌/◌, ◌%◌, ◌^◌, Bool, true, false, ◌&&◌, bit_and, bit_or, bit_xor, if◌then◌else◌,
  ltb, ◌==◌, shl32, shr32, sar32, add32, sub32, neg32, is_neg, slt32,
}
use system_on_chip_design_pr.Outcome.{Outcome, ok, undefined}
use system_on_chip_design_pr.Isa.Inst.{
  ImmOp, andi, ori, xori, addi, slti, sltiu, slli, srli, srai, lui, auipc, RegOp, add, sub, slt,
  sltu, xor, or, and, sll, srl, sra, MulOp, mul, mulh, mulhsu, mulhu, div, divu, rem, remu,
  BranchOp, beq, bne, blt, bge, bltu, bgeu,
}

abbrev pub as_number : Bool → ℕ
as_number b = if b then 1 else 0

abbrev pub shift_by : (ℕ → ℕ → ℕ) → ℕ → ℕ → Outcome ℕ
shift_by shift a n = if ltb n 32 then ok (shift a n) else undefined

unfoldable pub alu_immediate : ImmOp → (reg_rs1 imm12 imm20 shamt pc : ℕ) → Outcome ℕ
alu_immediate andi reg_rs1 imm12 imm20 shamt pc = ok (bit_and reg_rs1 imm12)
alu_immediate ori reg_rs1 imm12 imm20 shamt pc = ok (bit_or reg_rs1 imm12)
alu_immediate xori reg_rs1 imm12 imm20 shamt pc = ok (bit_xor reg_rs1 imm12)
alu_immediate addi reg_rs1 imm12 imm20 shamt pc = ok (add32 reg_rs1 imm12)
alu_immediate slti reg_rs1 imm12 imm20 shamt pc = ok (as_number (slt32 reg_rs1 imm12))
alu_immediate sltiu reg_rs1 imm12 imm20 shamt pc = ok (as_number (ltb reg_rs1 imm12))
alu_immediate slli reg_rs1 imm12 imm20 shamt pc = shift_by shl32 reg_rs1 shamt
alu_immediate srli reg_rs1 imm12 imm20 shamt pc = shift_by shr32 reg_rs1 shamt
alu_immediate srai reg_rs1 imm12 imm20 shamt pc = shift_by sar32 reg_rs1 shamt
alu_immediate lui reg_rs1 imm12 imm20 shamt pc = ok imm20
alu_immediate auipc reg_rs1 imm12 imm20 shamt pc = ok (add32 imm20 pc)

unfoldable pub alu_register : RegOp → ℕ → ℕ → Outcome ℕ
alu_register add a b = ok (add32 a b)
alu_register sub a b = ok (sub32 a b)
alu_register slt a b = ok (as_number (slt32 a b))
alu_register sltu a b = ok (as_number (ltb a b))
alu_register xor a b = ok (bit_xor a b)
alu_register or a b = ok (bit_or a b)
alu_register and a b = ok (bit_and a b)
alu_register sll a b = shift_by shl32 a b
alu_register srl a b = shift_by shr32 a b
alu_register sra a b = shift_by sar32 a b

unfoldable pub branch_taken : BranchOp → ℕ → ℕ → Bool
branch_taken beq a b = a == b
branch_taken bne a b = if a == b then false else true
branch_taken blt a b = slt32 a b
branch_taken bge a b = if slt32 a b then false else true
branch_taken bltu a b = ltb a b
branch_taken bgeu a b = if ltb a b then false else true

-- `(long long)(int)a`, as a 64-bit pattern.
abbrev pub sext64 : ℕ → ℕ
sext64 a = if is_neg a then a + (2 ^ 64 - 2 ^ 32) else a

-- `(int)(res >> 32)` of the product of two 64-bit patterns.
abbrev pub high_word : ℕ → ℕ → ℕ
high_word a b = a * b % 2 ^ 64 / 2 ^ 32

-- The absolute value of `(signed)a`.
abbrev pub magnitude : ℕ → ℕ
magnitude a = if is_neg a then neg32 a else a

abbrev pub differ_in_sign : ℕ → ℕ → Bool
differ_in_sign a b = if is_neg a then (if is_neg b then false else true) else is_neg b

-- `(signed)a / (signed)b` and `(signed)a % (signed)b` for b other than 0: C++ truncates towards
-- zero, and the remainder has the sign of `a`.
abbrev pub signed_quotient : ℕ → ℕ → ℕ
signed_quotient a b = let q = magnitude a / magnitude b in if differ_in_sign a b then neg32 q else q

abbrev pub signed_remainder : ℕ → ℕ → ℕ
signed_remainder a b = let r = magnitude a % magnitude b in if is_neg a then neg32 r else r

abbrev pub int32_min : ℕ
int32_min = 0x8000_0000

abbrev pub minus_one : ℕ
minus_one = 0xFFFF_FFFF

unfoldable pub alu_multiply : MulOp → ℕ → ℕ → ℕ
alu_multiply mul a b = a * b % 2 ^ 32
alu_multiply mulh a b = high_word (sext64 a) (sext64 b)
alu_multiply mulhsu a b = high_word (sext64 a) b
alu_multiply mulhu a b = high_word a b
alu_multiply div a b =
    if a == int32_min && b == minus_one
    then a
    else if b == 0
    then minus_one
    else signed_quotient a b
alu_multiply divu a b = if b == 0 then minus_one else a / b
alu_multiply rem a b =
    if a == int32_min && b == minus_one then 0 else if b == 0 then a else signed_remainder a b
alu_multiply remu a b = if b == 0 then a else a % b
