-- ===== src/Isa/Fields.antt =====
-- isa_sim/riscv_isa.h, lines 12 to 37, and the head of `Riscv::execute`: the fields of an opcode.
-- Signed immediates are 32-bit patterns.
pub mod Values
pub mod Encoding
pub mod RoundTrip
pub mod Operands
use system_on_chip_design_pr.Base.{
  ℕ, ◌+◌, ◌-◌, ◌*◌, ◌/◌, ◌%◌, ◌^◌, bit_and, bit_or, shr32, shl32, sar32, neg32,
}

-- `OPCODE_MAKE_MASK(a, b)`: the ones from bit `b` up to bit `a`.
abbrev pub opcode_make_mask : ℕ → ℕ → ℕ
opcode_make_mask a b = 2 ^ (a + 1) - 2 ^ b

abbrev pub opcode_shift_mask : ℕ → ℕ → ℕ → ℕ
opcode_shift_mask x s n = bit_and (shr32 x s) (2 ^ n - 1)

-- `-((x >> 31) & 1)`: all ones for a set sign bit.
abbrev pub opcode_imm_sign : ℕ → ℕ
opcode_imm_sign x = neg32 (bit_and (shr32 x 31) 1)

unfoldable pub rd_field : ℕ → ℕ
rd_field opcode = shr32 (bit_and opcode (opcode_make_mask 11 7)) 7

unfoldable pub rs1_field : ℕ → ℕ
rs1_field opcode = shr32 (bit_and opcode (opcode_make_mask 19 15)) 15

unfoldable pub rs2_field : ℕ → ℕ
rs2_field opcode = shr32 (bit_and opcode (opcode_make_mask 24 20)) 20

unfoldable pub shamt_field : ℕ → ℕ
shamt_field opcode = sar32 (bit_and opcode (opcode_make_mask 25 20)) 20

unfoldable pub imm12_field : ℕ → ℕ
imm12_field opcode = sar32 (bit_and opcode (opcode_make_mask 31 20)) 20

-- `imm20 = typeu_imm << 12`.
unfoldable pub imm20_field : ℕ → ℕ
imm20_field opcode = shl32 (sar32 (bit_and opcode (opcode_make_mask 31 12)) 12) 12

-- `OPCODE_STYPE_IMM`.
unfoldable pub storeimm_field : ℕ → ℕ
storeimm_field x =
    bit_or (bit_or (opcode_shift_mask x 7 5) (shl32 (opcode_shift_mask x 25 7) 5))
      (shl32 (opcode_imm_sign x) 12)

-- `OPCODE_SBTYPE_IMM`.
unfoldable pub bimm_field : ℕ → ℕ
bimm_field x =
    bit_or
      (bit_or (bit_or (shl32 (opcode_shift_mask x 8 4) 1) (shl32 (opcode_shift_mask x 25 6) 5))
        (shl32 (opcode_shift_mask x 7 1) 11))
      (shl32 (opcode_imm_sign x) 12)

-- `OPCODE_UJTYPE_IMM`.
unfoldable pub jimm20_field : ℕ → ℕ
jimm20_field x =
    bit_or
      (bit_or (bit_or (shl32 (opcode_shift_mask x 21 10) 1) (shl32 (opcode_shift_mask x 20 1) 11))
        (shl32 (opcode_shift_mask x 12 8) 12))
      (shl32 (opcode_imm_sign x) 20)
