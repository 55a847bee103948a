-- ===== src/Isa/Fields/Values.antt =====
-- The fields of an opcode as arithmetic.
use system_on_chip_design_pr.Base.{
  ℕ, ◌+◌, ◌-◌, ◌*◌, ◌/◌, ◌%◌, ◌^◌, ◌<◌, ◌≡◌, arith, if◌then◌else◌, ltb,
}
use system_on_chip_design_pr.Base.Bits.{bit_and_mask, bit_and_field, bit_or_hole}
use system_on_chip_design_pr.Isa.Fields.{
  rd_field, rs1_field, rs2_field, shamt_field, imm12_field, imm20_field, storeimm_field, bimm_field,
  jimm20_field, opcode_imm_sign,
}

module _ (x : ℕ) (fits : x < 2 ^ 32) where
  pub rd_value : rd_field x ≡ x / 2 ^ 7 % 32
  unfolding rd_field
  rd_value = omega (arith, bit_and_field 7 5 x)

  pub rs1_value : rs1_field x ≡ x / 2 ^ 15 % 32
  unfolding rs1_field
  rs1_value = omega (arith, bit_and_field 15 5 x)

  pub rs2_value : rs2_field x ≡ x / 2 ^ 20 % 32
  unfolding rs2_field
  rs2_value = omega (arith, bit_and_field 20 5 x)

  pub shamt_value : shamt_field x ≡ x / 2 ^ 20 % 64
  unfolding shamt_field
  shamt_value = ground (arith, bit_and_field 20 6 x)

  pub imm12_value : imm12_field x ≡ x / 2 ^ 20 + x / 2 ^ 31 * (2 ^ 32 - 2 ^ 12)
  unfolding imm12_field
  imm12_value = ground (arith, bit_and_field 20 12 x)

  pub imm20_value : imm20_field x ≡ x / 2 ^ 12 * 2 ^ 12
  unfolding imm20_field
  imm20_value = ground (arith, bit_and_field 12 20 x)

  sign_value : opcode_imm_sign x ≡ (if ltb x (2 ^ 31) then 0 else 0xFFFF_FFFF)
  sign_value = ground (arith, bit_and_mask 1 (x / 2 ^ 31))

  pub storeimm_value :
      storeimm_field x ≡ x / 2 ^ 7 % 32 + x / 2 ^ 25 * 2 ^ 5 + x / 2 ^ 31 * (2 ^ 32 - 2 ^ 12)
  unfolding storeimm_field
  storeimm_value = ground (
    arith,
    sign_value,
    bit_and_mask 5 (x / 2 ^ 7),
    bit_and_mask 7 (x / 2 ^ 25),
    bit_or_hole 5 7 0 (x / 2 ^ 25 % 128) (x / 2 ^ 7 % 32),
    bit_or_hole 12 20 0 (x / 2 ^ 31 * 0xF_FFFF) (x / 2 ^ 25 % 128 * 2 ^ 5 + x / 2 ^ 7 % 32),
  )

  pub bimm_value :
      bimm_field x
      ≡ x / 2 ^ 8 % 16 * 2
        + x / 2 ^ 25 % 64 * 2 ^ 5
        + x / 2 ^ 7 % 2 * 2 ^ 11
        + x / 2 ^ 31 * (2 ^ 32 - 2 ^ 12)
  unfolding bimm_field
  bimm_value = ground (
    arith,
    sign_value,
    bit_and_mask 4 (x / 2 ^ 8),
    bit_and_mask 6 (x / 2 ^ 25),
    bit_and_mask 1 (x / 2 ^ 7),
    bit_or_hole 5 6 0 (x / 2 ^ 25 % 64) (x / 2 ^ 8 % 16 * 2),
    bit_or_hole 11 1 0 (x / 2 ^ 7 % 2) (x / 2 ^ 25 % 64 * 2 ^ 5 + x / 2 ^ 8 % 16 * 2),
    bit_or_hole 12 20 0 (x / 2 ^ 31 * 0xF_FFFF)
        (x / 2 ^ 7 % 2 * 2 ^ 11 + (x / 2 ^ 25 % 64 * 2 ^ 5 + x / 2 ^ 8 % 16 * 2)),
  )

  pub jimm20_value :
      jimm20_field x
      ≡ x / 2 ^ 21 % 1024 * 2
        + x / 2 ^ 20 % 2 * 2 ^ 11
        + x / 2 ^ 12 % 256 * 2 ^ 12
        + x / 2 ^ 31 * (2 ^ 32 - 2 ^ 20)
  unfolding jimm20_field
  jimm20_value = ground (
    arith,
    sign_value,
    bit_and_mask 10 (x / 2 ^ 21),
    bit_and_mask 1 (x / 2 ^ 20),
    bit_and_mask 8 (x / 2 ^ 12),
    bit_or_hole 11 1 0 (x / 2 ^ 20 % 2) (x / 2 ^ 21 % 1024 * 2),
    bit_or_hole 12 8 0 (x / 2 ^ 12 % 256) (x / 2 ^ 20 % 2 * 2 ^ 11 + x / 2 ^ 21 % 1024 * 2),
    bit_or_hole 20 12 0 (x / 2 ^ 31 * 0xFFF)
        (x / 2 ^ 12 % 256 * 2 ^ 12 + (x / 2 ^ 20 % 2 * 2 ^ 11 + x / 2 ^ 21 % 1024 * 2)),
  )
