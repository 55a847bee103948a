-- ===== src/Isa/Fields/RoundTrip.antt =====
-- The fields that `Riscv::execute` extracts are those that were assembled.
use system_on_chip_design_pr.Base.{ℕ, ◌+◌, ◌-◌, ◌%◌, ◌^◌, ◌≡◌, arith, if◌then◌else◌, ltb}
use system_on_chip_design_pr.Isa.Inst.{
  RegOp, MulOp, BranchOp, LoadOp, StoreOp, CsrOp, register, multiply, branch, load, store, csr,
  jump, jal, add, mul, beq, lb, sb, csrrw,
}
use system_on_chip_design_pr.Isa.Fields.{
  rd_field, rs1_field, rs2_field, imm12_field, storeimm_field, bimm_field, jimm20_field,
}
use system_on_chip_design_pr.Isa.Fields.Values.{
  rd_value, rs1_value, rs2_value, imm12_value, storeimm_value, bimm_value, jimm20_value,
}
use system_on_chip_design_pr.Isa.Fields.Encoding.{Arguments, encode, Fit}

-- An immediate of `n` bits widened to 32 by its sign.
abbrev pub sign_extended : ℕ → ℕ → ℕ
sign_extended n imm = if ltb imm (2 ^ (n - 1)) then imm else imm + (2 ^ 32 - 2 ^ n)

-- From the encoding of a register operation whose operands fit, the masks and shifts take back
-- `rd`, `rs1` and `rs2`.
pub register_fields :
    (op : RegOp) (g : Arguments)
    → Fit (register op) g
    → let x = encode (register op) g in
      (rd_field x ≡ g.rd) × (rs1_field x ≡ g.rs1) × (rs2_field x ≡ g.rs2)
register_fields add g h = ground (
  arith,
  rd_value (encode (register add) g),
  rs1_value (encode (register add) g),
  rs2_value (encode (register add) g),
)
register_fields op g h = ground (
  arith,
  rd_value (encode (register op) g),
  rs1_value (encode (register op) g),
  rs2_value (encode (register op) g),
)

-- From the encoding of a multiplication or division whose operands fit, they take back `rd`,
-- `rs1` and `rs2`.
pub multiply_fields :
    (op : MulOp) (g : Arguments)
    → Fit (multiply op) g
    → let x = encode (multiply op) g in
      (rd_field x ≡ g.rd) × (rs1_field x ≡ g.rs1) × (rs2_field x ≡ g.rs2)
multiply_fields mul g h = ground (
  arith,
  rd_value (encode (multiply mul) g),
  rs1_value (encode (multiply mul) g),
  rs2_value (encode (multiply mul) g),
)
multiply_fields op g h = ground (
  arith,
  rd_value (encode (multiply op) g),
  rs1_value (encode (multiply op) g),
  rs2_value (encode (multiply op) g),
)

-- From the encoding of a load whose operands fit, they take back `rd`, `rs1` and the offset,
-- sign-extended from 12 bits.
pub load_fields :
    (op : LoadOp) (g : Arguments)
    → Fit (load op) g
    → let x = encode (load op) g in
      (rd_field x ≡ g.rd) × (rs1_field x ≡ g.rs1) × (imm12_field x ≡ sign_extended 12 g.imm)
load_fields lb g h = ground (
  arith,
  rd_value (encode (load lb) g),
  rs1_value (encode (load lb) g),
  imm12_value (encode (load lb) g),
)
load_fields op g h = ground (
  arith,
  rd_value (encode (load op) g),
  rs1_value (encode (load op) g),
  imm12_value (encode (load op) g),
)

-- From the encoding of an access to a control register whose operands fit, they take back `rd`,
-- `rs1` and the register's number, sign-extended from 12 bits.
pub csr_fields :
    (op : CsrOp) (g : Arguments)
    → Fit (csr op) g
    → let x = encode (csr op) g in
      (rd_field x ≡ g.rd) × (rs1_field x ≡ g.rs1) × (imm12_field x ≡ sign_extended 12 g.imm)
csr_fields csrrw g h = ground (
  arith,
  rd_value (encode (csr csrrw) g),
  rs1_value (encode (csr csrrw) g),
  imm12_value (encode (csr csrrw) g),
)
csr_fields op g h = ground (
  arith,
  rd_value (encode (csr op) g),
  rs1_value (encode (csr op) g),
  imm12_value (encode (csr op) g),
)

-- From the encoding of a store whose operands fit, they take back `rs1`, `rs2` and the offset,
-- sign-extended from 12 bits.
pub store_fields :
    (op : StoreOp) (g : Arguments)
    → Fit (store op) g
    → let x = encode (store op) g in
      (rs1_field x ≡ g.rs1) × (rs2_field x ≡ g.rs2) × (storeimm_field x ≡ sign_extended 12 g.imm)
store_fields sb g h = ground (
  arith,
  rs1_value (encode (store sb) g),
  rs2_value (encode (store sb) g),
  storeimm_value (encode (store sb) g),
)
store_fields op g h = ground (
  arith,
  rs1_value (encode (store op) g),
  rs2_value (encode (store op) g),
  storeimm_value (encode (store op) g),
)

-- From the encoding of a branch to an even offset whose operands fit, they take back `rs1`, `rs2`
-- and the offset, sign-extended from 13 bits.
pub branch_fields :
    (op : BranchOp) (g : Arguments)
    → Fit (branch op) g
    → g.imm % 2 ≡ 0
    → let x = encode (branch op) g in
      (rs1_field x ≡ g.rs1) × (rs2_field x ≡ g.rs2) × (bimm_field x ≡ sign_extended 13 g.imm)
branch_fields beq g h e = ground (
  arith,
  rs1_value (encode (branch beq) g),
  rs2_value (encode (branch beq) g),
  bimm_value (encode (branch beq) g),
)
branch_fields op g h e = ground (
  arith,
  rs1_value (encode (branch op) g),
  rs2_value (encode (branch op) g),
  bimm_value (encode (branch op) g),
)

-- From the encoding of `jal` to an even offset whose operands fit, they take back `rd` and the
-- offset, sign-extended from 21 bits.
pub jal_fields :
    (g : Arguments)
    → Fit (jump jal) g
    → g.imm % 2 ≡ 0
    → let x = encode (jump jal) g in (rd_field x ≡ g.rd) × (jimm20_field x ≡ sign_extended 21 g.imm)
jal_fields g h e =
    ground (arith, rd_value (encode (jump jal) g), jimm20_value (encode (jump jal) g))
