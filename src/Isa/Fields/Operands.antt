-- ===== src/Isa/Fields/Operands.antt =====
-- The operands that `Riscv::execute` and the disassembler take from an opcode, for every
-- instruction.
use system_on_chip_design_pr.Base.{ℕ, ◌*◌, ◌%◌, ◌^◌, ◌≡◌, arith}
use system_on_chip_design_pr.Isa.Inst.{
  Inst, ImmOp, immediate, register, multiply, branch, load, store, csr, system, jump, jal, jalr,
  andi, slli, srli, srai, lui, auipc,
}
use system_on_chip_design_pr.Isa.Fields.{
  rd_field, rs1_field, rs2_field, shamt_field, imm12_field, imm20_field, storeimm_field, bimm_field,
  jimm20_field,
}
use system_on_chip_design_pr.Isa.Fields.Values.{
  rd_value, rs1_value, shamt_value, imm12_value, imm20_value,
}
use system_on_chip_design_pr.Isa.Fields.Encoding.{Arguments, encode, Fit}
use system_on_chip_design_pr.Isa.Fields.RoundTrip.{
  sign_extended, register_fields, multiply_fields, load_fields, csr_fields, store_fields,
  branch_fields, jal_fields,
}

-- The operands of an operation with an immediate: those of a shift, of an upper immediate, which
-- stands above 12 zeros, and of the others, whose immediate is sign-extended.
abbrev pub AreImmediate : ImmOp → Arguments → ℕ → Type 0
AreImmediate slli g x = (rd_field x ≡ g.rd) × (rs1_field x ≡ g.rs1) × (shamt_field x ≡ g.imm)
AreImmediate srli g x = (rd_field x ≡ g.rd) × (rs1_field x ≡ g.rs1) × (shamt_field x ≡ g.imm)
AreImmediate srai g x = (rd_field x ≡ g.rd) × (rs1_field x ≡ g.rs1) × (shamt_field x ≡ g.imm)
AreImmediate lui g x = (rd_field x ≡ g.rd) × (imm20_field x ≡ g.imm * 2 ^ 12)
AreImmediate auipc g x = (rd_field x ≡ g.rd) × (imm20_field x ≡ g.imm * 2 ^ 12)
AreImmediate op g x =
    (rd_field x ≡ g.rd) × (rs1_field x ≡ g.rs1) × (imm12_field x ≡ sign_extended 12 g.imm)

pub immediate_fields :
    (op : ImmOp) (g : Arguments)
    → Fit (immediate op) g
    → AreImmediate op g (encode (immediate op) g)
immediate_fields andi g h = ground (
  arith,
  rd_value (encode (immediate andi) g),
  rs1_value (encode (immediate andi) g),
  imm12_value (encode (immediate andi) g),
)
immediate_fields op g h = ground (
  arith,
  rd_value (encode (immediate op) g),
  rs1_value (encode (immediate op) g),
  shamt_value (encode (immediate op) g),
  imm12_value (encode (immediate op) g),
  imm20_value (encode (immediate op) g),
)

pub jalr_fields :
    (g : Arguments)
    → Fit (jump jalr) g
    → let x = encode (jump jalr) g in
      (rd_field x ≡ g.rd) × (rs1_field x ≡ g.rs1) × (imm12_field x ≡ sign_extended 12 g.imm)
jalr_fields g h = ground (
  arith,
  rd_value (encode (jump jalr) g),
  rs1_value (encode (jump jalr) g),
  imm12_value (encode (jump jalr) g),
)

-- Offsets of jumps and branches are even.
abbrev pub IsEven : Inst → Arguments → Type 0
IsEven (jump jal) g = g.imm % 2 ≡ 0
IsEven (branch op) g = g.imm % 2 ≡ 0
IsEven i g = Unit {0}

-- The fields of the opcode `x` that the instruction uses are the operands that were assembled.
abbrev pub AreOperands : Inst → Arguments → ℕ → Type 0
AreOperands (immediate op) g x = AreImmediate op g x
AreOperands (register op) g x = (rd_field x ≡ g.rd) × (rs1_field x ≡ g.rs1) × (rs2_field x ≡ g.rs2)
AreOperands (multiply op) g x = (rd_field x ≡ g.rd) × (rs1_field x ≡ g.rs1) × (rs2_field x ≡ g.rs2)
AreOperands (jump jal) g x = (rd_field x ≡ g.rd) × (jimm20_field x ≡ sign_extended 21 g.imm)
AreOperands (branch op) g x =
    (rs1_field x ≡ g.rs1) × (rs2_field x ≡ g.rs2) × (bimm_field x ≡ sign_extended 13 g.imm)
AreOperands (store op) g x =
    (rs1_field x ≡ g.rs1) × (rs2_field x ≡ g.rs2) × (storeimm_field x ≡ sign_extended 12 g.imm)
AreOperands (system op) g x = Unit {0}
AreOperands i g x =
    (rd_field x ≡ g.rd) × (rs1_field x ≡ g.rs1) × (imm12_field x ≡ sign_extended 12 g.imm)

-- For every instruction and all operands that fit their fields, with even offsets of jumps and
-- branches: from the encoding of the instruction manual, the masks and shifts take back the
-- registers and the immediate that the instruction uses, the immediate sign-extended from its
-- width.
pub operands-encode :
    (i : Inst) (g : Arguments) → Fit i g → IsEven i g → AreOperands i g (encode i g)
operands-encode (immediate op) g h e = immediate_fields op g h
operands-encode (register op) g h e = register_fields op g h
operands-encode (jump jal) g h e = jal_fields g h e
operands-encode (jump jalr) g h e = jalr_fields g h
operands-encode (branch op) g h e = branch_fields op g h e
operands-encode (load op) g h e = load_fields op g h
operands-encode (store op) g h e = store_fields op g h
operands-encode (multiply op) g h e = multiply_fields op g h
operands-encode (system op) g h e = tt
operands-encode (csr op) g h e = csr_fields op g h
