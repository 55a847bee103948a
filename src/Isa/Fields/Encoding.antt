-- ===== src/Isa/Fields/Encoding.antt =====
-- The instruction formats of the RISC-V manual (doc/riscv_isa_spec.pdf), as an assembler
-- independent of the masks and shifts of isa_sim/riscv_isa.h.
use system_on_chip_design_pr.Base.{ℕ, ◌+◌, ◌*◌, ◌/◌, ◌%◌, ◌^◌, ◌<◌}
use system_on_chip_design_pr.Isa.Inst.{
  Inst, immediate, register, jump, branch, load, store, multiply, system, csr, ImmOp, RegOp, MulOp,
  BranchOp, LoadOp, StoreOp, SystemOp, CsrOp,
}
use system_on_chip_design_pr.Isa.Inst.{
  andi, ori, xori, addi, slti, sltiu, slli, srli, srai, lui, auipc, add, sub, slt, sltu, xor, or,
  and, sll, srl, sra, jal, jalr, beq, bne, blt, bge, bltu, bgeu, lb, lh, lw, lbu, lhu, lwu, sb, sh,
  sw, mul, mulh, mulhsu, mulhu, div, divu, rem, remu, ecall, ebreak, mret, sret, fence, wfi, csrrw,
  csrrs, csrrc, csrrwi, csrrsi, csrrci,
}

-- The operands of an instruction in assembly. `imm` is the immediate as the number of its bits: 12
-- for the I and S formats, 13 for B, 20 for U, 21 for J, 5 for a shift.
pub record Arguments : Type 0 where
  pub rd : ℕ
  pub rs1 : ℕ
  pub rs2 : ℕ
  pub imm : ℕ

abbrev pub r_format : (funct7 funct3 opcode : ℕ) → Arguments → ℕ
r_format funct7 funct3 opcode g =
    funct7 * 2 ^ 25 + g.rs2 * 2 ^ 20 + g.rs1 * 2 ^ 15 + funct3 * 2 ^ 12 + g.rd * 2 ^ 7 + opcode

abbrev pub shift_format : (funct7 funct3 : ℕ) → Arguments → ℕ
shift_format funct7 funct3 g =
    funct7 * 2 ^ 25 + g.imm * 2 ^ 20 + g.rs1 * 2 ^ 15 + funct3 * 2 ^ 12 + g.rd * 2 ^ 7 + 0x13

abbrev pub i_format : (funct3 opcode : ℕ) → Arguments → ℕ
i_format funct3 opcode g = g.imm * 2 ^ 20 + g.rs1 * 2 ^ 15 + funct3 * 2 ^ 12 + g.rd * 2 ^ 7 + opcode

abbrev pub s_format : (funct3 : ℕ) → Arguments → ℕ
s_format funct3 g =
    g.imm / 32 * 2 ^ 25
    + g.rs2 * 2 ^ 20
    + g.rs1 * 2 ^ 15
    + funct3 * 2 ^ 12
    + g.imm % 32 * 2 ^ 7
    + 0x23

abbrev pub b_format : (funct3 : ℕ) → Arguments → ℕ
b_format funct3 g =
    g.imm / 2 ^ 12 * 2 ^ 31
    + g.imm / 2 ^ 5 % 64 * 2 ^ 25
    + g.rs2 * 2 ^ 20
    + g.rs1 * 2 ^ 15
    + funct3 * 2 ^ 12
    + g.imm / 2 % 16 * 2 ^ 8
    + g.imm / 2 ^ 11 % 2 * 2 ^ 7
    + 0x63

abbrev pub u_format : (opcode : ℕ) → Arguments → ℕ
u_format opcode g = g.imm * 2 ^ 12 + g.rd * 2 ^ 7 + opcode

abbrev pub j_format : Arguments → ℕ
j_format g =
    g.imm / 2 ^ 20 * 2 ^ 31
    + g.imm / 2 % 1024 * 2 ^ 21
    + g.imm / 2 ^ 11 % 2 * 2 ^ 20
    + g.imm / 2 ^ 12 % 256 * 2 ^ 12
    + g.rd * 2 ^ 7
    + 0x6f

abbrev pub encode_immediate : ImmOp → Arguments → ℕ
encode_immediate addi g = i_format 0 0x13 g
encode_immediate slti g = i_format 2 0x13 g
encode_immediate sltiu g = i_format 3 0x13 g
encode_immediate xori g = i_format 4 0x13 g
encode_immediate ori g = i_format 6 0x13 g
encode_immediate andi g = i_format 7 0x13 g
encode_immediate slli g = shift_format 0 1 g
encode_immediate srli g = shift_format 0 5 g
encode_immediate srai g = shift_format 0x20 5 g
encode_immediate lui g = u_format 0x37 g
encode_immediate auipc g = u_format 0x17 g

abbrev pub encode_register : RegOp → Arguments → ℕ
encode_register add g = r_format 0 0 0x33 g
encode_register sub g = r_format 0x20 0 0x33 g
encode_register sll g = r_format 0 1 0x33 g
encode_register slt g = r_format 0 2 0x33 g
encode_register sltu g = r_format 0 3 0x33 g
encode_register xor g = r_format 0 4 0x33 g
encode_register srl g = r_format 0 5 0x33 g
encode_register sra g = r_format 0x20 5 0x33 g
encode_register or g = r_format 0 6 0x33 g
encode_register and g = r_format 0 7 0x33 g

abbrev pub encode_multiply : MulOp → Arguments → ℕ
encode_multiply mul g = r_format 1 0 0x33 g
encode_multiply mulh g = r_format 1 1 0x33 g
encode_multiply mulhsu g = r_format 1 2 0x33 g
encode_multiply mulhu g = r_format 1 3 0x33 g
encode_multiply div g = r_format 1 4 0x33 g
encode_multiply divu g = r_format 1 5 0x33 g
encode_multiply rem g = r_format 1 6 0x33 g
encode_multiply remu g = r_format 1 7 0x33 g

abbrev pub encode_branch : BranchOp → Arguments → ℕ
encode_branch beq g = b_format 0 g
encode_branch bne g = b_format 1 g
encode_branch blt g = b_format 4 g
encode_branch bge g = b_format 5 g
encode_branch bltu g = b_format 6 g
encode_branch bgeu g = b_format 7 g

abbrev pub encode_load : LoadOp → Arguments → ℕ
encode_load lb g = i_format 0 0x03 g
encode_load lh g = i_format 1 0x03 g
encode_load lw g = i_format 2 0x03 g
encode_load lbu g = i_format 4 0x03 g
encode_load lhu g = i_format 5 0x03 g
encode_load lwu g = i_format 6 0x03 g

abbrev pub encode_store : StoreOp → Arguments → ℕ
encode_store sb g = s_format 0 g
encode_store sh g = s_format 1 g
encode_store sw g = s_format 2 g

-- The words of the manual; `fence` with all its fields 0.
abbrev pub encode_system : SystemOp → ℕ
encode_system ecall = 0x73
encode_system ebreak = 2 ^ 20 + 0x73
encode_system mret = 0x18 * 2 ^ 25 + 2 * 2 ^ 20 + 0x73
encode_system sret = 0x08 * 2 ^ 25 + 2 * 2 ^ 20 + 0x73
encode_system fence = 0x0f
encode_system wfi = 0x08 * 2 ^ 25 + 5 * 2 ^ 20 + 0x73

-- The immediate forms have the unsigned immediate in the place of `rs1`, and all have the number
-- of the register as their immediate.
abbrev pub encode_csr : CsrOp → Arguments → ℕ
encode_csr csrrw g = i_format 1 0x73 g
encode_csr csrrs g = i_format 2 0x73 g
encode_csr csrrc g = i_format 3 0x73 g
encode_csr csrrwi g = i_format 5 0x73 g
encode_csr csrrsi g = i_format 6 0x73 g
encode_csr csrrci g = i_format 7 0x73 g

abbrev pub encode : Inst → Arguments → ℕ
encode (immediate op) g = encode_immediate op g
encode (register op) g = encode_register op g
encode (jump jal) g = j_format g
encode (jump jalr) g = i_format 0 0x67 g
encode (branch op) g = encode_branch op g
encode (load op) g = encode_load op g
encode (store op) g = encode_store op g
encode (multiply op) g = encode_multiply op g
encode (system op) g = encode_system op
encode (csr op) g = encode_csr op g

-- The number of bits of the immediate.
abbrev pub imm_bits : Inst → ℕ
imm_bits (immediate slli) = 5
imm_bits (immediate srli) = 5
imm_bits (immediate srai) = 5
imm_bits (immediate lui) = 20
imm_bits (immediate auipc) = 20
imm_bits (jump jal) = 21
imm_bits (branch op) = 13
imm_bits _ = 12

-- Register numbers and the immediate fit their fields.
pub record Fit (i : Inst) (g : Arguments) : Type 0 where
  pub rd_fits : g.rd < 32
  pub rs1_fits : g.rs1 < 32
  pub rs2_fits : g.rs2 < 32
  pub imm_fits : g.imm < 2 ^ imm_bits i
