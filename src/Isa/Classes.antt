-- ===== src/Isa/Classes.antt =====
-- isa_sim/riscv_isa.h: the numbers of `enum eInstructions`, the table `inst_names`, and the macros
-- that tell the group of an opcode. The macro IS_RD_I_INST has an unmatched parenthesis, so that no use
-- of it compiles, and is left out.
pub mod Names
pub mod Groups
use Prim.Native.String.{String}
use system_on_chip_design_pr.Base.{
  ℕ, zero, suc, Bool, ◌||◌, ◌==◌, List, [], ◌∷◌, Option, none, some, bit_and,
}
use system_on_chip_design_pr.Isa.Inst.{
  Inst, immediate, register, jump, branch, load, store, multiply, system, csr, ImmOp, RegOp, MulOp,
  JumpOp, BranchOp, LoadOp, StoreOp, SystemOp, CsrOp, andi, ori, xori, addi, slti, sltiu, slli,
  srli, srai, lui, auipc, add, sub, slt, sltu, xor, or, and, sll, srl, sra, jal, jalr, beq, bne,
  blt, bge, bltu, bgeu, lb, lh, lw, lbu, lhu, lwu, sb, sh, sw, mul, mulh, mulhsu, mulhu, div, divu,
  rem, remu, ecall, ebreak, mret, sret, fence, wfi, csrrw, csrrs, csrrc, csrrwi, csrrsi, csrrci,
}

-- The values of the enumeration.
unfoldable pub enum_inst : Inst → ℕ
enum_inst (immediate andi) = 0
enum_inst (immediate addi) = 1
enum_inst (immediate slti) = 2
enum_inst (immediate sltiu) = 3
enum_inst (immediate ori) = 4
enum_inst (immediate xori) = 5
enum_inst (immediate slli) = 6
enum_inst (immediate srli) = 7
enum_inst (immediate srai) = 8
enum_inst (immediate lui) = 9
enum_inst (immediate auipc) = 10
enum_inst (register add) = 11
enum_inst (register sub) = 12
enum_inst (register slt) = 13
enum_inst (register sltu) = 14
enum_inst (register xor) = 15
enum_inst (register or) = 16
enum_inst (register and) = 17
enum_inst (register sll) = 18
enum_inst (register srl) = 19
enum_inst (register sra) = 20
enum_inst (jump jal) = 21
enum_inst (jump jalr) = 22
enum_inst (branch beq) = 23
enum_inst (branch bne) = 24
enum_inst (branch blt) = 25
enum_inst (branch bge) = 26
enum_inst (branch bltu) = 27
enum_inst (branch bgeu) = 28
enum_inst (load lb) = 29
enum_inst (load lh) = 30
enum_inst (load lw) = 31
enum_inst (load lbu) = 32
enum_inst (load lhu) = 33
enum_inst (load lwu) = 34
enum_inst (store sb) = 35
enum_inst (store sh) = 36
enum_inst (store sw) = 37
enum_inst (system ecall) = 38
enum_inst (system ebreak) = 39
enum_inst (system mret) = 40
enum_inst (system sret) = 41
enum_inst (csr csrrw) = 42
enum_inst (csr csrrs) = 43
enum_inst (csr csrrc) = 44
enum_inst (csr csrrwi) = 45
enum_inst (csr csrrsi) = 46
enum_inst (csr csrrci) = 47
enum_inst (multiply mul) = 48
enum_inst (multiply mulh) = 49
enum_inst (multiply mulhsu) = 50
enum_inst (multiply mulhu) = 51
enum_inst (multiply div) = 52
enum_inst (multiply divu) = 53
enum_inst (multiply rem) = 54
enum_inst (multiply remu) = 55
enum_inst (system fence) = 56
enum_inst (system wfi) = 57

abbrev pub inst_names : List String
inst_names =
    "andi" ∷ "addi" ∷ "slti" ∷ "sltiu" ∷ "ori" ∷ "xori" ∷ "slli" ∷ "srli" ∷ "srai" ∷ "lui" ∷ "auipc"
    ∷ "add" ∷ "sub" ∷ "slt" ∷ "sltu" ∷ "xor" ∷ "or" ∷ "and" ∷ "sll" ∷ "srl" ∷ "sra" ∷ "jal" ∷ "jalr"
    ∷ "beq" ∷ "bne" ∷ "blt" ∷ "bge" ∷ "bltu" ∷ "bgeu" ∷ "lb" ∷ "lh" ∷ "lw" ∷ "lbu" ∷ "lhu" ∷ "lwu"
    ∷ "sb" ∷ "sh" ∷ "sw" ∷ "ecall" ∷ "ebreak" ∷ "mret" ∷ "sret" ∷ "csrw" ∷ "csrs" ∷ "csrc" ∷ "csrwi"
    ∷ "csrsi" ∷ "csrci" ∷ "mul" ∷ "mulh" ∷ "mulhsu" ∷ "mulhu" ∷ "div" ∷ "divu" ∷ "rem" ∷ "remu"
    ∷ "fence" ∷ "wfi" ∷ "" ∷ []

-- The element of the table at a number.
unfoldable pub name_at : List String → ℕ → Option String
name_at [] n = none
name_at (s ∷ ss) zero = some s
name_at (s ∷ ss) (suc n) = name_at ss n

abbrev pub is_load_inst : ℕ → Bool
is_load_inst a = bit_and a 0x7F == 0x03

abbrev pub is_store_inst : ℕ → Bool
is_store_inst a = bit_and a 0x7F == 0x23

abbrev pub is_branch_inst : ℕ → Bool
is_branch_inst a =
    bit_and a 0x7F == 0x6f
    || bit_and a 0x7F == 0x67
    || bit_and a 0x7F == 0x63
    || bit_and a 0xffffffff == 0x73
    || bit_and a 0xffffffff == 0x100073
    || bit_and a 0xffffffff == 0x30200073

abbrev pub is_alu_3r_inst : ℕ → Bool
is_alu_3r_inst a = bit_and a 0x7F == 0x33

abbrev pub is_alu_2ri_inst : ℕ → Bool
is_alu_2ri_inst a = bit_and a 0x7F == 0x13 || bit_and a 0x7F == 0x67

abbrev pub is_cond_branch_2ri_inst : ℕ → Bool
is_cond_branch_2ri_inst a = bit_and a 0x7F == 0x63
