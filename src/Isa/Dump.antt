-- ===== src/Isa/Dump.antt =====
-- `riscv_inst_decode` of isa_sim/riscv_inst_dump.cpp: the text of an instruction. Its chain of tests
-- is that of `Riscv::execute`, in the same order, so both share `decode`.
pub mod Length
pub mod Listing
use Prim.Native.String.{String}
use system_on_chip_design_pr.Base.{ℕ, Bool, true, false, List, [], ◌∷◌, ◌++◌, Option, none, some}
use system_on_chip_design_pr.Base.Text.{Text, codes, hex_digits, hexadecimal, decimal}
use system_on_chip_design_pr.Isa.Inst.{
  Inst, immediate, register, jump, branch, load, store, multiply, system, csr, ImmOp, RegOp, MulOp,
  BranchOp, LoadOp, StoreOp, SystemOp, CsrOp, andi, ori, xori, addi, slti, sltiu, slli, srli, srai,
  lui, auipc, add, sub, slt, sltu, xor, or, and, sll, srl, sra, jal, jalr, beq, bne, blt, bge, bltu,
  bgeu, lb, lh, lw, lbu, lhu, lwu, sb, sh, sw, mul, mulh, mulhsu, mulhu, div, divu, rem, remu,
  ecall, ebreak, mret, sret, fence, wfi, csrrw, csrrs, csrrc, csrrwi, csrrsi, csrrci,
}
use system_on_chip_design_pr.Isa.Decode.{decode}
use system_on_chip_design_pr.Isa.Fields.{
  rd_field, rs1_field, rs2_field, shamt_field, imm12_field, imm20_field, storeimm_field, bimm_field,
  jimm20_field,
}

-- The parts of a format string with their arguments: text, `%08x`, `%x` and `%d`.
pub data Piece : Type 0 where
  text : String → Piece
  address : ℕ → Piece
  hex : ℕ → Piece
  dec : ℕ → Piece

unfoldable pub print_piece : Piece → Text
print_piece (text s) = codes s
print_piece (address n) = hex_digits 8 n
print_piece (hex n) = hexadecimal n
print_piece (dec n) = decimal n

unfoldable pub sprintf : List Piece → Text
sprintf [] = []
sprintf (p ∷ ps) = print_piece p ++ sprintf ps

abbrev pub immediate_name : ImmOp → String
immediate_name andi = "andi"
immediate_name ori = "ori"
immediate_name xori = "xori"
immediate_name addi = "addi"
immediate_name slti = "slti"
immediate_name sltiu = "sltiu"
immediate_name slli = "slli"
immediate_name srli = "srli"
immediate_name srai = "srai"
immediate_name lui = "lui"
immediate_name auipc = "auipc"

abbrev pub register_name : RegOp → String
register_name add = "add"
register_name sub = "sub"
register_name slt = "slt"
register_name sltu = "sltu"
register_name xor = "xor"
register_name or = "or"
register_name and = "and"
register_name sll = "sll"
register_name srl = "srl"
register_name sra = "sra"

abbrev pub branch_name : BranchOp → String
branch_name beq = "beq"
branch_name bne = "bne"
branch_name blt = "blt"
branch_name bge = "bge"
branch_name bltu = "bltu"
branch_name bgeu = "bgeu"

abbrev pub load_name : LoadOp → String
load_name lb = "lb"
load_name lh = "lh"
load_name lw = "lw"
load_name lbu = "lbu"
load_name lhu = "lhu"
load_name lwu = "lwu"

abbrev pub store_name : StoreOp → String
store_name sb = "sb"
store_name sh = "sh"
store_name sw = "sw"

abbrev pub multiply_name : MulOp → String
multiply_name mul = "mul"
multiply_name mulh = "mulh"
multiply_name mulhsu = "mulhsu"
multiply_name mulhu = "mulhu"
multiply_name div = "div"
multiply_name divu = "divu"
multiply_name rem = "rem"
multiply_name remu = "remu"

abbrev pub system_name : SystemOp → String
system_name ecall = "ecall"
system_name ebreak = "ebreak"
system_name mret = "mret"
system_name sret = "sret"
system_name fence = "sfence"
system_name wfi = "wfi"

abbrev pub csr_name : CsrOp → String
csr_name csrrw = "csrw"
csr_name csrrs = "csrs"
csr_name csrrc = "csrc"
csr_name csrrwi = "csrwi"
csr_name csrrsi = "csrsi"
csr_name csrrci = "csrci"

unfoldable pub inst_name : Inst → String
inst_name (immediate op) = immediate_name op
inst_name (register op) = register_name op
inst_name (jump jal) = "jal"
inst_name (jump jalr) = "jalr"
inst_name (branch op) = branch_name op
inst_name (load op) = load_name op
inst_name (store op) = store_name op
inst_name (multiply op) = multiply_name op
inst_name (system op) = system_name op
inst_name (csr op) = csr_name op

abbrev pub three_registers : ℕ → List Piece
three_registers x =
    text " r"
    ∷ dec (rd_field x)
    ∷ text ", r"
    ∷ dec (rs1_field x)
    ∷ text ", r"
    ∷ dec (rs2_field x)
    ∷ []

abbrev pub upper_operands : ℕ → List Piece
upper_operands x = text " r" ∷ dec (rd_field x) ∷ text ", 0x" ∷ hex (imm20_field x) ∷ []

abbrev pub shift_operands : ℕ → List Piece
shift_operands x =
    text " r"
    ∷ dec (rd_field x)
    ∷ text ", r"
    ∷ dec (rs1_field x)
    ∷ text ", "
    ∷ dec (shamt_field x)
    ∷ []

abbrev pub immediate_operands : ImmOp → ℕ → List Piece
immediate_operands slli x = shift_operands x
immediate_operands srli x = shift_operands x
immediate_operands srai x = shift_operands x
immediate_operands lui x = upper_operands x
immediate_operands auipc x = upper_operands x
immediate_operands _ x =
    text " r"
    ∷ dec (rd_field x)
    ∷ text ", r"
    ∷ dec (rs1_field x)
    ∷ text ", "
    ∷ dec (imm12_field x)
    ∷ []

-- The first operand of the access: a register, or an unsigned number.
abbrev pub csr_source : CsrOp → String
csr_source csrrw = ", r"
csr_source csrrs = ", r"
csr_source csrrc = ", r"
csr_source _ = ", "

-- What the format string of each branch has after the name. That of `jalr` leaves out `rd`.
unfoldable pub inst_operands : Inst → ℕ → List Piece
inst_operands (immediate op) x = immediate_operands op x
inst_operands (register op) x = three_registers x
inst_operands (jump jal) x = text " r" ∷ dec (rd_field x) ∷ text ", " ∷ dec (jimm20_field x) ∷ []
inst_operands (jump jalr) x = text " r" ∷ dec (rs1_field x) ∷ text ", r" ∷ dec (imm12_field x) ∷ []
inst_operands (branch op) x =
    text " r"
    ∷ dec (rs1_field x)
    ∷ text ", r"
    ∷ dec (rs2_field x)
    ∷ text ", "
    ∷ dec (bimm_field x)
    ∷ []
inst_operands (load op) x =
    text " r"
    ∷ dec (rd_field x)
    ∷ text ", "
    ∷ dec (imm12_field x)
    ∷ text "(r"
    ∷ dec (rs1_field x)
    ∷ text ")"
    ∷ []
inst_operands (store op) x =
    text " "
    ∷ dec (storeimm_field x)
    ∷ text "(r"
    ∷ dec (rs1_field x)
    ∷ text "), r"
    ∷ dec (rs2_field x)
    ∷ []
inst_operands (multiply op) x = three_registers x
inst_operands (system op) x = []
inst_operands (csr op) x =
    text " r"
    ∷ dec (rd_field x)
    ∷ text (csr_source op)
    ∷ dec (rs1_field x)
    ∷ text ", 0x"
    ∷ hex (imm12_field x)
    ∷ []

-- What the branch for an instruction, or the last `else`, writes to `str`, without the final 0,
-- and the result.
unfoldable pub print_inst : ℕ → ℕ → Option Inst → Text × Bool
print_inst pc opcode none = (sprintf (address pc ∷ text ": invalid!" ∷ []), false)
print_inst pc opcode (some i) =
    (sprintf (address pc ∷ text ": " ∷ text (inst_name i) ∷ inst_operands i opcode), true)

unfoldable pub inst_decode : ℕ → ℕ → Text × Bool
inst_decode pc opcode = print_inst pc opcode (decode opcode)

-- `riscv_inst_print`: what it prints.
unfoldable pub inst_print : ℕ → ℕ → Text
inst_print pc opcode = (inst_decode pc opcode).0 ++ 10 ∷ []
