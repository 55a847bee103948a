-- ===== src/Isa/Decode/Rows.antt =====
-- The masks and values of the instructions, in the order in which `Riscv::execute` tests them.
use system_on_chip_design_pr.Base.{ℕ, List, [], ◌∷◌}
use system_on_chip_design_pr.Isa.Inst.{
  Inst, immediate, register, jump, branch, load, store, multiply, system, csr,
}
use system_on_chip_design_pr.Isa.Inst.{
  andi, ori, xori, addi, slti, sltiu, slli, srli, srai, lui, auipc, add, sub, slt, sltu, xor, or,
  and, sll, srl, sra, jal, jalr, beq, bne, blt, bge, bltu, bgeu, lb, lh, lw, lbu, lhu, lwu, sb, sh,
  sw, mul, mulh, mulhsu, mulhu, div, divu, rem, remu, ecall, ebreak, mret, sret, fence, wfi, csrrw,
  csrrs, csrrc, csrrwi, csrrsi, csrrci,
}

-- A mask, the value that an opcode must have under it, and the instruction.
abbrev pub Row : Type 0
Row = (ℕ × ℕ) × Inst

abbrev pub rows : List Row
rows =
    ((0x707f, 0x7013), immediate andi)
    ∷ ((0x707f, 0x6013), immediate ori)
    ∷ ((0x707f, 0x4013), immediate xori)
    ∷ ((0x707f, 0x13), immediate addi)
    ∷ ((0x707f, 0x2013), immediate slti)
    ∷ ((0x707f, 0x3013), immediate sltiu)
    ∷ ((0xfc00707f, 0x1013), immediate slli)
    ∷ ((0xfc00707f, 0x5013), immediate srli)
    ∷ ((0xfc00707f, 0x40005013), immediate srai)
    ∷ ((0x7f, 0x37), immediate lui)
    ∷ ((0x7f, 0x17), immediate auipc)
    ∷ ((0xfe00707f, 0x33), register add)
    ∷ ((0xfe00707f, 0x40000033), register sub)
    ∷ ((0xfe00707f, 0x2033), register slt)
    ∷ ((0xfe00707f, 0x3033), register sltu)
    ∷ ((0xfe00707f, 0x4033), register xor)
    ∷ ((0xfe00707f, 0x6033), register or)
    ∷ ((0xfe00707f, 0x7033), register and)
    ∷ ((0xfe00707f, 0x1033), register sll)
    ∷ ((0xfe00707f, 0x5033), register srl)
    ∷ ((0xfe00707f, 0x40005033), register sra)
    ∷ ((0x7f, 0x6f), jump jal)
    ∷ ((0x707f, 0x67), jump jalr)
    ∷ ((0x707f, 0x63), branch beq)
    ∷ ((0x707f, 0x1063), branch bne)
    ∷ ((0x707f, 0x4063), branch blt)
    ∷ ((0x707f, 0x5063), branch bge)
    ∷ ((0x707f, 0x6063), branch bltu)
    ∷ ((0x707f, 0x7063), branch bgeu)
    ∷ ((0x707f, 0x3), load lb)
    ∷ ((0x707f, 0x1003), load lh)
    ∷ ((0x707f, 0x2003), load lw)
    ∷ ((0x707f, 0x4003), load lbu)
    ∷ ((0x707f, 0x5003), load lhu)
    ∷ ((0x707f, 0x6003), load lwu)
    ∷ ((0x707f, 0x23), store sb)
    ∷ ((0x707f, 0x1023), store sh)
    ∷ ((0x707f, 0x2023), store sw)
    ∷ ((0xfe00707f, 0x2000033), multiply mul)
    ∷ ((0xfe00707f, 0x2001033), multiply mulh)
    ∷ ((0xfe00707f, 0x2002033), multiply mulhsu)
    ∷ ((0xfe00707f, 0x2003033), multiply mulhu)
    ∷ ((0xfe00707f, 0x2004033), multiply div)
    ∷ ((0xfe00707f, 0x2005033), multiply divu)
    ∷ ((0xfe00707f, 0x2006033), multiply rem)
    ∷ ((0xfe00707f, 0x2007033), multiply remu)
    ∷ ((0xffffffff, 0x73), system ecall)
    ∷ ((0xffffffff, 0x100073), system ebreak)
    ∷ ((0xffffffff, 0x30200073), system mret)
    ∷ ((0xffffffff, 0x10200073), system sret)
    ∷ ((0xfe007fff, 0x12000073), system fence)
    ∷ ((0x707f, 0xf), system fence)
    ∷ ((0x707f, 0x100f), system fence)
    ∷ ((0x707f, 0x1073), csr csrrw)
    ∷ ((0x707f, 0x2073), csr csrrs)
    ∷ ((0x707f, 0x3073), csr csrrc)
    ∷ ((0x707f, 0x5073), csr csrrwi)
    ∷ ((0x707f, 0x6073), csr csrrsi)
    ∷ ((0x707f, 0x7073), csr csrrci)
    ∷ ((0xffff8fff, 0x10500073), system wfi)
    ∷ []
