-- ===== src/Cpu/Execute.antt =====
-- `Riscv::execute` of isa_sim/riscv.cpp: the branches of the instructions, the write-back, the
-- pending interrupts and the next program counter.
pub mod Interrupts
pub mod Pending
use system_on_chip_design_pr.Base.{
  ℕ, ◌+◌, ◌-◌, Bool, true, false, not, ◌&&◌, Option, none, some, bit_and, if◌then◌else◌, ltb, ◌==◌,
  not32, add32, update,
}
use system_on_chip_design_pr.Outcome.{Outcome, ok, ◌>>=◌, error}
use system_on_chip_design_pr.Isa.Status.{mcause_breakpoint, mcause_ecall_u}
use system_on_chip_design_pr.Isa.Inst.{
  Inst, immediate, register, jump, branch, multiply, system, csr, JumpOp, jal, jalr, BranchOp,
  LoadOp, lb, lh, lw, lbu, lhu, lwu, StoreOp, sb, sh, sw, SystemOp, ecall, ebreak, mret, sret,
  fence, wfi, CsrOp, csrrw, csrrs, csrrc, csrrwi, csrrsi, csrrci,
}
use system_on_chip_design_pr.Isa.Fields.{
  rd_field, rs1_field, rs2_field, shamt_field, imm12_field, imm20_field, storeimm_field, bimm_field,
  jimm20_field,
}
use system_on_chip_design_pr.Isa.Decode.{decode}
use system_on_chip_design_pr.Cpu.{Cpu, Output, stats_execute}
use system_on_chip_design_pr.Cpu.Regions.{get_opcode}
use system_on_chip_design_pr.Cpu.Trap.{exception, machine_return, super_return}
use system_on_chip_design_pr.Cpu.Mmu.{mmu_i_translate}
use system_on_chip_design_pr.Cpu.Access.{load, store}
use system_on_chip_design_pr.Cpu.CsrAccess.{access_csr, send}
use system_on_chip_design_pr.Cpu.Alu.{alu_immediate, alu_register, alu_multiply, branch_taken}
use Interrupts.{service_interrupt}

-- The variables at the head of `execute`.
pub record Operands : Type 0 where
  pub rd : ℕ
  pub rs1 : ℕ
  pub imm12 : ℕ
  pub imm20 : ℕ
  pub bimm : ℕ
  pub jimm20 : ℕ
  pub storeimm : ℕ
  pub shamt : ℕ
  pub reg_rs1 : ℕ
  pub reg_rs2 : ℕ
  pub pc : ℕ

unfoldable pub operands : Cpu → ℕ → Operands
operands c opcode = record {
  rd = rd_field opcode;
  rs1 = rs1_field opcode;
  imm12 = imm12_field opcode;
  imm20 = imm20_field opcode;
  bimm = bimm_field opcode;
  jimm20 = jimm20_field opcode;
  storeimm = storeimm_field opcode;
  shamt = shamt_field opcode;
  reg_rs1 = c.gpr (rs1_field opcode);
  reg_rs2 = c.gpr (rs2_field opcode);
  pc = c.pc;
}

-- How a branch of `execute` ends: with values for `rd`, `reg_rd`, `pc` and `take_exception`, or
-- by `return` after a page fault.
pub data Flow : Type 0 where
  goes_on : (rd reg_rd pc : ℕ) → Bool → Flow
  returned : Flow

abbrev pub next_pc : Operands → ℕ
next_pc o = add32 o.pc 4

abbrev pub write_back : Operands → Cpu → ℕ → Outcome (Flow × Cpu)
write_back o c v = ok (goes_on o.rd v (next_pc o) false, c)

abbrev pub count_branch : Cpu → Cpu
count_branch c = record c { stats = record c.stats { branches = add32 c.stats.branches 1 } }

unfoldable pub exec_jump : JumpOp → Operands → Cpu → Flow × Cpu
exec_jump jal o c = (goes_on o.rd (next_pc o) (add32 o.pc o.jimm20) false, count_branch c)
exec_jump jalr o c =
    (goes_on o.rd (next_pc o) (bit_and (add32 o.reg_rs1 o.imm12) (not32 1)) false, count_branch c)

unfoldable pub exec_branch : BranchOp → Operands → Cpu → Flow × Cpu
exec_branch op o c = (
  goes_on 0 0 (if branch_taken op o.reg_rs1 o.reg_rs2 then add32 o.pc o.bimm else next_pc o) false,
  count_branch c,
)

abbrev pub load_width : LoadOp → ℕ × Bool
load_width lb = (1, true)
load_width lh = (2, true)
load_width lw = (4, true)
load_width lbu = (1, false)
load_width lhu = (2, false)
load_width lwu = (4, false)

unfoldable pub exec_load : LoadOp → Operands → Cpu → Outcome (Flow × Cpu)
exec_load op o c = do
  (result, c') ← load c o.pc (add32 o.reg_rs1 o.imm12) (load_width op).0 (load_width op).1
  elim result [ none ↦ ok (returned, c') | some v ↦ write_back o c' v ]

abbrev pub store_width : StoreOp → ℕ
store_width sb = 1
store_width sh = 2
store_width sw = 4

unfoldable pub exec_store : StoreOp → Operands → Cpu → Outcome (Flow × Cpu)
exec_store op o c = do
  (done, c') ← store c o.pc (add32 o.reg_rs1 o.storeimm) o.reg_rs2 (store_width op)
  (if done then ok (goes_on 0 0 (next_pc o) false, c') else ok (returned, c'))

unfoldable pub exec_system : SystemOp → Operands → Cpu → Outcome (Flow × Cpu)
exec_system ecall o c =
    ok (goes_on o.rd 0 o.pc true, exception c (mcause_ecall_u + c.csr.mpriv) o.pc 0)
exec_system ebreak o c =
    ok (goes_on o.rd 0 o.pc true, record (exception c mcause_breakpoint o.pc 0) { brk = true })
exec_system mret o c = do (c', pc) ← machine_return c; ok (goes_on o.rd 0 pc false, c')
exec_system sret o c = do (c', pc) ← super_return c; ok (goes_on o.rd 0 pc false, c')
exec_system fence o c = ok (goes_on o.rd 0 (next_pc o) false, c)
exec_system wfi o c = ok (goes_on o.rd 0 (next_pc o) false, c)

-- The operand and the two flags that the instruction hands to `access_csr`.
abbrev pub csr_arguments : CsrOp → Operands → ℕ × Bool × Bool
csr_arguments csrrw o = (o.reg_rs1, true, true)
csr_arguments csrrs o = (o.reg_rs1, true, false)
csr_arguments csrrc o = (o.reg_rs1, false, true)
csr_arguments csrrwi o = (o.rs1, true, true)
csr_arguments csrrsi o = (o.rs1, true, false)
csr_arguments csrrci o = (o.rs1, false, true)

unfoldable pub exec_csr : CsrOp → Operands → Cpu → Outcome (Flow × Cpu)
exec_csr op o c =
    let (value, set, clr) = csr_arguments op o in
    do (result, c') ← access_csr c o.imm12 value set clr; write_back o c' result

unfoldable pub exec_inst : Inst → Operands → Cpu → Outcome (Flow × Cpu)
exec_inst (immediate op) o c = do
  v ← alu_immediate op o.reg_rs1 o.imm12 o.imm20 o.shamt o.pc
  write_back o c v
exec_inst (register op) o c = do v ← alu_register op o.reg_rs1 o.reg_rs2; write_back o c v
exec_inst (jump op) o c = ok (exec_jump op o c)
exec_inst (branch op) o c = ok (exec_branch op o c)
exec_inst (Inst.load op) o c = exec_load op o c
exec_inst (Inst.store op) o c = exec_store op o c
exec_inst (multiply op) o c = write_back o c (alu_multiply op o.reg_rs1 o.reg_rs2)
exec_inst (system op) o c = exec_system op o c
exec_inst (csr op) o c = exec_csr op o c

-- The chain of tests: all zeros and an opcode that no test takes are errors, and `error` does not
-- return.
unfoldable pub exec_opcode : ℕ → Cpu → Outcome (Flow × Cpu)
exec_opcode opcode c =
    if opcode == 0
    then error
    else elim (decode opcode) [ none ↦ error | some inst ↦ exec_inst inst (operands c opcode) c ]

unfoldable pub write_register : Cpu → ℕ → ℕ → Cpu
write_register c rd v = if rd == 0 then c else record c { gpr = update c.gpr rd v }

-- What follows the chain of tests.
unfoldable pub retire : ℕ → Flow → Cpu → Cpu
retire opcode returned c = c
retire opcode (goes_on rd v pc take_exception) c =
    let (c', taken) = service_interrupt (write_register c rd v) pc take_exception in
    let c'' = if c'.io.has_stats_if then send c' (stats_execute c'.pc opcode) else c' in
    if taken then c'' else record c'' { pc = pc }

unfoldable pub execute : Cpu → Outcome Cpu
execute c = do
  (phy_pc, c') ← mmu_i_translate c c.pc
  elim phy_pc [
    | none ↦ ok c'
    | some phy_pc ↦ do
      opcode ← get_opcode c' phy_pc
      (flow, c'') ← exec_opcode opcode (record c' { pc_x = c'.pc })
      ok (retire opcode flow c'')
  ]
