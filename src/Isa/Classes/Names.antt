-- ===== src/Isa/Classes/Names.antt =====
-- The table of names of isa_sim/riscv_isa.h beside the names of the disassembler.
use system_on_chip_design_pr.Base.{◌≡◌, ◌≢◌, refl, ap, some}
use system_on_chip_design_pr.Isa.Inst.{
  Inst, immediate, register, jump, branch, load, store, multiply, system, csr, ImmOp, RegOp, MulOp,
  JumpOp, BranchOp, LoadOp, StoreOp, SystemOp, CsrOp, andi, add, jal, beq, lb, sb, mul, ecall,
  fence, csrrw,
}
use system_on_chip_design_pr.Isa.Dump.{inst_name}
use system_on_chip_design_pr.Isa.Classes.{enum_inst, inst_names, name_at}

abbrev SameName : Inst → Type 0
SameName i = name_at inst_names (enum_inst i) ≡ some (inst_name i)

SameName-immediate : (op : ImmOp) → SameName (immediate op)
unfolding name_at enum_inst inst_name
SameName-immediate andi = refl
SameName-immediate op = refl

SameName-register : (op : RegOp) → SameName (register op)
unfolding name_at enum_inst inst_name
SameName-register add = refl
SameName-register op = refl

SameName-jump : (op : JumpOp) → SameName (jump op)
unfolding name_at enum_inst inst_name
SameName-jump jal = refl
SameName-jump op = refl

SameName-branch : (op : BranchOp) → SameName (branch op)
unfolding name_at enum_inst inst_name
SameName-branch beq = refl
SameName-branch op = refl

SameName-load : (op : LoadOp) → SameName (load op)
unfolding name_at enum_inst inst_name
SameName-load lb = refl
SameName-load op = refl

SameName-store : (op : StoreOp) → SameName (store op)
unfolding name_at enum_inst inst_name
SameName-store sb = refl
SameName-store op = refl

SameName-multiply : (op : MulOp) → SameName (multiply op)
unfolding name_at enum_inst inst_name
SameName-multiply mul = refl
SameName-multiply op = refl

SameName-system : (op : SystemOp) → op ≢ fence → SameName (system op)
unfolding name_at enum_inst inst_name
SameName-system ecall other = refl
SameName-system fence other = absurd (other refl)
SameName-system op other = refl

SameName-csr : (op : CsrOp) → SameName (csr op)
unfolding name_at enum_inst inst_name
SameName-csr csrrw = refl
SameName-csr op = refl

-- The table of names gives every instruction but the fences the name that the disassembler prints.
pub name_at-inst_name :
    (i : Inst) → i ≢ system fence → name_at inst_names (enum_inst i) ≡ some (inst_name i)
name_at-inst_name (immediate op) other = SameName-immediate op
name_at-inst_name (register op) other = SameName-register op
name_at-inst_name (jump op) other = SameName-jump op
name_at-inst_name (branch op) other = SameName-branch op
name_at-inst_name (load op) other = SameName-load op
name_at-inst_name (store op) other = SameName-store op
name_at-inst_name (multiply op) other = SameName-multiply op
name_at-inst_name (system op) other = SameName-system op (λ e. other (ap system e))
name_at-inst_name (csr op) other = SameName-csr op
