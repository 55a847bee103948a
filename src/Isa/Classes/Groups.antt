-- ===== src/Isa/Classes/Groups.antt =====
-- What the macros of isa_sim/riscv_isa.h tell of an encoded instruction.
use system_on_chip_design_pr.Base.{ℕ, Bool, true, false, ◌≡◌, arith}
use system_on_chip_design_pr.Isa.Inst.{
  Inst, immediate, register, jump, branch, load, store, multiply, system, csr, ImmOp, RegOp, MulOp,
  JumpOp, BranchOp, LoadOp, StoreOp, SystemOp, CsrOp, andi, lui, auipc, add, jal, jalr, beq, lb, sb,
  mul, ecall, ebreak, mret, csrrw,
}
use system_on_chip_design_pr.Isa.Fields.Encoding.{Arguments, encode, Fit}
use system_on_chip_design_pr.Isa.Decode.Masks.{mask_values, system_mask_values}
use system_on_chip_design_pr.Isa.Classes.{
  is_load_inst, is_store_inst, is_branch_inst, is_alu_3r_inst, is_alu_2ri_inst,
  is_cond_branch_2ri_inst,
}

-- The groups of the instructions.
abbrev pub loads : Inst → Bool
loads (load op) = true
loads i = false

abbrev pub stores : Inst → Bool
stores (store op) = true
stores i = false

abbrev pub three_operands : Inst → Bool
three_operands (register op) = true
three_operands (multiply op) = true
three_operands i = false

abbrev pub conditional : Inst → Bool
conditional (branch op) = true
conditional i = false

abbrev pub with_immediate : Inst → Bool
with_immediate (immediate lui) = false
with_immediate (immediate auipc) = false
with_immediate (immediate op) = true
with_immediate (jump jalr) = true
with_immediate i = false

-- `sret` is not among those that change the flow.
abbrev pub changes_flow : Inst → Bool
changes_flow (jump op) = true
changes_flow (branch op) = true
changes_flow (system ecall) = true
changes_flow (system ebreak) = true
changes_flow (system mret) = true
changes_flow i = false

-- The macros tell the groups of an instruction from its opcode.
pub record Groups (i : Inst) (a : ℕ) : Type 0 where
  pub load_group : is_load_inst a ≡ loads i
  pub store_group : is_store_inst a ≡ stores i
  pub branch_group : is_branch_inst a ≡ changes_flow i
  pub alu_3r_group : is_alu_3r_inst a ≡ three_operands i
  pub alu_2ri_group : is_alu_2ri_inst a ≡ with_immediate i
  pub cond_branch_group : is_cond_branch_2ri_inst a ≡ conditional i

Groups-immediate :
    (op : ImmOp) (g : Arguments)
    → Fit (immediate op) g
    → Groups (immediate op) (encode (immediate op) g)
Groups-immediate andi g h =
    ground (
      arith,
      mask_values (encode (immediate andi) g),
      system_mask_values (encode (immediate andi) g),
    )
Groups-immediate op g h =
    ground
      (arith, mask_values (encode (immediate op) g), system_mask_values (encode (immediate op) g))

Groups-register :
    (op : RegOp) (g : Arguments)
    → Fit (register op) g
    → Groups (register op) (encode (register op) g)
Groups-register add g h =
    ground
      (arith, mask_values (encode (register add) g), system_mask_values (encode (register add) g))
Groups-register op g h =
    ground
      (arith, mask_values (encode (register op) g), system_mask_values (encode (register op) g))

Groups-jump :
    (op : JumpOp) (g : Arguments) → Fit (jump op) g → Groups (jump op) (encode (jump op) g)
Groups-jump jal g h =
    ground (arith, mask_values (encode (jump jal) g), system_mask_values (encode (jump jal) g))
Groups-jump op g h =
    ground (arith, mask_values (encode (jump op) g), system_mask_values (encode (jump op) g))

Groups-branch :
    (op : BranchOp) (g : Arguments) → Fit (branch op) g → Groups (branch op) (encode (branch op) g)
Groups-branch beq g h =
    ground (arith, mask_values (encode (branch beq) g), system_mask_values (encode (branch beq) g))
Groups-branch op g h =
    ground (arith, mask_values (encode (branch op) g), system_mask_values (encode (branch op) g))

Groups-load :
    (op : LoadOp) (g : Arguments) → Fit (load op) g → Groups (load op) (encode (load op) g)
Groups-load lb g h =
    ground (arith, mask_values (encode (load lb) g), system_mask_values (encode (load lb) g))
Groups-load op g h =
    ground (arith, mask_values (encode (load op) g), system_mask_values (encode (load op) g))

Groups-store :
    (op : StoreOp) (g : Arguments) → Fit (store op) g → Groups (store op) (encode (store op) g)
Groups-store sb g h =
    ground (arith, mask_values (encode (store sb) g), system_mask_values (encode (store sb) g))
Groups-store op g h =
    ground (arith, mask_values (encode (store op) g), system_mask_values (encode (store op) g))

Groups-multiply :
    (op : MulOp) (g : Arguments)
    → Fit (multiply op) g
    → Groups (multiply op) (encode (multiply op) g)
Groups-multiply mul g h =
    ground
      (arith, mask_values (encode (multiply mul) g), system_mask_values (encode (multiply mul) g))
Groups-multiply op g h =
    ground
      (arith, mask_values (encode (multiply op) g), system_mask_values (encode (multiply op) g))

Groups-system : (op : SystemOp) (g : Arguments) → Groups (system op) (encode (system op) g)
Groups-system ecall g = ground arith
Groups-system op g = ground arith

Groups-csr : (op : CsrOp) (g : Arguments) → Fit (csr op) g → Groups (csr op) (encode (csr op) g)
Groups-csr csrrw g h =
    ground (arith, mask_values (encode (csr csrrw) g), system_mask_values (encode (csr csrrw) g))
Groups-csr op g h =
    ground (arith, mask_values (encode (csr op) g), system_mask_values (encode (csr op) g))

-- For every instruction and all operands that fit their fields: on its encoding, IS_LOAD_INST,
-- IS_STORE_INST, IS_ALU_3R_INST and IS_COND_BRANCH_2RI_INST hold for the loads, the stores, the
-- operations on registers and the branches alone, IS_ALU_2RI_INST for those with an immediate but
-- `lui` and `auipc`, and for `jalr`, and IS_BRANCH_INST for jumps, branches, `ecall`, `ebreak` and
-- `mret`.
pub encode-Groups : (i : Inst) (g : Arguments) → Fit i g → Groups i (encode i g)
encode-Groups (immediate op) g h = Groups-immediate op g h
encode-Groups (register op) g h = Groups-register op g h
encode-Groups (jump op) g h = Groups-jump op g h
encode-Groups (branch op) g h = Groups-branch op g h
encode-Groups (load op) g h = Groups-load op g h
encode-Groups (store op) g h = Groups-store op g h
encode-Groups (multiply op) g h = Groups-multiply op g h
encode-Groups (system op) g h = Groups-system op g
encode-Groups (csr op) g h = Groups-csr op g h
