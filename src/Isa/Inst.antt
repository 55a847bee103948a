-- ===== src/Isa/Inst.antt =====
-- isa_sim/riscv_isa.h: `enum eInstructions`, in the groups that `Riscv::execute` treats alike.

pub data ImmOp : Type 0 where
  andi ori xori addi slti sltiu slli srli srai lui auipc : ImmOp

pub data RegOp : Type 0 where
  add sub slt sltu xor or and sll srl sra : RegOp

pub data JumpOp : Type 0 where
  jal jalr : JumpOp

pub data BranchOp : Type 0 where
  beq bne blt bge bltu bgeu : BranchOp

pub data LoadOp : Type 0 where
  lb lh lw lbu lhu lwu : LoadOp

pub data StoreOp : Type 0 where
  sb sh sw : StoreOp

pub data MulOp : Type 0 where
  mul mulh mulhsu mulhu div divu rem remu : MulOp

-- `fence` stands for the three fences, which execute alike.
pub data SystemOp : Type 0 where
  ecall ebreak mret sret fence wfi : SystemOp

pub data CsrOp : Type 0 where
  csrrw csrrs csrrc csrrwi csrrsi csrrci : CsrOp

pub data Inst : Type 0 where
  immediate : ImmOp → Inst
  register : RegOp → Inst
  jump : JumpOp → Inst
  branch : BranchOp → Inst
  load : LoadOp → Inst
  store : StoreOp → Inst
  multiply : MulOp → Inst
  system : SystemOp → Inst
  csr : CsrOp → Inst
