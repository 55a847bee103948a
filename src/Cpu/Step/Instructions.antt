-- ===== src/Cpu/Step/Instructions.antt =====
-- What the instructions of `Riscv::execute` leave alone before the write-back.
use system_on_chip_design_pr.Base.{ℕ, refl, Option, none, some, Bool-cases, inl, inr, ◌==◌}
use system_on_chip_design_pr.Outcome.{ok, error}
use system_on_chip_design_pr.Outcome.Ensures.{
  Ensures, returns, exits, aborts, Ensures-bind, Ensures-after, Ensures-if,
}
use system_on_chip_design_pr.Isa.Inst.{
  Inst, immediate, register, jump, branch, multiply, system, csr, jal, jalr, LoadOp, StoreOp,
  SystemOp, ecall, ebreak, mret, sret, fence, wfi, CsrOp,
}
use system_on_chip_design_pr.Isa.Decode.{decode}
use system_on_chip_design_pr.Isa.Status.{priv_super, priv_machine}
use system_on_chip_design_pr.Cpu.{Cpu}
use system_on_chip_design_pr.Cpu.Trap.{machine_return, super_return}
use system_on_chip_design_pr.Cpu.Access.{load, store}
use system_on_chip_design_pr.Cpu.CsrAccess.{access_csr}
use system_on_chip_design_pr.Cpu.Alu.{alu_immediate, alu_register}
use system_on_chip_design_pr.Cpu.Execute.{
  Flow, returned, Operands, operands, exec_jump, exec_branch, exec_load, exec_store, exec_system,
  exec_csr, exec_inst, exec_opcode, write_back,
}
use system_on_chip_design_pr.Cpu.Step.Kept.{
  Kept, KeptWith, same_state, trans-Kept, Kept-parts, Kept-exception, Kept-load, Kept-store,
}
use system_on_chip_design_pr.Cpu.Step.CsrKept.{Kept-access_csr}

Kept-exec_load : (op : LoadOp) (o : Operands) (c : Cpu) → Ensures (KeptWith c) (exec_load op o c)
unfolding exec_load
Kept-exec_load op o c =
    Ensures-bind (KeptWith c) (KeptWith c) (load c o.pc _ _ _) _ (Kept-load c o.pc _ _ _)
      λ r k. go r.1 r.0 k
  where
    go :
        (c' : Cpu) (result : Option ℕ)
        → Kept c c'
        → Ensures {A = Flow × Cpu}
            (KeptWith c)
            (elim result [ none ↦ ok (returned, c') | some v ↦ write_back o c' v ])
    go c' none k = returns _ k
    go c' (some v) k = returns _ k

Kept-exec_store : (op : StoreOp) (o : Operands) (c : Cpu) → Ensures (KeptWith c) (exec_store op o c)
unfolding exec_store
Kept-exec_store op o c =
    Ensures-bind (KeptWith c) (KeptWith c) (store c o.pc _ o.reg_rs2 _) _
      (Kept-store c o.pc _ o.reg_rs2 _) λ r k. Ensures-if _ r.0 _ _ (returns _ k) (returns _ k)

Kept-exec_csr : (op : CsrOp) (o : Operands) (c : Cpu) → Ensures (KeptWith c) (exec_csr op o c)
unfolding exec_csr
Kept-exec_csr op o c =
    Ensures-bind (KeptWith c) (KeptWith c) (access_csr c o.imm12 _ _ _) _
      (Kept-access_csr c o.imm12 _ _ _) λ r k. returns _ k

Kept-machine_return : (c : Cpu) → Ensures {A = Cpu × ℕ} (λ r. Kept c r.0) (machine_return c)
unfolding machine_return
Kept-machine_return c = elim (Bool-cases (c.csr.mpriv == priv_machine)) [
  | inl e ↦ rw e (returns _ (Kept-parts _ _ refl refl refl refl))
  | inr e ↦ rw e aborts
]

Kept-super_return : (c : Cpu) → Ensures {A = Cpu × ℕ} (λ r. Kept c r.0) (super_return c)
unfolding super_return
Kept-super_return c = elim (Bool-cases (c.csr.mpriv == priv_super)) [
  | inl e ↦ rw e (returns _ (Kept-parts _ _ refl refl refl refl))
  | inr e ↦ rw e aborts
]

Kept-exec_system :
    (op : SystemOp) (o : Operands) (c : Cpu) → Ensures (KeptWith c) (exec_system op o c)
unfolding exec_system
Kept-exec_system ecall o c = returns _ (Kept-exception c _ o.pc 0)
Kept-exec_system ebreak o c =
    returns _ (trans-Kept _ _ _ (Kept-exception c _ o.pc 0) (Kept-parts _ _ refl refl refl refl))
Kept-exec_system mret o c =
    Ensures-bind _ (KeptWith c) (machine_return c) _ (Kept-machine_return c) λ r k. returns _ k
Kept-exec_system sret o c =
    Ensures-bind _ (KeptWith c) (super_return c) _ (Kept-super_return c) λ r k. returns _ k
Kept-exec_system fence o c = returns _ (same_state c)
Kept-exec_system wfi o c = returns _ (same_state c)

Kept-exec_inst : (i : Inst) (o : Operands) (c : Cpu) → Ensures (KeptWith c) (exec_inst i o c)
unfolding exec_inst exec_jump exec_branch
Kept-exec_inst (immediate op) o c =
    Ensures-after _ (alu_immediate op o.reg_rs1 o.imm12 o.imm20 o.shamt o.pc) _
      λ v. returns _ (same_state c)
Kept-exec_inst (register op) o c =
    Ensures-after _ (alu_register op o.reg_rs1 o.reg_rs2) _ λ v. returns _ (same_state c)
Kept-exec_inst (jump jal) o c = returns _ (Kept-parts _ _ refl refl refl refl)
Kept-exec_inst (jump jalr) o c = returns _ (Kept-parts _ _ refl refl refl refl)
Kept-exec_inst (branch op) o c = returns _ (Kept-parts _ _ refl refl refl refl)
Kept-exec_inst (Inst.load op) o c = Kept-exec_load op o c
Kept-exec_inst (Inst.store op) o c = Kept-exec_store op o c
Kept-exec_inst (multiply op) o c = returns _ (same_state c)
Kept-exec_inst (system op) o c = Kept-exec_system op o c
Kept-exec_inst (csr op) o c = Kept-exec_csr op o c

pub Kept-exec_opcode : (opcode : ℕ) (c : Cpu) → Ensures (KeptWith c) (exec_opcode opcode c)
unfolding exec_opcode
Kept-exec_opcode opcode c = Ensures-if _ (opcode == 0) _ _ (exits _) (go (decode opcode))
  where
    go :
        (d : Option Inst)
        → Ensures {A = Flow × Cpu}
            (KeptWith c)
            (elim d [ none ↦ error | some inst ↦ exec_inst inst (operands c opcode) c ])
    go none = exits _
    go (some i) = Kept-exec_inst i (operands c opcode) c
