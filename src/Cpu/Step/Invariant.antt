-- ===== src/Cpu/Step/Invariant.antt =====
-- What `Riscv::execute` and `Riscv::step` keep.
use system_on_chip_design_pr.Base.{
  ℕ, ◌≡◌, refl, ◌∙◌, Bool, true, false, Option, none, some, if◌then◌else◌, Bool-cases, inl, inr,
  ◌==◌, not, ◌&&◌, arith, ◌+◌, bit_and,
}
use system_on_chip_design_pr.Outcome.{ok, ◌>>=◌}
use system_on_chip_design_pr.Outcome.Ensures.{
  Ensures, returns, Ensures-bind, Ensures-after, Ensures-elim,
}
use system_on_chip_design_pr.Isa.Status.{mcause_interrupt}
use system_on_chip_design_pr.Cpu.{Cpu, Output}
use system_on_chip_design_pr.Cpu.Breakpoints.{check_breakpoint}
use system_on_chip_design_pr.Cpu.Regions.{get_opcode}
use system_on_chip_design_pr.Cpu.Trap.{exception}
use system_on_chip_design_pr.Cpu.Mmu.{mmu_i_translate}
use system_on_chip_design_pr.Cpu.CsrAccess.{send}
use system_on_chip_design_pr.Cpu.Execute.{
  Flow, goes_on, returned, exec_opcode, write_register, retire, execute,
}
use system_on_chip_design_pr.Cpu.Execute.Interrupts.{service_interrupt, first_interrupt}
use system_on_chip_design_pr.Cpu.Step.{step, count_instruction, tick, hit_breakpoint}
use system_on_chip_design_pr.Cpu.Step.Kept.{
  Kept, KeptWith, same_state, trans-Kept, Kept-parts, Kept-exception, Kept-mmu_i_translate,
}
use system_on_chip_design_pr.Cpu.Step.Instructions.{Kept-exec_opcode}

Kept-service_interrupt : (c : Cpu) (pc : ℕ) (taken : Bool) → Kept c (service_interrupt c pc taken).0
unfolding service_interrupt
Kept-service_interrupt c pc taken =
    elim (Bool-cases (not taken && not (bit_and c.csr.mip c.csr.mie == 0))) [
      | inl e ↦ rw e (go (first_interrupt _ _ _))
      | inr e ↦ rw e (same_state c)
    ]
  where
    go :
        (found : Option ℕ)
        → Kept c
            (elim found as (λ x. Cpu × Bool) [
              | none ↦ (c, false)
              | some i ↦ (exception c (mcause_interrupt + i) pc 0, true)
            ]).0
    go none = same_state c
    go (some i) = Kept-exception c _ pc 0

-- Between the states before and after an instruction: x0, the fault flag and the breakpoints are
-- the same.
pub record Intact (c c' : Cpu) : Type 0 where
  pub zero_register : c'.gpr 0 ≡ c.gpr 0
  pub fault_flag : c'.fault ≡ c.fault
  pub breakpoint_list : c'.breakpoints ≡ c.breakpoints
  pub breakpoint_flag : c'.has_breakpoints ≡ c.has_breakpoints

Kept-Intact : (c c' : Cpu) → Kept c c' → Intact c c'
Kept-Intact c c' k = record {
  zero_register = k.registers 0;
  fault_flag = k.same_fault;
  breakpoint_list = k.same_breakpoints;
  breakpoint_flag = k.same_flag;
}

pub same-Intact : (c : Cpu) → Intact c c
same-Intact c = Kept-Intact c c (same_state c)

pub trans-Intact : (a b c : Cpu) → Intact a b → Intact b c → Intact a c
trans-Intact a b c p q = record {
  zero_register = q.zero_register ∙ p.zero_register;
  fault_flag = q.fault_flag ∙ p.fault_flag;
  breakpoint_list = q.breakpoint_list ∙ p.breakpoint_list;
  breakpoint_flag = q.breakpoint_flag ∙ p.breakpoint_flag;
}

Intact-write_register : (c : Cpu) (rd v : ℕ) → Intact c (write_register c rd v)
unfolding write_register
Intact-write_register c rd v = elim (Bool-cases (rd == 0)) [
  | inl e ↦ rw e (Kept-Intact c c (same_state c))
  | inr e ↦ rw e (record {
    zero_register = ground arith;
    fault_flag = refl;
    breakpoint_list = refl;
    breakpoint_flag = refl;
  })
]

Kept-finish :
    (c : Cpu) (stats taken : Bool) (o : Output) (pc : ℕ)
    → Kept c (let c' = if stats then send c o else c in if taken then c' else record c' { pc = pc })
Kept-finish c true true o pc = Kept-parts _ _ refl refl refl refl
Kept-finish c true false o pc = Kept-parts _ _ refl refl refl refl
Kept-finish c false true o pc = Kept-parts _ _ refl refl refl refl
Kept-finish c false false o pc = Kept-parts _ _ refl refl refl refl

Intact-retire : (opcode : ℕ) (flow : Flow) (c : Cpu) → Intact c (retire opcode flow c)
unfolding retire
Intact-retire opcode returned c = Kept-Intact c c (same_state c)
Intact-retire opcode (goes_on rd v pc taken) c =
    let w = write_register c rd v in
    let r = service_interrupt w pc taken in
    trans-Intact c w _ (Intact-write_register c rd v) (
      Kept-Intact w _
        (trans-Kept w r.0 _ (Kept-service_interrupt w pc taken) (Kept-finish r.0 _ r.1 _ pc)))

Intact-execute : (c : Cpu) → Ensures (Intact c) (execute c)
unfolding execute
Intact-execute c =
    Ensures-bind (KeptWith c) (Intact c) (mmu_i_translate c c.pc) _ (Kept-mmu_i_translate c c.pc)
      λ r k. go r.1 r.0 k
  where
    go :
        (c' : Cpu) (translated : Option ℕ)
        → Kept c c'
        → Ensures (Intact c) (elim translated [
          | none ↦ ok c'
          | some phy_pc ↦ do
            opcode ← get_opcode c' phy_pc
            (flow, c'') ← exec_opcode opcode (record c' { pc_x = c'.pc })
            ok (retire opcode flow c'')
        ])
    go c' none k = returns _ (Kept-Intact c c' k)
    go c' (some phy_pc) k =
        let ready : Cpu = record c' { pc_x = c'.pc } in
        let from_start : Kept c ready =
          trans-Kept c c' ready k (Kept-parts _ _ refl refl refl refl) in
        Ensures-after _ (get_opcode c' phy_pc) _ λ opcode.
          Ensures-bind (KeptWith ready) (Intact c) (exec_opcode opcode ready) _
            (Kept-exec_opcode opcode ready)
            λ r done. returns _ (
              trans-Intact c r.1 _ (Kept-Intact c r.1 (trans-Kept c ready r.1 from_start done))
                (Intact-retire opcode r.0 r.1))

Kept-hit_breakpoint : (c : Cpu) → Kept c (hit_breakpoint c)
unfolding hit_breakpoint
Kept-hit_breakpoint c = elim (Bool-cases (c.has_breakpoints && check_breakpoint c c.pc_x)) [
  | inl e ↦ rw e (Kept-parts _ _ refl refl refl refl)
  | inr e ↦ rw e (same_state c)
]

Ensures-step : (c : Cpu) → Ensures (Intact c) (step c)
unfolding step count_instruction
Ensures-step c =
    let counted = count_instruction c in
    Ensures-bind (Intact counted) (Intact c) (execute counted) _ (Intact-execute counted) λ c' h.
      let ticked : Cpu = record c' { csr = tick c'.csr } in
      returns _ (
        trans-Intact c ticked _
          (record {
            zero_register = h.zero_register;
            fault_flag = h.fault_flag;
            breakpoint_list = h.breakpoint_list;
            breakpoint_flag = h.breakpoint_flag;
          })
          (Kept-Intact ticked _ (Kept-hit_breakpoint ticked)))

-- Whatever instruction runs, and whatever traps and interrupts it meets: a step that returns
-- leaves x0, the fault flag, the list of breakpoints and its flag as they were.
pub step-Intact : (c c' : Cpu) → step c ≡ ok c' → Intact c c'
step-Intact c c' e = Ensures-elim (Intact c) (step c) c' (Ensures-step c) e
