-- ===== src/Cpu/Execute/Interrupts.antt =====
-- The part of `Riscv::execute` that takes a pending interrupt.
use system_on_chip_design_pr.Base.{
  ℕ, zero, suc, ◌+◌, ◌-◌, ◌^◌, Bool, true, false, not, ◌&&◌, ◌||◌, Option, none, some, bit_and,
  if◌then◌else◌, ltb, ◌==◌, not32, any_bit,
}
use system_on_chip_design_pr.Isa.Status.{
  priv_super, priv_machine, sr_mie, sr_sie, irq_min, irq_max, mcause_interrupt,
}
use system_on_chip_design_pr.Cpu.{Cpu, CsrFile}
use system_on_chip_design_pr.Cpu.Trap.{exception}

abbrev pub machine_enabled : CsrFile → Bool
machine_enabled r = ltb r.mpriv priv_machine || (r.mpriv == priv_machine && any_bit r.msr sr_mie)

abbrev pub super_enabled : CsrFile → Bool
super_enabled r = ltb r.mpriv priv_super || (r.mpriv == priv_super && any_bit r.msr sr_sie)

-- `-enabled` for 0 or 1: no bits, or all.
abbrev pub all_or_nothing : Bool → ℕ
all_or_nothing enabled = if enabled then 0xFFFF_FFFF else 0

-- The interrupts that may be taken; those of machine mode come first.
unfoldable pub enabled_interrupts : CsrFile → ℕ
enabled_interrupts r =
    let pending = bit_and r.mip r.mie in
    let m_interrupts =
      bit_and (bit_and pending (not32 r.mideleg)) (all_or_nothing (machine_enabled r)) in
    let s_interrupts = bit_and (bit_and pending r.mideleg) (all_or_nothing (super_enabled r)) in
    if m_interrupts == 0 then s_interrupts else m_interrupts

-- The loop from `irq_min` on, with `left` rounds to go.
unfoldable pub first_interrupt : ℕ → ℕ → ℕ → Option ℕ
first_interrupt zero i interrupts = none
first_interrupt (suc left) i interrupts =
    let rest = first_interrupt left (i + 1) interrupts in
    if any_bit interrupts (2 ^ i) then some i else rest

-- The state, and whether an exception has been taken.
unfoldable pub service_interrupt : Cpu → ℕ → Bool → Cpu × Bool
service_interrupt c pc take_exception =
    if not take_exception && not (bit_and c.csr.mip c.csr.mie == 0)
    then elim (first_interrupt (irq_max - irq_min) irq_min (enabled_interrupts c.csr)) [
      | none ↦ (c, false)
      | some i ↦ (exception c (mcause_interrupt + i) pc 0, true)
    ]
    else (c, take_exception)
