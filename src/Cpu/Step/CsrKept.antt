-- ===== src/Cpu/Step/CsrKept.antt =====
-- What the accesses to control registers leave alone.
use system_on_chip_design_pr.Base.{
  ℕ, refl, Bool, Option, none, some, if◌then◌else◌, u32, ◌==◌, ◌+◌, bit_and,
}
use system_on_chip_design_pr.Outcome.Ensures.{
  Ensures, returns, exits, is_undefined, Ensures-bind, Ensures-after, Ensures-if,
}
use system_on_chip_design_pr.Isa.CsrNumber
use system_on_chip_design_pr.Cpu.{Cpu, stderr_putchar, console_putchar}
use system_on_chip_design_pr.Cpu.Mmu.{mmu_walk, physical_address}
use system_on_chip_design_pr.Cpu.CsrAccess.{
  access_csr, access_case, csr_case, CsrCase, simulation, std, const, timer, timer_high,
  unsupported, simulation_control, simulate_printf, putc, getc, send, read_string,
}
use system_on_chip_design_pr.Cpu.Step.Kept.{Kept, KeptWith, same_state, Kept-parts}

Kept-putc : (c : Cpu) (ch : ℕ) → Kept c (putc c ch)
Kept-putc c ch = go c.io.console
  where
    go :
        (x : Option (ℕ → ℕ))
        → Kept c
            (elim x [ none ↦ send c (stderr_putchar ch) | some _ ↦ send c (console_putchar ch) ])
    go none = Kept-parts _ _ refl refl refl refl
    go (some f) = Kept-parts _ _ refl refl refl refl

Kept-getc : (c : Cpu) → KeptWith {A = ℕ} c (getc c)
Kept-getc c = go c.io.console
  where
    go :
        (x : Option (ℕ → ℕ))
        → KeptWith {A = ℕ} c (elim x [
          | none ↦ (0, c)
          | some getchar ↦
              (u32 (getchar c.io.reads), record c { io = record c.io { reads = c.io.reads + 1 } })
        ])
    go none = same_state c
    go (some f) = Kept-parts _ _ refl refl refl refl

Kept-simulate_printf : (c : Cpu) → Ensures (Kept c) (simulate_printf c)
unfolding simulate_printf
Kept-simulate_printf c = Ensures-after _ (mmu_walk c (c.gpr 10)) _ λ pte.
    Ensures-after _
      (read_string 1023 c (if pte == 0 then c.gpr 10 else physical_address pte (c.gpr 10))) _
      λ fmt.
        Ensures-if _ (c.io.sprintf_fits fmt (c.gpr 11) (c.gpr 12) (c.gpr 13) (c.gpr 14)) _ _
          (returns _ (Kept-parts _ _ refl refl refl refl)) is_undefined

Kept-simulation_control : (c : Cpu) (v : ℕ) → Ensures (KeptWith c) (simulation_control c v)
unfolding simulation_control
Kept-simulation_control c v =
    let command = bit_and v 0xFF00_0000 in
    Ensures-if _ (command == CsrNumber.sim_exit) _ _ (exits _) (
      Ensures-if _ (command == CsrNumber.sim_putc) _ _ (returns _ (Kept-putc c _)) (
        Ensures-if _ (command == CsrNumber.sim_getc) _ _ (returns _ (Kept-getc c)) (
          Ensures-if _ (command == CsrNumber.sim_trace) _ _
            (returns _ (Kept-parts _ _ refl refl refl refl))
            (Ensures-if _ (command == CsrNumber.sim_printf) _ _
              (Ensures-bind (Kept c) _ (simulate_printf c) _ (Kept-simulate_printf c)
                λ c' k. returns _ k)
              (returns _ (same_state c))))))

Kept-access_case :
    (k : CsrCase) (c : Cpu) (v : ℕ) (set clr : Bool)
    → Ensures (KeptWith c) (access_case k c v set clr)
unfolding access_case
Kept-access_case simulation c v set clr = Kept-simulation_control c v
Kept-access_case (std name) c v set clr = returns _ (Kept-parts _ _ refl refl refl refl)
Kept-access_case (const n) c v set clr = returns _ (same_state c)
Kept-access_case timer c v set clr = returns _ (Kept-parts _ _ refl refl refl refl)
Kept-access_case timer_high c v set clr = returns _ (same_state c)
Kept-access_case unsupported c v set clr = exits _

pub Kept-access_csr :
    (c : Cpu) (a v : ℕ) (set clr : Bool) → Ensures (KeptWith c) (access_csr c a v set clr)
unfolding access_csr
Kept-access_csr c a v set clr = Kept-access_case (csr_case (bit_and a 0xFFF)) c v set clr
