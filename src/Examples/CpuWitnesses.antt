-- ===== src/Examples/CpuWitnesses.antt =====
-- The theorems on the processor at the machine after its construction.
use system_on_chip_design_pr.Base.{
  ℕ, ◌<◌, ◌≡◌, ◌↔◌, ◌⊎◌, refl, true, false, ◌&&◌, [], ◌∷◌, arith, if◌then◌else◌, ◌==◌,
}
use system_on_chip_design_pr.Base.Bits.{bit}
use system_on_chip_design_pr.Outcome.{ok}
use system_on_chip_design_pr.Cpu.{Cpu, CsrFile}
use system_on_chip_design_pr.Cpu.Registers.{register_of, get_register, set_register}
use system_on_chip_design_pr.Cpu.Registers.Laws.{get_register-set_register}
use system_on_chip_design_pr.Cpu.Breakpoints.{clr_breakpoint}
use system_on_chip_design_pr.Cpu.Breakpoints.Laws.{Cleared, clr_breakpoint-Cleared}
use system_on_chip_design_pr.Cpu.Trap.{
  exception, machine_return, super_return, enter_machine_status, enter_super_status,
  leave_machine_status, leave_super_status,
}
use system_on_chip_design_pr.Cpu.Trap.Status.{status-bits}
use system_on_chip_design_pr.Cpu.Trap.RoundTrip.{
  machine_round, machine_return-exception, super_round, super_return-exception,
}
use system_on_chip_design_pr.Cpu.Mmu.{access_faults, fetch_faults}
use system_on_chip_design_pr.Cpu.Mmu.Permissions.{access_faults-allows, fetch_faults-allows}
use system_on_chip_design_pr.Cpu.CsrAccess.{access_std, std_get, std_mask, sstatus}
use system_on_chip_design_pr.Cpu.CsrAccess.Laws.{new_bit, access_std-bits}
use system_on_chip_design_pr.Cpu.Execute.Interrupts.{first_interrupt, enabled_interrupts}
use system_on_chip_design_pr.Cpu.Execute.Pending.{
  IsLowest, ForMachine, ForSuper, first_interrupt-IsLowest, enabled_interrupts-bit,
}
use system_on_chip_design_pr.Examples.Machine.{machine, cleared}

get_register-set_register_example : get_register (set_register (machine []) 5 0xDEAD) 5 ≡ 0xDEAD
unfolding register_of
get_register-set_register_example =
    get_register-set_register (machine []) 5 0xDEAD (λ e. cc) (omega arith)

clr_breakpoint-Cleared_example :
    Cleared
      (record (machine []) { breakpoints = 4 ∷ 8 ∷ 8 ∷ []; has_breakpoints = true })
      8
      (clr_breakpoint
        (record (machine []) { breakpoints = 4 ∷ 8 ∷ 8 ∷ []; has_breakpoints = true })
        8)
clr_breakpoint-Cleared_example =
    clr_breakpoint-Cleared
      (record (machine []) { breakpoints = 4 ∷ 8 ∷ 8 ∷ []; has_breakpoints = true }) 8

status-bits_example :
    (bit 7 (enter_machine_status 8 3) ≡ true)
    × (bit 7 (enter_super_status 8 3) ≡ bit 7 8)
    × (bit 7 (leave_machine_status 8) ≡ true)
    × (bit 7 (leave_super_status 8) ≡ bit 7 8)
unfolding bit
status-bits_example = status-bits 8 3 7 (omega arith) (omega arith)

-- An environment call from machine mode with interrupts enabled.
abbrev trapping : Cpu
trapping = record (machine []) { csr = record cleared { msr = 8; mevec = 0x40 } }

machine_return-exception_example :
    (s : ℕ) × (machine_return (exception trapping 11 0x20 0)
      ≡ ok (
        record trapping {
          csr = record trapping.csr { msr = s; mepc = 0x20; mcause = 11 };
          pc = 0x40;
        },
        0x20,
      ))
    × ((k : ℕ) → k < 32 → bit k s ≡ machine_round 8 k)
machine_return-exception_example = machine_return-exception trapping 11 0x20 0 (omega arith) refl

-- A page fault in user mode that is delegated.
abbrev delegating : Cpu
delegating = record (machine []) {
  csr = record cleared { mpriv = 0; msr = 2; medeleg = 0x2000; sevec = 0x80 };
}

super_return-exception_example :
    (s : ℕ) × (super_return (exception delegating 13 0x24 0x1234)
      ≡ ok (
        record delegating {
          csr = record delegating.csr { msr = s; sepc = 0x24; scause = 13; stval = 0x1234 };
          pc = 0x80;
        },
        0x24,
      ))
    × ((k : ℕ) → k < 32 → bit k s ≡ super_round 2 k)
super_return-exception_example = super_return-exception delegating 13 0x24 0x1234 refl

-- A store to a user page that is only readable.
access_faults-allows_example : access_faults 0 0 0x13 true ≡ ok true
unfolding bit
access_faults-allows_example = access_faults-allows 0 0 0x13 true

fetch_faults-allows_example : fetch_faults 0 0x19 ≡ ok false
unfolding bit
fetch_faults-allows_example = fetch_faults-allows 0 0x19

-- A table of superpages at 0x1000, whose first entry leads to a table of pages at 0x2000. Its second
-- entry is a leaf for the page at 0x1000.
abbrev paged : Cpu
paged = record (machine []) {
  csr = record cleared { satp = 0x8000_0001 };
  regions =
      record {
        base = 0x1000;
        size = 0x2000;
        memory = record {
          words = λ i. if i == 0 then 0x801 else if i == 1025 then 0x40F else 0;
          size = 0x2000;
        };
      }
      ∷ [];
}

access_std-bits_example :
    (bit 1 (access_std sstatus cleared 2 true false).0
      ≡ (bit 1 (std_get sstatus cleared) && bit 1 (std_mask sstatus)))
    × (bit 1 (std_get sstatus (access_std sstatus cleared 2 true false).1)
        ≡ new_bit (bit 1 (std_get sstatus cleared)) (bit 1 2) (bit 1 (std_mask sstatus)) true false)
access_std-bits_example = access_std-bits sstatus cleared 2 1 true false (omega arith)

first_interrupt-IsLowest_example : IsLowest 0x88 3 9 (first_interrupt 9 3 0x88)
first_interrupt-IsLowest_example = first_interrupt-IsLowest 9 3 0x88

-- A machine timer interrupt, enabled.
abbrev ringing : CsrFile
ringing = record cleared { msr = 8; mie = 0x80; mip = 0x80 }

enabled_interrupts-bit_example :
    ((j : ℕ) × (j < 32)
      × ForMachine ringing j
      × ((bit 7 (enabled_interrupts ringing) ≡ true) ↔ ForMachine ringing 7))
    ⊎ (((j : ℕ) → j < 32 → ¬ ForMachine ringing j)
        × ((bit 7 (enabled_interrupts ringing) ≡ true) ↔ ForSuper ringing 7))
enabled_interrupts-bit_example = enabled_interrupts-bit ringing 7 (omega arith)
