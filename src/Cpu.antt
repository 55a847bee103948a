-- ===== src/Cpu.antt =====
-- The state of the class `Riscv` of isa_sim/riscv.h, with the records that the modules of its
-- methods share. A pointer to a stats interface or a console is modelled by whether it is set,
-- and what the methods send to it is recorded in order.
pub mod Regions
pub mod Registers
pub mod Breakpoints
pub mod Trap
pub mod Mmu
pub mod Access
pub mod CsrAccess
pub mod Alu
pub mod Execute
pub mod Step
use system_on_chip_design_pr.Base.{ℕ, Bool, List, Option}
use system_on_chip_design_pr.Memory.{SimpleMemory}

-- `m_csr_*`.
pub record CsrFile : Type 0 where
  pub mepc : ℕ
  pub mcause : ℕ
  pub msr : ℕ
  pub mpriv : ℕ
  pub mevec : ℕ
  pub mie : ℕ
  pub mip : ℕ
  pub mtime : ℕ
  pub mtimecmp : ℕ
  pub mscratch : ℕ
  pub mideleg : ℕ
  pub medeleg : ℕ
  pub sepc : ℕ
  pub sevec : ℕ
  pub scause : ℕ
  pub stval : ℕ
  pub satp : ℕ
  pub sscratch : ℕ

-- `m_stats`.
pub record Stats : Type 0 where
  pub instructions : ℕ
  pub loads : ℕ
  pub stores : ℕ
  pub branches : ℕ

-- One entry of `m_mem_base`, `m_mem_size` and `m_mem`.
pub record Region : Type 0 where
  pub base : ℕ
  pub size : ℕ
  pub memory : SimpleMemory

-- `cosim_event`, without its type: each type has a queue of its own.
pub record CosimEvent : Type 0 where
  pub arg1 : ℕ
  pub arg2 : ℕ

-- What leaves the simulator, besides trace messages.
pub data Output : Type 0 where
  console_putchar : ℕ → Output
  stderr_putchar : ℕ → Output
  simulation_printf : List ℕ → (arg1 arg2 arg3 arg4 : ℕ) → Output
  stats_execute : (pc opcode : ℕ) → Output
  stats_print : Output
  stats_clear : Output
  stats_report : Stats → Output

-- The surroundings of the processor. `console` gives the value of each call of `getchar` in turn,
-- counted by `reads`; the event queues have their front first; the latest output is last.
-- `sprintf_fits` says of a format and four arguments that `sprintf` is defined for them and prints no
-- more than the buffer has.
pub record Surroundings : Type 0 where
  pub has_stats_if : Bool
  pub console : Option (ℕ → ℕ)
  pub reads : ℕ
  pub load_events : List CosimEvent
  pub load_result_events : List CosimEvent
  pub store_events : List CosimEvent
  pub output : List Output
  pub sprintf_fits : List ℕ → ℕ → ℕ → ℕ → ℕ → Bool

pub record Cpu : Type 0 where
  pub gpr : ℕ → ℕ
  pub pc : ℕ
  pub pc_x : ℕ
  pub csr : CsrFile
  pub regions : List Region
  pub fault : Bool
  pub brk : Bool
  pub trace : ℕ
  pub has_breakpoints : Bool
  pub breakpoints : List ℕ
  pub stats : Stats
  pub io : Surroundings
