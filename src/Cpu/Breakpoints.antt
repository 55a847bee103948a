-- ===== src/Cpu/Breakpoints.antt =====
-- The breakpoints of isa_sim/riscv.cpp, the status flags, `set_interrupt`, `reset` and the
-- constructor.
pub mod Laws
use system_on_chip_design_pr.Base.{
  ℕ, ◌%◌, ◌^◌, Bool, true, false, not, ◌||◌, List, [], ◌∷◌, ◌++◌, Option, none, some, bit_or,
  if◌then◌else◌, ◌==◌,
}
use system_on_chip_design_pr.Outcome.{Outcome, ok, ◌>>=◌, assert}
use system_on_chip_design_pr.Isa.Status.{priv_machine, sr_ip_meip}
use system_on_chip_design_pr.Cpu.{Cpu, Stats, Surroundings}
use system_on_chip_design_pr.Cpu.Regions.{create_memory}

abbrev pub is_empty : List ℕ → Bool
is_empty [] = true
is_empty (x ∷ xs) = false

-- Reading the flag clears it.
unfoldable pub get_break : Cpu → Cpu × Bool
get_break c = (record c { brk = false }, c.brk)

unfoldable pub set_breakpoint : Cpu → ℕ → Cpu × Bool
set_breakpoint c pc =
    (record c { breakpoints = c.breakpoints ++ pc ∷ []; has_breakpoints = true }, true)

-- The list without the first element that is `pc`, `none` if there is none.
unfoldable pub erase_first : List ℕ → ℕ → Option (List ℕ)
erase_first [] pc = none
erase_first (x ∷ xs) pc =
    let rest = erase_first xs pc in
    if x == pc then some xs else elim rest [ none ↦ none | some ys ↦ some (x ∷ ys) ]

unfoldable pub clr_breakpoint : Cpu → ℕ → Cpu × Bool
clr_breakpoint c pc = elim (erase_first c.breakpoints pc) [
  | none ↦ (c, false)
  | some rest ↦ (record c { breakpoints = rest; has_breakpoints = not (is_empty rest) }, true)
]

unfoldable pub holds : List ℕ → ℕ → Bool
holds [] pc = false
holds (x ∷ xs) pc = x == pc || holds xs pc

unfoldable pub check_breakpoint : Cpu → ℕ → Bool
check_breakpoint c pc = holds c.breakpoints pc

-- Only interrupt line 0 is there.
unfoldable pub set_interrupt : Cpu → ℕ → Outcome Cpu
set_interrupt c irq =
    assert (irq == 0) (ok (record c { csr = record c.csr { mip = bit_or c.csr.mip sr_ip_meip } }))

abbrev pub no_stats : Stats
no_stats = record { instructions = 0; loads = 0; stores = 0; branches = 0 }

-- `reset`: memory, breakpoints, and what is attached to the processor stay as they are.
unfoldable pub reset : Cpu → ℕ → Cpu
reset c start_addr = record c {
  pc = start_addr;
  pc_x = start_addr;
  gpr = λ i. 0;
  csr = record {
    mpriv = priv_machine;
    msr = 0;
    mideleg = 0;
    medeleg = 0;
    mepc = 0;
    mie = 0;
    mip = 0;
    mcause = 0;
    mevec = 0;
    mtime = 0;
    mtimecmp = 0;
    mscratch = 0;
    sepc = 0;
    sevec = 0;
    scause = 0;
    stval = 0;
    satp = 0;
    sscratch = 0;
  };
  fault = false;
  brk = false;
  trace = 0;
  stats = no_stats;
}

-- The constructor, on an object whose other members hold `raw`; the vectors and queues of a new
-- object are empty, and it has sent nothing. `words` is what a new array holds.
unfoldable pub construct : Cpu → ℕ → ℕ → (ℕ → ℕ) → Outcome Cpu
construct raw base_addr len words =
    let c = record raw {
      regions = [];
      has_breakpoints = false;
      breakpoints = [];
      io = record {
        has_stats_if = false;
        console = none;
        reads = 0;
        load_events = [];
        load_result_events = [];
        store_events = [];
        output = [];
        sprintf_fits = raw.io.sprintf_fits;
      };
    } in
    if len == 0
    then ok (reset c base_addr)
    else (do (c', _) ← create_memory c base_addr len words; ok (reset c' base_addr))
