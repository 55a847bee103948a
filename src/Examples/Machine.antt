-- ===== src/Examples/Machine.antt =====
-- A small machine: 64 bytes of memory at address 0.
use system_on_chip_design_pr.Base.{ℕ, zero, suc, true, false, List, [], ◌∷◌, none}
use system_on_chip_design_pr.Outcome.{Outcome, ok, ◌>>=◌}
use system_on_chip_design_pr.Memory.{SimpleMemory}
use system_on_chip_design_pr.Cpu.{Cpu, CsrFile, Region, Surroundings}
use system_on_chip_design_pr.Cpu.Breakpoints.{no_stats}
use system_on_chip_design_pr.Cpu.Step.{step}

abbrev pub words_of : List ℕ → ℕ → ℕ
words_of [] i = 0
words_of (w ∷ ws) zero = w
words_of (w ∷ ws) (suc i) = words_of ws i

abbrev pub memory_of : List ℕ → SimpleMemory
memory_of ws = record { words = words_of ws; size = 64 }

abbrev pub quiet : Surroundings
quiet = record {
  has_stats_if = false;
  console = none;
  reads = 0;
  load_events = [];
  load_result_events = [];
  store_events = [];
  output = [];
  sprintf_fits = λ fmt a b c d. true;
}

abbrev pub cleared : CsrFile
cleared = record {
  mepc = 0;
  mcause = 0;
  msr = 0;
  mpriv = 3;
  mevec = 0;
  mie = 0;
  mip = 0;
  mtime = 0;
  mtimecmp = 0;
  mscratch = 0;
  mideleg = 0;
  medeleg = 0;
  sepc = 0;
  sevec = 0;
  scause = 0;
  stval = 0;
  satp = 0;
  sscratch = 0;
}

abbrev pub region_of : List ℕ → Region
region_of ws = record { base = 0; size = 64; memory = memory_of ws }

abbrev pub machine : List ℕ → Cpu
machine ws = record {
  gpr = λ i. 0;
  pc = 0;
  pc_x = 0;
  csr = cleared;
  regions = region_of ws ∷ [];
  fault = false;
  brk = false;
  trace = 0;
  has_breakpoints = false;
  breakpoints = [];
  stats = no_stats;
  io = quiet;
}

-- `n` steps.
abbrev pub run : ℕ → Cpu → Outcome Cpu
run zero c = ok c
run (suc n) c = do c' ← step c; run n c'
