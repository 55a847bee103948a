-- ===== src/Simulator.antt =====
-- isa_sim/riscv_main.cpp and isa_sim/main.cpp: the command line of the simulator, and a run. What
-- `getopt` returns, the numbers that `strtoul` reads, and the ELF files are parameters.
pub mod Runs
pub mod Main
pub mod Loop
pub mod Ends
pub mod Loading
use system_on_chip_design_pr.Base.{
  ℕ, zero, suc, ◌+◌, ◌*◌, ◌%◌, ◌^◌, Bool, true, false, not, ◌&&◌, ◌||◌, List, [], ◌∷◌, Option, none,
  some, if◌then◌else◌, ◌==◌, update, u32,
}
use system_on_chip_design_pr.Base.Text.{Text}
use system_on_chip_design_pr.Outcome.{Outcome, ok, error, ◌>>=◌}
use system_on_chip_design_pr.Cosim.{CpuApi, MemApi, Cosim, Dump, dump_on_exit}
use system_on_chip_design_pr.Cosim.Memory.{valid_addr, create_memory, write}
use system_on_chip_design_pr.Cosim.Exit.{at_exit}
use system_on_chip_design_pr.Elf.{ElfFile, Symbol, Loaded, elf_load, elf_get_symbol}

-- The local variables that the options set.
pub record Options : Type 0 where
  pub max_cycles : ℕ
  pub filename : Option Text
  pub help : Bool
  pub trace : ℕ
  pub trace_mask : ℕ
  pub stop_pc : ℕ
  pub trace_pc : ℕ
  pub mem_base : ℕ
  pub mem_size : ℕ
  pub explicit_mem : Bool
  pub dump_file : Option Text
  pub dump_sym_start : Option Text
  pub dump_sym_end : Option Text

abbrev pub no_options : Options
no_options = record {
  max_cycles = 0xFFFF_FFFF;
  filename = none;
  help = false;
  trace = 0;
  trace_mask = 1;
  stop_pc = 0xFFFF_FFFF;
  trace_pc = 0xFFFF_FFFF;
  mem_base = 0;
  mem_size = 32 * 1024 * 1024;
  explicit_mem = false;
  dump_file = none;
  dump_sym_start = none;
  dump_sym_end = none;
}

-- A result of `getopt`: an option of its list, with `optarg`, or anything else.
pub data Arg : Type 0 where
  arg_t arg_v arg_r arg_f arg_c arg_b arg_s arg_e arg_p arg_j arg_k : Text → Arg
  other : Arg

module _ (strtoul : Text → ℕ) where
  -- The switch. The numbers are cut to the 32 bits of the variables.
  unfoldable pub set_option : Options → Arg → Options
  set_option o (arg_t optarg) = record o { trace = u32 (strtoul optarg) }
  set_option o (arg_v optarg) = record o { trace_mask = u32 (strtoul optarg) }
  set_option o (arg_r optarg) = record o { stop_pc = u32 (strtoul optarg) }
  set_option o (arg_f optarg) = record o { filename = some optarg }
  set_option o (arg_c optarg) = record o { max_cycles = u32 (strtoul optarg) }
  set_option o (arg_b optarg) = record o { mem_base = u32 (strtoul optarg); explicit_mem = true }
  set_option o (arg_s optarg) = record o { mem_size = u32 (strtoul optarg); explicit_mem = true }
  set_option o (arg_e optarg) = record o { trace_pc = u32 (strtoul optarg) }
  set_option o (arg_p optarg) = record o { dump_file = some optarg }
  set_option o (arg_j optarg) = record o { dump_sym_start = some optarg }
  set_option o (arg_k optarg) = record o { dump_sym_end = some optarg }
  set_option o other = record o { help = true }

  unfoldable pub parse_options : Options → List Arg → Options
  parse_options o [] = o
  parse_options o (arg ∷ args) = parse_options (set_option o arg) args

-- How `riscv_main` ends: `at_exit` has called `exit`, with the file that it wrote, or the function
-- returns; `unfinished` is a loop that the fuel does not finish.
pub data MainEnd (S : Type 0) : Type 0 where
  exited : Cosim S → Option (Text × Text) → ℕ → MainEnd S
  returned : Cosim S → ℕ → MainEnd S
  unfinished : MainEnd S

-- The result of `cosim::get_fault` as a number.
abbrev pub fault_code : Bool → ℕ
fault_code true = 1
fault_code false = 0

module _ {S : Type 0} (mem_api : MemApi S) where
  -- The callbacks of `elf_load`.
  unfoldable pub mem_create : Cosim S → ℕ → ℕ → Outcome (Cosim S × Bool)
  mem_create s base size = create_memory mem_api s base size none

  unfoldable pub mem_load : Cosim S → ℕ → ℕ → Outcome (Cosim S × Bool)
  mem_load s addr value = do s' ← write mem_api s addr value; ok (s', valid_addr s' addr)

module _ {S : Type 0} (cpu_api : CpuApi S) (sim : ℕ) (o : Options) where
  abbrev pub on_sim : Cosim S → S → Cosim S
  on_sim s x = record s { objects = update s.objects sim x }

  -- The condition of the loop.
  abbrev pub goes_on : Cosim S → ℕ → Bool
  goes_on s current_pc =
      not (cpu_api.get_fault (s.objects sim))
      && not (cpu_api.get_stopped (s.objects sim))
      && not (current_pc == o.stop_pc)

  -- The count of instructions is full; `max_cycles` is -1 where no limit is set.
  abbrev pub is_full : ℕ → Bool
  is_full cycles = not (o.max_cycles == 0xFFFF_FFFF) && o.max_cycles == cycles

  abbrev pub trace_from : Cosim S → ℕ → Cosim S
  trace_from s current_pc =
      if o.trace_pc == current_pc
      then on_sim s (cpu_api.enable_trace (s.objects sim) o.trace_mask)
      else s

  -- The loop, on fuel: `none` if the fuel does not finish it.
  unfoldable pub run : ℕ → Cosim S → ℕ → ℕ → Outcome (Option (Cosim S))
  run zero s current_pc cycles = ok none
  run (suc fuel) s current_pc cycles = elim (goes_on s current_pc) [
    | false ↦ ok (some s)
    | true ↦ do
      x ← cpu_api.step (s.objects sim)
      elim (is_full (u32 (cycles + 1))) [
        | true ↦ ok (some (on_sim s x))
        | false ↦
            run fuel (trace_from (on_sim s x) (cpu_api.get_pc (s.objects sim)))
              (cpu_api.get_pc (s.objects sim)) (u32 (cycles + 1))
      ]
  ]

-- The system around the simulator: `strtoul`, the files that libelf and bfd read, and the file that
-- `fopen` opens.
pub record Host : Type 0 where
  pub strtoul : Text → ℕ
  pub elf : Text → ElfFile
  pub symbols : Text → Option (List Symbol)
  pub opens : Text → Bool

module _ {S : Type 0} (cpu_api : CpuApi S) (mem_api : MemApi S) (host : Host) (sim : ℕ) where
  unfoldable pub make_memory : Options → Cosim S → Outcome (Cosim S)
  make_memory o s =
      if o.explicit_mem
      then (do made ← mem_create mem_api s o.mem_base o.mem_size; ok made.0)
      else ok s

  unfoldable pub register_dump : Options → Text → Cosim S → Outcome (Cosim S)
  register_dump o file s = elim o.dump_file [
    | none ↦ ok s
    | some dump_file ↦ do
      start ← elf_get_symbol (host.symbols file) o.dump_sym_start
      end_ ← elf_get_symbol (host.symbols file) o.dump_sym_end
      ok (dump_on_exit (record { file = dump_file; start = start; end_ = end_ }) s)
  ]

  -- The reset to the start address, and the trace that `-t` asks for.
  unfoldable pub prepare : Options → ℕ → Cosim S → Cosim S
  prepare o start_addr s =
      let x = cpu_api.reset (s.objects sim) start_addr in
      on_sim cpu_api sim o s (if o.trace == 0 then x else cpu_api.enable_trace x o.trace_mask)

  -- The call of `at_exit` behind the loop.
  unfoldable pub finish : Option (Cosim S) → Outcome (MainEnd S)
  finish none = ok unfinished
  finish (some s) =
      let code = fault_code (cpu_api.get_fault (s.objects sim)) in
      do left ← at_exit mem_api host.opens s code; ok (exited s left.0 left.1)

  -- What follows a call of `elf_load`.
  unfoldable pub run_loaded : ℕ → Options → Text → Loaded (Cosim S) → Outcome (MainEnd S)
  run_loaded fuel o file loaded = elim loaded.success [
    | false ↦ ok (returned loaded.state (fault_code (cpu_api.get_fault (loaded.state.objects sim))))
    | true ↦ do
      s ← register_dump o file loaded.state
      ended ← run cpu_api sim o fuel (prepare o loaded.start_addr s) 0 0
      finish ended
  ]

  unfoldable pub start : ℕ → Options → Cosim S → Outcome (MainEnd S)
  start fuel o s = elim o.filename [
    | none ↦ error
    | some file ↦ elim o.help [
      | true ↦ error
      | false ↦ do
        s' ← make_memory o s
        loaded ← elf_load (mem_create mem_api) (mem_load mem_api) (host.elf file) s' 0
        run_loaded fuel o file loaded
    ]
  ]

  unfoldable pub riscv_main : ℕ → List Arg → Cosim S → Outcome (MainEnd S)
  riscv_main fuel args s = start fuel (parse_options host.strtoul no_options args) s
