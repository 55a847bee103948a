-- ===== src/Examples/SimulatorWitnesses.antt =====
-- The theorems on the loop and on the loading of the simulator at the machine of one processor.
use system_on_chip_design_pr.Base.{◌≡◌, ◌≢◌, true, false, [], ◌∷◌, none, arith, add32}
use system_on_chip_design_pr.Outcome.{ok}
use system_on_chip_design_pr.Cpu.{Cpu}
use system_on_chip_design_pr.Cosim.{Cosim}
use system_on_chip_design_pr.Cosim.Riscv.{cpu_api, mem_api, mem_laws}
use system_on_chip_design_pr.Elf.{Section, Loaded, load_bytes}
use system_on_chip_design_pr.Simulator.{no_options, Host, mem_create, mem_load, run}
use system_on_chip_design_pr.Simulator.Runs.{run-enough, run-zero}
use system_on_chip_design_pr.Simulator.Loading.{AreLoaded, AreKept, load_bytes-AreLoaded}
use system_on_chip_design_pr.Simulator.Ends.{Ends}
use system_on_chip_design_pr.Examples.CosimWitnesses.{fresh, memory_cosim, memory_cosim-IsBacked}

run-enough_example :
    run cpu_api 0 (record no_options { max_cycles = 3 }) 3 memory_cosim 0 0 ≢ ok none
run-enough_example =
    run-enough cpu_api 0 (record no_options { max_cycles = 3 }) 3 memory_cosim 0 0 (omega arith)
      (omega arith) (omega arith)

run-zero_example :
    run cpu_api 0 (record no_options { max_cycles = 0 }) 100 memory_cosim 0 0
    ≡ run cpu_api 0 (record no_options { max_cycles = 0xFFFF_FFFF }) 100 memory_cosim 0 0
run-zero_example = run-zero cpu_api 0 no_options 100 memory_cosim 0 0 (omega arith)

abbrev code_section : Section
code_section = record {
  sh_type = 1;
  sh_flags = 2;
  sh_addr = 4;
  sh_size = 4;
  bytes = 0x93 ∷ 0x00 ∷ 0x50 ∷ 0x00 ∷ [];
}

load_bytes-AreLoaded_example :
    (s' : Cosim Cpu) × (load_bytes
        (mem_create (mem_api fresh))
        (mem_load (mem_api fresh))
        memory_cosim
        code_section
        4
        0
      ≡ ok (s', true))
    × AreLoaded (mem_api fresh) (mem_laws fresh) code_section s' 4 0
    × AreKept (mem_api fresh) (mem_laws fresh) code_section memory_cosim s' 4 0
load_bytes-AreLoaded_example =
    load_bytes-AreLoaded (mem_api fresh) (mem_laws fresh) code_section memory_cosim 4 0
      (omega arith, (omega arith, (omega arith, (omega arith, tt)))) (omega arith) (omega arith)
      (λ j low high. memory_cosim-IsBacked (add32 4 j) (omega arith))

-- No file is opened.
abbrev quiet_host : Host
quiet_host = record {
  strtoul = λ t. 0;
  elf = λ t. record {
    has_version = true;
    opens = true;
    begins = true;
    is_elf = true;
    has_names = true;
    e_entry = 0;
    sections = [];
  };
  symbols = λ t. none;
  opens = λ t. false;
}

abbrev loaded : Loaded (Cosim Cpu)
loaded = record { state = record memory_cosim { dump = none }; success = true; start_addr = 0 }
