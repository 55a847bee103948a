-- ===== src/Simulator/Ends.antt =====
-- How `riscv_main` (isa_sim/riscv_main.cpp) ends, by what `elf_load` returned.
use system_on_chip_design_pr.Base.{ℕ, ◌≡◌, true, false, Option, some}
use system_on_chip_design_pr.Base.Text.{Text}
use system_on_chip_design_pr.Outcome.{Outcome, ok}
use system_on_chip_design_pr.Cosim.{CpuApi, MemApi, Cosim}
use system_on_chip_design_pr.Cosim.Exit.{at_exit}
use system_on_chip_design_pr.Elf.{Loaded}
use system_on_chip_design_pr.Simulator.{
  Options, MainEnd, exited, returned, unfinished, fault_code, Host, register_dump, prepare, goes_on,
}
use system_on_chip_design_pr.Simulator.Loop.{FailsAs, Rounds, LoopEnds}

module _ {S : Type 0} (cpu_api : CpuApi S) (mem_api : MemApi S) (host : Host) (sim : ℕ) where
  -- What is behind a call of `elf_load`. Without success `riscv_main` returns the fault of the
  -- processor. With success it does not return: where the loop ends, `exit` is called with the fault of
  -- the processor; the process can end before, as the look-up of the symbols, a step, or the dump ends
  -- it, or the loop has used up its fuel.
  pub data Ends (fuel : ℕ) (o : Options) (file : Text) (loaded : Loaded (Cosim S))
      : Outcome (MainEnd S) → Type 0 where
    not_loaded :
        loaded.success ≡ false
        → Ends fuel o file loaded
            (ok (returned loaded.state (fault_code (cpu_api.get_fault (loaded.state.objects sim)))))
    no_symbols :
        (r : Outcome (MainEnd S))
        → loaded.success ≡ true
        → FailsAs (register_dump cpu_api mem_api host sim o file loaded.state) r
        → Ends fuel o file loaded r
    in_step :
        (s s' : Cosim S) (n pc cycles : ℕ) (r : Outcome (MainEnd S))
        → loaded.success ≡ true
        → register_dump cpu_api mem_api host sim o file loaded.state ≡ ok s
        → Rounds cpu_api sim o n
            (prepare cpu_api mem_api host sim o loaded.start_addr s)
            0
            0
            s'
            pc
            cycles
        → goes_on cpu_api sim o s' pc ≡ true
        → FailsAs (cpu_api.step (s'.objects sim)) r
        → Ends fuel o file loaded r
    in_dump :
        (s last : Cosim S) (r : Outcome (MainEnd S))
        → loaded.success ≡ true
        → register_dump cpu_api mem_api host sim o file loaded.state ≡ ok s
        → LoopEnds cpu_api sim o fuel
            (prepare cpu_api mem_api host sim o loaded.start_addr s)
            0
            0
            (ok (some last))
        → FailsAs
            (at_exit mem_api host.opens last (fault_code (cpu_api.get_fault (last.objects sim))))
            r
        → Ends fuel o file loaded r
    at_end :
        (s last : Cosim S) (written : Option (Text × Text))
        → loaded.success ≡ true
        → register_dump cpu_api mem_api host sim o file loaded.state ≡ ok s
        → LoopEnds cpu_api sim o fuel
            (prepare cpu_api mem_api host sim o loaded.start_addr s)
            0
            0
            (ok (some last))
        → Ends fuel o file loaded
            (ok (exited last written (fault_code (cpu_api.get_fault (last.objects sim)))))
    no_end :
        (s s' : Cosim S) (pc cycles : ℕ)
        → loaded.success ≡ true
        → register_dump cpu_api mem_api host sim o file loaded.state ≡ ok s
        → Rounds cpu_api sim o fuel
            (prepare cpu_api mem_api host sim o loaded.start_addr s)
            0
            0
            s'
            pc
            cycles
        → Ends fuel o file loaded (ok unfinished)
