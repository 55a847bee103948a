-- ===== src/Simulator/Main.antt =====
-- isa_sim/main.cpp: one processor, which is also the memory of all addresses but the last.
use system_on_chip_design_pr.Base.{ℕ, [], none, update, List}
use system_on_chip_design_pr.Outcome.{Outcome, ok, ◌>>=◌}
use system_on_chip_design_pr.Cpu.{Cpu}
use system_on_chip_design_pr.Cpu.Breakpoints.{construct}
use system_on_chip_design_pr.Cpu.CsrAccess.{stats_dump}
use system_on_chip_design_pr.Cosim.{Cosim, attach_cpu, attach_mem}
use system_on_chip_design_pr.Cosim.Riscv.{cpu_api, mem_api}
use system_on_chip_design_pr.Simulator.{
  Arg, Host, MainEnd, exited, returned, unfinished, riscv_main,
}

-- The new object and its two attachments. `raw` and `fresh` are what is not initialised: the members
-- of the object, and the arrays.
unfoldable pub set_up : Cpu → (ℕ → ℕ → ℕ) → Outcome (Cosim Cpu)
set_up raw fresh = do
  sim ← construct raw 0 0 (fresh 0)
  ok (
      attach_mem "sim" 0 0 0xFFFF_FFFF
        (attach_cpu "sim" 0 (record { cpus = []; mems = []; dump = none; objects = λ p. sim })))

-- What follows `riscv_main`, if it returns.
unfoldable pub after_main : MainEnd Cpu → MainEnd Cpu
after_main (exited s file code) = exited s file code
after_main (returned s exitcode) =
    returned (record s { objects = update s.objects 0 (stats_dump (s.objects 0)) }) exitcode
after_main unfinished = unfinished

unfoldable pub main : Cpu → (ℕ → ℕ → ℕ) → Host → ℕ → List Arg → Outcome (MainEnd Cpu)
main raw fresh host fuel args = do
  s ← set_up raw fresh
  ended ← riscv_main cpu_api (mem_api fresh) host 0 fuel args s
  ok (after_main ended)
