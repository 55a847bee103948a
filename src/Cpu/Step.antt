-- ===== src/Cpu/Step.antt =====
-- `Riscv::step` of isa_sim/riscv.cpp: one instruction, the timer and the breakpoints.
pub mod Kept
pub mod CsrKept
pub mod Instructions
pub mod Invariant
pub mod Runs
use system_on_chip_design_pr.Base.{
  ◌+◌, ◌%◌, ◌^◌, true, ◌&&◌, bit_and, bit_or, if◌then◌else◌, ◌==◌, add32, any_bit,
}
use system_on_chip_design_pr.Outcome.{Outcome, ok, ◌>>=◌}
use system_on_chip_design_pr.Isa.Status.{sr_ip_stip, sr_ip_mtip}
use system_on_chip_design_pr.Cpu.{Cpu, CsrFile}
use system_on_chip_design_pr.Cpu.Breakpoints.{check_breakpoint}
use system_on_chip_design_pr.Cpu.Execute.{execute}

unfoldable pub count_instruction : Cpu → Cpu
count_instruction c = record c {
  stats = record c.stats { instructions = add32 c.stats.instructions 1 };
}

-- The timer is kept to 32 bits, and raises its interrupt when it reaches the limit.
unfoldable pub tick : CsrFile → CsrFile
tick r =
    let mtime = bit_and ((r.mtime + 1) % 2 ^ 64) 0xFFFF_FFFF in
    let r' = record r { mtime = mtime } in
    if mtime == r.mtimecmp
    then record r' {
      mip = bit_or r.mip (if any_bit r.mideleg sr_ip_stip then sr_ip_stip else sr_ip_mtip);
    }
    else r'

unfoldable pub hit_breakpoint : Cpu → Cpu
hit_breakpoint c =
    if c.has_breakpoints && check_breakpoint c c.pc_x then record c { brk = true } else c

unfoldable pub step : Cpu → Outcome Cpu
step c = do
  c' ← execute (count_instruction c)
  ok (hit_breakpoint (record c' { csr = tick c'.csr }))
