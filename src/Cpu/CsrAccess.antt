-- ===== src/Cpu/CsrAccess.antt =====
-- `Riscv::access_csr` and `Riscv::stats_dump` of isa_sim/riscv.cpp.
pub mod Laws
use system_on_chip_design_pr.Base.{
  ℕ, zero, suc, ◌+◌, ◌/◌, ◌%◌, ◌^◌, Bool, true, false, not, ◌&&◌, List, [], ◌∷◌, ◌++◌, Option, none,
  some, bit_and, bit_or, if◌then◌else◌, ◌==◌, not32, shl32, shr32, add32, u32, any_bit,
}
use system_on_chip_design_pr.Outcome.{Outcome, ok, exit, undefined, ◌>>=◌, error}
use system_on_chip_design_pr.Isa.CsrNumber
use system_on_chip_design_pr.Isa.Status.{
  irq_mask, irq_s_mask, sr_smode_mask, sr_ip_mtip, sr_ip_stip,
}
use system_on_chip_design_pr.Isa.Mmu.{mmu_pgshift, mmu_pgsize}
use system_on_chip_design_pr.Cpu.{
  Cpu, CsrFile, Output, console_putchar, stderr_putchar, simulation_printf, stats_print,
  stats_clear, stats_report,
}
use system_on_chip_design_pr.Cpu.Regions.{read}
use system_on_chip_design_pr.Cpu.Mmu.{mmu_walk, physical_address}
use system_on_chip_design_pr.Cpu.Breakpoints.{no_stats}

-- The registers of the macro CSR_STD.
pub data StdCsr : Type 0 where
  mepc mtvec mcause mstatus mip mie mideleg medeleg mscratch : StdCsr
  sepc stvec scause sip sie satp stval sscratch sstatus : StdCsr

-- The cases of the `switch`.
pub data CsrCase : Type 0 where
  simulation : CsrCase
  std : StdCsr → CsrCase
  const : ℕ → CsrCase
  timer : CsrCase
  timer_high : CsrCase
  unsupported : CsrCase

unfoldable pub csr_case : ℕ → CsrCase
csr_case n =
    if n == CsrNumber.dscratch
    then simulation
    else if n == CsrNumber.sim_ctrl
    then simulation
    else if n == CsrNumber.mepc
    then std mepc
    else if n == CsrNumber.mtvec
    then std mtvec
    else if n == CsrNumber.mcause
    then std mcause
    else if n == CsrNumber.mstatus
    then std mstatus
    else if n == CsrNumber.mip
    then std mip
    else if n == CsrNumber.mie
    then std mie
    else if n == CsrNumber.misa
    then const CsrNumber.misa_value
    else if n == CsrNumber.mideleg
    then std mideleg
    else if n == CsrNumber.medeleg
    then std medeleg
    else if n == CsrNumber.mscratch
    then std mscratch
    else if n == CsrNumber.mhartid
    then const CsrNumber.mhartid_value
    else if n == CsrNumber.sepc
    then std sepc
    else if n == CsrNumber.stvec
    then std stvec
    else if n == CsrNumber.scause
    then std scause
    else if n == CsrNumber.sip
    then std sip
    else if n == CsrNumber.sie
    then std sie
    else if n == CsrNumber.satp
    then std satp
    else if n == CsrNumber.stval
    then std stval
    else if n == CsrNumber.sscratch
    then std sscratch
    else if n == CsrNumber.sstatus
    then std sstatus
    else if n == CsrNumber.pmpcfg0
    then const 0
    else if n == CsrNumber.pmpcfg1
    then const 0
    else if n == CsrNumber.pmpcfg2
    then const 0
    else if n == CsrNumber.pmpaddr0
    then const 0
    else if n == CsrNumber.mtime
    then timer
    else if n == CsrNumber.mtimeh
    then timer_high
    else unsupported

abbrev pub std_mask : StdCsr → ℕ
std_mask mcause = CsrNumber.cause_mask
std_mask scause = CsrNumber.cause_mask
std_mask mip = irq_mask
std_mask mie = irq_mask
std_mask sip = irq_s_mask
std_mask sie = irq_s_mask
std_mask sstatus = sr_smode_mask
std_mask _ = CsrNumber.full_mask

-- The variable of each register; the supervisor's views share the machine's.
abbrev pub std_get : StdCsr → CsrFile → ℕ
std_get mepc r = r.mepc
std_get mtvec r = r.mevec
std_get mcause r = r.mcause
std_get mstatus r = r.msr
std_get mip r = r.mip
std_get mie r = r.mie
std_get mideleg r = r.mideleg
std_get medeleg r = r.medeleg
std_get mscratch r = r.mscratch
std_get sepc r = r.sepc
std_get stvec r = r.sevec
std_get scause r = r.scause
std_get sip r = r.mip
std_get sie r = r.mie
std_get satp r = r.satp
std_get stval r = r.stval
std_get sscratch r = r.sscratch
std_get sstatus r = r.msr

abbrev pub std_put : StdCsr → CsrFile → ℕ → CsrFile
std_put mepc r v = record r { mepc = v }
std_put mtvec r v = record r { mevec = v }
std_put mcause r v = record r { mcause = v }
std_put mstatus r v = record r { msr = v }
std_put mip r v = record r { mip = v }
std_put mie r v = record r { mie = v }
std_put mideleg r v = record r { mideleg = v }
std_put medeleg r v = record r { medeleg = v }
std_put mscratch r v = record r { mscratch = v }
std_put sepc r v = record r { sepc = v }
std_put stvec r v = record r { sevec = v }
std_put scause r v = record r { scause = v }
std_put sip r v = record r { mip = v }
std_put sie r v = record r { mie = v }
std_put satp r v = record r { satp = v }
std_put stval r v = record r { stval = v }
std_put sscratch r v = record r { sscratch = v }
std_put sstatus r v = record r { msr = v }

-- The new value of the variable; `data` is masked.
abbrev pub std_update : ℕ → ℕ → Bool → Bool → ℕ
std_update old masked set clr =
    if set && clr
    then masked
    else if set
    then bit_or old masked
    else if clr
    then bit_and old (not32 masked)
    else old

unfoldable pub access_std : StdCsr → CsrFile → ℕ → Bool → Bool → ℕ × CsrFile
access_std name r value set clr =
    let masked = bit_and value (std_mask name) in
    (
      bit_and (std_get name r) (std_mask name),
      std_put name r (std_update (std_get name r) masked set clr),
    )

-- A write to the timer sets the next interrupt and takes back one that is pending.
unfoldable pub access_timer : CsrFile → ℕ → Bool → ℕ × CsrFile
access_timer r value set =
    let masked = bit_and value CsrNumber.full_mask in
    let pending = if any_bit r.mideleg sr_ip_stip then sr_ip_stip else sr_ip_mtip in
    (
      u32 r.mtime,
      if set && not (masked == 0)
          then record r { mtimecmp = masked; mip = bit_and r.mip (not32 pending) }
          else r,
    )

abbrev pub send : Cpu → Output → Cpu
send c o = record c { io = record c.io { output = c.io.output ++ o ∷ [] } }

-- `while (idx < 1023)`: the bytes up to a 0. A string that fills the buffer is not terminated, and
-- `sprintf` reads on after it.
unfoldable pub read_string : ℕ → Cpu → ℕ → Outcome (List ℕ)
read_string zero c address = undefined
read_string (suc left) c address = do
  ch ← read c address
  elim (ch == 0) [
    | true ↦ ok []
    | false ↦ do rest ← read_string left c (add32 address 1); ok (ch ∷ rest)
  ]

-- `CSR_SIM_PRINTF`: the format and its arguments are recorded as they are given to `sprintf`. Where
-- `sprintf` has no meaning for them, or prints more than the 1024 bytes of `out_str`, the call has
-- none.
unfoldable pub simulate_printf : Cpu → Outcome Cpu
simulate_printf c = do
  let fmt_addr = c.gpr 10
  pte ← mmu_walk c fmt_addr
  fmt ← read_string 1023 c (if pte == 0 then fmt_addr else physical_address pte fmt_addr)
  (if c.io.sprintf_fits fmt (c.gpr 11) (c.gpr 12) (c.gpr 13) (c.gpr 14)
      then ok (send c (simulation_printf fmt (c.gpr 11) (c.gpr 12) (c.gpr 13) (c.gpr 14)))
      else undefined)

abbrev pub putc : Cpu → ℕ → Cpu
putc c ch = elim c.io.console [
  | none ↦ send c (stderr_putchar ch)
  | some _ ↦ send c (console_putchar ch)
]

abbrev pub getc : Cpu → ℕ × Cpu
getc c = elim c.io.console [
  | none ↦ (0, c)
  | some getchar ↦
      (u32 (getchar c.io.reads), record c { io = record c.io { reads = c.io.reads + 1 } })
]

-- The top byte of `data` chooses; `exit` also prints the statistics first.
unfoldable pub simulation_control : Cpu → ℕ → Outcome (ℕ × Cpu)
simulation_control c value =
    let command = bit_and value 0xFF00_0000 in
    let arg = bit_and value 0xFF in
    if command == CsrNumber.sim_exit
    then exit arg
    else if command == CsrNumber.sim_putc
    then ok (0, putc c arg)
    else if command == CsrNumber.sim_getc
    then ok (getc c)
    else if command == CsrNumber.sim_trace
    then ok (0, record c { trace = arg })
    else if command == CsrNumber.sim_printf
    then (do c' ← simulate_printf c; ok (0, c'))
    else ok (0, c)

unfoldable pub access_case : CsrCase → Cpu → ℕ → Bool → Bool → Outcome (ℕ × Cpu)
access_case simulation c value set clr = simulation_control c value
access_case (std name) c value set clr =
    let (result, r) = access_std name c.csr value set clr in ok (result, record c { csr = r })
access_case (const n) c value set clr = ok (n, c)
access_case timer c value set clr =
    let (result, r) = access_timer c.csr value set in ok (result, record c { csr = r })
access_case timer_high c value set clr = ok (u32 (c.csr.mtime / 2 ^ 32), c)
access_case unsupported c value set clr = error

unfoldable pub access_csr : Cpu → ℕ → ℕ → Bool → Bool → Outcome (ℕ × Cpu)
access_csr c address value set clr = access_case (csr_case (bit_and address 0xFFF)) c value set clr

unfoldable pub stats_reset : Cpu → Cpu
stats_reset c = record c { stats = no_stats }

unfoldable pub stats_dump : Cpu → Cpu
stats_dump c = stats_reset (
    if c.io.has_stats_if
    then send (send c stats_print) stats_clear
    else send c (stats_report c.stats))
