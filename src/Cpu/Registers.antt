-- ===== src/Cpu/Registers.antt =====
-- `set_pc`, `set_register` and `get_register` of isa_sim/riscv.cpp. Register numbers below 0, which
-- no caller gives, are left out.
pub mod Laws
use system_on_chip_design_pr.Base.{ℕ, ◌+◌, u32, leb, ◌==◌, if◌then◌else◌, update}
use system_on_chip_design_pr.Isa.CsrNumber
use system_on_chip_design_pr.Cpu.{Cpu, CsrFile}

abbrev pub regno_gpr31 : ℕ
regno_gpr31 = 31

abbrev pub regno_pc : ℕ
regno_pc = 32

abbrev pub regno_csr0 : ℕ
regno_csr0 = 65

abbrev pub regno_priv : ℕ
regno_priv = 4161

-- What a register number names.
pub data Register : Type 0 where
  general : ℕ → Register
  program_counter : Register
  mepc mcause mstatus mtvec mie mip mtime mtimecmp mscratch mideleg medeleg : Register
  sepc stvec scause stval satp sscratch privilege : Register
  unknown : Register

-- The chain of tests of `set_register`.
unfoldable pub register_of : ℕ → Register
register_of r =
    if leb r regno_gpr31
    then general r
    else if r == regno_pc
    then program_counter
    else if r == regno_csr0 + CsrNumber.mepc
    then mepc
    else if r == regno_csr0 + CsrNumber.mcause
    then mcause
    else if r == regno_csr0 + CsrNumber.mstatus
    then mstatus
    else if r == regno_csr0 + CsrNumber.mtvec
    then mtvec
    else if r == regno_csr0 + CsrNumber.mie
    then mie
    else if r == regno_csr0 + CsrNumber.mip
    then mip
    else if r == regno_csr0 + CsrNumber.mtime
    then mtime
    else if r == regno_csr0 + CsrNumber.mtimeh
    then mtimecmp
    else if r == regno_csr0 + CsrNumber.mscratch
    then mscratch
    else if r == regno_csr0 + CsrNumber.mideleg
    then mideleg
    else if r == regno_csr0 + CsrNumber.medeleg
    then medeleg
    else if r == regno_csr0 + CsrNumber.sepc
    then sepc
    else if r == regno_csr0 + CsrNumber.stvec
    then stvec
    else if r == regno_csr0 + CsrNumber.scause
    then scause
    else if r == regno_csr0 + CsrNumber.stval
    then stval
    else if r == regno_csr0 + CsrNumber.satp
    then satp
    else if r == regno_csr0 + CsrNumber.sscratch
    then sscratch
    else if r == regno_priv
    then privilege
    else unknown

-- The chain of tests of `get_register`.
unfoldable pub source_of : ℕ → Register
source_of r =
    if leb r regno_gpr31
    then general r
    else if r == regno_pc
    then program_counter
    else if r == regno_csr0 + CsrNumber.mepc
    then mepc
    else if r == regno_csr0 + CsrNumber.mcause
    then mcause
    else if r == regno_csr0 + CsrNumber.mstatus
    then mstatus
    else if r == regno_csr0 + CsrNumber.mtvec
    then mtvec
    else if r == regno_csr0 + CsrNumber.mie
    then mie
    else if r == regno_csr0 + CsrNumber.mip
    then mip
    else if r == regno_csr0 + CsrNumber.mtime
    then mtime
    else if r == regno_csr0 + CsrNumber.mtimeh
    then mtimecmp
    else if r == regno_csr0 + CsrNumber.mscratch
    then mscratch
    else if r == regno_csr0 + CsrNumber.mideleg
    then mideleg
    else if r == regno_csr0 + CsrNumber.medeleg
    then medeleg
    else if r == regno_csr0 + CsrNumber.sepc
    then sepc
    else if r == regno_csr0 + CsrNumber.stvec
    then stvec
    else if r == regno_csr0 + CsrNumber.scause
    then scause
    else if r == regno_csr0 + CsrNumber.stval
    then stval
    else if r == regno_csr0 + CsrNumber.satp
    then satp
    else if r == regno_csr0 + CsrNumber.sscratch
    then sscratch
    else if r == regno_priv
    then privilege
    else unknown

unfoldable pub set_pc : Cpu → ℕ → Cpu
set_pc c pc = record c { pc = pc; pc_x = pc }

abbrev with_csr : Cpu → CsrFile → Cpu
with_csr c r = record c { csr = r }

unfoldable pub put : Register → Cpu → ℕ → Cpu
put (general r) c val = record c { gpr = update c.gpr r val }
put program_counter c val = record c { pc = val }
put mepc c val = with_csr c (record c.csr { mepc = val })
put mcause c val = with_csr c (record c.csr { mcause = val })
put mstatus c val = with_csr c (record c.csr { msr = val })
put mtvec c val = with_csr c (record c.csr { mevec = val })
put mie c val = with_csr c (record c.csr { mie = val })
put mip c val = with_csr c (record c.csr { mip = val })
put mtime c val = with_csr c (record c.csr { mtime = val })
put mtimecmp c val = with_csr c (record c.csr { mtimecmp = val })
put mscratch c val = with_csr c (record c.csr { mscratch = val })
put mideleg c val = with_csr c (record c.csr { mideleg = val })
put medeleg c val = with_csr c (record c.csr { medeleg = val })
put sepc c val = with_csr c (record c.csr { sepc = val })
put stvec c val = with_csr c (record c.csr { sevec = val })
put scause c val = with_csr c (record c.csr { scause = val })
put stval c val = with_csr c (record c.csr { stval = val })
put satp c val = with_csr c (record c.csr { satp = val })
put sscratch c val = with_csr c (record c.csr { sscratch = val })
put privilege c val = with_csr c (record c.csr { mpriv = val })
put unknown c val = c

unfoldable pub fetch : Register → Cpu → ℕ
fetch (general r) c = c.gpr r
fetch program_counter c = c.pc
fetch mepc c = c.csr.mepc
fetch mcause c = c.csr.mcause
fetch mstatus c = c.csr.msr
fetch mtvec c = c.csr.mevec
fetch mie c = c.csr.mie
fetch mip c = c.csr.mip
fetch mtime c = c.csr.mtime
fetch mtimecmp c = c.csr.mtimecmp
fetch mscratch c = c.csr.mscratch
fetch mideleg c = c.csr.mideleg
fetch medeleg c = c.csr.medeleg
fetch sepc c = c.csr.sepc
fetch stvec c = c.csr.sevec
fetch scause c = c.csr.scause
fetch stval c = c.csr.stval
fetch satp c = c.csr.satp
fetch sscratch c = c.csr.sscratch
fetch privilege c = c.csr.mpriv
fetch unknown c = 0

unfoldable pub set_register : Cpu → ℕ → ℕ → Cpu
set_register c r val = put (register_of r) c val

-- `m_csr_mtime` and `m_csr_mtimecmp` have 64 bits; the result has 32.
unfoldable pub get_register : Cpu → ℕ → ℕ
get_register c r = u32 (fetch (source_of r) c)
