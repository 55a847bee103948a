-- ===== src/Isa/CsrNumber.antt =====
-- isa_sim/riscv_isa.h: the numbers of the control and status registers, and their masks where
-- these are not all ones.
use system_on_chip_design_pr.Base.{ℕ, ◌+◌, ◌^◌}

abbrev pub dscratch : ℕ
dscratch = 0x7b2

abbrev pub sim_ctrl : ℕ
sim_ctrl = 0x8b2

abbrev pub mstatus : ℕ
mstatus = 0x300

abbrev pub misa : ℕ
misa = 0x301

abbrev pub medeleg : ℕ
medeleg = 0x302

abbrev pub mideleg : ℕ
mideleg = 0x303

abbrev pub mie : ℕ
mie = 0x304

abbrev pub mtvec : ℕ
mtvec = 0x305

abbrev pub mscratch : ℕ
mscratch = 0x340

abbrev pub mepc : ℕ
mepc = 0x341

abbrev pub mcause : ℕ
mcause = 0x342

abbrev pub mip : ℕ
mip = 0x344

abbrev pub mtime : ℕ
mtime = 0xc01

abbrev pub mtimeh : ℕ
mtimeh = 0xc81

abbrev pub mhartid : ℕ
mhartid = 0xF14

abbrev pub pmpcfg0 : ℕ
pmpcfg0 = 0x3a0

abbrev pub pmpcfg1 : ℕ
pmpcfg1 = 0x3a1

abbrev pub pmpcfg2 : ℕ
pmpcfg2 = 0x3a2

abbrev pub pmpaddr0 : ℕ
pmpaddr0 = 0x3b0

abbrev pub sstatus : ℕ
sstatus = 0x100

abbrev pub sie : ℕ
sie = 0x104

abbrev pub stvec : ℕ
stvec = 0x105

abbrev pub sscratch : ℕ
sscratch = 0x140

abbrev pub sepc : ℕ
sepc = 0x141

abbrev pub scause : ℕ
scause = 0x142

abbrev pub stval : ℕ
stval = 0x143

abbrev pub sip : ℕ
sip = 0x144

abbrev pub satp : ℕ
satp = 0x180

abbrev pub full_mask : ℕ
full_mask = 0xFFFF_FFFF

abbrev pub cause_mask : ℕ
cause_mask = 0x8000_000F

abbrev pub sim_exit : ℕ
sim_exit = 0

abbrev pub sim_putc : ℕ
sim_putc = 0x0100_0000

abbrev pub sim_getc : ℕ
sim_getc = 0x0200_0000

abbrev pub sim_trace : ℕ
sim_trace = 0x0400_0000

abbrev pub sim_printf : ℕ
sim_printf = 0x0500_0000

-- RV32 with the extensions I, M, S and U.
abbrev pub misa_value : ℕ
misa_value = 2 ^ 30 + 2 ^ 8 + 2 ^ 12 + 2 ^ 18 + 2 ^ 20

abbrev pub mhartid_value : ℕ
mhartid_value = 0
