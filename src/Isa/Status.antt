-- ===== src/Isa/Status.antt =====
-- isa_sim/riscv_isa.h: privilege levels, status register bits, interrupt numbers and causes.
use system_on_chip_design_pr.Base.{ℕ, ◌+◌, ◌*◌, ◌^◌, bit_and, shr32}

abbrev pub priv_user : ℕ
priv_user = 0

abbrev pub priv_super : ℕ
priv_super = 1

abbrev pub priv_machine : ℕ
priv_machine = 3

abbrev pub sr_uie : ℕ
sr_uie = 2 ^ 0

abbrev pub sr_sie : ℕ
sr_sie = 2 ^ 1

abbrev pub sr_mie : ℕ
sr_mie = 2 ^ 3

abbrev pub sr_upie : ℕ
sr_upie = 2 ^ 4

abbrev pub sr_spie : ℕ
sr_spie = 2 ^ 5

abbrev pub sr_mpie : ℕ
sr_mpie = 2 ^ 7

abbrev pub sr_spp : ℕ
sr_spp = 2 ^ 8

abbrev pub sr_mpp_shift : ℕ
sr_mpp_shift = 11

abbrev pub sr_mpp_mask : ℕ
sr_mpp_mask = 0x3

abbrev pub sr_mpp : ℕ
sr_mpp = sr_mpp_mask * 2 ^ sr_mpp_shift

abbrev pub sr_mpp_u : ℕ
sr_mpp_u = priv_user * 2 ^ sr_mpp_shift

abbrev pub sr_sum : ℕ
sr_sum = 2 ^ 18

abbrev pub sr_get_mpp : ℕ → ℕ
sr_get_mpp val = bit_and (shr32 val sr_mpp_shift) sr_mpp_mask

-- The bits of mstatus that supervisor mode sees as sstatus.
abbrev pub sr_smode_mask : ℕ
sr_smode_mask = sr_uie + sr_sie + sr_upie + sr_spie + sr_spp + sr_sum

abbrev pub irq_s_soft : ℕ
irq_s_soft = 1

abbrev pub irq_m_soft : ℕ
irq_m_soft = 3

abbrev pub irq_s_timer : ℕ
irq_s_timer = 5

abbrev pub irq_m_timer : ℕ
irq_m_timer = 7

abbrev pub irq_s_ext : ℕ
irq_s_ext = 9

abbrev pub irq_m_ext : ℕ
irq_m_ext = 11

abbrev pub irq_min : ℕ
irq_min = irq_s_soft

abbrev pub irq_max : ℕ
irq_max = irq_m_ext + 1

-- Sums of different powers of two, as the `|` of the source.
abbrev pub irq_s_mask : ℕ
irq_s_mask = 2 ^ irq_s_ext + 2 ^ irq_s_timer + 2 ^ irq_s_soft

abbrev pub irq_mask : ℕ
irq_mask =
    2 ^ irq_m_ext
    + 2 ^ irq_s_ext
    + 2 ^ irq_m_timer
    + 2 ^ irq_s_timer
    + 2 ^ irq_m_soft
    + 2 ^ irq_s_soft

abbrev pub sr_ip_mtip : ℕ
sr_ip_mtip = 2 ^ irq_m_timer

abbrev pub sr_ip_meip : ℕ
sr_ip_meip = 2 ^ irq_m_ext

abbrev pub sr_ip_stip : ℕ
sr_ip_stip = 2 ^ irq_s_timer

abbrev pub mcause_illegal_instruction : ℕ
mcause_illegal_instruction = 2

abbrev pub mcause_breakpoint : ℕ
mcause_breakpoint = 3

abbrev pub mcause_ecall_u : ℕ
mcause_ecall_u = 8

abbrev pub mcause_page_fault_inst : ℕ
mcause_page_fault_inst = 12

abbrev pub mcause_page_fault_load : ℕ
mcause_page_fault_load = 13

abbrev pub mcause_page_fault_store : ℕ
mcause_page_fault_store = 15

abbrev pub mcause_interrupt : ℕ
mcause_interrupt = 2 ^ 31
