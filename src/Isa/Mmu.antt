-- ===== src/Isa/Mmu.antt =====
-- isa_sim/riscv_isa.h: the numbers of the Sv32 address translation.
use system_on_chip_design_pr.Base.{ℕ, ◌+◌, ◌*◌, ◌^◌}

abbrev pub satp_ppn_mask : ℕ
satp_ppn_mask = 0x3F_FFFF

abbrev pub satp_mode : ℕ
satp_mode = 0x8000_0000

abbrev pub mmu_levels : ℕ
mmu_levels = 2

abbrev pub mmu_ptidxbits : ℕ
mmu_ptidxbits = 10

abbrev pub mmu_ptesize : ℕ
mmu_ptesize = 4

abbrev pub mmu_pgshift : ℕ
mmu_pgshift = mmu_ptidxbits + 2

abbrev pub mmu_pgsize : ℕ
mmu_pgsize = 2 ^ mmu_pgshift

abbrev pub mmu_va_bits : ℕ
mmu_va_bits = mmu_ptidxbits * mmu_levels + mmu_pgshift

abbrev pub page_present : ℕ
page_present = 2 ^ 0

abbrev pub page_read : ℕ
page_read = 2 ^ 1

abbrev pub page_write : ℕ
page_write = 2 ^ 2

abbrev pub page_exec : ℕ
page_exec = 2 ^ 3

abbrev pub page_user : ℕ
page_user = 2 ^ 4

abbrev pub page_flags : ℕ
page_flags = 0x3FF

abbrev pub page_pfn_shift : ℕ
page_pfn_shift = 10

abbrev pub page_size : ℕ
page_size = 4096
