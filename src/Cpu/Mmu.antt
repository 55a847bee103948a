-- ===== src/Cpu/Mmu.antt =====
-- Address translation of isa_sim/riscv.cpp: `mmu_walk`, `mmu_i_translate` and `mmu_d_translate`.
-- The build defines CONFIG_MMU.
pub mod Permissions
pub mod Walk
pub mod Sv32
use system_on_chip_design_pr.Base.{
  ℕ, zero, suc, ◌+◌, ◌-◌, ◌*◌, ◌/◌, ◌%◌, ◌^◌, ◌<◌, Bool, true, false, not, ◌&&◌, ◌||◌, Option, none,
  some, bit_and, bit_or, if◌then◌else◌, ltb, ◌==◌, not32, shl32, shr32, sar32, add32, sub32, u32,
  any_bit, all_bits,
}
use system_on_chip_design_pr.Outcome.{Outcome, ok, undefined, ◌>>=◌, error, assert}
use system_on_chip_design_pr.Isa.Status.{
  priv_super, sr_sum, mcause_page_fault_inst, mcause_page_fault_load, mcause_page_fault_store,
}
use system_on_chip_design_pr.Isa.Mmu.{
  satp_ppn_mask, satp_mode, mmu_levels, mmu_ptidxbits, mmu_ptesize, mmu_pgshift, mmu_pgsize,
  mmu_va_bits, page_present, page_read, page_write, page_exec, page_user, page_flags,
  page_pfn_shift, page_size,
}
use system_on_chip_design_pr.Cpu.{Cpu}
use system_on_chip_design_pr.Cpu.Regions.{mmu_read_word}
use system_on_chip_design_pr.Cpu.Trap.{exception}

-- One round of the walk ends with an entry, or goes on to the next table.
pub data WalkStep : Type 0 where
  walked : ℕ → WalkStep
  next_table : ℕ → WalkStep

abbrev pub page_rwx : ℕ
page_rwx = page_read + page_write + page_exec

-- The entry that is kept for a leaf at level shift `ptshift`.
unfoldable pub leaf_entry : Cpu → ℕ → ℕ → ℕ → Outcome ℕ
leaf_entry c addr ptshift pte =
    let ppn = shr32 pte page_pfn_shift in
    let vpn = shr32 addr mmu_pgshift in
    let value = bit_or ppn (bit_and vpn (2 ^ ptshift - 1)) * 2 ^ mmu_pgshift in
    let value' = bit_or value (bit_and pte page_flags) in
    assert (value' / 2 ^ 32 == 0) (do
      target ← mmu_read_word c (shl32 (shr32 value' mmu_pgshift) mmu_pgshift)
      elim target [ none ↦ error | some _ ↦ ok value' ])

-- The body of the loop at index `i`, an unsigned number. A shift by 32 or more, or by a negative
-- amount, has no meaning in C++.
unfoldable pub walk_round : Cpu → ℕ → ℕ → ℕ → Outcome WalkStep
walk_round c addr i base =
    let ptshift = u32 (i * mmu_ptidxbits) in
    let shift = add32 mmu_pgshift ptshift in
    if not (ltb shift 32) then undefined else do
      let idx = bit_and (shr32 addr shift) (2 ^ mmu_ptidxbits - 1)
      entry ← mmu_read_word c (add32 base (idx * mmu_ptesize))
      elim entry [
        | none ↦ ok (walked 0)
        | some pte ↦
            if not (any_bit pte page_present)
            then ok (walked 0)
            else if not (any_bit pte page_rwx)
            then ok (next_table (shl32 (shr32 pte page_pfn_shift) mmu_pgshift))
            else if ltb ptshift 64
            then (do value ← leaf_entry c addr ptshift pte; ok (walked value))
            else undefined
      ]

-- `for (i=MMU_LEVELS-1; i >= 0; i--)`: `i` is unsigned, so the test always holds, and 0 is
-- followed by 2 ^ 32 - 1. Running out of fuel counts as undefined; `walk_fuel` rounds are enough.
unfoldable pub walk_loop : ℕ → Cpu → ℕ → ℕ → ℕ → Outcome ℕ
walk_loop zero c addr i base = undefined
walk_loop (suc fuel) c addr i base = do
  step ← walk_round c addr i base
  elim step [ walked pte ↦ ok pte | next_table base' ↦ walk_loop fuel c addr (sub32 i 1) base' ]

abbrev pub walk_fuel : ℕ
walk_fuel = 4

abbrev pub is_canonical : ℕ → Bool
is_canonical addr = let shift = 32 - mmu_va_bits in sar32 (shl32 addr shift) shift == addr

unfoldable pub mmu_walk : Cpu → ℕ → Outcome ℕ
mmu_walk c addr =
    if not (is_canonical addr)
    then error
    else if bit_and c.csr.satp satp_mode == 0
    then ok (
        bit_or (page_present + page_read + page_write + page_exec)
          (shl32 (shr32 addr mmu_pgshift) mmu_pgshift))
    else walk_loop walk_fuel c addr (mmu_levels - 1)
        (u32 (bit_and c.csr.satp satp_ppn_mask * page_size))

-- A page that is writable and not readable.
abbrev pub is_reserved : ℕ → Bool
is_reserved pte =
    bit_and pte page_rwx == page_write || bit_and pte page_rwx == page_exec + page_write

abbrev pub physical_address : ℕ → ℕ → ℕ
physical_address pte addr =
    add32 (shl32 (shr32 pte mmu_pgshift) mmu_pgshift) (bit_and addr (mmu_pgsize - 1))

-- Whether an instruction fetch through this entry is a page fault. A supervisor that runs a user
-- page is an error of the simulator.
unfoldable pub fetch_faults : ℕ → ℕ → Outcome Bool
fetch_faults mpriv pte =
    if is_reserved pte
    then ok true
    else if mpriv == priv_super
    then (if any_bit pte page_user then error else ok (not (all_bits pte page_exec)))
    else ok (not (all_bits pte (page_exec + page_user)))

-- The translated address, or `none` with the state after a page fault.
unfoldable pub mmu_i_translate : Cpu → ℕ → Outcome (Option ℕ × Cpu)
mmu_i_translate c addr = if ltb priv_super c.csr.mpriv then ok (some addr, c) else do
  pte ← mmu_walk c addr
  page_fault ← fetch_faults c.csr.mpriv pte
  (if page_fault
      then ok (none, exception c mcause_page_fault_inst addr addr)
      else ok (some (physical_address pte addr), c))

-- The same for a load or a store; a supervisor's access to a user page without SUM is an error.
unfoldable pub access_faults : ℕ → ℕ → ℕ → Bool → Outcome Bool
access_faults mpriv msr pte write_not_read =
    let needed = if write_not_read then page_write else page_read in
    if is_reserved pte
    then ok true
    else if mpriv == priv_super
    then (if any_bit pte page_user && not (any_bit msr sr_sum)
        then error
        else ok (not (all_bits pte needed)))
    else ok (not (all_bits pte (needed + page_user)))

unfoldable pub mmu_d_translate : Cpu → ℕ → ℕ → Bool → Outcome (Option ℕ × Cpu)
mmu_d_translate c pc addr write_not_read =
    let cause = if write_not_read then mcause_page_fault_store else mcause_page_fault_load in
    if ltb priv_super c.csr.mpriv then ok (some addr, c) else do
      pte ← mmu_walk c addr
      page_fault ← access_faults c.csr.mpriv c.csr.msr pte write_not_read
      (if page_fault
          then ok (none, exception c cause pc addr)
          else ok (some (physical_address pte addr), c))
