-- ===== src/Cpu/Mmu/Sv32.antt =====
-- The Sv32 scheme of the privileged architecture, written with divisions and remainders in place of the
-- masks and shifts of `mmu_walk` of isa_sim/riscv.cpp.
pub mod Entries
pub mod Rounds
use system_on_chip_design_pr.Base.{
  ℕ, zero, suc, ◌+◌, ◌-◌, ◌*◌, ◌/◌, ◌%◌, ◌^◌, ◌<◌, ◌≡◌, ◌≢◌, ◌⊎◌, inl, inr, refl, ap, sym, ◌∙◌,
  Bool, true, false, not, Option, none, some, bit_and, bit_or, shl32, shr32, u32, sub32, add32,
  arith, if◌then◌else◌, ◌==◌, ltb, any_bit,
}
use system_on_chip_design_pr.Base.Bits.{bit_and_mask, bit_and_field, bit_or_sum, bit_or-zero}
use system_on_chip_design_pr.Outcome.{Outcome, ok, undefined, ◌>>=◌, assert, error}
use system_on_chip_design_pr.Cpu.{Cpu}
use system_on_chip_design_pr.Cpu.Regions.{mmu_read_word}
use system_on_chip_design_pr.Cpu.Mmu.{
  WalkStep, walked, next_table, leaf_entry, walk_round, walk_loop, walk_fuel, is_canonical,
  mmu_walk, physical_address,
}

-- The last level, of pages, and the one before it, of superpages.
pub data Level : Type 0 where
  pages superpages : Level

-- The number of a level, and how many pages its entries cover.
abbrev pub number : Level → ℕ
number pages = 0
number superpages = 1

abbrev pub covers : Level → ℕ
covers pages = 1
covers superpages = 1024

-- The address of the entry for a virtual address in a table.
abbrev pub slot : ℕ → Level → ℕ → ℕ
slot addr level table = (table + addr / 4096 / covers level % 1024 * 4) % 2 ^ 32

-- The page number and the flags of an entry.
abbrev pub page_number : ℕ → ℕ
page_number pte = pte / 1024

-- The page that a leaf gives a virtual address: that of the entry, and the lower page bits of the
-- address.
abbrev pub page_of : ℕ → Level → ℕ → ℕ
page_of addr level pte = page_number pte + addr / 4096 % covers level

-- What a walk meets. In the Sv32 scheme all but the last are page faults: no entry, or one that is not
-- valid; a leaf that can be written and not read; a pointer at the last level, to a table; a
-- superpage whose page number is not a multiple of 1024. A leaf has a page and flags; that of the
-- faults is the page that the simulator makes of it. The bits A and D, which the simulator does not
-- look at, are left out, as are the permissions of leaves.
pub data Result : Type 0 where
  no_entry : Result
  reserved : ℕ → ℕ → Result
  too_deep : ℕ → Result
  misaligned : ℕ → ℕ → Result
  mapped : ℕ → ℕ → Result

-- The page number of an entry with the lower page bits of the address put in.
abbrev pub joined : ℕ → Level → ℕ → ℕ
joined addr level pte = bit_or (page_number pte) (addr / 4096 % covers level)

-- A page in the physical address space of 32 bits, and in memory.
abbrev pub IsInMemory : Cpu → ℕ → Type 0
IsInMemory c page = (page < 2 ^ 20) × (w : ℕ) × (mmu_read_word c (page * 4096) ≡ ok (some w))

-- A valid entry with some of the bits R, W and X (1 to 3) is a leaf, one without is a pointer.
abbrev pub IsLeaf : ℕ → Type 0
IsLeaf pte = (pte % 2 ≡ 1) × (pte / 2 % 8 ≢ 0)

abbrev pub IsPointer : ℕ → Type 0
IsPointer pte = (pte % 2 ≡ 1) × (pte / 2 % 8 ≡ 0)

-- Bit W without bit R.
abbrev pub IsWriteOnly : ℕ → Type 0
IsWriteOnly pte = (pte / 2 % 2 ≡ 0) × (pte / 4 % 2 ≡ 1)

-- The walk from a table on, where the pages of leaves are in memory.
pub data Walks (c : Cpu) (addr : ℕ) : Level → ℕ → Result → Type 0 where
  absent :
      (level : Level) (table : ℕ)
      → mmu_read_word c (slot addr level table) ≡ ok none
      → Walks c addr level table no_entry
  invalid :
      (level : Level) (table pte : ℕ)
      → mmu_read_word c (slot addr level table) ≡ ok (some pte)
      → pte % 2 ≡ 0
      → Walks c addr level table no_entry
  write_only :
      (level : Level) (table pte : ℕ)
      → mmu_read_word c (slot addr level table) ≡ ok (some pte)
      → IsLeaf pte
      → IsWriteOnly pte
      → IsInMemory c (joined addr level pte)
      → Walks c addr level table (reserved (joined addr level pte) (pte % 1024))
  last_pointer :
      (table pte : ℕ)
      → mmu_read_word c (slot addr pages table) ≡ ok (some pte)
      → IsPointer pte
      → Walks c addr pages table (too_deep (page_number pte * 4096 % 2 ^ 32))
  unaligned :
      (level : Level) (table pte : ℕ)
      → mmu_read_word c (slot addr level table) ≡ ok (some pte)
      → IsLeaf pte
      → ¬ IsWriteOnly pte
      → page_number pte % covers level ≢ 0
      → IsInMemory c (joined addr level pte)
      → Walks c addr level table (misaligned (joined addr level pte) (pte % 1024))
  leaf :
      (level : Level) (table pte : ℕ)
      → mmu_read_word c (slot addr level table) ≡ ok (some pte)
      → IsLeaf pte
      → ¬ IsWriteOnly pte
      → page_number pte % covers level ≡ 0
      → IsInMemory c (page_of addr level pte)
      → Walks c addr level table (mapped (page_of addr level pte) (pte % 1024))
  pointer :
      (table pte : ℕ) (r : Result)
      → mmu_read_word c (slot addr superpages table) ≡ ok (some pte)
      → IsPointer pte
      → Walks c addr pages (page_number pte * 4096 % 2 ^ 32) r
      → Walks c addr superpages table r
