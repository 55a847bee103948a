-- ===== src/Cpu/Regions.antt =====
-- Physical memory of isa_sim/riscv.cpp: `attach_memory`, `valid_addr`, `read`, `write`, `read32`,
-- `write32`, `mmu_read_word`, and the search for a region that all of these and `load` and `store`
-- make.
pub mod Bytes
pub mod Loads
pub mod RoundTrip
use system_on_chip_design_pr.Base.{
  ℕ, suc, ◌+◌, ◌-◌, ◌%◌, ◌/◌, ◌^◌, Bool, true, false, ◌&&◌, ◌||◌, List, [], ◌∷◌, ◌++◌, Option, none,
  some, ltb, leb, ◌==◌, if◌then◌else◌, add32, u32,
}
use system_on_chip_design_pr.Outcome.{Outcome, ok, undefined, ◌>>=◌, error}
use system_on_chip_design_pr.Memory.{SimpleMemory}
use system_on_chip_design_pr.Memory
use system_on_chip_design_pr.Cpu.{Cpu, Region}

abbrev pub max_mem_regions : ℕ
max_mem_regions = 16

-- `address >= m_mem_base[j] && address < (m_mem_base[j] + m_mem_size[j])`; the sum wraps.
abbrev pub in_region : Region → ℕ → Bool
in_region r address = leb r.base address && ltb address (add32 r.base r.size)

abbrev pub count : List Region → ℕ
count [] = 0
count (r ∷ rs) = suc (count rs)

-- `attach_memory`: the new region comes last and its memory is reset; `false` if all slots of the
-- arrays are taken.
unfoldable pub attach_memory : Cpu → SimpleMemory → ℕ → ℕ → Cpu × Bool
attach_memory c memory base_addr len =
    if ltb (count c.regions) max_mem_regions
    then (
      record c {
        regions =
            c.regions ++ record { base = base_addr; size = len; memory = Memory.reset memory } ∷ [];
      },
      true,
    )
    else (c, false)

-- `create_memory`. `words` is what the new array holds, which is not initialised, or the caller's
-- buffer. `new SimpleMemory(len)` takes an `int`, and adds 3 to it.
unfoldable pub create_memory : Cpu → ℕ → ℕ → (ℕ → ℕ) → Outcome (Cpu × Bool)
create_memory c base_addr len words =
    if ltb (len + 3) (2 ^ 31)
    then ok (attach_memory c (record { words = words; size = len }) base_addr len)
    else undefined

unfoldable pub valid_addr : List Region → ℕ → Bool
valid_addr [] address = false
valid_addr (r ∷ rs) address = in_region r address || valid_addr rs address

-- The loop of each read: the first region that has the address answers; `none` if there is none.
unfoldable pub load_regions : List Region → ℕ → ℕ → Bool → Outcome (Option ℕ)
load_regions [] address width signed_load = ok none
load_regions (r ∷ rs) address width signed_load =
    if in_region r address
    then (do v ← Memory.load r.memory (address - r.base) width signed_load; ok (some v))
    else load_regions rs address width signed_load

-- The loop of each write: the regions after it, or `none` if no region has the address.
unfoldable pub store_regions : List Region → ℕ → ℕ → ℕ → Outcome (Option (List Region))
store_regions [] address value width = ok none
store_regions (r ∷ rs) address value width =
    let rest = store_regions rs address value width in
    if in_region r address
    then (do
      m ← Memory.store r.memory (address - r.base) value width
      ok (some (record r { memory = m } ∷ rs)))
    else (do found ← rest; elim found [ none ↦ ok none | some rs' ↦ ok (some (r ∷ rs')) ])

-- The state with the regions that a write left; a write that no region took is an error.
abbrev pub finish_store : Cpu → Option (List Region) → Outcome Cpu
finish_store c none = error
finish_store c (some rs) = ok (record c { regions = rs })

unfoldable pub write : Cpu → ℕ → ℕ → Outcome Cpu
write c address value = do found ← store_regions c.regions address value 1; finish_store c found

unfoldable pub write32 : Cpu → ℕ → ℕ → Outcome Cpu
write32 c address value = do found ← store_regions c.regions address value 4; finish_store c found

-- 0 where no region has the address.
abbrev pub or_zero : Option ℕ → ℕ
or_zero none = 0
or_zero (some v) = v

unfoldable pub read : Cpu → ℕ → Outcome ℕ
read c address = do found ← load_regions c.regions address 1 false; ok (or_zero found % 2 ^ 8)

unfoldable pub read32 : Cpu → ℕ → Outcome ℕ
read32 c address = do found ← load_regions c.regions address 4 false; ok (or_zero found)

unfoldable pub get_opcode : Cpu → ℕ → Outcome ℕ
get_opcode c address = read32 c address

-- `mmu_read_word`: its result and `*val`, as an option; `*val` is 0 where the result is.
unfoldable pub mmu_read_word : Cpu → ℕ → Outcome (Option ℕ)
mmu_read_word c address = load_regions c.regions address 4 false
