-- ===== src/Testbench/Bench.antt =====
-- top_cache_axi/tb/testbench.h as the memory of the cosimulation: two AXI memories, for instructions
-- and for data, over the same arrays.
pub mod Placed
pub mod Shared
pub mod Contract
pub mod Loaded
pub mod Separate
pub mod Reached
use system_on_chip_design_pr.Base.{
  ℕ, zero, suc, ◌+◌, ◌*◌, ◌/◌, ◌%◌, ◌^◌, Bool, true, false, ◌&&◌, Option, none, some, if◌then◌else◌,
  ltb, bit_and, not32, add32, sub32, update,
}
use system_on_chip_design_pr.Outcome.{Outcome, ok, undefined, ◌>>=◌}
use system_on_chip_design_pr.Testbench.Regions
use system_on_chip_design_pr.Testbench.Regions.{
  World, TbMemory, valid_addr, add_region, add_region_at, get_array,
}

pub record Bench : Type 0 where
  pub world : World
  pub icache_mem : TbMemory
  pub dcache_mem : TbMemory

-- The loop that moves the base up to an address that no region has. After 2 ^ 32 rounds it has seen
-- every address, and a loop that does not end has no meaning.
unfoldable pub free_base : ℕ → TbMemory → ℕ → Outcome ℕ
free_base zero m base = undefined
free_base (suc fuel) m base = elim (valid_addr m base) [
  | false ↦ ok base
  | true ↦ free_base fuel m (add32 base 1)
]

-- The loop that takes the size down to a last address that no region has.
unfoldable pub free_size : ℕ → TbMemory → ℕ → ℕ → Outcome ℕ
free_size zero m base size = undefined
free_size (suc fuel) m base size = elim (valid_addr m (sub32 (add32 base size) 1)) [
  | false ↦ ok size
  | true ↦ free_size fuel m base (sub32 size 1)
]

-- `memset(array, 0, size)`.
abbrev pub clear_array : World → ℕ → ℕ → World
clear_array w p size = record w {
  arrays = update w.arrays p (λ i. if ltb i size then 0 else w.arrays p i);
}

-- The calls behind the loops.
unfoldable pub add_shared : Bench → ℕ → ℕ → Outcome Bench
add_shared t base size =
    let (w, i, added) = add_region t.world t.icache_mem base size in
    do
      p ← get_array i base
      let (d, shared) = add_region_at t.dcache_mem p base size in
          ok (record { world = clear_array w p size; icache_mem = i; dcache_mem = d })

unfoldable pub create_memory : Bench → ℕ → ℕ → Outcome (Bench × Bool)
create_memory t base size = do
  base' ← free_base (2 ^ 32) t.icache_mem (bit_and base (not32 31))
  size' ← free_size (2 ^ 32) t.icache_mem base' (bit_and (add32 size 31) (not32 31))
  t' ← add_shared t base' size'
  ok (t', true)

unfoldable pub write : Bench → ℕ → ℕ → Outcome Bench
write t addr value = do
  done ← Regions.write t.world t.dcache_mem addr value
  ok (record t { world = done.0; dcache_mem = done.1 })

unfoldable pub read : Bench → ℕ → Outcome (Bench × ℕ)
read t addr = do
  done ← Regions.read t.world t.dcache_mem addr
  ok (record t { dcache_mem = done.0 }, done.1)
