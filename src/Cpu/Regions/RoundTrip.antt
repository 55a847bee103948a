-- ===== src/Cpu/Regions/RoundTrip.antt =====
-- `Riscv::write32` and `Riscv::read32` of isa_sim/riscv.cpp together.
use system_on_chip_design_pr.Base.{
  ℕ, ◌+◌, ◌%◌, ◌^◌, ◌<◌, ◌≡◌, inr, refl, true, false, ◌∙◌, ap, List, [], ◌∷◌, some, arith,
}
use system_on_chip_design_pr.Outcome.{ok}
use system_on_chip_design_pr.Memory.Bytes.{lane, word-lane}
use system_on_chip_design_pr.Cpu.{Cpu, Region}
use system_on_chip_design_pr.Cpu.Regions.{valid_addr, read32, write32}
use system_on_chip_design_pr.Cpu.Regions.Bytes.{
  AreRegions, memory_byte, memory_value, StoredRegions, store_regions-Stored,
}
use system_on_chip_design_pr.Cpu.Regions.Loads.{load_regions-value}

pub memory_byte-valid :
    (rs : List Region) (a x : ℕ) → memory_byte rs a ≡ some x → valid_addr rs a ≡ true
unfolding valid_addr
memory_byte-valid [] a x e = cc
memory_byte-valid (r ∷ rs) a x e = ground (arith, memory_byte-valid rs a x)

stored_value :
    (rs rs' : List Region) (a v : ℕ)
    → v < 2 ^ 32
    → StoredRegions rs a v 4 rs'
    → memory_value rs' a 4 ≡ v
stored_value rs rs' a v fits stored =
    ground (arith, stored a, stored (a + 1), stored (a + 2), stored (a + 3), word-lane v)

-- Where every region is well formed, writing a 32-bit value to an aligned address that some
-- region has ends normally, keeps the regions well formed, and reading the address then gives the
-- value.
pub read32-write32 :
    (c : Cpu) (a v : ℕ)
    → AreRegions c.regions
    → v < 2 ^ 32
    → a % 4 ≡ 0
    → valid_addr c.regions a ≡ true
    → (c' : Cpu) × (write32 c a v ≡ ok c') × AreRegions c'.regions × (read32 c' a ≡ ok v)
unfolding write32 read32
read32-write32 c a v good fits aligned valid =
    let (rs', done, good', stored) =
      store_regions-Stored c.regions a v 4 good fits (inr (inr (refl, aligned))) valid in
    (
      record c { regions = rs' },
      rw done refl,
      good',
      rw
          (load_regions-value rs' a 4 false good' (inr (inr (refl, aligned)))
            (memory_byte-valid rs' a (lane v 0) (stored a ∙ ground arith)))
          (ap ok (stored_value c.regions rs' a v fits stored)),
    )
