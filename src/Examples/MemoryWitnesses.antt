-- ===== src/Examples/MemoryWitnesses.antt =====
-- The theorems on memory at a region of two words.
use Prim.{tt}
use system_on_chip_design_pr.Base.{
  ℕ, zero, suc, ◌≡◌, refl, inl, inr, false, List, [], ◌∷◌, some, arith,
}
use system_on_chip_design_pr.Outcome.{ok}
use system_on_chip_design_pr.Memory.Access.{IsWords}
use system_on_chip_design_pr.Cpu.{Cpu, Region}
use system_on_chip_design_pr.Cpu.Regions.{valid_addr, load_regions, store_regions, read32, write32}
use system_on_chip_design_pr.Cpu.Regions.Bytes.{
  IsRegion, AreRegions, StoredRegions, store_regions-Stored,
}
use system_on_chip_design_pr.Cpu.Regions.Loads.{access_value, load_regions-value}
use system_on_chip_design_pr.Cpu.Regions.RoundTrip.{read32-write32}
use system_on_chip_design_pr.Examples.Machine.{machine, memory_of, region_of}

abbrev pub two_words : List ℕ
two_words = 0x11223344 ∷ 0xAABBCCDD ∷ []

two_words-IsWords : IsWords (memory_of two_words)
two_words-IsWords zero = omega arith
two_words-IsWords (suc zero) = omega arith
two_words-IsWords (suc (suc i)) = omega arith

pub region_of-IsRegion : IsRegion (region_of two_words)
region_of-IsRegion = record {
  base_fits = omega arith;
  size_fits = omega arith;
  base_aligned = refl;
  size_aligned = refl;
  same_size = refl;
  words = two_words-IsWords;
}

abbrev regions : List Region
regions = region_of two_words ∷ []

regions-AreRegions : AreRegions regions
regions-AreRegions = (region_of-IsRegion, tt)

store_regions-Stored_example :
    (rs' : List Region) × (store_regions regions 5 0x77 1 ≡ ok (some rs'))
    × AreRegions rs'
    × StoredRegions regions 5 0x77 1 rs'
unfolding valid_addr
store_regions-Stored_example =
    store_regions-Stored regions 5 0x77 1 regions-AreRegions (omega arith) (inl refl) refl

load_regions-value_example :
    load_regions regions 4 4 false ≡ ok (some (access_value regions 4 4 false))
unfolding valid_addr
load_regions-value_example =
    load_regions-value regions 4 4 false regions-AreRegions (inr (inr (refl, refl))) refl

read32-write32_example :
    (c' : Cpu) × (write32 (machine two_words) 8 0xCAFEBABE ≡ ok c')
    × AreRegions c'.regions
    × (read32 c' 8 ≡ ok 0xCAFEBABE)
unfolding valid_addr
read32-write32_example =
    read32-write32 (machine two_words) 8 0xCAFEBABE regions-AreRegions (omega arith) refl refl
