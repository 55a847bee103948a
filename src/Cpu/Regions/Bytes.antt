-- ===== src/Cpu/Regions/Bytes.antt =====
-- Physical memory as a partial map from addresses to bytes: what the reads and the writes of
-- isa_sim/riscv.cpp do to it.
use system_on_chip_design_pr.Base.{
  ℕ, ◌+◌, ◌-◌, ◌*◌, ◌/◌, ◌%◌, ◌^◌, ◌<◌, ◌≡◌, inl, inr, refl, ◌∙◌, true, false, ◌&&◌, List, [], ◌∷◌,
  Option, none, some, arith, if◌then◌else◌, ltb, leb, ◌==◌, Bool-cases,
}
use system_on_chip_design_pr.Outcome.{ok}
use system_on_chip_design_pr.Memory.{SimpleMemory, capacity}
use system_on_chip_design_pr.Memory.Bytes.{lane}
use system_on_chip_design_pr.Memory.Access.{byte, IsWords, IsAligned, Stored, store-Stored}
use system_on_chip_design_pr.Cpu.{Region}
use system_on_chip_design_pr.Cpu.Regions.{in_region, valid_addr, store_regions, or_zero}

-- A region of whole words at a word boundary, whose memory has the region's size.
pub record IsRegion (r : Region) : Type 0 where
  pub base_fits : r.base < 2 ^ 32
  pub size_fits : r.size < 2 ^ 32
  pub base_aligned : r.base % 4 ≡ 0
  pub size_aligned : r.size % 4 ≡ 0
  pub same_size : r.memory.size ≡ r.size
  pub words : IsWords r.memory

abbrev pub AreRegions : List Region → Type 0
AreRegions [] = Unit
AreRegions (r ∷ rs) = IsRegion r × AreRegions rs

-- The byte at a physical address, `none` where there is no memory.
abbrev pub memory_byte : List Region → ℕ → Option ℕ
memory_byte [] b = none
memory_byte (r ∷ rs) b =
    if in_region r b then some (byte r.memory (b - r.base)) else memory_byte rs b

-- The unsigned value of the `width` bytes at an address.
abbrev pub memory_value : List Region → ℕ → ℕ → ℕ
memory_value rs a width =
    if width == 1
    then or_zero (memory_byte rs a)
    else if width == 2
    then or_zero (memory_byte rs a) + or_zero (memory_byte rs (a + 1)) * 256
    else or_zero (memory_byte rs a)
      + or_zero (memory_byte rs (a + 1)) * 256
      + or_zero (memory_byte rs (a + 2)) * 65536
      + or_zero (memory_byte rs (a + 3)) * 16777216

module _ (r : Region) (a : ℕ) (good : IsRegion r) (here : in_region r a ≡ true) where
  -- An address that passes the test is inside the array: no access is out of bounds.
  pub inside_array : (a - r.base) / 4 < capacity r.memory
  inside_array = let s = good.same_size in ground arith

  pub relative-IsAligned : (width : ℕ) → IsAligned a width → IsAligned (a - r.base) width
  relative-IsAligned width (inl one) = inl one
  relative-IsAligned width (inr (inl (two, even))) =
      inr (inl (two, ground (arith, good.base_aligned)))
  relative-IsAligned width (inr (inr (four, even))) =
      inr (inr (four, ground (arith, good.base_aligned)))

  -- The whole access lies in the region that has its first address.
  pub spans : (width k : ℕ) → IsAligned a width → k < width → in_region r (a + k) ≡ true
  spans width k aligned h =
      let b = good.base_aligned in let n = good.size_aligned in ground (arith, b, n)

-- An aligned access that does not start in a region does not touch it.
pub misses :
    (r : Region) (a width k : ℕ)
    → IsRegion r
    → in_region r a ≡ false
    → IsAligned a width
    → k < width
    → in_region r (a + k) ≡ false
misses r a width k good out aligned h = ground (arith, good.base_aligned, good.size_aligned)

-- The step of the induction at the region that takes the write.
Stored-here :
    (r : Region) (rs : List Region) (a v width : ℕ) (m' : SimpleMemory)
    → IsRegion r
    → in_region r a ≡ true
    → IsAligned a width
    → Stored r.memory (a - r.base) v width m'
    → (b : ℕ)
    → memory_byte (record r { memory = m' } ∷ rs) b
      ≡ (if leb a b && ltb b (a + width) then some (lane v (b - a)) else memory_byte (r ∷ rs) b)
Stored-here r rs a v width m' good here aligned stored b =
    ground (arith, stored (b - r.base), spans r a good here width (b - a) aligned)

-- The step of the induction at a region that the write passes by.
stored_later :
    (r : Region) (rs rs' : List Region) (a v width : ℕ)
    → IsRegion r
    → in_region r a ≡ false
    → IsAligned a width
    → (b : ℕ)
    → memory_byte rs' b
      ≡ (if leb a b && ltb b (a + width) then some (lane v (b - a)) else memory_byte rs b)
    → memory_byte (r ∷ rs') b
      ≡ (if leb a b && ltb b (a + width) then some (lane v (b - a)) else memory_byte (r ∷ rs) b)
stored_later r rs rs' a v width good out aligned b ih =
    ground (arith, misses r a width (b - a) good out aligned)

-- What a write of `width` bytes of `v` at `a` does to the regions.
abbrev pub StoredRegions : List Region → ℕ → ℕ → ℕ → List Region → Type 0
StoredRegions rs a v width rs' =
    (b : ℕ)
    → memory_byte rs' b
      ≡ (if leb a b && ltb b (a + width) then some (lane v (b - a)) else memory_byte rs b)

-- Where every region is well formed and the value fits 32 bits, an aligned write to an address
-- that some region has ends normally, keeps the regions well formed, replaces the bytes that it
-- covers by those of the value, lowest first, and leaves every other byte of the memory alone.
pub store_regions-Stored :
    (rs : List Region) (a v width : ℕ)
    → AreRegions rs
    → v < 2 ^ 32
    → IsAligned a width
    → valid_addr rs a ≡ true
    → (rs' : List Region) × (store_regions rs a v width ≡ ok (some rs'))
      × AreRegions rs'
      × StoredRegions rs a v width rs'
unfolding valid_addr store_regions
store_regions-Stored [] a v width good fits aligned valid = cc
store_regions-Stored (r ∷ rs) a v width (g, gs) fits aligned valid =
    elim (Bool-cases (in_region r a)) [
      | inl here ↦
          let (m', done, size, words, stored) =
            store-Stored r.memory (a - r.base) v width g.words fits
              (relative-IsAligned r a g here width aligned) (inside_array r a g here) in
          (
            record r { memory = m' } ∷ rs,
            rw (here, done) refl,
            (
              record {
                base_fits = g.base_fits;
                size_fits = g.size_fits;
                base_aligned = g.base_aligned;
                size_aligned = g.size_aligned;
                same_size = size ∙ g.same_size;
                words = words;
              },
              gs,
            ),
            Stored-here r rs a v width m' g here aligned stored,
          )
      | inr out ↦
          let (rs', done, good', stored) =
            store_regions-Stored rs a v width gs fits aligned (rw out at valid) in
          (
            r ∷ rs',
            rw (out, done) refl,
            (g, good'),
            λ b. stored_later r rs rs' a v width g out aligned b (stored b),
          )
    ]
