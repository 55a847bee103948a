-- ===== src/Cpu/Regions/Loads.antt =====
-- What the reads of isa_sim/riscv.cpp return, on the byte map of physical memory.
use system_on_chip_design_pr.Base.{
  ℕ, ◌-◌, ◌≡◌, inl, inr, refl, ap, ◌∙◌, Bool, true, false, List, [], ◌∷◌, none, some, arith,
  if◌then◌else◌, Bool-cases,
}
use system_on_chip_design_pr.Outcome.{ok}
use system_on_chip_design_pr.Memory.Access.{IsAligned, load-bytes_from, bytes_from, sign_extend}
use system_on_chip_design_pr.Cpu.{Region}
use system_on_chip_design_pr.Cpu.Regions.{in_region, valid_addr, load_regions, store_regions}
use system_on_chip_design_pr.Cpu.Regions.Bytes.{
  IsRegion, AreRegions, memory_value, inside_array, relative-IsAligned, spans, misses,
}

value_here :
    (r : Region) (rs : List Region) (a width : ℕ)
    → IsRegion r
    → in_region r a ≡ true
    → IsAligned a width
    → bytes_from r.memory (a - r.base) width ≡ memory_value (r ∷ rs) a width
value_here r rs a width good here (inl one) = rw one (ground arith)
value_here r rs a width good here (inr (inl (two, even))) =
    rw two (ground (arith, spans r a good here 2 1 (inr (inl (refl, even)))))
value_here r rs a width good here (inr (inr (four, even))) = rw four (
    ground (
      arith,
      spans r a good here 4 1 (inr (inr (refl, even))),
      spans r a good here 4 2 (inr (inr (refl, even))),
      spans r a good here 4 3 (inr (inr (refl, even))),
    ))

value_later :
    (r : Region) (rs : List Region) (a width : ℕ)
    → IsRegion r
    → in_region r a ≡ false
    → IsAligned a width
    → memory_value rs a width ≡ memory_value (r ∷ rs) a width
value_later r rs a width good out (inl one) = rw one (ground arith)
value_later r rs a width good out (inr (inl (two, even))) =
    rw two (ground (arith, misses r a 2 1 good out (inr (inl (refl, even)))))
value_later r rs a width good out (inr (inr (four, even))) = rw four (
    ground (
      arith,
      misses r a 4 1 good out (inr (inr (refl, even))),
      misses r a 4 2 good out (inr (inr (refl, even))),
      misses r a 4 3 good out (inr (inr (refl, even))),
    ))

-- The value of an access, widened by its sign if that is asked for.
abbrev pub access_value : List Region → ℕ → ℕ → Bool → ℕ
access_value rs a width signed_load =
    if signed_load then sign_extend width (memory_value rs a width) else memory_value rs a width

load_here :
    (r : Region) (rs : List Region) (a width : ℕ) (signed_load : Bool)
    → IsRegion r
    → in_region r a ≡ true
    → IsAligned a width
    → load_regions (r ∷ rs) a width signed_load
      ≡ ok (
          some (
            if signed_load
            then sign_extend width (bytes_from r.memory (a - r.base) width)
            else bytes_from r.memory (a - r.base) width))
unfolding load_regions
load_here r rs a width signed_load good here aligned =
    rw
      (
        here,
        load-bytes_from r.memory (a - r.base) width signed_load good.words
            (relative-IsAligned r a good here width aligned) (inside_array r a good here),
      )
      refl

load_later :
    (r : Region) (rs : List Region) (a width : ℕ) (signed_load : Bool)
    → in_region r a ≡ false
    → load_regions (r ∷ rs) a width signed_load ≡ load_regions rs a width signed_load
unfolding load_regions
load_later r rs a width signed_load out = rw out refl

-- Where every region is well formed, an aligned read of an address that some region has ends
-- normally with the little-endian value of the bytes there, widened by its sign if that is asked
-- for.
pub load_regions-value :
    (rs : List Region) (a width : ℕ) (signed_load : Bool)
    → AreRegions rs
    → IsAligned a width
    → valid_addr rs a ≡ true
    → load_regions rs a width signed_load ≡ ok (some (access_value rs a width signed_load))
unfolding valid_addr load_regions
load_regions-value [] a width signed_load good aligned valid = cc
load_regions-value (r ∷ rs) a width signed_load (g, gs) aligned valid =
    elim (Bool-cases (in_region r a)) [
      | inl here ↦
          load_here r rs a width signed_load g here aligned
          ∙ ap (λ x. ok (some (if signed_load then sign_extend width x else x)))
              (value_here r rs a width g here aligned)
      | inr out ↦
          load_later r rs a width signed_load out
          ∙ load_regions-value rs a width signed_load gs aligned (rw out at valid)
          ∙ ap (λ x. ok (some (if signed_load then sign_extend width x else x)))
              (value_later r rs a width g out aligned)
    ]

-- Where no region has the address, a read finds nothing and a write is not taken.
pub load_regions-none :
    (rs : List Region) (a width : ℕ) (signed_load : Bool)
    → valid_addr rs a ≡ false
    → load_regions rs a width signed_load ≡ ok none
unfolding valid_addr load_regions
load_regions-none [] a width signed_load out = refl
load_regions-none (r ∷ rs) a width signed_load out =
    ground (arith, load_regions-none rs a width signed_load)

pub store_regions-none :
    (rs : List Region) (a v width : ℕ)
    → valid_addr rs a ≡ false
    → store_regions rs a v width ≡ ok none
unfolding valid_addr store_regions
store_regions-none [] a v width out = refl
store_regions-none (r ∷ rs) a v width out = elim (Bool-cases (in_region r a)) [
  | inl here ↦ ground arith
  | inr miss ↦ rw (miss, store_regions-none rs a v width (rw miss at out)) refl
]
