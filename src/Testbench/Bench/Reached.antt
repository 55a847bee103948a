-- ===== src/Testbench/Bench/Reached.antt =====
-- The states of the memories of top_cache_axi/tb/testbench.h behind any calls of create_memory,
-- write and read.
use mathlib.Core.Path.{subst}
use system_on_chip_design_pr.Base.{
  ℕ, ◌≡◌, refl, sym, ap, ◌∙◌, Bool, true, false, Option, none, some,
}
use system_on_chip_design_pr.Outcome.{ok, >>=-eq-ok, ok-injective}
use system_on_chip_design_pr.Testbench.Regions.{World, MemRegion, TbMemory, find_region, no_regions}
use system_on_chip_design_pr.Testbench.Regions.Bytes.{push_record-regions}
use system_on_chip_design_pr.Testbench.Regions
use system_on_chip_design_pr.Testbench.Bench.{Bench, create_memory, write, read}
use system_on_chip_design_pr.Testbench.Bench.Separate.{IsSound, create_memory-IsSound}

-- The testbench behind its constructor.
abbrev pub new_bench : World → Bench
new_bench w = record { world = w; icache_mem = no_regions; dcache_mem = no_regions }

pub data Reached : Bench → Type 0 where
  start : (w : World) → Reached (new_bench w)
  created :
      (t t' : Bench) (base size : ℕ) (made : Bool)
      → Reached t
      → create_memory t base size ≡ ok (t', made)
      → Reached t'
  written : (t t' : Bench) (addr value : ℕ) → Reached t → write t addr value ≡ ok t' → Reached t'
  answered : (t t' : Bench) (addr value : ℕ) → Reached t → read t addr ≡ ok (t', value) → Reached t'

-- What an access may change: neither the regions nor the number of arrays.
record SameRegions (t t' : Bench) : Type 0 where
  pub icache_regions : t'.icache_mem.regions ≡ t.icache_mem.regions
  pub dcache_regions : t'.dcache_mem.regions ≡ t.dcache_mem.regions
  pub next : t'.world.next ≡ t.world.next

SameRegions-IsSound : (t t' : Bench) → SameRegions t t' → IsSound t → IsSound t'
SameRegions-IsSound t t' same (shares, apart, arrays) = (
  same.icache_regions ∙ shares ∙ sym same.dcache_regions,
  rw same.dcache_regions apart,
  rw (same.dcache_regions, same.next) arrays,
)

regions-write :
    (w : World) (m : TbMemory) (addr value : ℕ) (done : World × TbMemory)
    → Regions.write w m addr value ≡ ok done
    → (done.1.regions ≡ m.regions) × (done.0.next ≡ w.next)
unfolding Regions.write
regions-write w m addr value done e = by_region (find_region m.regions addr) refl
  where
    by_region :
        (x : Option MemRegion)
        → find_region m.regions addr ≡ x
        → (done.1.regions ≡ m.regions) × (done.0.next ≡ w.next)
    by_region none at = absurd (let h = rw (at, Regions.write) at e in cc)
    by_region (some r) at =
        let h = rw (at, Regions.write) at e in
        (
          ap (λ (d : World × TbMemory). d.1.regions) (sym (ok-injective h))
              ∙ push_record-regions w m true addr value,
          ap (λ (d : World × TbMemory). d.0.next) (sym (ok-injective h)),
        )

regions-read :
    (w : World) (m : TbMemory) (addr : ℕ) (done : TbMemory × ℕ)
    → Regions.read w m addr ≡ ok done
    → done.0.regions ≡ m.regions
unfolding Regions.read
regions-read w m addr done e = by_region (find_region m.regions addr) refl
  where
    by_region : (x : Option MemRegion) → find_region m.regions addr ≡ x → done.0.regions ≡ m.regions
    by_region none at = absurd (let h = rw (at, Regions.read) at e in cc)
    by_region (some r) at =
        let h = rw (at, Regions.read) at e in
        ap (λ (d : TbMemory × ℕ). d.0.regions) (sym (ok-injective h))
        ∙ push_record-regions w m false addr _

write-SameRegions : (t t' : Bench) (addr value : ℕ) → write t addr value ≡ ok t' → SameRegions t t'
unfolding write
write-SameRegions t t' addr value e =
    let (done, runs, is) = >>=-eq-ok (Regions.write t.world t.dcache_mem addr value) _ e in
    let (same, next) = regions-write t.world t.dcache_mem addr value done runs in
    subst (SameRegions t) (ok-injective is)
      (record { icache_regions = refl; dcache_regions = same; next = next })

read-SameRegions : (t t' : Bench) (addr value : ℕ) → read t addr ≡ ok (t', value) → SameRegions t t'
unfolding read
read-SameRegions t t' addr value e =
    let (done, runs, is) = >>=-eq-ok (Regions.read t.world t.dcache_mem addr) _ e in
    let same = regions-read t.world t.dcache_mem addr done runs in
    subst (SameRegions t) (ap (λ (r : Bench × ℕ). r.0) (ok-injective is))
      (record { icache_regions = refl; dcache_regions = same; next = refl })

-- In every state that a newly constructed testbench reaches by calls of create_memory, write and
-- read that return, both memories have the same regions over the same arrays, every region lies
-- over an array that was made before, and no two addresses have one cell.
pub Reached-IsSound : (t : Bench) → Reached t → IsSound t
unfolding find_region
Reached-IsSound _ (start w) = (refl, (λ a b r s at_a at_b array place. cc), λ a r at. cc)
Reached-IsSound _ (created t t' base size made before e) =
    create_memory-IsSound t t' base size made (Reached-IsSound t before) e
Reached-IsSound _ (written t t' addr value before e) =
    SameRegions-IsSound t t' (write-SameRegions t t' addr value e) (Reached-IsSound t before)
Reached-IsSound _ (answered t t' addr value before e) =
    SameRegions-IsSound t t' (read-SameRegions t t' addr value e) (Reached-IsSound t before)
