-- ===== src/Testbench/Bench/Shared.antt =====
-- The two memories of top_cache_axi/tb/testbench.h share their arrays.
use system_on_chip_design_pr.Base.{
  ℕ, ◌≡◌, refl, sym, ap, ◌∙◌, Bool, true, false, Option, none, some, update, ◌-◌, Bool-cases, inl,
  inr, arith,
}
use system_on_chip_design_pr.Outcome.{ok}
use system_on_chip_design_pr.Testbench.Regions
use system_on_chip_design_pr.Testbench.Regions.{
  World, MemRegion, TbMemory, match_region, place_behind, place_region, with_regions, first_match,
  find_region, valid_addr, add_region, add_region_at, get_array, tb_mem_max_regions, push_record,
}
use system_on_chip_design_pr.Testbench.Bench.{Bench, write}
use system_on_chip_design_pr.Testbench.Bench.Placed.{Shares}

push_record-regions :
    (w : World) (m : TbMemory) (is_write : Bool) (addr value : ℕ)
    → (push_record w m is_write addr value).regions ≡ m.regions
push_record-regions w m is_write addr value = elim (Bool-cases m.record_accesses) [
  | inl on ↦ rw on refl
  | inr off ↦ rw off refl
]

write-some :
    (w : World) (m : TbMemory) (addr value : ℕ) (r : MemRegion)
    → find_region m.regions addr ≡ some r
    → Regions.write w m addr value
      ≡ ok (
        record w { arrays = update w.arrays r.mem (update (w.arrays r.mem) (addr - r.base) value) },
        push_record w m true addr value,
      )
unfolding Regions.write
write-some w m addr value r e = rw (e, Regions.write) refl

read-some :
    (w : World) (m : TbMemory) (addr value : ℕ) (r : MemRegion)
    → find_region m.regions addr ≡ some r
    → w.arrays r.mem (addr - r.base) ≡ value
    → Regions.read w m addr ≡ ok (push_record w m false addr value, value)
unfolding Regions.read
read-some w m addr value r e same =
    rw (e, Regions.read) (ap (λ x. ok (push_record w m false addr x, x)) same)

-- The byte is there for the memory of instructions too, and the regions are still the same.
abbrev IsFetched : ℕ → ℕ → Bench → Type 0
IsFetched addr value t =
    Shares t
    × (Regions.read t.world t.icache_mem addr
        ≡ ok (push_record t.world t.icache_mem false addr value, value))

-- Where both memories have the same regions over the same arrays and some region has the address,
-- `write` returns; the byte that it puts into the memory of data is then there for the memory of
-- instructions too, and both still have the same regions.
write-IsFetched :
    (t : Bench) (addr value : ℕ)
    → Shares t
    → valid_addr t.dcache_mem addr ≡ true
    → (t' : Bench) × (write t addr value ≡ ok t') × IsFetched addr value t'
unfolding write valid_addr
write-IsFetched t addr value same valid = by_region (find_region t.dcache_mem.regions addr) refl
  where
    by_region :
        (x : Option MemRegion)
        → find_region t.dcache_mem.regions addr ≡ x
        → (t' : Bench) × (write t addr value ≡ ok t') × IsFetched addr value t'
    by_region none gone = absurd (let h = rw (gone, valid_addr) at valid in cc)
    by_region (some r) found =
        let there : find_region t.icache_mem.regions addr ≡ some r =
          ap (λ rs. find_region rs addr) same ∙ found in
        let w = record t.world {
          arrays =
              update t.world.arrays r.mem (update (t.world.arrays r.mem) (addr - r.base) value);
        } in
        (
          record t { world = w; dcache_mem = push_record t.world t.dcache_mem true addr value },
          rw (write-some t.world t.dcache_mem addr value r found) refl,
          (
            same ∙ sym (push_record-regions t.world t.dcache_mem true addr value),
            read-some w t.icache_mem addr value r there (ground arith),
          ),
        )
