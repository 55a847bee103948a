-- ===== src/Testbench/Regions/Bytes.antt =====
-- The memory of top_cache_axi/tb/tb_memory.h as a partial map from addresses to bytes: what `write`
-- and `read` do to it.
use system_on_chip_design_pr.Base.{
  ℕ, ◌-◌, ◌≡◌, ◌≢◌, refl, ap, sym, ◌∙◌, Bool, true, false, List, Option, none, some, update,
  if◌then◌else◌, ◌==◌, ==_iff, Bool-cases, inl, inr, arith,
}
use system_on_chip_design_pr.Outcome.{ok}
use system_on_chip_design_pr.Testbench.Regions.{
  World, MemRegion, TbMemory, find_region, push_record,
}
use system_on_chip_design_pr.Testbench.Regions

-- The byte in the cell of a region.
abbrev pub byte_of : World → ℕ → Option MemRegion → Option ℕ
byte_of w a none = none
byte_of w a (some r) = some (w.arrays r.mem (a - r.base))

abbrev pub byte_at : World → List MemRegion → ℕ → Option ℕ
byte_at w rs a = byte_of w a (find_region rs a)

-- No two addresses of the regions have one cell of an array.
abbrev pub AreSeparate : List MemRegion → Type 0
AreSeparate rs =
    (a b : ℕ) (r s : MemRegion)
    → find_region rs a ≡ some r
    → find_region rs b ≡ some s
    → r.mem ≡ s.mem
    → a - r.base ≡ b - s.base
    → a ≡ b

pub region_of :
    (w : World) (rs : List MemRegion) (a v : ℕ)
    → byte_at w rs a ≡ some v
    → (r : MemRegion) × (find_region rs a ≡ some r) × (w.arrays r.mem (a - r.base) ≡ v)
region_of w rs a v e = by_result (find_region rs a) refl e
  where
    by_result :
        (x : Option MemRegion)
        → find_region rs a ≡ x
        → byte_of w a x ≡ some v
        → (r : MemRegion) × (find_region rs a ≡ some r) × (w.arrays r.mem (a - r.base) ≡ v)
    by_result none found e' = cc
    by_result (some r) found e' = (r, found, cc)

pub push_record-regions :
    (w : World) (m : TbMemory) (is_write : Bool) (a v : ℕ)
    → (push_record w m is_write a v).regions ≡ m.regions
push_record-regions w m is_write a v = ground arith

-- A read gives the byte.
pub read_lem :
    (w : World) (m : TbMemory) (a v : ℕ)
    → byte_at w m.regions a ≡ some v
    → Regions.read w m a ≡ ok (push_record w m false a v, v)
unfolding Regions.read
read_lem w m a v e =
    let (r, found, is) = region_of w m.regions a v e in
    rw (found, Regions.read) (ap (λ x. ok (push_record w m false a x, x)) is)

-- The world behind a write.
abbrev pub written : World → MemRegion → ℕ → ℕ → World
written w r a v = record w {
  arrays = update w.arrays r.mem (update (w.arrays r.mem) (a - r.base) v);
}

some-injective : {r s : MemRegion} → some r ≡ some s → r ≡ s
some-injective e = cc

byte_of-written :
    (w : World) (rs : List MemRegion) (r : MemRegion) (a v b : ℕ) (x : Option MemRegion)
    → AreSeparate rs
    → find_region rs a ≡ some r
    → find_region rs b ≡ x
    → byte_of (written w r a v) b x ≡ (if a == b then some v else byte_of w b x)
byte_of-written w rs r a v b none separate at_a at_b =
    let differ : a ≢ b = λ same. (let h = rw same at at_a in cc) in ground (arith, differ)
byte_of-written w rs r a v b (some s) separate at_a at_b = elim (Bool-cases (a == b)) [
  | inl hit ↦
      let same_address : a ≡ b = (==_iff a b).0 hit in
      let found : find_region rs b ≡ some r = rw same_address at at_a in
      let same : s ≡ r = some-injective (sym at_b ∙ found) in
      rw (hit, sym same_address, same) (ground arith)
  | inr miss ↦ ground (arith, separate a b r s at_a at_b)
]

-- A write replaces the byte at its address alone, and leaves the regions as they were.
pub write_lem :
    (w : World) (m : TbMemory) (a old v : ℕ)
    → AreSeparate m.regions
    → byte_at w m.regions a ≡ some old
    → (done : World × TbMemory) × (Regions.write w m a v ≡ ok done)
      × (done.1.regions ≡ m.regions)
      × ((b : ℕ) → byte_at done.0 m.regions b ≡ (if a == b then some v else byte_at w m.regions b))
unfolding Regions.write
write_lem w m a old v separate e =
    let (r, found, is) = region_of w m.regions a old e in
    (
      (written w r a v, push_record w m true a v),
      rw (found, Regions.write) refl,
      push_record-regions w m true a v,
      λ b. byte_of-written w m.regions r a v b (find_region m.regions b) separate found refl,
    )
