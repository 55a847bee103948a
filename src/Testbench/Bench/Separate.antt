-- ===== src/Testbench/Bench/Separate.antt =====
-- `create_memory` of top_cache_axi/tb/testbench.h gives every address of the memories a cell of its
-- own.
use system_on_chip_design_pr.Base.{
  ℕ, zero, suc, ◌+◌, ◌<◌, ◌≤◌, ◌≡◌, ◌⊎◌, inl, inr, refl, sym, ap, ◌∙◌, Bool, true, false, List, [],
  ◌∷◌, Option, none, some, arith,
}
use system_on_chip_design_pr.Outcome.{ok}
use system_on_chip_design_pr.Testbench.Regions.{
  MemRegion, match_region, place_region, first_match, find_region, tb_mem_max_regions,
}
use system_on_chip_design_pr.Testbench.Regions.Bytes.{AreSeparate}
use system_on_chip_design_pr.Testbench.Bench.{Bench, create_memory}
use system_on_chip_design_pr.Testbench.Bench.Placed.{
  Shares, place_behind-some, new_region, create_memory-Placed,
}

-- Every region lies over an array that was made before.
abbrev pub AreMade : ℕ → List MemRegion → Type 0
AreMade next rs = (a : ℕ) (r : MemRegion) → find_region rs a ≡ some r → r.mem < next

-- The region that the first match gives is one of the two.
first_match-some :
    (b : Bool) (r s : MemRegion) (rest : Option MemRegion)
    → first_match b r rest ≡ some s
    → (b ≡ true) × (s ≡ r) ⊎ (b ≡ false) × (rest ≡ some s)
unfolding first_match
first_match-some true r s rest e = inl (refl, cc)
first_match-some false r s rest e = inr (refl, e)

-- A region found behind `place_region` was found before, or is the new one.
find_region-origin :
    (slots : ℕ) (rs rs' : List MemRegion) (new r : MemRegion) (a : ℕ)
    → place_region slots rs new ≡ some rs'
    → find_region rs' a ≡ some r
    → (find_region rs a ≡ some r) ⊎ ((r ≡ new) × (match_region new a ≡ true))
unfolding place_region find_region first_match
find_region-origin zero rs rs' new r a placed at = cc
find_region-origin (suc slots) [] rs' new r a placed at =
    let same : new ∷ [] ≡ rs' = cc in
    elim (first_match-some (match_region new a) new r none (rw (sym same) at at)) [
      | inl (hit, is) ↦ inr (is, hit)
      | inr (missed, gone) ↦ cc
    ]
find_region-origin (suc slots) (q ∷ rs) rs' new r a placed at =
    let (rs'', placed', same) = place_behind-some _ q (place_region slots rs new) rs' placed in
    elim (first_match-some (match_region q a) q r (find_region rs'' a) (rw same at at)) [
      | inl (hit, is) ↦ inl (rw (hit, is) refl)
      | inr (missed, later) ↦ rw missed (find_region-origin slots rs rs'' new r a placed' later)
    ]

find_region-match :
    (rs : List MemRegion) (r : MemRegion) (a : ℕ)
    → find_region rs a ≡ some r
    → match_region r a ≡ true
unfolding find_region
find_region-match [] r a at = cc
find_region-match (q ∷ rs) r a at =
    elim (first_match-some (match_region q a) q r (find_region rs a) at) [
      | inl (hit, is) ↦ rw is hit
      | inr (missed, later) ↦ find_region-match rs r a later
    ]

match_region-low : (r : MemRegion) (a : ℕ) → match_region r a ≡ true → r.base ≤ a
match_region-low r a hit = ground arith

-- A new region over a new array keeps the cells apart.
place_region-AreSeparate :
    (slots : ℕ) (rs rs' : List MemRegion) (new : MemRegion)
    → AreSeparate rs
    → AreMade new.mem rs
    → place_region slots rs new ≡ some rs'
    → AreSeparate rs' × AreMade (new.mem + 1) rs'
place_region-AreSeparate slots rs rs' new apart made placed = (
  λ a b r s at_a at_b array place.
      let low_a = match_region-low r a (find_region-match rs' r a at_a) in
      let low_b = match_region-low s b (find_region-match rs' s b at_b) in
      elim (find_region-origin slots rs rs' new r a placed at_a) [
        | inl old_a ↦ elim (find_region-origin slots rs rs' new s b placed at_b) [
          | inl old_b ↦ apart a b r s old_a old_b array place
          | inr (new_b, hit) ↦ absurd (
              let below = made a r old_a in
              let same : s.mem ≡ new.mem = ap (λ (q : MemRegion). q.mem) new_b in omega arith)
        ]
        | inr (new_a, hit) ↦
            let same : r.mem ≡ new.mem = ap (λ (q : MemRegion). q.mem) new_a in
            elim (find_region-origin slots rs rs' new s b placed at_b) [
              | inl old_b ↦ absurd (let below = made b s old_b in omega arith)
              | inr (new_b, hit_b) ↦
                  let base_a : r.base ≡ new.base = ap (λ (q : MemRegion). q.base) new_a in
                  let base_b : s.base ≡ new.base = ap (λ (q : MemRegion). q.base) new_b in
                  omega arith
            ]
      ],
  λ a r at. elim (find_region-origin slots rs rs' new r a placed at) [
    | inl old ↦ let below = made a r old in omega arith
    | inr (is, hit) ↦ let same : r.mem ≡ new.mem = ap (λ (q : MemRegion). q.mem) is in omega arith
  ],
)

-- Both memories have the same regions, each over an array that was made before, and no two
-- addresses have one cell.
abbrev pub IsSound : Bench → Type 0
IsSound t = Shares t × AreSeparate t.dcache_mem.regions × AreMade t.world.next t.dcache_mem.regions

-- If `create_memory` returns, the memories still have the same regions, each over an array that was
-- made before, and no two addresses have one cell.
pub create_memory-IsSound :
    (t t' : Bench) (base size : ℕ) (made : Bool)
    → IsSound t
    → create_memory t base size ≡ ok (t', made)
    → IsSound t'
create_memory-IsSound t t' base size made (same, apart, arrays) e =
    let (base', size', (rs, placed, added)) = create_memory-Placed t t' base size made same e in
    let (apart', arrays') =
      place_region-AreSeparate tb_mem_max_regions t.icache_mem.regions rs (new_region t base' size')
        (rw same apart) (rw same arrays) placed in
    (
      added.icache_regions ∙ sym added.dcache_regions,
      rw added.dcache_regions apart',
      rw (added.dcache_regions, added.next) arrays',
    )
