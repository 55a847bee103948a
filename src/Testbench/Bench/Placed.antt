-- ===== src/Testbench/Bench/Placed.antt =====
-- What `create_memory` of top_cache_axi/tb/testbench.h makes of the two memories.
use mathlib.Core.Path.{subst}
use system_on_chip_design_pr.Base.{
  ℕ, zero, suc, ◌+◌, ◌^◌, ◌≡◌, refl, sym, ap, ◌∙◌, Bool, true, false, List, [], ◌∷◌, Option, none,
  some, Bool-cases, inl, inr, bit_and, not32, add32,
}
use system_on_chip_design_pr.Outcome.{ok, abort, >>=-eq-ok, ok-injective}
use system_on_chip_design_pr.Testbench.Regions.{
  MemRegion, TbMemory, match_region, place_behind, place_region, first_match, find_region,
  valid_addr, add_region, add_region_at, get_array, tb_mem_max_regions,
}
use system_on_chip_design_pr.Testbench.Bench.{
  Bench, free_base, free_size, add_shared, create_memory,
}

-- Both memories have the same regions, over the same arrays.
abbrev pub Shares : Bench → Type 0
Shares t = t.icache_mem.regions ≡ t.dcache_mem.regions

pub place_behind-some :
    (b : Bool) (r : MemRegion) (rest : Option (List MemRegion)) (rs' : List MemRegion)
    → place_behind b r rest ≡ some rs'
    → (rs'' : List MemRegion) × (rest ≡ some rs'') × (rs' ≡ r ∷ rs'')
unfolding place_behind
place_behind-some true r rest rs' e = cc
place_behind-some false r none rs' e = cc
place_behind-some false r (some rs'') rs' e = (rs'', refl, cc)

first_match-none :
    (b : Bool) (r : MemRegion) (rest : Option MemRegion)
    → first_match b r rest ≡ none
    → (b ≡ false) × (rest ≡ none)
unfolding first_match
first_match-none true r rest e = cc
first_match-none false r rest e = (refl, e)

-- At an address that no region had, the slots with a new region have it alone.
find_region-placed :
    (slots : ℕ) (rs rs' : List MemRegion) (new : MemRegion) (addr : ℕ)
    → find_region rs addr ≡ none
    → place_region slots rs new ≡ some rs'
    → find_region rs' addr ≡ first_match (match_region new addr) new none
unfolding place_region find_region first_match
find_region-placed zero rs rs' new addr free placed = cc
find_region-placed (suc slots) [] rs' new addr free placed =
    let e : new ∷ [] ≡ rs' = cc in rw (sym e) refl
find_region-placed (suc slots) (r ∷ rs) rs' new addr free placed =
    let (missed, free') = first_match-none (match_region r addr) r (find_region rs addr) free in
    let (rs'', placed', e) = place_behind-some _ r (place_region slots rs new) rs' placed in
    rw e (
      ap (λ b. first_match b r (find_region rs'' addr)) missed
      ∙ find_region-placed slots rs rs'' new addr free' placed')

get_array-some :
    (m : TbMemory) (addr : ℕ) (r : MemRegion)
    → find_region m.regions addr ≡ some r
    → get_array m addr ≡ ok r.mem
unfolding get_array
get_array-some m addr r e = rw (e, get_array) refl

get_array-none :
    (m : TbMemory) (addr : ℕ) → find_region m.regions addr ≡ none → get_array m addr ≡ abort
unfolding get_array
get_array-none m addr e = rw (e, get_array) refl

free-find_region :
    (m : TbMemory) (addr : ℕ) → valid_addr m addr ≡ false → find_region m.regions addr ≡ none
unfolding valid_addr
free-find_region m addr e = by_result (find_region m.regions addr) refl
  where
    by_result :
        (x : Option MemRegion) → find_region m.regions addr ≡ x → find_region m.regions addr ≡ none
    by_result none found = found
    by_result (some r) found = absurd (let h = rw (found, valid_addr) at e in cc)

abbrev pub new_region : Bench → ℕ → ℕ → MemRegion
new_region t base size = record { base = base; size = size; mem = t.world.next; trace = false }

-- What `add_shared` leaves: both memories have the regions, and a new array has been made.
pub record Added (t t' : Bench) (rs : List MemRegion) : Type 0 where
  pub icache_regions : t'.icache_mem.regions ≡ rs
  pub dcache_regions : t'.dcache_mem.regions ≡ rs
  pub next : t'.world.next ≡ t.world.next + 1

-- The regions behind a call of `add_shared` that returns.
abbrev pub Placed : Bench → Bench → ℕ → ℕ → Type 0
Placed t t' base size =
    (rs : List MemRegion) × (place_region tb_mem_max_regions t.icache_mem.regions
        (new_region t base size)
      ≡ some rs)
    × Added t t' rs

-- What is left of `add_shared` when the first memory has its new slots.
add_shared-Placed :
    (t t' : Bench) (base size : ℕ) (x : Option (List MemRegion))
    → Shares t
    → find_region t.icache_mem.regions base ≡ none
    → place_region tb_mem_max_regions t.icache_mem.regions (new_region t base size) ≡ x
    → add_shared t base size ≡ ok t'
    → Placed t t' base size
unfolding add_shared add_region add_region_at first_match
add_shared-Placed t t' base size none same free placed e =
    absurd
      (let h = rw placed at e in let h' = rw (get_array-none t.icache_mem base free) at h in cc)
add_shared-Placed t t' base size (some rs') same free placed e =
    let new = new_region t base size in
    let found =
      find_region-placed tb_mem_max_regions t.icache_mem.regions rs' new base free placed in
    let h = rw placed at e in
    elim (Bool-cases (match_region new base)) [
      | inl hit ↦
          let there : find_region rs' base ≡ some new =
            found ∙ ap (λ b. first_match b new none) hit in
          let h1 =
            rw (get_array-some (record t.icache_mem { regions = rs' }) base new there) at h in
          let shared : place_region tb_mem_max_regions t.dcache_mem.regions new ≡ some rs' =
            rw same at placed in
          let h2 = rw shared at h1 in
          (
            rs',
            placed,
            subst (λ x. Added t x rs') (ok-injective h2)
                (record { icache_regions = refl; dcache_regions = refl; next = refl }),
          )
      | inr miss ↦ absurd (
          let gone : find_region rs' base ≡ none = found ∙ ap (λ b. first_match b new none) miss in
          let h1 = rw (get_array-none (record t.icache_mem { regions = rs' }) base gone) at h in cc)
    ]

free_base-free :
    (fuel : ℕ) (m : TbMemory) (base base' : ℕ)
    → free_base fuel m base ≡ ok base'
    → valid_addr m base' ≡ false
unfolding free_base
free_base-free zero m base base' e = cc
free_base-free (suc fuel) m base base' e = elim (Bool-cases (valid_addr m base)) [
  | inl taken ↦ free_base-free fuel m (add32 base 1) base' (rw (taken, free_base) at e)
  | inr free ↦
      let same : base ≡ base' = ok-injective (rw (free, free_base) at e) in rw (sym same) free
]

-- Where both memories have the same regions over the same arrays, a call of `create_memory` that
-- returns has placed one region.
pub create_memory-Placed :
    (t t' : Bench) (base size : ℕ) (made : Bool)
    → Shares t
    → create_memory t base size ≡ ok (t', made)
    → (base' : ℕ) × (size' : ℕ) × Placed t t' base' size'
unfolding create_memory
create_memory-Placed t t' base size made same e =
    let (base', low, e1) =
      >>=-eq-ok (free_base (2 ^ 32) t.icache_mem (bit_and base (not32 31))) _ e in
    let (size', high, e2) =
      >>=-eq-ok (free_size (2 ^ 32) t.icache_mem base' (bit_and (add32 size 31) (not32 31))) _ e1 in
    let (t1, added, e3) = >>=-eq-ok (add_shared t base' size') _ e2 in
    let free =
      free-find_region t.icache_mem base'
        (free_base-free (2 ^ 32) t.icache_mem (bit_and base (not32 31)) base' low) in
    let eq : t1 ≡ t' = ap (λ (r : Bench × Bool). r.0) (ok-injective e3) in
    (
      base',
      size',
      subst (λ x. Placed t x base' size') eq
          (add_shared-Placed t t1 base' size' _ same free refl added),
    )

-- Where both memories have the same regions over the same arrays, `create_memory` leaves them so if
-- it returns.
create_memory-Shares :
    (t t' : Bench) (base size : ℕ) (made : Bool)
    → Shares t
    → create_memory t base size ≡ ok (t', made)
    → Shares t'
create_memory-Shares t t' base size made same e =
    let (base', size', (rs, placed, added)) = create_memory-Placed t t' base size made same e in
    added.icache_regions ∙ sym added.dcache_regions
