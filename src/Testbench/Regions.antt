-- ===== src/Testbench/Regions.antt =====
-- top_cache_axi/tb/tb_memory.h: regions of bytes, at most ten. An array is reached by a pointer, a
-- number, since two memories can share one.
pub mod Bytes
use system_on_chip_design_pr.Base.{
  ℕ, zero, suc, ◌+◌, ◌-◌, Bool, true, false, ◌&&◌, ◌||◌, List, [], ◌∷◌, ◌++◌, Option, none, some,
  if◌then◌else◌, ltb, leb, update, add32, sub32,
}
use system_on_chip_design_pr.Outcome.{Outcome, ok, abort, undefined}

-- What the memories share: the arrays, the number of the next one, and `sc_time_stamp()`.
pub record World : Type 0 where
  pub arrays : ℕ → ℕ → ℕ
  pub next : ℕ
  pub now : ℕ

-- `tb_mem_region`.
pub record MemRegion : Type 0 where
  pub base : ℕ
  pub size : ℕ
  pub mem : ℕ
  pub trace : Bool

-- `tb_mem_record`.
pub record MemRecord : Type 0 where
  pub time : ℕ
  pub is_write : Bool
  pub addr : ℕ
  pub value : ℕ

-- `tb_memory`: the slots in use come first, since none is ever freed.
pub record TbMemory : Type 0 where
  pub regions : List MemRegion
  pub record_accesses : Bool
  pub accesses : List MemRecord

abbrev pub tb_mem_max_regions : ℕ
tb_mem_max_regions = 10

-- The sum wraps.
abbrev pub match_region : MemRegion → ℕ → Bool
match_region r addr = leb r.base addr && ltb addr (add32 r.base r.size)

abbrev pub no_regions : TbMemory
no_regions = record { regions = []; record_accesses = false; accesses = [] }

-- One round of the loop of `add_region` at a slot in use: whether its region overlaps the new one,
-- and what the later slots become.
unfoldable pub place_behind : Bool → MemRegion → Option (List MemRegion) → Option (List MemRegion)
place_behind true r rest = none
place_behind false r none = none
place_behind false r (some rs') = some (r ∷ rs')

-- The loop, over the slots that are left: the slots with the new region in the first free one, `none`
-- if an earlier one overlaps it or no slot is free.
unfoldable pub place_region : ℕ → List MemRegion → MemRegion → Option (List MemRegion)
place_region zero rs new = none
place_region (suc slots) [] new = some (new ∷ [])
place_region (suc slots) (r ∷ rs) new =
    place_behind (match_region r new.base || match_region r (sub32 (add32 new.base new.size) 1)) r
      (place_region slots rs new)

abbrev pub with_regions : TbMemory → Option (List MemRegion) → TbMemory × Bool
with_regions m none = (m, false)
with_regions m (some rs) = (record m { regions = rs }, true)

-- `add_region` with an array of the caller's.
unfoldable pub add_region_at : TbMemory → ℕ → ℕ → ℕ → TbMemory × Bool
add_region_at m mem base size = with_regions m (
    place_region tb_mem_max_regions m.regions
      (record { base = base; size = size; mem = mem; trace = false }))

-- `add_region` with a new array, which is not initialised.
unfoldable pub add_region : World → TbMemory → ℕ → ℕ → World × TbMemory × Bool
add_region w m base size =
    let (m', added) = add_region_at m w.next base size in
    (if added then record w { next = w.next + 1 } else w, m', added)

-- A region that has the address, or else the one found behind it.
unfoldable pub first_match : Bool → MemRegion → Option MemRegion → Option MemRegion
first_match true r rest = some r
first_match false r rest = rest

unfoldable pub find_region : List MemRegion → ℕ → Option MemRegion
find_region [] addr = none
find_region (r ∷ rs) addr = first_match (match_region r addr) r (find_region rs addr)

unfoldable pub valid_addr : TbMemory → ℕ → Bool
valid_addr m addr = elim (find_region m.regions addr) [ none ↦ false | some r ↦ true ]

unfoldable pub trace_regions : List MemRegion → ℕ → Bool → List MemRegion
trace_regions [] addr en = []
trace_regions (r ∷ rs) addr en =
    (if match_region r addr then record r { trace = en } else r) ∷ trace_regions rs addr en

unfoldable pub trace_access : TbMemory → ℕ → Bool → TbMemory
trace_access m addr en = record m { regions = trace_regions m.regions addr en }

abbrev pub push_record : World → TbMemory → Bool → ℕ → ℕ → TbMemory
push_record w m is_write addr value =
    if m.record_accesses
    then record m {
      accesses =
          m.accesses
          ++ record { time = w.now; is_write = is_write; addr = addr; value = value } ∷ [];
    }
    else m

-- `write`: the first region with the address takes the byte; an address of none is an assertion.
unfoldable pub write : World → TbMemory → ℕ → ℕ → Outcome (World × TbMemory)
write w m addr value = elim (find_region m.regions addr) [
  | none ↦ abort
  | some r ↦ ok (
    record w { arrays = update w.arrays r.mem (update (w.arrays r.mem) (addr - r.base) value) },
    push_record w m true addr value,
  )
]

unfoldable pub read : World → TbMemory → ℕ → Outcome (TbMemory × ℕ)
read w m addr = elim (find_region m.regions addr) [
  | none ↦ abort
  | some r ↦
      let value = w.arrays r.mem (addr - r.base) in ok (push_record w m false addr value, value)
]

unfoldable pub get_array : TbMemory → ℕ → Outcome ℕ
get_array m addr = elim (find_region m.regions addr) [ none ↦ abort | some r ↦ ok r.mem ]

unfoldable pub records_enable : TbMemory → Bool → TbMemory
records_enable m enable = record m { record_accesses = enable }

unfoldable pub records_available : TbMemory → Bool
records_available m = elim m.accesses [ [] ↦ false | v ∷ vs ↦ true ]

-- `front` of an empty queue has no meaning.
unfoldable pub records_pop : TbMemory → Outcome (TbMemory × MemRecord)
records_pop m = elim m.accesses [ [] ↦ undefined | v ∷ vs ↦ ok (record m { accesses = vs }, v) ]
