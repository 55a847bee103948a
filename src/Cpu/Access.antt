-- ===== src/Cpu/Access.antt =====
-- `Riscv::load` and `Riscv::store` of isa_sim/riscv.cpp, with the events that they push for the
-- co-simulation. A page fault gives `none` and the state after the exception.
use system_on_chip_design_pr.Base.{
  ℕ, Bool, true, false, [], ◌∷◌, ◌++◌, Option, none, some, bit_and, not32, add32, if◌then◌else◌,
  ◌==◌,
}
use system_on_chip_design_pr.Outcome.{Outcome, ok, ◌>>=◌, error}
use system_on_chip_design_pr.Cpu.{Cpu, CosimEvent}
use system_on_chip_design_pr.Cpu.Regions.{load_regions, store_regions, finish_store}
use system_on_chip_design_pr.Cpu.Mmu.{mmu_d_translate}

abbrev pub event : ℕ → ℕ → CosimEvent
event a b = record { arg1 = a; arg2 = b }

unfoldable pub count_load : Cpu → ℕ → Cpu
count_load c physical = record c {
  io = record c.io { load_events = c.io.load_events ++ event (bit_and physical (not32 3)) 0 ∷ [] };
  stats = record c.stats { loads = add32 c.stats.loads 1 };
}

unfoldable pub record_result : Cpu → ℕ → Cpu
record_result c result = record c {
  io = record c.io { load_result_events = c.io.load_result_events ++ event result 0 ∷ [] };
}

unfoldable pub load : Cpu → ℕ → ℕ → ℕ → Bool → Outcome (Option ℕ × Cpu)
load c pc address width signed_load = do
  (physical, c') ← mmu_d_translate c pc address false
  elim physical [
    | none ↦ ok (none, c')
    | some physical ↦ do
      found ← load_regions c'.regions physical width signed_load
      elim found [
        | none ↦ error
        | some result ↦ ok (some result, record_result (count_load c' physical) result)
      ]
  ]

abbrev pub store_event : ℕ → ℕ → ℕ → CosimEvent
store_event physical value width =
    if width == 1
    then event (bit_and physical (not32 3)) (bit_and value 0xFF)
    else if width == 2
    then event (bit_and physical (not32 3)) (bit_and value 0xFFFF)
    else event physical value

unfoldable pub count_store : Cpu → ℕ → ℕ → ℕ → Cpu
count_store c physical value width = record c {
  stats = record c.stats { stores = add32 c.stats.stores 1 };
  io = record c.io { store_events = c.io.store_events ++ store_event physical value width ∷ [] };
}

-- `true` if the store was made, `false` after a page fault.
unfoldable pub store : Cpu → ℕ → ℕ → ℕ → ℕ → Outcome (Bool × Cpu)
store c pc address value width = do
  (physical, c') ← mmu_d_translate c pc address true
  elim physical [
    | none ↦ ok (false, c')
    | some physical ↦ do
      found ← store_regions c'.regions physical value width
      c'' ← finish_store (count_store c' physical value width) found
      ok (true, c'')
  ]
