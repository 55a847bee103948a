-- ===== src/Examples/BenchWitnesses.antt =====
-- The theorems on the memories of the testbench at a region of 64 bytes and a program of one word.
use system_on_chip_design_pr.Base.{
  ℕ, zero, suc, ◌<◌, ◌≡◌, refl, Bool, true, [], ◌∷◌, none, arith, add32,
}
use system_on_chip_design_pr.Outcome.{Outcome, ok}
use system_on_chip_design_pr.Cosim.{MemItem, Cosim}
use system_on_chip_design_pr.Cosim.Memory
use system_on_chip_design_pr.Cosim.Words.{IsBacked}
use system_on_chip_design_pr.Elf.{Section, load_bytes}
use system_on_chip_design_pr.Simulator.{mem_create, mem_load}
use system_on_chip_design_pr.Testbench.Regions.{
  add_region, add_region_at, get_array, valid_addr, find_region, first_match, place_region,
}
use system_on_chip_design_pr.Testbench.Bench.{
  Bench, free_base, free_size, add_shared, create_memory,
}
use system_on_chip_design_pr.Testbench.Bench.Contract.{bench_api, bench_laws, IsGood}
use system_on_chip_design_pr.Testbench.Bench.Separate.{IsSound}
use system_on_chip_design_pr.Testbench.Bench.Reached.{
  Reached, start, created, new_bench, Reached-IsSound,
}
use system_on_chip_design_pr.Testbench.Bench.Loaded.{AreFetched, load_bytes-AreFetched}

abbrev empty : Bench
empty = new_bench (record { arrays = λ p i. 0x55; next = 0; now = 0 })

abbrev bench_or : Outcome (Bench × Bool) → Bench
bench_or (ok r) = r.0
bench_or other = empty

abbrev bench : Bench
bench = bench_or (create_memory empty 0x1004 40)

bench-Reached : Reached bench
unfolding create_memory free_base free_size add_shared add_region add_region_at get_array valid_addr
    find_region first_match place_region
bench-Reached = created empty bench 0x1004 40 true (start empty.world) refl

Reached-IsSound_example : IsSound bench
Reached-IsSound_example = Reached-IsSound bench bench-Reached

abbrev rtl : MemItem
rtl = record { name = "rtl"; mem = 0; base = 0; size = 0xFFFF_FFFF }

-- The testbench attached as the only memory, as its process does.
abbrev attached : Cosim Bench
attached = record { cpus = []; mems = rtl ∷ []; dump = none; objects = λ p. bench }

abbrev word_section : Section
word_section = record {
  sh_type = 1;
  sh_flags = 2;
  sh_addr = 0x1008;
  sh_size = 4;
  bytes = 0x93 ∷ 0x00 ∷ 0x50 ∷ 0x00 ∷ [];
}

bench-IsGood : IsGood bench
bench-IsGood = let (same, apart, arrays) = Reached-IsSound bench bench-Reached in (same, apart)

attached-IsBacked : (j : ℕ) → j < 4 → IsBacked bench_api bench_laws attached (add32 0x1008 j)
unfolding Memory.valid_addr Memory.any_memory create_memory free_base free_size add_shared
    add_region add_region_at get_array valid_addr find_region first_match place_region
attached-IsBacked zero small = (refl, ((λ hit. (bench-IsGood, 0, refl, tt)), tt))
attached-IsBacked (suc zero) small = (refl, ((λ hit. (bench-IsGood, 0, refl, tt)), tt))
attached-IsBacked (suc (suc zero)) small = (refl, ((λ hit. (bench-IsGood, 0, refl, tt)), tt))
attached-IsBacked (suc (suc (suc zero))) small = (refl, ((λ hit. (bench-IsGood, 0, refl, tt)), tt))
attached-IsBacked (suc (suc (suc (suc j)))) small = absurd (omega arith)

load_bytes-AreFetched_example :
    (s' : Cosim Bench) × (load_bytes
        (mem_create bench_api)
        (mem_load bench_api)
        attached
        word_section
        4
        0
      ≡ ok (s', true))
    × AreFetched word_section rtl 4 s'
load_bytes-AreFetched_example =
    load_bytes-AreFetched word_section rtl 4 attached [] [] refl
      (omega arith, (omega arith, (omega arith, (omega arith, tt)))) (omega arith) (omega arith)
      attached-IsBacked (λ j small. ground arith)
