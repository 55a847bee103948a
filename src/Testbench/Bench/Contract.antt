-- ===== src/Testbench/Bench/Contract.antt =====
-- The memories of top_cache_axi/tb/testbench.h as one memory of the cosimulation.
use system_on_chip_design_pr.Base.{
  ℕ, ◌<◌, ◌≡◌, refl, sym, ◌∙◌, true, Option, some, if◌then◌else◌, ◌==◌,
}
use system_on_chip_design_pr.Outcome.{ok, ◌>>=◌}
use system_on_chip_design_pr.Cosim.{MemApi}
use system_on_chip_design_pr.Cosim.Bytes.{MemLaws}
use system_on_chip_design_pr.Testbench.Regions.Bytes.{byte_at, AreSeparate, read_lem, write_lem}
use system_on_chip_design_pr.Testbench.Bench.{Bench, create_memory, write, read}
use system_on_chip_design_pr.Testbench.Bench.Placed.{Shares}

-- `cosim_mem_api` of the testbench. It makes the arrays itself, whatever buffer it is given. The
-- record of accesses behind a read is left out: nothing in the testbench turns it on.
unfoldable pub bench_api : MemApi Bench
bench_api = record {
  create_memory = λ t base size mem. create_memory t base size;
  valid_addr = λ t addr. true;
  write = write;
  read = λ t addr. (do done ← read t addr; ok done.1);
}

-- Both memories have the same regions over the same arrays, and no two addresses share a cell.
abbrev pub IsGood : Bench → Type 0
IsGood t = Shares t × AreSeparate t.dcache_mem.regions

abbrev pub bench_byte : Bench → ℕ → Option ℕ
bench_byte t = byte_at t.world t.dcache_mem.regions

pub write-writes :
    (t : Bench) (a old v : ℕ)
    → IsGood t
    → v < 256
    → bench_byte t a ≡ some old
    → (t' : Bench) × (bench_api.write t a v ≡ ok t')
      × IsGood t'
      × ((b : ℕ) → bench_byte t' b ≡ (if a == b then some v else bench_byte t b))
unfolding bench_api write
write-writes t a old v (same, apart) fits is =
    let (done, runs, kept, after) = write_lem t.world t.dcache_mem a old v apart is in
    (
      record t { world = done.0; dcache_mem = done.1 },
      rw runs refl,
      (same ∙ sym kept, rw kept apart),
      λ b. rw kept (after b),
    )

pub read-reads :
    (t : Bench) (a v : ℕ) → IsGood t → bench_byte t a ≡ some v → bench_api.read t a ≡ ok v
unfolding bench_api read
read-reads t a v good is = rw (read_lem t.world t.dcache_mem a v is) refl

-- The testbench keeps the contract that the cosimulation asks of a memory.
abbrev pub bench_laws : MemLaws bench_api
bench_laws = record {
  Good = IsGood;
  byte_at = bench_byte;
  write_lem = write-writes;
  read_lem = read-reads;
}
