-- ===== src/Testbench/Bench/Loaded.antt =====
-- The words of an ELF section (isa_sim/elf_load.cpp) that the instruction memory of
-- top_cache_axi/tb/testbench.h gives to the hardware once the cosimulation has loaded the section.
use system_on_chip_design_pr.Base.{
  ℕ, ◌+◌, ◌^◌, ◌<◌, ◌≤◌, ◌≡◌, ap, ◌∙◌, true, List, [], ◌∷◌, ◌++◌, some, arith, All, add32,
}
use system_on_chip_design_pr.Base.Text.{length}
use system_on_chip_design_pr.Outcome.{ok}
use system_on_chip_design_pr.Cosim.{MemItem, Cosim}
use system_on_chip_design_pr.Cosim.Bytes.{AllHave}
use system_on_chip_design_pr.Cosim.Words.{IsBacked, Holds}
use system_on_chip_design_pr.Cosim.Memory.{has_addr}
use system_on_chip_design_pr.Elf.{Section, nth, load_bytes}
use system_on_chip_design_pr.Simulator.{mem_create, mem_load}
use system_on_chip_design_pr.Simulator.Loading.{load_bytes-AreLoaded, load_bytes-mems}
use system_on_chip_design_pr.Testbench.Regions.{TbMemory}
use system_on_chip_design_pr.Testbench.Regions.Bytes.{byte_at}
use system_on_chip_design_pr.Testbench.Process.{read32}
use system_on_chip_design_pr.Testbench.Process.Words.{byte_of_value}
use system_on_chip_design_pr.Testbench.Process.Words.Reading.{HasWord, read32-word}
use system_on_chip_design_pr.Testbench.Bench.{Bench}
use system_on_chip_design_pr.Testbench.Bench.Contract.{bench_api, bench_laws, IsGood, bench_byte}

-- The memory among the attached ones.
AllHave-attached :
    (before behind : List MemItem) (it : MemItem) (objects : ℕ → Bench) (a v : ℕ)
    → AllHave bench_api bench_laws (λ w. w ≡ v) (before ++ it ∷ behind) objects a
    → has_addr it a ≡ true
    → IsGood (objects it.mem) × (bench_byte (objects it.mem) a ≡ some v)
AllHave-attached [] behind it objects a v (have, haves) hit =
    let (good, w, is, same) = have hit in (good, is ∙ ap (λ x. some x) same)
AllHave-attached (other ∷ before) behind it objects a v (have, haves) hit =
    AllHave-attached before behind it objects a v haves hit

-- The byte is in the memory of instructions.
attached_byte :
    (s s' : Cosim Bench) (before behind : List MemItem) (it : MemItem) (a v : ℕ)
    → s'.mems ≡ s.mems
    → s.mems ≡ before ++ it ∷ behind
    → has_addr it a ≡ true
    → Holds bench_api bench_laws s' a v
    → byte_at (s'.objects it.mem).world (s'.objects it.mem).icache_mem.regions a ≡ some v
attached_byte s s' before behind it a v kept among hit (valid, have) =
    let (good, is) =
      AllHave-attached before behind it s'.objects a v (rw (kept ∙ among) at have) hit in
    rw good.0 is

module _ (sec : Section) (it : MemItem) (count : ℕ) where
  -- What the hardware reads at an offset of the section in the instruction memory of the attached
  -- testbench: the word of the file, for the first `count` bytes.
  abbrev pub AreFetched : Cosim Bench → Type 0
  AreFetched s' =
      (j v : ℕ)
      → j + 4 ≤ count
      → v < 2 ^ 32
      → ((k : ℕ) → k < 4 → nth sec.bytes (j + k) ≡ ok (byte_of_value v k))
      → (m : TbMemory) × (read32 (s'.objects it.mem).world (s'.objects it.mem).icache_mem
            (add32 sec.sh_addr j)
          ≡ ok (m, v))

  -- Over a cosimulation with the testbench among its memories, where memory backs the addresses of a
  -- section, they are in the range of the testbench, and the file has its bytes, each below 256 and
  -- at most 2 ^ 31 of them, the loop of `elf_load` ends with success, and `read32` of the instruction
  -- memory then gives every word of the section.
  pub load_bytes-AreFetched :
      (s : Cosim Bench) (before behind : List MemItem)
      → s.mems ≡ before ++ it ∷ behind
      → All (λ b. b < 256) sec.bytes
      → count ≤ length sec.bytes
      → count ≤ 2 ^ 31
      → ((j : ℕ) → j < count → IsBacked bench_api bench_laws s (add32 sec.sh_addr j))
      → ((j : ℕ) → j < count → has_addr it (add32 sec.sh_addr j) ≡ true)
      → (s' : Cosim Bench) × (load_bytes (mem_create bench_api) (mem_load bench_api) s sec count 0
          ≡ ok (s', true))
        × AreFetched s'
  load_bytes-AreFetched s before behind among bytes inside few backed hits =
      let (s', done, loaded, rest) =
        load_bytes-AreLoaded bench_api bench_laws sec s count 0 bytes (omega arith) (omega arith)
          (λ j low high. backed j (omega arith)) in
      let kept = load_bytes-mems bench_api sec s s' count 0 true done in
      (
        s',
        done,
        λ j v within fits words.
            let word : HasWord (s'.objects it.mem).world (s'.objects it.mem).icache_mem.regions
                (add32 sec.sh_addr j) v =
              λ k small.
                let same : add32 (add32 sec.sh_addr j) k ≡ add32 sec.sh_addr (j + k) =
                  omega arith in
                rw same (
                  attached_byte s s' before behind it (add32 sec.sh_addr (j + k))
                    (byte_of_value v k) kept among (hits (j + k) (omega arith))
                    (loaded (j + k) (byte_of_value v k) (omega arith) (omega arith)
                      (words k small))) in
            let (m, runs, same) =
              read32-word (add32 sec.sh_addr j) v (s'.objects it.mem).world
                (s'.objects it.mem).icache_mem fits word in
            (m, runs),
      )
