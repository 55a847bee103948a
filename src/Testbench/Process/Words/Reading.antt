-- ===== src/Testbench/Process/Words/Reading.antt =====
-- `read32` of top_cache_axi/tb/tb_axi4_mem.cpp on the bytes of the memory.
use system_on_chip_design_pr.Base.{
  ℕ, zero, suc, ◌+◌, ◌*◌, ◌/◌, ◌%◌, ◌^◌, ◌<◌, ◌≤◌, ◌≡◌, refl, ap, ◌∙◌, false, List, some, add32,
  bit_or, shl32, arith,
}
use system_on_chip_design_pr.Base.Bits.{bit_or_hole, zero-bit_or}
use system_on_chip_design_pr.Outcome.{ok}
use system_on_chip_design_pr.Testbench.Regions.{World, MemRegion, TbMemory, push_record}
use system_on_chip_design_pr.Testbench.Regions.Bytes.{byte_at, read_lem, push_record-regions}
use system_on_chip_design_pr.Testbench.Process.{read_bytes, read32}
use system_on_chip_design_pr.Testbench.Process.Words.{byte_of_value}

-- What the loop of `read32` makes of the bytes `bs`, from round `i` on.
join : (ℕ → ℕ) → ℕ → ℕ → ℕ → ℕ
join bs value zero i = value
join bs value (suc left) i = join bs (bit_or value (shl32 (bs i) (i * 8))) left (i + 1)

read_bytes_lem :
    (left i addr value : ℕ) (bs : ℕ → ℕ) (w : World) (m : TbMemory)
    → ((k : ℕ) → i ≤ k → k < i + left → byte_at w m.regions (add32 addr k) ≡ some (bs k))
    → (m' : TbMemory) × (read_bytes w m addr value left i ≡ ok (m', join bs value left i))
      × (m'.regions ≡ m.regions)
unfolding read_bytes join
read_bytes_lem zero i addr value bs w m has = (m, refl, refl)
read_bytes_lem (suc left) i addr value bs w m has =
    let one = push_record w m false (add32 addr i) (bs i) in
    let same1 = push_record-regions w m false (add32 addr i) (bs i) in
    let (m', runs, same) =
      read_bytes_lem left (i + 1) addr (bit_or value (shl32 (bs i) (i * 8))) bs w one
        (λ k low high. rw same1 (has k (omega arith) (omega arith))) in
    (
      m',
      rw (read_lem w m (add32 addr i) (bs i) (has i (omega arith) (omega arith))) runs,
      same ∙ same1,
    )

-- The word at an address: the first byte is the lowest.
abbrev pub HasWord : World → List MemRegion → ℕ → ℕ → Type 0
HasWord w rs addr v = (k : ℕ) → k < 4 → byte_at w rs (add32 addr k) ≡ some (byte_of_value v k)

-- The word whose four bytes are there.
pub HasWord-bytes :
    (w : World) (rs : List MemRegion) (addr v : ℕ)
    → byte_at w rs (add32 addr 0) ≡ some (byte_of_value v 0)
    → byte_at w rs (add32 addr 1) ≡ some (byte_of_value v 1)
    → byte_at w rs (add32 addr 2) ≡ some (byte_of_value v 2)
    → byte_at w rs (add32 addr 3) ≡ some (byte_of_value v 3)
    → HasWord w rs addr v
HasWord-bytes w rs addr v b0 b1 b2 b3 zero small = b0
HasWord-bytes w rs addr v b0 b1 b2 b3 (suc zero) small = b1
HasWord-bytes w rs addr v b0 b1 b2 b3 (suc (suc zero)) small = b2
HasWord-bytes w rs addr v b0 b1 b2 b3 (suc (suc (suc zero))) small = b3
HasWord-bytes w rs addr v b0 b1 b2 b3 (suc (suc (suc (suc k)))) small = absurd (omega arith)

join-word : (v : ℕ) → v < 2 ^ 32 → join (byte_of_value v) 0 4 0 ≡ v
unfolding join
join-word v fits = ground (
  arith,
  zero-bit_or (v % 256),
  bit_or_hole 8 8 0 (v / 2 ^ 8 % 256) (v % 256),
  bit_or_hole 16 8 0 (v / 2 ^ 16 % 256) (v % 256 + v / 2 ^ 8 % 256 * 256),
  bit_or_hole 24 8 0 (v / 2 ^ 24 % 256)
      (v % 256 + v / 2 ^ 8 % 256 * 256 + v / 2 ^ 16 % 256 * 65536),
)

pub read32-word :
    (addr v : ℕ) (w : World) (m : TbMemory)
    → v < 2 ^ 32
    → HasWord w m.regions addr v
    → (m' : TbMemory) × (read32 w m addr ≡ ok (m', v)) × (m'.regions ≡ m.regions)
unfolding read32
read32-word addr v w m fits has =
    let (m', runs, same) =
      read_bytes_lem 4 0 addr 0 (byte_of_value v) w m (λ k low high. has k (omega arith)) in
    (m', runs ∙ ap (λ (x : ℕ). ok (m', x)) (join-word v fits), same)
