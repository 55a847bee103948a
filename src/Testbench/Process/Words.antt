-- ===== src/Testbench/Process/Words.antt =====
-- `write32` of top_cache_axi/tb/tb_axi4_mem.cpp on the bytes of the memory.
pub mod Reading
use system_on_chip_design_pr.Base.{
  ℕ, zero, suc, ◌+◌, ◌*◌, ◌/◌, ◌%◌, ◌^◌, ◌<◌, ◌≤◌, ◌≡◌, ◌≢◌, refl, sym, ap, ◌∙◌, Bool, true, false,
  List, some, if◌then◌else◌, ◌==◌, ==_iff, Bool-cases, inl, inr, add32, any_bit, bit_or, shl32,
  shr32, arith,
}
use system_on_chip_design_pr.Base.Bits.{bit_or_hole, bit_or-zero, zero-bit_or}
use system_on_chip_design_pr.Memory.Bytes.{lane, word-lane, lane-lt}
use system_on_chip_design_pr.Outcome.{ok, ◌>>=◌}
use system_on_chip_design_pr.Testbench.Regions.{World, MemRegion, TbMemory, push_record}
use system_on_chip_design_pr.Testbench.Regions
use system_on_chip_design_pr.Testbench.Regions.Bytes.{
  byte_at, AreSeparate, read_lem, write_lem, push_record-regions,
}
use system_on_chip_design_pr.Testbench.Process.{write_bytes, write32, read_bytes, read32}

-- Strobe `k`, as the loop tests it.
abbrev pub strobe : ℕ → ℕ → Bool
strobe strb k = any_bit strb (shl32 1 k)

-- Byte `k` of a value, as the loop takes it.
abbrev pub byte_of_value : ℕ → ℕ → ℕ
byte_of_value value k = shr32 value (k * 8) % 2 ^ 8

-- What the rounds from `i` on do to the bytes.
pub record Strobed (rs : List MemRegion) (addr value strb i left : ℕ) (w w' : World) : Type 0 where
  pub put :
      (k : ℕ)
      → i ≤ k
      → k < i + left
      → strobe strb k ≡ true
      → byte_at w' rs (add32 addr k) ≡ some (byte_of_value value k)
  pub kept :
      (a : ℕ)
      → ((k : ℕ) → i ≤ k → k < i + left → strobe strb k ≡ true → add32 addr k ≢ a)
      → byte_at w' rs a ≡ byte_at w rs a

-- Each strobed address has a byte.
abbrev pub IsBacked : World → List MemRegion → ℕ → ℕ → ℕ → ℕ → Type 0
IsBacked w rs addr strb i left =
    (k : ℕ)
    → i ≤ k
    → k < i + left
    → strobe strb k ≡ true
    → (old : ℕ) × (byte_at w rs (add32 addr k) ≡ some old)

after_one :
    (rs : List MemRegion) (addr value strb i left : ℕ) (w w1 w' : World)
    → i + suc left ≤ 4
    → strobe strb i ≡ true
    → ((b : ℕ)
        → byte_at w1 rs b
          ≡ (if add32 addr i == b then some (byte_of_value value i) else byte_at w rs b))
    → Strobed rs addr value strb (i + 1) left w1 w'
    → Strobed rs addr value strb i (suc left) w w'
after_one rs addr value strb i left w w1 w' small on first rest = record {
  put = λ k low high set. elim (Bool-cases (i == k)) [
    | inl here ↦
        let same : i ≡ k = (==_iff i k).0 here in
        rw (← same) (
          rest.kept (add32 addr i) (λ j lo hi s. omega arith) ∙ first (add32 addr i) ∙ ground arith)
    | inr later ↦ rest.put k (ground arith) (omega arith) set
  ];
  kept = λ a apart.
      rest.kept a (λ k low high set. apart k (omega arith) (omega arith) set)
      ∙ first a
      ∙ ground (arith, apart i (omega arith) (omega arith) on);
}

skip_one :
    (rs : List MemRegion) (addr value strb i left : ℕ) (w w' : World)
    → strobe strb i ≡ false
    → Strobed rs addr value strb (i + 1) left w w'
    → Strobed rs addr value strb i (suc left) w w'
skip_one rs addr value strb i left w w' off rest = record {
  put = λ k low high set. elim (Bool-cases (i == k)) [
    | inl here ↦ let same : i ≡ k = (==_iff i k).0 here in absurd (let h = rw same at off in cc)
    | inr later ↦ rest.put k (ground arith) (omega arith) set
  ];
  kept = λ a apart. rest.kept a (λ k low high set. apart k (omega arith) (omega arith) set);
}

write_bytes-on :
    (left i addr value strb : ℕ) (w : World) (m : TbMemory) (one : World × TbMemory)
    → strobe strb i ≡ true
    → Regions.write w m (add32 addr i) (byte_of_value value i) ≡ ok one
    → write_bytes w m addr value strb (suc left) i
      ≡ write_bytes one.0 one.1 addr value strb left (i + 1)
unfolding write_bytes
write_bytes-on left i addr value strb w m one on stored = rw (on, write_bytes, stored) refl

write_bytes-off :
    (left i addr value strb : ℕ) (w : World) (m : TbMemory)
    → strobe strb i ≡ false
    → write_bytes w m addr value strb (suc left) i ≡ write_bytes w m addr value strb left (i + 1)
unfolding write_bytes
write_bytes-off left i addr value strb w m off = rw (off, write_bytes) refl

-- The loop of `write32`, from round `i` on.
write_bytes_lem :
    (left i addr value strb : ℕ) (w : World) (m : TbMemory)
    → i + left ≤ 4
    → AreSeparate m.regions
    → IsBacked w m.regions addr strb i left
    → (done : World × TbMemory) × (write_bytes w m addr value strb left i ≡ ok done)
      × (done.1.regions ≡ m.regions)
      × Strobed m.regions addr value strb i left w done.0
unfolding write_bytes
write_bytes_lem zero i addr value strb w m small separate backed = (
  (w, m),
  refl,
  refl,
  record { put = λ k low high set. absurd (omega arith); kept = λ a apart. refl },
)
write_bytes_lem (suc left) i addr value strb w m small separate backed =
    elim (Bool-cases (strobe strb i)) [
      | inr off ↦
          let (done, runs, same, rest) =
            write_bytes_lem left (i + 1) addr value strb w m (omega arith) separate
              (λ k low high set. backed k (omega arith) (omega arith) set) in
          (
            done,
            write_bytes-off left i addr value strb w m off ∙ runs,
            same,
            skip_one m.regions addr value strb i left w done.0 off rest,
          )
      | inl on ↦
          let (old, there) = backed i (omega arith) (omega arith) on in
          let (one, stored, same1, first) =
            write_lem w m (add32 addr i) old (byte_of_value value i) separate there in
          let (done, runs, same, rest) =
            write_bytes_lem left (i + 1) addr value strb one.0 one.1 (omega arith)
              (rw same1 separate)
              (rw same1 λ k low high set.
                (let (o, is) = backed k (omega arith) (omega arith) set in
                  (o, first (add32 addr k) ∙ ground arith))) in
          (
            done,
            write_bytes-on left i addr value strb w m one on stored ∙ runs,
            same ∙ same1,
            after_one m.regions addr value strb i left w one.0 done.0 small on first
                (rw same1 at rest),
          )
    ]

-- Where no two addresses have one cell and each strobed address has a byte, `write32` ends normally,
-- keeps the regions, and is a masked write of the bytes: each strobed byte of the word is then that
-- of the value, and every other byte is as it was.
pub write32-Strobed :
    (addr value strb : ℕ) (w : World) (m : TbMemory)
    → AreSeparate m.regions
    → IsBacked w m.regions addr strb 0 4
    → (done : World × TbMemory) × (write32 w m addr value strb ≡ ok done)
      × (done.1.regions ≡ m.regions)
      × Strobed m.regions addr value strb 0 4 w done.0
unfolding write32
write32-Strobed addr value strb w m separate backed =
    write_bytes_lem 4 0 addr value strb w m (omega arith) separate backed
