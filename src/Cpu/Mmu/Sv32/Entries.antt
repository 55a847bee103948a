-- ===== src/Cpu/Mmu/Sv32/Entries.antt =====
-- One entry of a page table, in a round of the loop of `mmu_walk` of isa_sim/riscv.cpp.
use system_on_chip_design_pr.Base.{
  ℕ, ◌+◌, ◌-◌, ◌*◌, ◌/◌, ◌%◌, ◌^◌, ◌<◌, ◌≡◌, ◌≢◌, refl, ap, sym, ◌∙◌, true, false, Bool, Bool-cases,
  inl, inr, not, Option, none, some, bit_and, bit_or, shl32, shr32, arith, if◌then◌else◌, ◌==◌, ltb,
  any_bit,
}
use system_on_chip_design_pr.Base.Bits.{bit_and_mask, bit_and_field, bit_or_sum, bit_or-zero}
use system_on_chip_design_pr.Outcome.{Outcome, ok, undefined, ◌>>=◌, assert, error}
use system_on_chip_design_pr.Cpu.{Cpu}
use system_on_chip_design_pr.Cpu.Regions.{mmu_read_word}
use system_on_chip_design_pr.Cpu.Mmu.{
  WalkStep, walked, next_table, leaf_entry, walk_round, fetch_faults, access_faults, is_reserved,
}
use system_on_chip_design_pr.Cpu.Mmu.Sv32.{
  Level, pages, superpages, number, covers, slot, page_number, page_of, joined, IsInMemory,
  IsWriteOnly,
}

-- The tests of the flags.
present_bit : (pte : ℕ) → bit_and pte 1 ≡ pte % 2
present_bit pte = bit_and_mask 1 pte

rwx_bits : (pte : ℕ) → bit_and pte 14 ≡ pte / 2 % 8 * 2
rwx_bits pte = bit_and_field 1 3 pte

-- What is left of a leaf once its value is put together.
abbrev checked : Cpu → ℕ → Outcome ℕ
checked c value = assert (value / 2 ^ 32 == 0) (do
  target ← mmu_read_word c (shl32 (shr32 value 12) 12)
  elim target [ none ↦ error | some _ ↦ ok value ])

checked_lem :
    (c : Cpu) (page flags w : ℕ)
    → page < 2 ^ 20
    → flags < 1024
    → mmu_read_word c (page * 4096) ≡ ok (some w)
    → checked c (page * 4096 + flags) ≡ ok (page * 4096 + flags)
checked_lem c page flags w fits small readable =
    let value : ℕ = page * 4096 + flags in
    let in_range : (value / 2 ^ 32 == 0) ≡ true = ground arith in
    let target : shl32 (shr32 value 12) 12 ≡ page * 4096 = omega arith in
    rw (in_range, target, readable) refl

-- The entry of a leaf at a level of `2 ^ s` pages.
leaf_entry_lem :
    (c : Cpu) (addr s pte page : ℕ)
    → bit_or (pte / 1024) (addr / 4096 % 2 ^ s) ≡ page
    → IsInMemory c page
    → leaf_entry c addr s pte ≡ ok (page * 4096 + pte % 1024)
unfolding leaf_entry
leaf_entry_lem c addr s pte page same (fits, w, readable) =
    let value : bit_or (bit_or (pte / 1024) (bit_and (addr / 4096) (2 ^ s - 1)) * 4096)
          (bit_and pte 0x3FF)
        ≡ page * 4096 + pte % 1024 =
      rw (bit_and_mask s (addr / 4096), same, bit_and_mask 10 pte)
        (bit_or_sum 12 page (pte % 1024) (omega arith)) in
    ap (checked c) value ∙ checked_lem c page (pte % 1024) w fits (omega arith) readable

-- What follows the read of the entry.
abbrev pub after_read : Cpu → ℕ → ℕ → Option ℕ → Outcome WalkStep
after_read c addr s entry = elim entry [
  | none ↦ ok (walked 0)
  | some pte ↦
      if not (any_bit pte 1)
      then ok (walked 0)
      else if not (any_bit pte 14)
      then ok (next_table (shl32 (shr32 pte 10) 12))
      else if ltb s 64
      then (do value ← leaf_entry c addr s pte; ok (walked value))
      else undefined
]

-- The shift of a level.
abbrev pub bits : Level → ℕ
bits pages = 0
bits superpages = 10

pub round_lem :
    (c : Cpu) (addr table : ℕ) (level : Level) (entry : Option ℕ)
    → mmu_read_word c (slot addr level table) ≡ ok entry
    → walk_round c addr (number level) table ≡ after_read c addr (bits level) entry
unfolding walk_round
round_lem c addr table pages entry e =
    let there : (table + bit_and (addr / 2 ^ 12) 1023 * 4) % 2 ^ 32 ≡ slot addr pages table =
      omega (arith, bit_and_mask 10 (addr / 2 ^ 12)) in
    rw (there, e) refl
round_lem c addr table superpages entry e =
    let there : (table + bit_and (addr / 2 ^ 22) 1023 * 4) % 2 ^ 32 ≡ slot addr superpages table =
      omega (arith, bit_and_mask 10 (addr / 2 ^ 22)) in
    rw (there, e) refl

pub read_invalid :
    (c : Cpu) (addr s pte : ℕ) → pte % 2 ≡ 0 → after_read c addr s (some pte) ≡ ok (walked 0)
read_invalid c addr s pte off = ground (arith, present_bit pte)

pub read_pointer :
    (c : Cpu) (addr s pte : ℕ)
    → pte % 2 ≡ 1
    → pte / 2 % 8 ≡ 0
    → after_read c addr s (some pte) ≡ ok (next_table (page_number pte * 4096 % 2 ^ 32))
read_pointer c addr s pte on plain = rw (present_bit pte, rwx_bits pte, on, plain) refl

pub read_leaf :
    (c : Cpu) (addr s pte v : ℕ)
    → pte % 2 ≡ 1
    → pte / 2 % 8 ≢ 0
    → s < 64
    → leaf_entry c addr s pte ≡ ok v
    → after_read c addr s (some pte) ≡ ok (walked v)
read_leaf c addr s pte v on some_bit small e =
    let present : any_bit pte 1 ≡ true = ground (arith, present_bit pte) in
    let rwx : any_bit pte 14 ≡ true = ground (arith, rwx_bits pte) in
    let shift : ltb s 64 ≡ true = ground arith in rw (present, rwx, shift, e) refl

pub leaf_at :
    (c : Cpu) (addr pte : ℕ) (level : Level)
    → IsInMemory c (joined addr level pte)
    → leaf_entry c addr (bits level) pte ≡ ok (joined addr level pte * 4096 + pte % 1024)
leaf_at c addr pte pages there = leaf_entry_lem c addr 0 pte (joined addr pages pte) refl there
leaf_at c addr pte superpages there =
    leaf_entry_lem c addr 10 pte (joined addr superpages pte) refl there

-- Where the entry is aligned, the bits of the address are added to the page number.
pub joined-aligned :
    (addr pte : ℕ) (level : Level)
    → page_number pte % covers level ≡ 0
    → joined addr level pte ≡ page_of addr level pte
joined-aligned addr pte pages aligned = ground (arith, bit_or-zero (pte / 1024))
joined-aligned addr pte superpages aligned =
    let whole : pte / 1024 ≡ pte / 1024 / 1024 * 2 ^ 10 = omega arith in
    let sum = bit_or_sum 10 (pte / 1024 / 1024) (addr / 4096 % 1024) (omega arith) in
    ap (λ (x : ℕ). bit_or x (addr / 4096 % 1024)) whole
    ∙ sum
    ∙ ap (λ (x : ℕ). x + addr / 4096 % 1024) (sym whole)

-- An entry through which both translations end in a page fault.
abbrev pub Faults : ℕ → Type 0
Faults v =
    (mpriv msr : ℕ) (write_not_read : Bool)
    → (fetch_faults mpriv v ≡ ok true) × (access_faults mpriv msr v write_not_read ≡ ok true)

pub zero-Faults : Faults 0
unfolding fetch_faults access_faults
zero-Faults mpriv msr true = elim (Bool-cases (mpriv == 1)) [
  | inl super ↦ (rw super refl, rw super refl)
  | inr other ↦ (rw other refl, rw other refl)
]
zero-Faults mpriv msr false = elim (Bool-cases (mpriv == 1)) [
  | inl super ↦ (rw super refl, rw super refl)
  | inr other ↦ (rw other refl, rw other refl)
]

pub write_only-Faults : (page pte : ℕ) → IsWriteOnly pte → Faults (page * 4096 + pte % 1024)
unfolding fetch_faults access_faults
write_only-Faults page pte (unread, written) mpriv msr write_not_read =
    let bits_same : bit_and (page * 4096 + pte % 1024) 14 ≡ pte / 2 % 8 * 2 =
      rwx_bits (page * 4096 + pte % 1024) ∙ omega arith in
    let kept : is_reserved (page * 4096 + pte % 1024) ≡ true = ground (arith, bits_same) in
    (rw kept refl, rw kept refl)
