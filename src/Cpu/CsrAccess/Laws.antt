-- ===== src/Cpu/CsrAccess/Laws.antt =====
-- What an access to a control register reads and writes, bit by bit.
use system_on_chip_design_pr.Base.{
  ℕ, ◌<◌, ◌≡◌, ap, refl, Bool, true, false, not, ◌&&◌, ◌||◌, arith, bit_and, not32, ◌∙◌, ◌⊎◌, inl,
  inr,
}
use system_on_chip_design_pr.Base.Bits.{bit, bit-bit_and, bit-bit_or}
use system_on_chip_design_pr.Base.Bits.Masks.{bit-not32}
use system_on_chip_design_pr.Cpu.{CsrFile}
use system_on_chip_design_pr.Cpu.CsrAccess.{
  StdCsr, mepc, sstatus, access_std, std_get, std_put, std_mask, std_update,
}

-- What becomes of a bit of the variable behind a register.
abbrev pub new_bit : (old value mask : Bool) → (set clr : Bool) → Bool
new_bit old value mask true true = value && mask
new_bit old value mask true false = old || (value && mask)
new_bit old value mask false true = old && not (value && mask)
new_bit old value mask false false = old

get-put : (name : StdCsr) (r : CsrFile) (v : ℕ) → std_get name (std_put name r v) ≡ v
get-put mepc r v = refl
get-put name r v = refl

bit-std_update :
    (old masked k : ℕ) (set clr : Bool)
    → k < 32
    → bit k (std_update old masked set clr) ≡ new_bit (bit k old) (bit k masked) true set clr
bit-std_update old masked k true true h = ground arith
bit-std_update old masked k true false h = ground (arith, bit-bit_or k old masked)
bit-std_update old masked k false true h =
    ground (arith, bit-bit_and k old (not32 masked), bit-not32 masked k)
bit-std_update old masked k false false h = ground arith

masked_bit :
    (o v m : Bool) (set clr : Bool) → new_bit o (v && m) true set clr ≡ new_bit o v m set clr
masked_bit o v m true true = ground arith
masked_bit o v m true false = ground arith
masked_bit o v m false true = ground arith
masked_bit o v m false false = ground arith

-- An access to one of the plain registers reads the bits of the variable under the register's
-- mask, and updates each bit of the variable by the kind of access, with the written bits masked.
-- The write of a whole register, with `set` and `clr`, so clears what is outside the mask.
pub access_std-bits :
    (name : StdCsr) (r : CsrFile) (value k : ℕ) (set clr : Bool)
    → k < 32
    → (bit k (access_std name r value set clr).0
        ≡ (bit k (std_get name r) && bit k (std_mask name)))
      × (bit k (std_get name (access_std name r value set clr).1)
          ≡ new_bit (bit k (std_get name r)) (bit k value) (bit k (std_mask name)) set clr)
unfolding access_std
access_std-bits name r value k set clr h = (
  bit-bit_and k (std_get name r) (std_mask name),
  ap (bit k) (get-put name r (std_update (std_get name r) (bit_and value (std_mask name)) set clr))
      ∙ bit-std_update (std_get name r) (bit_and value (std_mask name)) k set clr h
      ∙ ap (λ b. new_bit (bit k (std_get name r)) b true set clr)
          (bit-bit_and k value (std_mask name))
      ∙ masked_bit (bit k (std_get name r)) (bit k value) (bit k (std_mask name)) set clr,
)

outside_mask :
    (k : ℕ) → (k ≡ 3) ⊎ ((k ≡ 7) ⊎ ((k ≡ 11) ⊎ (k ≡ 12))) → bit k (std_mask sstatus) ≡ false
unfolding bit
outside_mask k (inl e) = rw e refl
outside_mask k (inr (inl e)) = rw e refl
outside_mask k (inr (inr (inl e))) = rw e refl
outside_mask k (inr (inr (inr e))) = rw e refl

-- A write of sstatus clears the machine's interrupt enable and saved level, which lie outside its
-- mask, whatever the value.
pub sstatus-clears :
    (r : CsrFile) (value k : ℕ)
    → (k ≡ 3) ⊎ ((k ≡ 7) ⊎ ((k ≡ 11) ⊎ (k ≡ 12)))
    → bit k ((access_std sstatus r value true true).1).msr ≡ false
sstatus-clears r value k which =
    ground (arith, outside_mask k which, access_std-bits sstatus r value k true true (ground arith))
