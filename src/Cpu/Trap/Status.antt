-- ===== src/Cpu/Trap/Status.antt =====
-- The status register bit by bit, on entry to a trap handler and on return from it.
use system_on_chip_design_pr.Base.{
  ℕ, ◌-◌, ◌*◌, ◌^◌, ◌<◌, ◌≡◌, Bool, true, false, not, ◌&&◌, ◌||◌, arith, bit_and, bit_or, not32,
  any_bit, shl32, if◌then◌else◌, ◌==◌,
}
use system_on_chip_design_pr.Base.Bits.{bit, bit-bit_and, bit-bit_or}
use system_on_chip_design_pr.Base.Bits.Masks.{
  zero-bit, bit_small, bit-pow, bit_ones, bit-not32, bit_shift, any_bit-pow,
}
use system_on_chip_design_pr.Isa.Status.{priv_super, sr_spie, sr_mpie, sr_mpp, sr_mpp_u}
use system_on_chip_design_pr.Cpu.Trap.{
  enter_super_status, enter_machine_status, leave_machine_status, leave_super_status,
}

-- `s &= ~(1 << j)`.
clear : (j s k : ℕ) → k < 32 → bit k (bit_and s (not32 (2 ^ j))) ≡ (bit k s && not (j == k))
clear j s k h = ground (arith, bit-bit_and k s (not32 (2 ^ j)), bit-not32 (2 ^ j) k, bit-pow j k)

-- `s |= b ? (1 << j) : 0`.
set_if :
    (b : Bool) (j s k : ℕ)
    → bit k (bit_or s (if b then 2 ^ j else 0)) ≡ (bit k s || (b && (j == k)))
set_if true j s k = ground (arith, bit-bit_or k s (2 ^ j), bit-pow j k)
set_if false j s k = ground (arith, bit-bit_or k s 0, zero-bit k)

-- `s |= (s & (1 << i)) ? (1 << j) : 0`.
copy :
    (i j s k : ℕ)
    → bit k (bit_or s (if any_bit s (2 ^ i) then 2 ^ j else 0)) ≡ (bit k s || (bit i s && (j == k)))
copy i j s k = ground (arith, set_if (any_bit s (2 ^ i)) j s k, any_bit-pow i s)

-- The same three steps as functions of the word, to read a status as their chain.
abbrev cleared : ℕ → ℕ → ℕ
cleared j s = bit_and s (not32 (2 ^ j))

abbrev copied : ℕ → ℕ → ℕ → ℕ
copied i j s = bit_or s (if any_bit s (2 ^ i) then 2 ^ j else 0)

-- Moving bit `i` to bit `j` and clearing bit `i`.
save_disable :
    (i j s k : ℕ)
    → i < 32
    → j < 32
    → k < 32
    → (i == j) ≡ false
    → bit k (cleared i (copied i j (cleared j s)))
      ≡ (if i == k then false else if j == k then bit i s else bit k s)
save_disable i j s k hi hj hk ne = ground (
  arith,
  clear i (copied i j (cleared j s)) k,
  copy i j (cleared j s) k,
  clear j s k,
  clear j s i,
)

-- Entering supervisor mode moves SIE to SPIE, clears SIE, sets SPP if the level was supervisor,
-- and changes no other bit.
pub bit-enter_super_status :
    (s mpriv k : ℕ)
    → k < 32
    → bit k (enter_super_status s mpriv) ≡ (
        if k == 1
        then false
        else if k == 5
        then bit 1 s
        else if k == 8
        then mpriv == priv_super
        else bit k s)
unfolding enter_super_status
bit-enter_super_status s mpriv k h = ground (
  arith,
  set_if (mpriv == priv_super) 8 (cleared 8 (cleared 1 (copied 1 5 (cleared 5 s)))) k,
  clear 8 (cleared 1 (copied 1 5 (cleared 5 s))) k,
  save_disable 1 5 s k,
)

-- MPP is bits 11 and 12.
bit-sr_mpp : (k : ℕ) → bit k sr_mpp ≡ ((k == 11) || (k == 12))
bit-sr_mpp k = ground (arith, bit_shift 11 k 3, bit_ones 2 (k - 11))

clear_mpp :
    (s k : ℕ)
    → k < 32
    → bit k (bit_and s (not32 sr_mpp)) ≡ (bit k s && not ((k == 11) || (k == 12)))
clear_mpp s k h = ground (arith, bit-bit_and k s (not32 sr_mpp), bit-not32 sr_mpp k, bit-sr_mpp k)

bit-shl32 :
    (p k : ℕ)
    → p < 4
    → bit k (shl32 p 11) ≡ (if k == 11 then bit 0 p else if k == 12 then bit 1 p else false)
bit-shl32 p k h =
    let e : shl32 p 11 ≡ p * 2 ^ 11 = omega arith in
    rw e (ground (arith, bit_shift 11 k p, bit_small 2 (k - 11) p))

-- Entering machine mode moves MIE to MPIE, clears MIE, puts the old privilege level into MPP, and
-- changes no other bit.
pub bit-enter_machine_status :
    (s mpriv k : ℕ)
    → mpriv < 4
    → k < 32
    → bit k (enter_machine_status s mpriv) ≡ (
        if k == 3
        then false
        else if k == 7
        then bit 3 s
        else if k == 11
        then bit 0 mpriv
        else if k == 12
        then bit 1 mpriv
        else bit k s)
unfolding enter_machine_status
bit-enter_machine_status s mpriv k p h = ground (
  arith,
  bit-bit_or k (bit_and (cleared 3 (copied 3 7 (cleared 7 s))) (not32 sr_mpp)) (shl32 mpriv 11),
  bit-shl32 mpriv k p,
  clear_mpp (cleared 3 (copied 3 7 (cleared 7 s))) k,
  save_disable 3 7 s k,
)

-- Returning from machine mode moves MPIE to MIE, sets MPIE, clears MPP, and changes no other bit.
pub bit-leave_machine_status :
    (s k : ℕ)
    → k < 32
    → bit k (leave_machine_status s) ≡ (
        if k == 3
        then bit 7 s
        else if k == 7
        then true
        else if (k == 11) || (k == 12)
        then false
        else bit k s)
unfolding leave_machine_status
bit-leave_machine_status s k h = ground (
  arith,
  bit-bit_or k (bit_and (bit_or (copied 7 3 (cleared 3 s)) sr_mpie) (not32 sr_mpp)) sr_mpp_u,
  zero-bit k,
  clear_mpp (bit_or (copied 7 3 (cleared 3 s)) sr_mpie) k,
  set_if true 7 (copied 7 3 (cleared 3 s)) k,
  copy 7 3 (cleared 3 s) k,
  clear 3 s k,
  clear 3 s 7,
)

-- Returning from supervisor mode moves SPIE to SIE, sets SPIE, clears SPP, and changes no other
-- bit.
pub bit-leave_super_status :
    (s k : ℕ)
    → k < 32
    → bit k (leave_super_status s)
      ≡ (if k == 1 then bit 5 s else if k == 5 then true else if k == 8 then false else bit k s)
unfolding leave_super_status
bit-leave_super_status s k h = ground (
  arith,
  clear 8 (bit_or (copied 5 1 (cleared 1 s)) sr_spie) k,
  set_if true 5 (copied 5 1 (cleared 1 s)) k,
  copy 5 1 (cleared 1 s) k,
  clear 1 s k,
  clear 1 s 5,
)

-- For a privilege level of two bits and every bit of a 32-bit status: what a trap to machine mode, a
-- trap to supervisor mode, mret and sret make of it.
pub status-bits :
    (s mpriv k : ℕ)
    → mpriv < 4
    → k < 32
    → (bit k (enter_machine_status s mpriv) ≡ (
        if k == 3
        then false
        else if k == 7
        then bit 3 s
        else if k == 11
        then bit 0 mpriv
        else if k == 12
        then bit 1 mpriv
        else bit k s))
      × (bit k (enter_super_status s mpriv) ≡ (
          if k == 1
          then false
          else if k == 5
          then bit 1 s
          else if k == 8
          then mpriv == priv_super
          else bit k s))
      × (bit k (leave_machine_status s) ≡ (
          if k == 3
          then bit 7 s
          else if k == 7
          then true
          else if (k == 11) || (k == 12)
          then false
          else bit k s))
      × (bit k (leave_super_status s) ≡ (
          if k == 1 then bit 5 s else if k == 5 then true else if k == 8 then false else bit k s))
status-bits s mpriv k level h = (
  bit-enter_machine_status s mpriv k level h,
  bit-enter_super_status s mpriv k h,
  bit-leave_machine_status s k h,
  bit-leave_super_status s k h,
)
