-- ===== src/Testbench/Burst/Addresses.antt =====
-- The addresses of a read burst of top_cache_axi/tb/tb_axi4_mem.cpp in closed form.
use native.Mathlib.Nat.{one-le-pow, mod-eq_of_lt, div-add-mod'}
use system_on_chip_design_pr.Base.{
  ℕ, zero, suc, ◌+◌, ◌-◌, ◌*◌, ◌/◌, ◌%◌, ◌^◌, ◌<◌, ◌≡◌, ◌⊎◌, inl, inr, refl, true, false, List, [],
  ◌∷◌, bit_and, bit_or, if◌then◌else◌, ◌==◌, ==_iff, Bool-cases, arith,
}
use system_on_chip_design_pr.Base.Bits.{bit_and_mask, bit_and_field, bit_or_sum}
use system_on_chip_design_pr.Testbench.Axi.{Master, burst_incr, burst_wrap}
use system_on_chip_design_pr.Testbench.Burst.{calc_wrap_mask, calc_next_addr, unroll, read_burst}

-- The lengths that AXI allows for a wrapping burst, and 1.
abbrev pub IsWrapLength : ℕ → Type 0
IsWrapLength len = (len ≡ 0) ⊎ (len ≡ 1) ⊎ (len ≡ 3) ⊎ (len ≡ 7) ⊎ (len ≡ 15)

-- A wrapping step at a block of 2 ^ k bytes.
wrap_step :
    (k n addr : ℕ)
    → (2 ^ n - 1) * 2 ^ k ≡ 2 ^ 64 - 1 - (2 ^ k - 1)
    → addr / 2 ^ k < 2 ^ n
    → bit_or (bit_and addr (2 ^ 64 - 1 - (2 ^ k - 1))) (bit_and (addr + 4) (2 ^ k - 1))
      ≡ addr / 2 ^ k * 2 ^ k + (addr + 4) % 2 ^ k
wrap_step k n addr same small =
    let whole : addr / 2 ^ k % 2 ^ n ≡ addr / 2 ^ k = mod-eq_of_lt small in
    let below : (addr + 4) % 2 ^ k < 2 ^ k = ground (arith, one-le-pow k 2) in
    rw (← same, bit_and_field k n addr, whole, bit_and_mask k (addr + 4))
      (bit_or_sum k (addr / 2 ^ k) ((addr + 4) % 2 ^ k) below)

calc_next_addr-wrap :
    (addr len : ℕ)
    → addr < 2 ^ 32
    → IsWrapLength len
    → calc_next_addr addr burst_wrap len
      ≡ addr / (4 * (len + 1)) * (4 * (len + 1)) + (addr + 4) % (4 * (len + 1))
unfolding calc_next_addr calc_wrap_mask
calc_next_addr-wrap addr len fits (inl e) = rw e (wrap_step 2 62 addr refl (omega arith))
calc_next_addr-wrap addr len fits (inr (inl e)) = rw e (wrap_step 3 61 addr refl (omega arith))
calc_next_addr-wrap addr len fits (inr (inr (inl e))) =
    rw e (wrap_step 4 60 addr refl (omega arith))
calc_next_addr-wrap addr len fits (inr (inr (inr (inl e)))) =
    rw e (wrap_step 5 59 addr refl (omega arith))
calc_next_addr-wrap addr len fits (inr (inr (inr (inr e)))) =
    rw e (wrap_step 6 58 addr refl (omega arith))

-- The address of beat `i`: from the start of the burst, which is cut to a multiple of 4, the beats
-- of a wrapping burst stay in the block of the burst's size, those of an incrementing burst go up
-- by 4, and all others are at the start.
abbrev pub beat_address : Master → ℕ → ℕ
beat_address first i =
    let begin = first.araddr / 4 * 4 in
    let block = 4 * (first.arlen + 1) in
    if first.arburst == burst_wrap
    then begin / block * block + (begin + 4 * i) % block
    else if first.arburst == burst_incr
    then (begin + 4 * i) % 2 ^ 32
    else begin

-- The step of a wrapping burst in its block.
wrap_beat :
    (begin len i : ℕ)
    → begin < 2 ^ 32
    → IsWrapLength len
    → calc_next_addr
        (begin / (4 * (len + 1)) * (4 * (len + 1)) + (begin + 4 * i) % (4 * (len + 1)))
        burst_wrap
        len
      ≡ begin / (4 * (len + 1)) * (4 * (len + 1)) + (begin + 4 * (i + 1)) % (4 * (len + 1))
wrap_beat begin len i fits (inl e) = rw e (
    omega
      (arith, calc_next_addr-wrap (begin / 4 * 4 + (begin + 4 * i) % 4) 0 (omega arith) (inl refl)))
wrap_beat begin len i fits (inr (inl e)) = rw e (
    omega (
      arith,
      calc_next_addr-wrap (begin / 8 * 8 + (begin + 4 * i) % 8) 1 (omega arith) (inr (inl refl)),
    ))
wrap_beat begin len i fits (inr (inr (inl e))) = rw e (
    omega (
      arith,
      calc_next_addr-wrap (begin / 16 * 16 + (begin + 4 * i) % 16) 3 (omega arith)
          (inr (inr (inl refl))),
    ))
wrap_beat begin len i fits (inr (inr (inr (inl e)))) = rw e (
    omega (
      arith,
      calc_next_addr-wrap (begin / 32 * 32 + (begin + 4 * i) % 32) 7 (omega arith)
          (inr (inr (inr (inl refl)))),
    ))
wrap_beat begin len i fits (inr (inr (inr (inr e)))) = rw e (
    omega (
      arith,
      calc_next_addr-wrap (begin / 64 * 64 + (begin + 4 * i) % 64) 15 (omega arith)
          (inr (inr (inr (inr refl)))),
    ))

straight_beat :
    (first : Master) (i : ℕ)
    → (first.arburst == burst_wrap) ≡ false
    → calc_next_addr (beat_address first i) first.arburst first.arlen ≡ beat_address first (i + 1)
unfolding calc_next_addr
straight_beat first i other = ground arith

next_beat :
    (first : Master) (i : ℕ)
    → first.araddr < 2 ^ 32
    → (first.arburst ≡ burst_wrap → IsWrapLength first.arlen)
    → calc_next_addr (beat_address first i) first.arburst first.arlen ≡ beat_address first (i + 1)
next_beat first i fits wraps = elim (Bool-cases (first.arburst == burst_wrap)) [
  | inl wrap ↦
      let e : first.arburst ≡ burst_wrap = (==_iff first.arburst burst_wrap).0 wrap in
      rw e (wrap_beat (first.araddr / 4 * 4) first.arlen i (omega arith) (wraps e))
  | inr straight ↦ straight_beat first i straight
]

-- The beats of a burst from beat `i` on.
unfoldable pub beats : Master → ℕ → ℕ → List Master
beats first zero i = []
beats first (suc left) i =
    record first { arvalid = true; araddr = beat_address first i; wlast = i == first.arlen }
    ∷ beats first left (i + 1)

unroll-beats :
    (first : Master) (left i : ℕ)
    → first.araddr < 2 ^ 32
    → (first.arburst ≡ burst_wrap → IsWrapLength first.arlen)
    → unroll first left i (beat_address first i) ≡ beats first left i
unfolding unroll beats
unroll-beats first zero i fits wraps = refl
unroll-beats first (suc left) i fits wraps =
    rw (next_beat first i fits wraps, unroll-beats first left (i + 1) fits wraps) refl

-- For a 32-bit address, and where a wrapping burst has a length that AXI allows or 1, a read command
-- is unrolled into ARLEN + 1 reads with the addresses of the beats in order, of which the one at
-- ARLEN is marked as the last.
pub read_burst-beats :
    (first : Master)
    → first.araddr < 2 ^ 32
    → (first.arburst ≡ burst_wrap → IsWrapLength first.arlen)
    → read_burst first ≡ beats first (first.arlen + 1) 0
unfolding read_burst calc_wrap_mask
read_burst-beats first fits wraps =
    let start : bit_and first.araddr (2 ^ 64 - 4) ≡ beat_address first 0 = ground (
      arith,
      bit_and_field 2 62 first.araddr,
      div-add-mod' (first.araddr / 4 * 4) (4 * (first.arlen + 1)),
    ) in
    rw start (unroll-beats first (first.arlen + 1) 0 fits wraps)
