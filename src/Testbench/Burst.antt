-- ===== src/Testbench/Burst.antt =====
-- The bursts of top_cache_axi/tb/tb_axi4_mem.cpp: `calc_wrap_mask`, `calc_next_addr` and the loop of
-- `process` that unrolls a read burst.
pub mod Addresses
use system_on_chip_design_pr.Base.{
  ℕ, zero, suc, ◌+◌, ◌-◌, ◌*◌, ◌/◌, ◌%◌, ◌^◌, ◌<◌, ◌≡◌, ◌⊎◌, inl, inr, refl, Bool, true, false,
  List, [], ◌∷◌, ◌++◌, bit_and, bit_or, if◌then◌else◌, ◌==◌, add32, arith,
}
use system_on_chip_design_pr.Base.Bits.{bit_and_mask, bit_and_field, bit_or_sum}
use system_on_chip_design_pr.Testbench.Axi.{Master, burst_incr, burst_wrap}

unfoldable pub calc_wrap_mask : ℕ → ℕ
calc_wrap_mask len =
    if len == 0
    then 0x03
    else if len == 1
    then 0x07
    else if len == 3
    then 0x0F
    else if len == 7
    then 0x1F
    else 0x3F

-- `addr & ~mask`, for a mask of 8 bits; `~` is taken on 64 bits.
abbrev pub and_not : ℕ → ℕ → ℕ
and_not addr mask = bit_and addr (2 ^ 64 - 1 - mask)

unfoldable pub calc_next_addr : ℕ → ℕ → ℕ → ℕ
calc_next_addr addr type len =
    let mask = calc_wrap_mask len in
    if type == burst_wrap
    then bit_or (and_not addr mask) (bit_and (addr + 4) mask)
    else if type == burst_incr
    then add32 addr 4
    else addr

-- The loop of the read command from round `i` on, with the rounds left and the next address.
unfoldable pub unroll : Master → ℕ → ℕ → ℕ → List Master
unroll first zero i next_addr = []
unroll first (suc left) i next_addr =
    record first { arvalid = true; araddr = next_addr; wlast = i == first.arlen }
    ∷ unroll first left (i + 1) (calc_next_addr next_addr first.arburst first.arlen)

unfoldable pub read_burst : Master → List Master
read_burst first = unroll first (first.arlen + 1) 0 (and_not first.araddr (calc_wrap_mask 0))
