-- ===== src/Isa/Decode/Masks.antt =====
-- The decoding masks as arithmetic.
use system_on_chip_design_pr.Base.{ℕ, ◌+◌, ◌*◌, ◌/◌, ◌%◌, ◌^◌, ◌<◌, ◌≡◌, arith, bit_and}
use system_on_chip_design_pr.Base.Bits.{bit_and_mask, bit_and_field, bit_and_at}

module _ (x : ℕ) where
  and_7f : bit_and x 0x7f ≡ x % 2 ^ 7
  and_7f = bit_and_mask 7 x

  and_707f : bit_and x 0x707f ≡ x / 2 ^ 12 % 8 * 2 ^ 12 + x % 2 ^ 7
  and_707f =
      omega
        (arith, bit_and_at 7 x 0x707f, bit_and_field 5 3 (x / 2 ^ 7), bit_and_mask 7 (x % 2 ^ 7))

  and_fe00707f :
      x < 2 ^ 32 → bit_and x 0xfe00707f ≡ x / 2 ^ 25 * 2 ^ 25 + x / 2 ^ 12 % 8 * 2 ^ 12 + x % 2 ^ 7
  and_fe00707f fits = omega (
    arith,
    bit_and_at 25 x 0xfe00707f,
    bit_and_mask 7 (x / 2 ^ 25),
    bit_and_at 7 (x % 2 ^ 25) 0x707f,
    bit_and_field 5 3 (x % 2 ^ 25 / 2 ^ 7),
    bit_and_mask 7 (x % 2 ^ 25 % 2 ^ 7),
  )

  and_fc00707f :
      x < 2 ^ 32 → bit_and x 0xfc00707f ≡ x / 2 ^ 26 * 2 ^ 26 + x / 2 ^ 12 % 8 * 2 ^ 12 + x % 2 ^ 7
  and_fc00707f fits = omega (
    arith,
    bit_and_at 26 x 0xfc00707f,
    bit_and_mask 6 (x / 2 ^ 26),
    bit_and_at 7 (x % 2 ^ 26) 0x707f,
    bit_and_field 5 3 (x % 2 ^ 26 / 2 ^ 7),
    bit_and_mask 7 (x % 2 ^ 26 % 2 ^ 7),
  )

  and_fe007fff : x < 2 ^ 32 → bit_and x 0xfe007fff ≡ x / 2 ^ 25 * 2 ^ 25 + x % 2 ^ 15
  and_fe007fff fits =
      omega (
        arith,
        bit_and_at 25 x 0xfe007fff,
        bit_and_mask 7 (x / 2 ^ 25),
        bit_and_mask 15 (x % 2 ^ 25),
      )

  and_all : x < 2 ^ 32 → bit_and x 0xffffffff ≡ x
  and_all fits = omega (arith, bit_and_mask 32 x)

  -- The masks of the tests up to the multiplications, and those of the tests after them.
  pub mask_values :
      x < 2 ^ 32
      → (bit_and x 0x7f ≡ x % 2 ^ 7)
        × (bit_and x 0x707f ≡ x / 2 ^ 12 % 8 * 2 ^ 12 + x % 2 ^ 7)
        × (bit_and x 0xfc00707f ≡ x / 2 ^ 26 * 2 ^ 26 + x / 2 ^ 12 % 8 * 2 ^ 12 + x % 2 ^ 7)
        × (bit_and x 0xfe00707f ≡ x / 2 ^ 25 * 2 ^ 25 + x / 2 ^ 12 % 8 * 2 ^ 12 + x % 2 ^ 7)
  mask_values fits = (and_7f, and_707f, and_fc00707f fits, and_fe00707f fits)

  pub system_mask_values :
      x < 2 ^ 32
      → (bit_and x 0xfe007fff ≡ x / 2 ^ 25 * 2 ^ 25 + x % 2 ^ 15) × (bit_and x 0xffffffff ≡ x)
  system_mask_values fits = (and_fe007fff fits, and_all fits)
