-- ===== src/Memory/Bytes.antt =====
-- The byte lanes of a word, and what the masks and shifts of `load` and `store` do to them.
use system_on_chip_design_pr.Base.{
  ℕ, zero, suc, ◌+◌, ◌*◌, ◌/◌, ◌%◌, ◌^◌, ◌<◌, ◌≡◌, refl, bit_and, arith, if◌then◌else◌, ◌==◌,
}
use system_on_chip_design_pr.Base.Bits.{
  bit_and_at, bit_and_mask, bit_and_field, bit_or_sum, bit_or_hole,
}
use system_on_chip_design_pr.Memory.{store_byte, store_half, load_byte, load_half}

-- The masks that `store` and `load` use, as arithmetic.
module _ (w : ℕ) (fits : w < 2 ^ 32) where
  low_three_bytes : bit_and w 0x00FF_FFFF ≡ w % 2 ^ 24
  low_three_bytes = bit_and_mask 24 w

  all_but_third_byte : bit_and w 0xFF00_FFFF ≡ w / 2 ^ 24 * 2 ^ 24 + w % 2 ^ 16
  all_but_third_byte = omega (
    arith,
    bit_and_at 16 w 0xFF00_FFFF,
    bit_and_field 8 8 (w / 2 ^ 16),
    bit_and_mask 16 (w % 2 ^ 16),
  )

  all_but_second_byte : bit_and w 0xFFFF_00FF ≡ w / 2 ^ 16 * 2 ^ 16 + w % 2 ^ 8
  all_but_second_byte = omega (
    arith,
    bit_and_at 8 w 0xFFFF_00FF,
    bit_and_field 8 16 (w / 2 ^ 8),
    bit_and_mask 8 (w % 2 ^ 8),
  )

  high_three_bytes : bit_and w 0xFFFF_FF00 ≡ w / 2 ^ 8 * 2 ^ 8
  high_three_bytes = omega (arith, bit_and_field 8 24 w)

  high_half : bit_and w 0xFFFF_0000 ≡ w / 2 ^ 16 * 2 ^ 16
  high_half = omega (arith, bit_and_field 16 16 w)

-- The word with a byte put in each lane, as arithmetic.
module _ (w a v : ℕ) (fits : w < 2 ^ 32) where
  lane_three : a % 4 ≡ 3 → store_byte w a v ≡ w % 2 ^ 24 + v % 256 * 2 ^ 24
  unfolding store_byte
  lane_three e = ground (
    arith,
    bit_and_mask 2 a,
    low_three_bytes w fits,
    bit_and_field 24 8 (v * 2 ^ 24 % 2 ^ 32),
    bit_or_hole 24 8 0 (v % 256) (w % 2 ^ 24),
  )

  lane_two : a % 4 ≡ 2 → store_byte w a v ≡ w / 2 ^ 24 * 2 ^ 24 + v % 256 * 2 ^ 16 + w % 2 ^ 16
  unfolding store_byte
  lane_two e = ground (
    arith,
    bit_and_mask 2 a,
    all_but_third_byte w fits,
    bit_and_field 16 8 (v * 2 ^ 16 % 2 ^ 32),
    bit_or_hole 16 8 (w / 2 ^ 24) (v % 256) (w % 2 ^ 16),
  )

  lane_one : a % 4 ≡ 1 → store_byte w a v ≡ w / 2 ^ 16 * 2 ^ 16 + v % 256 * 2 ^ 8 + w % 2 ^ 8
  unfolding store_byte
  lane_one e = ground (
    arith,
    bit_and_mask 2 a,
    all_but_second_byte w fits,
    bit_and_field 8 8 (v * 2 ^ 8 % 2 ^ 32),
    bit_or_hole 8 8 (w / 2 ^ 16) (v % 256) (w % 2 ^ 8),
  )

  lane_zero : a % 4 ≡ 0 → store_byte w a v ≡ w / 2 ^ 8 * 2 ^ 8 + v % 256
  unfolding store_byte
  lane_zero e = ground (
    arith,
    bit_and_mask 2 a,
    high_three_bytes w fits,
    bit_and_mask 8 (v * 2 ^ 0 % 2 ^ 32),
    bit_or_sum 8 (w / 2 ^ 8) (v % 256),
  )

  -- The same for a half word, at an even address.
  half_high : a % 4 ≡ 2 → store_half w a v ≡ w % 2 ^ 16 + v % 2 ^ 16 * 2 ^ 16
  unfolding store_half
  half_high e = ground (
    arith,
    bit_and_field 1 1 a,
    bit_and_mask 16 w,
    bit_and_field 16 16 (v * 2 ^ 16 % 2 ^ 32),
    bit_or_hole 16 16 0 (v % 2 ^ 16) (w % 2 ^ 16),
  )

  half_low : a % 4 ≡ 0 → store_half w a v ≡ w / 2 ^ 16 * 2 ^ 16 + v % 2 ^ 16
  unfolding store_half
  half_low e = ground (
    arith,
    bit_and_field 1 1 a,
    high_half w fits,
    bit_and_mask 16 (v * 2 ^ 0 % 2 ^ 32),
    bit_or_sum 16 (w / 2 ^ 16) (v % 2 ^ 16),
  )

-- Byte `i` of a word.
abbrev pub lane : ℕ → ℕ → ℕ
lane w zero = w % 256
lane w (suc i) = lane (w / 256) i

lane-cases :
    (w i : ℕ)
    → i < 4
    → lane w i ≡ (
        if i == 0
        then w % 256
        else if i == 1
        then w / 2 ^ 8 % 256
        else if i == 2
        then w / 2 ^ 16 % 256
        else w / 2 ^ 24 % 256)
lane-cases w zero h = refl
lane-cases w (suc zero) h = refl
lane-cases w (suc (suc zero)) h = omega arith
lane-cases w (suc (suc (suc zero))) h = omega arith
lane-cases w (suc (suc (suc (suc i)))) h = absurd (omega arith)

-- Storing a byte changes that lane alone.
pub lane-store_byte :
    (w a v i : ℕ)
    → w < 2 ^ 32
    → i < 4
    → lane (store_byte w a v) i ≡ (if i == a % 4 then v % 256 else lane w i)
lane-store_byte w a v i fits h = ground (
  arith,
  lane-cases w i,
  lane-cases (store_byte w a v) i,
  lane_three w a v,
  lane_two w a v,
  lane_one w a v,
  lane_zero w a v,
)

-- Storing a half word at an even address changes its two lanes alone.
pub lane-store_half :
    (w a v i : ℕ)
    → w < 2 ^ 32
    → i < 4
    → a % 2 ≡ 0
    → lane (store_half w a v) i
      ≡ (if i == a % 4 then v % 256 else if i == a % 4 + 1 then v / 256 % 256 else lane w i)
lane-store_half w a v i fits h even =
    ground (arith, lane-cases w i, lane-cases (store_half w a v) i, half_high w a v, half_low w a v)

pub store_byte-lt : (w a v : ℕ) → w < 2 ^ 32 → store_byte w a v < 2 ^ 32
store_byte-lt w a v fits =
    ground (arith, lane_three w a v, lane_two w a v, lane_one w a v, lane_zero w a v)

pub store_half-lt : (w a v : ℕ) → w < 2 ^ 32 → a % 2 ≡ 0 → store_half w a v < 2 ^ 32
store_half-lt w a v fits even = ground (arith, half_high w a v, half_low w a v)

-- Loading reads lanes.
pub load_byte-lane : (w a : ℕ) → w < 2 ^ 32 → load_byte w a ≡ lane w (a % 4)
unfolding load_byte
load_byte-lane w a fits = ground (
  arith,
  bit_and_mask 2 a,
  lane-cases w (a % 4),
  bit_and_mask 8 (w / 2 ^ 24),
  bit_and_mask 8 (w / 2 ^ 16),
  bit_and_mask 8 (w / 2 ^ 8),
  bit_and_mask 8 (w / 2 ^ 0),
)

pub load_half-lane :
    (w a : ℕ) → w < 2 ^ 32 → a % 2 ≡ 0 → load_half w a ≡ lane w (a % 4) + lane w (a % 4 + 1) * 256
unfolding load_half
load_half-lane w a fits even = ground (
  arith,
  bit_and_field 1 1 a,
  lane-cases w (a % 4),
  lane-cases w (a % 4 + 1),
  bit_and_mask 16 (w / 2 ^ 16),
  bit_and_mask 16 (w / 2 ^ 0),
)

pub word-lane :
    (w : ℕ) → w < 2 ^ 32 → w ≡ lane w 0 + lane w 1 * 256 + lane w 2 * 65536 + lane w 3 * 16777216
word-lane w fits = omega arith

pub lane-lt : (w i : ℕ) → lane w i < 256
lane-lt w zero = omega arith
lane-lt w (suc i) = lane-lt (w / 256) i
