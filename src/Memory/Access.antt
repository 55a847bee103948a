-- ===== src/Memory/Access.antt =====
-- `SimpleMemory` as an array of bytes: total behaviour of `load` and `store`.
use system_on_chip_design_pr.Base.{
  ℕ, zero, suc, ◌+◌, ◌-◌, ◌*◌, ◌/◌, ◌%◌, ◌^◌, ◌<◌, ◌≡◌, ◌⊎◌, inl, inr, refl, Bool, true, false,
  arith, if◌then◌else◌, ◌==◌, ltb, leb, ◌&&◌, update,
}
use system_on_chip_design_pr.Base.Bits.{bit_and_mask, bit_and_field, bit_or_hole}
use system_on_chip_design_pr.Outcome.{ok}
use system_on_chip_design_pr.Memory.{
  SimpleMemory, capacity, load, store, store_byte, store_half, extend_half, extend_byte, load_half,
}
use system_on_chip_design_pr.Memory.Bytes.{
  lane, lane-store_byte, lane-store_half, store_byte-lt, store_half-lt, load_byte-lane,
  load_half-lane, word-lane,
}

-- The byte at an address.
abbrev pub byte : SimpleMemory → ℕ → ℕ
byte m a = lane (m.words (a / 4)) (a % 4)

-- Every word fits 32 bits.
abbrev pub IsWords : SimpleMemory → Type 0
IsWords m = (i : ℕ) → m.words i < 2 ^ 32

-- The widths that the simulator uses, with the alignment that each asserts.
abbrev pub IsAligned : ℕ → ℕ → Type 0
IsAligned a width = (width ≡ 1) ⊎ ((width ≡ 2) × (a % 2 ≡ 0)) ⊎ ((width ≡ 4) × (a % 4 ≡ 0))

-- What a store leaves at each address.
abbrev pub Stored : SimpleMemory → ℕ → ℕ → ℕ → SimpleMemory → Type 0
Stored m a v width m' =
    (b : ℕ) → byte m' b ≡ (if leb a b && ltb b (a + width) then lane v (b - a) else byte m b)

module _ (m : SimpleMemory) (a v : ℕ) (words : IsWords m) (inside : a / 4 < capacity m) where
  store_one :
      store m a v 1
      ≡ ok (record m { words = update m.words (a / 4) (store_byte (m.words (a / 4)) a v) })
  unfolding store
  store_one = ground arith

  store_two :
      a % 2 ≡ 0
      → store m a v 2
        ≡ ok (record m { words = update m.words (a / 4) (store_half (m.words (a / 4)) a v) })
  unfolding store
  store_two even = ground (arith, bit_and_mask 1 a)

  store_four : a % 4 ≡ 0 → store m a v 4 ≡ ok (record m { words = update m.words (a / 4) v })
  unfolding store
  store_four even = ground (arith, bit_and_mask 2 a)

  Stored-one :
      Stored m a v 1
        (record m { words = update m.words (a / 4) (store_byte (m.words (a / 4)) a v) })
  Stored-one b = ground (arith, lane-store_byte (m.words (a / 4)) a v (b % 4) (words (a / 4)))

  Stored-two :
      a % 2 ≡ 0
      → Stored m a v 2
          (record m { words = update m.words (a / 4) (store_half (m.words (a / 4)) a v) })
  Stored-two even b = ground (arith, lane-store_half (m.words (a / 4)) a v (b % 4) (words (a / 4)))

  Stored-four : a % 4 ≡ 0 → Stored m a v 4 (record m { words = update m.words (a / 4) v })
  Stored-four even b = ground arith

-- The words of the memory stay within 32 bits.
IsWords-update :
    (m : SimpleMemory) (i w : ℕ)
    → IsWords m
    → w < 2 ^ 32
    → IsWords (record m { words = update m.words i w })
IsWords-update m i w words fits j = ground (arith, words j)

-- In a memory of 32-bit words, an aligned store of a 32-bit value within the array ends normally;
-- it puts the low `width` bytes of the value at
-- the address and the following ones, lowest byte first, changes no other byte, and keeps the
-- size and the 32-bit words.
pub store-Stored :
    (m : SimpleMemory) (a v width : ℕ)
    → IsWords m
    → v < 2 ^ 32
    → IsAligned a width
    → a / 4 < capacity m
    → (m' : SimpleMemory) × (store m a v width ≡ ok m')
      × (m'.size ≡ m.size)
      × IsWords m'
      × Stored m a v width m'
store-Stored m a v width words fits (inl one) inside = rw one (
  _,
  store_one m a v words inside,
  refl,
  IsWords-update m (a / 4) _ words (store_byte-lt (m.words (a / 4)) a v (words (a / 4))),
  Stored-one m a v words inside,
)
store-Stored m a v width words fits (inr (inl (two, even))) inside = rw two (
  _,
  store_two m a v words inside even,
  refl,
  IsWords-update m (a / 4) _ words (store_half-lt (m.words (a / 4)) a v (words (a / 4)) even),
  Stored-two m a v words inside even,
)
store-Stored m a v width words fits (inr (inr (four, even))) inside = rw four (
  _,
  store_four m a v words inside even,
  refl,
  IsWords-update m (a / 4) _ words fits,
  Stored-four m a v words inside even,
)

-- The unsigned value of the `width` bytes from an address on.
abbrev pub bytes_from : SimpleMemory → ℕ → ℕ → ℕ
bytes_from m a width =
    if width == 1
    then byte m a
    else if width == 2
    then byte m a + byte m (a + 1) * 256
    else byte m a + byte m (a + 1) * 256 + byte m (a + 2) * 65536 + byte m (a + 3) * 16777216

-- The value of `8 * width` bits read as signed and widened to 32 bits.
abbrev pub sign_extend : ℕ → ℕ → ℕ
sign_extend width x = if ltb x (2 ^ (8 * width - 1)) then x else x + (2 ^ 32 - 2 ^ (8 * width))

extend_half_lem : (x : ℕ) → x < 2 ^ 16 → extend_half true x ≡ sign_extend 2 x
unfolding extend_half
extend_half_lem x h = ground (arith, bit_and_field 15 1 x, bit_or_hole 16 16 0 0xFFFF x)

extend_byte_lem : (x : ℕ) → x < 2 ^ 8 → extend_byte true x ≡ sign_extend 1 x
unfolding extend_byte
extend_byte_lem x h = ground (arith, bit_and_field 7 1 x, bit_or_hole 8 24 0 0xFF_FFFF x)

lane-lt : (w i : ℕ) → lane w i < 256
lane-lt w zero = omega arith
lane-lt w (suc i) = lane-lt (w / 256) i

module _ (m : SimpleMemory) (a : ℕ) (words : IsWords m) where
  half_value : a % 2 ≡ 0 → load_half (m.words (a / 4)) a ≡ byte m a + byte m (a + 1) * 256
  half_value even = ground (arith, load_half-lane (m.words (a / 4)) a (words (a / 4)))

  half_value-lt : byte m a + byte m (a + 1) * 256 < 2 ^ 16
  half_value-lt =
      omega
        (arith, lane-lt (m.words (a / 4)) (a % 4), lane-lt (m.words ((a + 1) / 4)) ((a + 1) % 4))

  word_value :
      a % 4 ≡ 0
      → m.words (a / 4)
        ≡ byte m a + byte m (a + 1) * 256 + byte m (a + 2) * 65536 + byte m (a + 3) * 16777216
  word_value even = ground (arith, word-lane (m.words (a / 4)) (words (a / 4)))

-- In a memory of 32-bit words, an aligned load within the array ends normally with the little-endian value of the bytes
-- there, widened by its sign if that is asked for.
pub load-bytes_from :
    (m : SimpleMemory) (a width : ℕ) (signed_load : Bool)
    → IsWords m
    → IsAligned a width
    → a / 4 < capacity m
    → load m a width signed_load
      ≡ ok (if signed_load then sign_extend width (bytes_from m a width) else bytes_from m a width)
unfolding load
load-bytes_from m a width false words (inl one) inside =
    rw one (ground (arith, load_byte-lane (m.words (a / 4)) a (words (a / 4))))
load-bytes_from m a width true words (inl one) inside = rw one (
    ground (
      arith,
      load_byte-lane (m.words (a / 4)) a (words (a / 4)),
      lane-lt (m.words (a / 4)) (a % 4),
      extend_byte_lem (lane (m.words (a / 4)) (a % 4)),
    ))
load-bytes_from m a width false words (inr (inl (two, even))) inside =
    rw two (ground (arith, half_value m a words even, bit_and_mask 1 a))
load-bytes_from m a width true words (inr (inl (two, even))) inside = rw two (
    ground (
      arith,
      half_value m a words even,
      half_value-lt m a words,
      bit_and_mask 1 a,
      extend_half_lem (byte m a + byte m (a + 1) * 256),
    ))
load-bytes_from m a width signed_load words (inr (inr (four, even))) inside =
    rw four (ground (arith, word_value m a words even, bit_and_mask 2 a))
