-- ===== src/Memory.antt =====
-- `SimpleMemory` of isa_sim/memory.h: a little-endian memory kept as an array of 32-bit words.
pub mod Bytes
pub mod Access
use system_on_chip_design_pr.Base.{
  ℕ, ◌+◌, ◌*◌, ◌/◌, ◌%◌, ◌^◌, ◌<◌, bit_and, bit_or, Bool, ◌&&◌, ltb, ◌==◌, if◌then◌else◌, update,
  shl32, shr32, any_bit, not32,
}
use system_on_chip_design_pr.Outcome.{Outcome, ok, undefined, ◌>>=◌, assert}

-- `words i` is `Mem[i]`; the array has `(size + 3) / 4` words.
pub record SimpleMemory : Type 0 where
  pub words : ℕ → ℕ
  pub size : ℕ

abbrev pub capacity : SimpleMemory → ℕ
capacity m = (m.size + 3) / 4

-- `Mem[i]` read and written: out of the array there is no such word.
abbrev pub get_word : SimpleMemory → ℕ → Outcome ℕ
get_word m i = if ltb i (capacity m) then ok (m.words i) else undefined

abbrev pub set_word : SimpleMemory → ℕ → ℕ → Outcome SimpleMemory
set_word m i w =
    if ltb i (capacity m) then ok (record m { words = update m.words i w }) else undefined

-- `memset(Mem, 0, Size)`: where the size is no multiple of four, the bytes of the last word that
-- are past the size keep their contents.
unfoldable pub reset : SimpleMemory → SimpleMemory
reset m = record m {
  words = λ i.
      if ltb i (m.size / 4)
      then 0
      else if i == m.size / 4
      then m.words i / 2 ^ (8 * (m.size % 4)) * 2 ^ (8 * (m.size % 4))
      else m.words i;
}

-- The byte of a word that `address & 3` selects.
unfoldable pub load_byte : ℕ → ℕ → ℕ
load_byte word address =
    if bit_and address 3 == 3
    then bit_and (shr32 word 24) 0xFF
    else if bit_and address 3 == 2
    then bit_and (shr32 word 16) 0xFF
    else if bit_and address 3 == 1
    then bit_and (shr32 word 8) 0xFF
    else bit_and (shr32 word 0) 0xFF

unfoldable pub load_half : ℕ → ℕ → ℕ
load_half word address =
    if any_bit address 2 then bit_and (shr32 word 16) 0xFFFF else bit_and (shr32 word 0) 0xFFFF

unfoldable pub extend_half : Bool → ℕ → ℕ
extend_half signed_load h = if signed_load && any_bit h (2 ^ 15) then bit_or h 0xFFFF_0000 else h

unfoldable pub extend_byte : Bool → ℕ → ℕ
extend_byte signed_load b = if signed_load && any_bit b (2 ^ 7) then bit_or b 0xFFFF_FF00 else b

-- A width other than 1, 2 and 4 reads nothing and gives 0.
unfoldable pub load : SimpleMemory → ℕ → ℕ → Bool → Outcome ℕ
unfolding load_byte load_half extend_half extend_byte
load m address width signed_load =
    if width == 4
    then assert (bit_and address 3 == 0) (get_word m (address / 4))
    else if width == 2
    then assert (bit_and address 1 == 0)
        (do word ← get_word m (address / 4); ok (extend_half signed_load (load_half word address)))
    else if width == 1
    then (do word ← get_word m (address / 4); ok (extend_byte signed_load (load_byte word address)))
    else ok 0

-- The word with a half or a byte of `value` put in the place that the address selects.
unfoldable pub store_half : ℕ → ℕ → ℕ → ℕ
store_half word address value =
    if any_bit address 2
    then bit_or (bit_and word 0x0000_FFFF) (bit_and (shl32 value 16) 0xFFFF_0000)
    else bit_or (bit_and word 0xFFFF_0000) (bit_and (shl32 value 0) 0x0000_FFFF)

unfoldable pub store_byte : ℕ → ℕ → ℕ → ℕ
store_byte word address value =
    if bit_and address 3 == 3
    then bit_or (bit_and word 0x00FF_FFFF) (bit_and (shl32 value 24) 0xFF00_0000)
    else if bit_and address 3 == 2
    then bit_or (bit_and word 0xFF00_FFFF) (bit_and (shl32 value 16) 0x00FF_0000)
    else if bit_and address 3 == 1
    then bit_or (bit_and word 0xFFFF_00FF) (bit_and (shl32 value 8) 0x0000_FF00)
    else bit_or (bit_and word 0xFFFF_FF00) (bit_and (shl32 value 0) 0x0000_00FF)

unfoldable pub store : SimpleMemory → ℕ → ℕ → ℕ → Outcome SimpleMemory
unfolding store_half store_byte
store m address value width =
    if width == 4
    then assert (bit_and address 3 == 0) (set_word m (address / 4) value)
    else if width == 2
    then assert (bit_and address 1 == 0) (do
      word ← get_word m (address / 4)
      set_word m (address / 4) (store_half word address value))
    else if width == 1
    then (do
      word ← get_word m (address / 4)
      set_word m (address / 4) (store_byte word address value))
    else ok m
