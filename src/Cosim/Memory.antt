-- ===== src/Cosim/Memory.antt =====
-- The memories of isa_sim/cosim_api.cpp: `create_memory`, `valid_addr`, and the accesses to bytes
-- and words. An access finds the attached memories that have its address, in their order.
use system_on_chip_design_pr.Base.{
  ℕ, zero, suc, ◌+◌, ◌*◌, ◌%◌, ◌^◌, Bool, true, false, ◌&&◌, ◌||◌, List, [], ◌∷◌, Option, bit_or,
  if◌then◌else◌, ltb, leb, update, add32, shl32, shr32,
}
use system_on_chip_design_pr.Outcome.{Outcome, ok, ◌>>=◌}
use system_on_chip_design_pr.Cosim.{MemApi, MemItem, Cosim}

-- `addr >= it->base && addr < (it->base + it->size)`; the sum wraps.
abbrev pub has_addr : MemItem → ℕ → Bool
has_addr it addr = leb it.base addr && ltb addr (add32 it.base it.size)

unfoldable pub any_memory : List MemItem → ℕ → Bool
any_memory [] addr = false
any_memory (it ∷ rest) addr = has_addr it addr || any_memory rest addr

module _ {S : Type 0} where
  unfoldable pub valid_addr : Cosim S → ℕ → Bool
  valid_addr s addr = any_memory s.mems addr

module _ {S : Type 0} (api : MemApi S) where
  -- The loop of `create_memory`: every memory makes the region, whatever the others answer.
  unfoldable pub create_all :
      List MemItem → (ℕ → S) → Bool → ℕ → ℕ → Option (ℕ → ℕ) → Outcome ((ℕ → S) × Bool)
  create_all [] objects so_far addr size buffer = ok (objects, so_far)
  create_all (it ∷ rest) objects so_far addr size buffer = do
    made ← api.create_memory (objects it.mem) addr size buffer
    create_all rest (update objects it.mem made.0) (so_far && made.1) addr size buffer

  unfoldable pub create_memory : Cosim S → ℕ → ℕ → Option (ℕ → ℕ) → Outcome (Cosim S × Bool)
  create_memory s addr size buffer = do
    made ← create_all s.mems s.objects true addr size buffer
    ok (record s { objects = made.0 }, made.1)

  -- The loop of `write`: every memory that has the address takes the byte.
  unfoldable pub write_all : List MemItem → (ℕ → S) → ℕ → ℕ → Outcome (ℕ → S)
  write_all [] objects addr value = ok objects
  write_all (it ∷ rest) objects addr value =
      if has_addr it addr
      then (do
        x ← api.write (objects it.mem) addr value
        write_all rest (update objects it.mem x) addr value)
      else write_all rest objects addr value

  unfoldable pub write : Cosim S → ℕ → ℕ → Outcome (Cosim S)
  write s addr value = do
    objects ← write_all s.mems s.objects addr value
    ok (record s { objects = objects })

  -- The loop of `read`: the first memory that has the address answers.
  unfoldable pub read_first : List MemItem → (ℕ → S) → ℕ → Outcome ℕ
  read_first [] objects addr = ok 0
  read_first (it ∷ rest) objects addr =
      if has_addr it addr then api.read (objects it.mem) addr else read_first rest objects addr

  unfoldable pub read : Cosim S → ℕ → Outcome ℕ
  read s addr = read_first s.mems s.objects addr

  -- The loop of `write_word` from round `i` on, with the rounds that are left.
  unfoldable pub write_bytes : Cosim S → ℕ → ℕ → ℕ → ℕ → Outcome (Cosim S)
  write_bytes s addr value zero i = ok s
  write_bytes s addr value (suc left) i = do
    s' ← write s (add32 addr i) (shr32 value (i * 8) % 2 ^ 8)
    write_bytes s' addr value left (i + 1)

  unfoldable pub write_word : Cosim S → ℕ → ℕ → Outcome (Cosim S)
  write_word s addr value = write_bytes s addr value 4 0

  unfoldable pub read_bytes : Cosim S → ℕ → ℕ → ℕ → ℕ → Outcome ℕ
  read_bytes s addr value zero i = ok value
  read_bytes s addr value (suc left) i = do
    b ← read s (add32 addr i)
    read_bytes s addr (bit_or value (shl32 b (i * 8))) left (i + 1)

  unfoldable pub read_word : Cosim S → ℕ → Outcome ℕ
  read_word s addr = read_bytes s addr 0 4 0
