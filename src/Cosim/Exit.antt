-- ===== src/Cosim/Exit.antt =====
-- `cosim::at_exit` of isa_sim/cosim_api.cpp: the dump of memory at the end of a run. The exit status
-- and the file that is written, if one is, are its result. `fopen` is a parameter: whether it opens
-- the file. The host is little-endian, as it is where the simulator runs.
pub mod Signature
pub mod Contents
use system_on_chip_design_pr.Base.{
  ℕ, zero, suc, ◌+◌, ◌-◌, ◌*◌, ◌/◌, ◌%◌, ◌^◌, ◌<◌, ◌≡◌, refl, Bool, true, false, ◌&&◌, List, [],
  ◌∷◌, ◌++◌, Option, none, some, arith, if◌then◌else◌, ◌==◌, add32, sub32, is_neg, All,
}
use system_on_chip_design_pr.Base.Text.{Text, codes, equal_text, hex_digits, length}
use system_on_chip_design_pr.Outcome.{Outcome, ok, abort, ◌>>=◌}
use system_on_chip_design_pr.Cosim.{MemApi, MemItem, Cosim, Dump}
use system_on_chip_design_pr.Cosim.Memory.{read}

-- `strrchr`: the text from the last such character on.
unfoldable pub strrchr : Text → ℕ → Option Text
strrchr [] c = none
strrchr (x ∷ xs) c = elim (strrchr xs c) [
  | some t ↦ some t
  | none ↦ if x == c then some (x ∷ xs) else none
]

unfoldable pub sig_txt_file : Text → Bool
sig_txt_file file = elim (strrchr file b'.') [
  | none ↦ false
  | some ext ↦ equal_text ext (codes ".output")
]

-- `buffer[i]`; no loop leaves the buffer.
unfoldable pub byte_at : List ℕ → ℕ → ℕ
byte_at [] i = 0
byte_at (b ∷ bs) zero = b
byte_at (b ∷ bs) (suc i) = byte_at bs i

-- `*(uint32_t*)&buffer[i]`.
unfoldable pub word_at : List ℕ → ℕ → ℕ
word_at buffer i =
    byte_at buffer i
    + byte_at buffer (i + 1) * 256
    + byte_at buffer (i + 2) * 65536
    + byte_at buffer (i + 3) * 16777216

-- The inner loop from column `c` on, and the outer one from row `r` on, with the rounds left.
unfoldable pub print_columns : List ℕ → ℕ → ℕ → ℕ → Text
print_columns buffer r zero c = []
print_columns buffer r (suc left) c =
    hex_digits 8 (word_at buffer (r * 16 + (12 - c))) ++ print_columns buffer r left (c + 4)

unfoldable pub print_rows : List ℕ → ℕ → ℕ → Text
print_rows buffer zero r = []
print_rows buffer (suc left) r =
    print_columns buffer r 4 0 ++ b'\n' ∷ print_rows buffer left (r + 1)

-- What is written for a buffer of `dump_size` bytes.
unfoldable pub file_contents : Text → List ℕ → ℕ → Text
file_contents file buffer dump_size =
    if sig_txt_file file then print_rows buffer (dump_size / 16) 0 else buffer

module _ {S : Type 0} (api : MemApi S) (opens : Text → Bool) where
  -- The loop that fills the buffer, from byte `i` on.
  unfoldable pub read_range : Cosim S → ℕ → ℕ → ℕ → Outcome (List ℕ)
  read_range s start zero i = ok []
  read_range s start (suc left) i = do
    b ← read api s (add32 start i)
    rest ← read_range s start left (i + 1)
    ok (b ∷ rest)

  -- A negative size makes `new` throw, which nothing catches.
  -- The `delete` of the buffer behind it, which `new[]` made, is taken to change nothing.
  unfoldable pub dump_memory : Cosim S → Dump → Outcome (Option (Text × Text))
  dump_memory s d =
      let dump_size = sub32 d.end_ d.start in
      if is_neg dump_size then abort else do
        buffer ← read_range s d.start dump_size 0
        ok (if opens d.file then some (d.file, file_contents d.file buffer dump_size) else none)

  -- The dump if a file is set, and the end.
  unfoldable pub exit_after : Cosim S → Option Dump → ℕ → Outcome (Option (Text × Text) × ℕ)
  exit_after s none exit_code = ok (none, exit_code)
  exit_after s (some d) exit_code = do written ← dump_memory s d; ok (written, exit_code)

  unfoldable pub at_exit : Cosim S → ℕ → Outcome (Option (Text × Text) × ℕ)
  at_exit s exit_code = exit_after s s.dump exit_code
