-- ===== src/Isa/Decode.antt =====
-- The chain of tests of `Riscv::execute`, with the masks and values of isa_sim/riscv_isa.h.
mod Rows
pub mod Masks
pub mod RoundTrip
use system_on_chip_design_pr.Base.{
  ℕ, List, [], ◌∷◌, ◌++◌, Option, none, some, Bool, bit_and, ◌==◌, if◌then◌else◌,
}
use system_on_chip_design_pr.Isa.Inst.{Inst}
use Rows.{Row, rows}

-- `(opcode & MASK) == VALUE`.
abbrev pub matches : ℕ → ℕ × ℕ → Bool
matches opcode (mask, value) = bit_and opcode mask == value

-- The first row that fits decides.
unfoldable pub first_match : ℕ → List Row → Option Inst
first_match opcode [] = none
first_match opcode ((test, inst) ∷ rest) =
    if matches opcode test then some inst else first_match opcode rest

-- `none` is the last `else`: a bad instruction.
unfoldable pub decode : ℕ → Option Inst
unfolding first_match
decode opcode = first_match opcode rows
