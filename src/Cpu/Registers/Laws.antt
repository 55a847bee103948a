-- ===== src/Cpu/Registers/Laws.antt =====
-- Reading a register back.
use system_on_chip_design_pr.Base.{ℕ, ◌^◌, ◌<◌, ◌≢◌, ◌≡◌, refl, arith}
use system_on_chip_design_pr.Cpu.{Cpu}
use system_on_chip_design_pr.Cpu.Registers.{
  Register, general, unknown, put, fetch, set_register, get_register, register_of, source_of,
}

fetch-put : (r : Register) (c : Cpu) (v : ℕ) → r ≢ unknown → fetch r (put r c v) ≡ v
unfolding fetch put
fetch-put (general r) c v h = ground arith
fetch-put unknown c v h = absurd (h refl)
fetch-put r c v h = refl

-- Both chains of tests name the same register.
source_of-register_of : (r : ℕ) → source_of r ≡ register_of r
unfolding source_of register_of
source_of-register_of r = refl

-- A known register that is written with a 32-bit value reads back as the value.
pub get_register-set_register :
    (c : Cpu) (r v : ℕ)
    → register_of r ≢ unknown
    → v < 2 ^ 32
    → get_register (set_register c r v) r ≡ v
unfolding get_register set_register
get_register-set_register c r v known fits =
    rw (source_of-register_of r, fetch-put (register_of r) c v known) (omega arith)

-- An unknown number reads as 0, and writing it changes nothing.
pub set_register-unknown :
    (c : Cpu) (r v : ℕ)
    → register_of r ≡ unknown
    → (set_register c r v ≡ c) × (get_register c r ≡ 0)
unfolding get_register set_register fetch put
set_register-unknown c r v e = (rw e refl, rw (source_of-register_of r, e) refl)
