-- ===== src/Cpu/Mmu/Sv32/Rounds.antt =====
-- `mmu_walk` of isa_sim/riscv.cpp against the Sv32 scheme.
use system_on_chip_design_pr.Base.{ℕ, ◌+◌, ◌-◌, ◌*◌, ◌%◌, ◌^◌, ◌≡◌}
use system_on_chip_design_pr.Outcome.{Outcome, ok}
use system_on_chip_design_pr.Cpu.{Cpu}
use system_on_chip_design_pr.Cpu.Mmu.{walk_loop, physical_address}
use system_on_chip_design_pr.Cpu.Mmu.Sv32.{
  Level, pages, superpages, Result, no_entry, reserved, too_deep, misaligned, mapped,
}
use system_on_chip_design_pr.Cpu.Mmu.Sv32.Entries.{Faults}

-- What a walk of the simulator has to give for a result of the scheme: an entry through which both
-- translations fault, or the page and the flags of a leaf. It differs from the scheme in the two
-- other cases: it reads an entry of a third table, and takes an unaligned superpage.
abbrev pub Gives : Cpu → ℕ → Outcome ℕ → Result → Type 0
Gives c addr walk no_entry = (walk ≡ ok 0) × Faults 0
Gives c addr walk (reserved page flags) =
    (walk ≡ ok (page * 4096 + flags)) × Faults (page * 4096 + flags)
Gives c addr walk (too_deep table) = walk ≡ walk_loop 2 c addr (2 ^ 32 - 1) table
Gives c addr walk (misaligned page flags) = walk ≡ ok (page * 4096 + flags)
Gives c addr walk (mapped page flags) =
    (walk ≡ ok (page * 4096 + flags))
    × (physical_address (page * 4096 + flags) addr ≡ page * 4096 + addr % 4096)

-- The rounds that a level needs, and two that are left.
abbrev rounds : Level → ℕ
rounds pages = 3
rounds superpages = 4
