-- ===== src/Examples/StepWitnesses.antt =====
-- A program that runs, and the theorems on steps at it.
use system_on_chip_design_pr.Base.{◌≡◌, refl, [], ◌∷◌, false}
use system_on_chip_design_pr.Outcome.{Outcome, ok, exit, abort, undefined}
use system_on_chip_design_pr.Cpu.{Cpu}
use system_on_chip_design_pr.Cpu.Step.{step, count_instruction, hit_breakpoint}
use system_on_chip_design_pr.Cpu.Step.Invariant.{Intact, step-Intact}
use system_on_chip_design_pr.Cpu.Step.Runs.{constructed, written32, stepped, Reached-IsClear}
use system_on_chip_design_pr.Cpu.Breakpoints.{construct, reset}
use system_on_chip_design_pr.Cpu.Regions.{
  create_memory, attach_memory, get_opcode, read32, load_regions, write32, store_regions,
}
use system_on_chip_design_pr.Memory
use system_on_chip_design_pr.Cpu.Execute.{
  execute, exec_opcode, exec_inst, retire, write_register, operands,
}
use system_on_chip_design_pr.Cpu.Execute.Interrupts.{service_interrupt}
use system_on_chip_design_pr.Cpu.Mmu.{mmu_i_translate}
use system_on_chip_design_pr.Isa.Decode.{decode}
use system_on_chip_design_pr.Isa.Fields.{rd_field, imm12_field}
use system_on_chip_design_pr.Cpu.Alu.{alu_immediate}
use system_on_chip_design_pr.Examples.Machine.{machine, words_of}

-- The state in an outcome, or the given one.
abbrev value_or : Cpu → Outcome Cpu → Cpu
value_or c (ok c') = c'
value_or c (exit n) = c
value_or c abort = c
value_or c undefined = c

-- addi x1, x0, 5
abbrev before : Cpu
before = machine (0x00500093 ∷ [])

abbrev after : Cpu
after = value_or before (step before)

before-step : step before ≡ ok after
unfolding step execute mmu_i_translate count_instruction get_opcode read32 load_regions Memory.load
    exec_opcode decode exec_inst alu_immediate
before-step = refl

step-Intact_example : Intact before after
step-Intact_example = step-Intact before after before-step

-- A processor constructed with 64 bytes of memory at 0x100, where `addi x1, x0, 5` is written.
abbrev new : Cpu
new = value_or before (construct before 0x100 64 (words_of []))

new-construct : construct before 0x100 64 (words_of []) ≡ ok new
unfolding construct create_memory
new-construct = refl

abbrev with_program : Cpu
with_program = value_or new (write32 new 0x100 0x00500093)

with_program-write32 : write32 new 0x100 0x00500093 ≡ ok with_program
unfolding construct create_memory write32 store_regions Memory.store reset attach_memory
    Memory.reset
with_program-write32 = refl

abbrev has_run : Cpu
has_run = value_or with_program (step with_program)

has_run-step : step with_program ≡ ok has_run
unfolding construct create_memory attach_memory reset write32 store_regions Memory.store step
    execute mmu_i_translate count_instruction get_opcode read32 load_regions Memory.load
    Memory.reset exec_opcode decode exec_inst alu_immediate
has_run-step = refl

has_run-x1 : has_run.gpr 1 ≡ 5
unfolding construct create_memory attach_memory reset write32 store_regions Memory.store step
    execute mmu_i_translate count_instruction get_opcode read32 load_regions Memory.load
    Memory.reset exec_opcode decode exec_inst alu_immediate retire write_register service_interrupt
    hit_breakpoint operands rd_field imm12_field
has_run-x1 = refl

Reached-IsClear_example : (has_run.gpr 0 ≡ 0) × (has_run.fault ≡ false)
Reached-IsClear_example = Reached-IsClear has_run (
    stepped with_program has_run
      (written32 new with_program 0x100 0x00500093
        (constructed before new 0x100 64 (words_of []) new-construct) with_program-write32)
      has_run-step)
