-- ===== src/Examples/Programs.antt =====
-- Programs run to a result.
use system_on_chip_design_pr.Base.{◌≡◌, refl, ℕ, [], ◌∷◌}
use system_on_chip_design_pr.Outcome.{Outcome, ok, ◌>>=◌}
use system_on_chip_design_pr.Cpu.Step.{step, tick, count_instruction, hit_breakpoint}
use system_on_chip_design_pr.Cpu.Execute.{
  execute, exec_opcode, exec_inst, exec_load, exec_store, retire, write_register, operands,
}
use system_on_chip_design_pr.Cpu.Execute.Interrupts.{service_interrupt}
use system_on_chip_design_pr.Cpu.Mmu.{mmu_i_translate, mmu_d_translate}
use system_on_chip_design_pr.Cpu.Regions.{get_opcode, read32, load_regions, store_regions}
use system_on_chip_design_pr.Cpu.Access.{load, store, count_load, count_store, record_result}
use system_on_chip_design_pr.Isa.Decode.{decode}
use system_on_chip_design_pr.Cpu.Alu.{alu_immediate, alu_register, alu_multiply}
use system_on_chip_design_pr.Isa.Fields.{
  rd_field, rs1_field, rs2_field, imm12_field, storeimm_field,
}
use system_on_chip_design_pr.Memory
use system_on_chip_design_pr.Examples.Machine.{machine, run}

abbrev result : Outcome ℕ
result = do
  -- addi x1, x0, 5; add x2, x1, x1; sw x2, 32(x0); lw x3, 32(x0); mul x4, x3, x3
  c ← run 5 (machine (0x00500093 ∷ 0x00108133 ∷ 0x02202023 ∷ 0x02002183 ∷ 0x02318233 ∷ []))
  ok (c.gpr 4)

-- The program leaves 100 in x4.
program_result : result ≡ ok 100
unfolding step count_instruction hit_breakpoint execute exec_opcode exec_inst exec_load exec_store
    retire write_register operands service_interrupt mmu_i_translate mmu_d_translate get_opcode
    read32 load_regions store_regions load store count_load count_store record_result decode
    alu_immediate alu_register alu_multiply rd_field rs1_field rs2_field imm12_field storeimm_field
    Memory.load Memory.store tick
program_result = refl
