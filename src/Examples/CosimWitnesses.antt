-- ===== src/Examples/CosimWitnesses.antt =====
-- The theorems on the cosimulation at machines of 64 bytes.
use system_on_chip_design_pr.Base.{
  ◌↔◌, ℕ, ◌≡◌, refl, true, [], ◌∷◌, none, some, update, arith, if◌then◌else◌, ◌/◌, ◌%◌, ◌<◌, add32,
  sub32,
}
use system_on_chip_design_pr.Outcome.{Outcome, ok, exit, abort, undefined, ◌>>=◌}
use system_on_chip_design_pr.Memory
use system_on_chip_design_pr.Cpu.{Cpu}
use system_on_chip_design_pr.Cpu.Step
use system_on_chip_design_pr.Cpu.Step.{count_instruction}
use system_on_chip_design_pr.Cpu.Regions.{get_opcode, read32, load_regions}
use system_on_chip_design_pr.Cpu.Execute.{
  execute, exec_opcode, exec_inst, retire, write_register, operands,
}
use system_on_chip_design_pr.Cpu.Execute.Interrupts.{service_interrupt}
use system_on_chip_design_pr.Isa.Fields.{rd_field, imm12_field}
use system_on_chip_design_pr.Cpu.Mmu.{mmu_i_translate}
use system_on_chip_design_pr.Cpu.Registers.{get_register, source_of, fetch}
use system_on_chip_design_pr.Isa.Decode.{decode}
use system_on_chip_design_pr.Cpu.Alu.{alu_immediate}
use system_on_chip_design_pr.Cosim.{
  Cosim, CpuItem, Dump, each, any_cpu, compare_event, compare_events, compare_pcs, compare_register,
  compare_registers, compare_states, step,
}
use system_on_chip_design_pr.Cosim.Lockstep.Complete.{compare_states-InStep}
use system_on_chip_design_pr.Cosim.Lockstep.{InStep, step-InStep}
use system_on_chip_design_pr.Cosim.Single.{drop_events, step-single}
use system_on_chip_design_pr.Cosim.Riscv.{cpu_api, mem_api, mem_laws}
use system_on_chip_design_pr.Cosim.Memory.{any_memory, valid_addr, write_word, read_word}
use system_on_chip_design_pr.Cosim.Words.{IsBacked, Holds, read_word-write_word}
use system_on_chip_design_pr.Cosim.Exit.{sig_txt_file, at_exit}
use system_on_chip_design_pr.Cosim.Exit.Signature.{number_lines}
use system_on_chip_design_pr.Cosim.Exit.Contents.{values, at_exit-contents}
use system_on_chip_design_pr.Base.Text.{codes}
use system_on_chip_design_pr.Examples.Machine.{machine, memory_of, words_of}
use system_on_chip_design_pr.Examples.MemoryWitnesses.{two_words, region_of-IsRegion}
use system_on_chip_design_pr.Memory.Access.{byte}
use system_on_chip_design_pr.Memory.Bytes.{lane-lt}

-- addi x1, x0, 5, at both of two processors.
abbrev two : Cosim Cpu
two = record {
  cpus = record { name = "a"; cpu = 0 } ∷ record { name = "b"; cpu = 1 } ∷ [];
  mems = [];
  dump = none;
  objects = λ p. machine (0x00500093 ∷ []);
}

abbrev value_or : Cosim Cpu → Outcome (Cosim Cpu) → Cosim Cpu
value_or s (ok s') = s'
value_or s (exit n) = s
value_or s abort = s
value_or s undefined = s

abbrev two_after : Cosim Cpu
two_after = value_or two (step cpu_api two)

two-step : step cpu_api two ≡ ok two_after
unfolding step each any_cpu compare_event compare_events compare_pcs compare_register
    compare_registers compare_states Step.step execute mmu_i_translate count_instruction get_opcode
    read32 load_regions Memory.load exec_opcode decode exec_inst alu_immediate get_register
    source_of fetch Step.hit_breakpoint retire service_interrupt write_register operands rd_field
    imm12_field
two-step = refl

step-InStep_example : (two_after.cpus ≡ two.cpus) × InStep cpu_api two_after.cpus two_after.objects
step-InStep_example = step-InStep cpu_api two two_after two-step

abbrev pub one_item : CpuItem
one_item = record { name = "sim"; cpu = 0 }

abbrev one : Cosim Cpu
one = record two { cpus = one_item ∷ [] }

step-single_example : step cpu_api one ≡ (do
  x ← cpu_api.step (drop_events cpu_api (one.objects 0))
  ok (record one { objects = update one.objects 0 x }))
step-single_example = step-single cpu_api one one_item refl

-- One machine, which is the memory of all addresses but the last.
abbrev pub fresh : ℕ → ℕ → ℕ
fresh a i = 0

abbrev pub dump : Dump
dump = record { file = codes "memory.output"; start = 0; end_ = 16 }

abbrev pub memory_cosim : Cosim Cpu
memory_cosim = record {
  cpus = one_item ∷ [];
  mems = record { name = "sim"; mem = 0; base = 0; size = 0xFFFF_FFFF } ∷ [];
  dump = some dump;
  objects = λ p. machine two_words;
}

pub memory_cosim-IsBacked :
    (b : ℕ) → b < 64 → IsBacked (mem_api fresh) (mem_laws fresh) memory_cosim b
unfolding valid_addr any_memory
memory_cosim-IsBacked b inside = (
  ground arith,
  ((λ h. ((region_of-IsRegion, tt), byte (memory_of two_words) b, ground arith, tt)), tt),
)

read_word-write_word_example :
    (s' : Cosim Cpu) × (write_word (mem_api fresh) memory_cosim 6 0xCAFEBABE ≡ ok s')
    × (read_word (mem_api fresh) s' 6 ≡ ok 0xCAFEBABE)
read_word-write_word_example =
    read_word-write_word (mem_api fresh) (mem_laws fresh) memory_cosim 6 0xCAFEBABE (omega arith)
      (λ i h. memory_cosim-IsBacked (add32 6 i) (omega arith))

abbrev dump_byte : ℕ → ℕ
dump_byte j = byte (memory_of two_words) j

memory_cosim-Holds :
    (j : ℕ)
    → j < sub32 dump.end_ dump.start
    → Holds (mem_api fresh) (mem_laws fresh) memory_cosim (add32 dump.start j) (dump_byte j)
unfolding valid_addr any_memory
memory_cosim-Holds j h =
    let same : add32 0 j ≡ j = omega arith in
    rw same
      (ground arith, ((λ h'. ((region_of-IsRegion, tt), dump_byte j, ground arith, refl)), tt))

at_exit-contents_example :
    at_exit (mem_api fresh) (λ file. true) memory_cosim 0
    ≡ ok (
      some (
        dump.file,
        if sig_txt_file dump.file
            then number_lines
                (values dump_byte (sub32 dump.end_ dump.start) 0)
                (sub32 dump.end_ dump.start / 16)
                0
            else values dump_byte (sub32 dump.end_ dump.start) 0,
      ),
      0,
    )
at_exit-contents_example =
    at_exit-contents (mem_api fresh) (mem_laws fresh) (λ file. true) memory_cosim dump 0 dump_byte
      refl refl (λ j. lane-lt (words_of two_words (j / 4)) (j % 4)) memory_cosim-Holds refl

compare_states-InStep_example :
    (compare_states cpu_api two_after.cpus two_after.objects ≡ ok tt)
    ↔ InStep cpu_api two_after.cpus two_after.objects
compare_states-InStep_example = compare_states-InStep cpu_api two_after.cpus two_after.objects
