-- ===== src/Lib.antt =====
-- A verification library for the RISC-V instruction set simulator in isa_sim, and for the memories
-- and the connections of the testbenches in top_cache_axi/tb and top_tcm_axi/tb.
--
-- The program. `Riscv` (isa_sim/riscv.h, isa_sim/riscv.cpp) simulates an RV32IM processor with
-- machine, supervisor and user modes and Sv32 address translation, one instruction a call of
-- `step`. It reads and writes memories (`SimpleMemory`, isa_sim/memory.h) that are attached as
-- regions of the physical address space. isa_sim/riscv_isa.h has the encodings, the numbers of the
-- control registers and the bits of the status. Debuggers reach the registers by number, and set
-- breakpoints. The class `cosim` (isa_sim/cosim_api.h, isa_sim/cosim_api.cpp) steps several
-- processors together, compares them after each step, and gives their memories one address space;
-- the main program (isa_sim/main.cpp, isa_sim/riscv_main.cpp) attaches one `Riscv` to it, loads an
-- ELF file (isa_sim/elf_load.cpp) and steps the processor until it stops. The disassembler
-- (isa_sim/riscv_inst_dump.cpp) prints instructions for the trace. The testbench of the cache top
-- serves the hardware from an AXI slave (top_cache_axi/tb/tb_axi4_mem.cpp) over regions of bytes
-- (top_cache_axi/tb/tb_memory.h).
--
-- The files.
--   Base, Base/...        Boolean tests, 32-bit words with the wrap-around written out, and the
--                         bits of a number, on the native numbers; Base/Text has texts and the
--                         conversions of sprintf.
--   Outcome               How a call ends: `ok`, `exit` (a call of exit), `abort` (a failed
--                         assert), or `undefined` (undefined behaviour of C++);
--                         Outcome/Ensures has what holds of the value of a run.
--   Memory                `SimpleMemory` of isa_sim/memory.h. Memory/Bytes has the bytes of a word,
--                         Memory/Access the array of bytes that loads and stores read and change.
--   Isa/...               isa_sim/riscv_isa.h: CsrNumber, Status and Mmu the constants, Inst the
--                         instructions, Classes their names and the macros of their groups, Fields
--                         the extraction of the fields of an opcode, Decode
--                         the chain of tests of `Riscv::execute`. Fields/Encoding is an assembler
--                         written from the manual's formats (doc/riscv_isa_spec.pdf). Isa/Dump is
--                         isa_sim/riscv_inst_dump.cpp.
--   Cpu                   The state of the class `Riscv`, with the variables of isa_sim/riscv.h.
--   Cpu/Regions           attach_memory, create_memory, valid_addr, write, write32, read, read32,
--                         get_opcode, mmu_read_word; below it, memory as a partial map of bytes.
--   Cpu/Registers         set_pc, set_register, get_register.
--   Cpu/Breakpoints       The breakpoints, get_break, set_interrupt, reset and the constructor.
--   Cpu/Trap              exception, and the branches of mret and sret.
--   Cpu/Mmu               mmu_walk, mmu_i_translate, mmu_d_translate, with CONFIG_MMU; Cpu/Mmu/Sv32
--                         describes the Sv32 scheme apart from them.
--   Cpu/Access            load, store.
--   Cpu/CsrAccess         access_csr, stats_reset, stats_dump.
--   Cpu/Alu               The values that the instructions of execute compute.
--   Cpu/Execute           execute; Cpu/Execute/Interrupts its pending interrupts.
--   Cpu/Step              step, with the timer and the breakpoint flag; below it, what each part of
--                         a step leaves alone, and sequences of steps.
--   Cosim                 The class `cosim` of isa_sim/cosim_api.h: attach_cpu, attach_mem, reset,
--                         step and the rest of the interface of a processor; Cosim/Memory has
--                         create_memory, valid_addr and the accesses, Cosim/Exit at_exit, and
--                         Cosim/Riscv the class `Riscv` as a processor and as a memory. Cosim/Bytes
--                         states the contract that the attached memories have to keep.
--   Elf                   elf_load and elf_get_symbol of isa_sim/elf_load.cpp.
--   Simulator             isa_sim/riscv_main.cpp: the options, the loop, and riscv_main;
--                         Simulator/Main is isa_sim/main.cpp.
--   Testbench/...         top_cache_axi/tb: Regions is tb_memory.h, Axi axi4.h and axi4_defines.h,
--                         Burst and Process tb_axi4_mem.cpp, Bench the memories of testbench.h, and
--                         CacheTop riscv_top.h and riscv_top.cpp, and CommandLine main.cpp.
--                         top_tcm_axi/tb: AxiLite is axi4_lite.h, TcmTop riscv_tcm_top_rtl.h and
--                         riscv_tcm_top_rtl.cpp, and TcmBench the memory of testbench.h.
--                         Bench/Contract is the testbench as a memory of the cosimulation, and
--                         Bench/Reached has the states that its memories reach.
--                         Regions/Bytes has the bytes of the memory, Process/Words the accesses
--                         of 32 bits on them.
--   Examples              A small machine, a program on it, and the theorems at concrete inputs.
--
-- Conventions. A method takes the state and returns the state after it, with its result, as an
-- Outcome. A 32-bit variable is a number below 2^32; signed variables hold the same bits. `error`
-- ends the process (it calls exit(-1) whatever its arguments), so nothing follows it. An access
-- outside an array and a shift by 32 or more are `undefined`; a signed multiplication is taken to
-- wrap. Trace output is left out. What the processor sends to the statistics interface, the
-- console and the standard output is recorded in order; the console's answers are a stream of
-- numbers that the state holds. `cosim` reaches processors and memories by pointers, which are
-- numbers, since isa_sim/main.cpp attaches one object as both; its theorems hold for all objects
-- with the interface. Parameters stand for what the program takes from other libraries: what
-- libelf and bfd answer for a file, the results of getopt, strtoul and strtol, the environment,
-- whether fopen succeeds, whether sprintf is defined for a format of the simulated program, the
-- values of rand, the time of SystemC, and the pins of the generated model of the hardware.
-- riscv_main is modelled for the call of isa_sim/main.cpp, which hands it the processor itself. A
-- dump is written on a little-endian host; the release of its buffer, a delete of an array, is
-- taken to change nothing.
--
-- Fuel and bounds. The loop of mmu_walk does not end by its own test, since its index is unsigned;
-- it has a fuel of 4 rounds, which is enough, since the fourth round's shift is undefined. The loop
-- of the simulated printf reads at most 1023 bytes, as its buffer has. All other loops run over the
-- regions, the breakpoints, the interrupt numbers, the attached objects, the sections and symbols
-- of a file, or a count that is known, with one exception: the loop of riscv_main has no bound
-- without the option -c, and runs on fuel; with the option, as much fuel as the limit is enough.
-- The loops of create_memory in top_cache_axi/tb/testbench.h have 2^32 rounds, after which they
-- have tried every address and would never end, which has no meaning in C++. The digits of a number
-- have as many places as the largest one of 32 bits.
--
-- Not modelled. The macro IS_RD_I_INST of isa_sim/riscv_isa.h, which cannot be compiled, and the
-- constants there that nothing uses. The messages of the simulator. In top_cache_axi/tb and
-- top_tcm_axi/tb the printing and the tracing of signals, the waveforms, the handlers and the start
-- of SystemC in main.cpp, and the parts of testbench.h that wait for SystemC or read the generated
-- model of the hardware. The Verilog of the core and the tops, and the test programs.
pub mod Base
pub mod Outcome
pub mod Memory
pub mod Isa
pub mod Cpu
pub mod Cosim
pub mod Elf
pub mod Simulator
pub mod Testbench
pub mod Examples
