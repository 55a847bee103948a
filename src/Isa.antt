-- ===== src/Isa.antt =====
-- isa_sim/riscv_isa.h: the encoding of instructions and the numbers of the architecture.
pub mod Status
pub mod CsrNumber
pub mod Mmu
pub mod Inst
pub mod Fields
pub mod Decode
pub mod Dump
pub mod Classes
