-- ===== src/Examples.antt =====
-- Concrete machines and programs, and the theorems applied to them.
mod Machine
mod Programs
mod MemoryWitnesses
mod InstructionWitnesses
mod CpuWitnesses
mod StepWitnesses
mod CosimWitnesses
mod SimulatorWitnesses
mod TestbenchWitnesses
mod TopWitnesses
mod AxiWitnesses
mod CommandLineWitnesses
mod BenchWitnesses
