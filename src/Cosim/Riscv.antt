-- ===== src/Cosim/Riscv.antt =====
-- isa_sim/riscv.h: the class `Riscv` as `cosim_cpu_api` and as `cosim_mem_api`.
use system_on_chip_design_pr.Base.{
  ℕ, ◌-◌, ◌/◌, ◌%◌, ◌<◌, ◌≡◌, inl, refl, ap, true, false, List, [], ◌∷◌, none, some, arith,
  if◌then◌else◌, ◌==◌,
}
use system_on_chip_design_pr.Outcome.{ok}
use system_on_chip_design_pr.Memory.Bytes.{lane-lt}
use system_on_chip_design_pr.Cpu.{Cpu, CosimEvent, Region}
use system_on_chip_design_pr.Cpu.Regions
use system_on_chip_design_pr.Cpu.Regions.{load_regions, store_regions}
use system_on_chip_design_pr.Cpu.Regions.Bytes.{AreRegions, memory_byte, store_regions-Stored}
use system_on_chip_design_pr.Cpu.Regions.Loads.{load_regions-value}
use system_on_chip_design_pr.Cpu.Regions.RoundTrip.{memory_byte-valid}
use system_on_chip_design_pr.Cpu.Registers
use system_on_chip_design_pr.Cpu.Breakpoints
use system_on_chip_design_pr.Cpu.Step
use system_on_chip_design_pr.Cosim.{EventKind, load, load_result, store, CpuApi, MemApi}
use system_on_chip_design_pr.Cosim.Bytes.{MemLaws}

abbrev pub events : Cpu → EventKind → List CosimEvent
events c load = c.io.load_events
events c load_result = c.io.load_result_events
events c store = c.io.store_events

abbrev pub with_events : Cpu → EventKind → List CosimEvent → Cpu
with_events c load q = record c { io = record c.io { load_events = q } }
with_events c load_result q = record c { io = record c.io { load_result_events = q } }
with_events c store q = record c { io = record c.io { store_events = q } }

abbrev pub cpu_api : CpuApi Cpu
cpu_api = record {
  reset = Breakpoints.reset;
  get_fault = λ c. c.fault;
  get_stopped = λ c. c.brk;
  step = Step.step;
  get_opcode = λ c. Regions.get_opcode c c.pc_x;
  get_pc = λ c. c.pc_x;
  get_reg_valid = λ c r. true;
  get_register = Registers.get_register;
  get_num_reg = λ c. 32;
  set_register = Registers.set_register;
  set_interrupt = Breakpoints.set_interrupt;
  enable_trace = λ c mask. record c { trace = mask };
  event_q = events;
  set_event_q = with_events;
}

-- What a new array holds is not initialised: it is the first parameter, by the address.
abbrev pub mem_api : (ℕ → ℕ → ℕ) → MemApi Cpu
mem_api fresh = record {
  create_memory = λ c base_addr len buffer.
      Regions.create_memory c base_addr len (elim buffer [ none ↦ fresh base_addr | some w ↦ w ]);
  valid_addr = λ c. Regions.valid_addr c.regions;
  write = Regions.write;
  read = Regions.read;
}

memory_byte-lt : (rs : List Region) (a v : ℕ) → memory_byte rs a ≡ some v → v < 256
memory_byte-lt [] a v e = cc
memory_byte-lt (r ∷ rs) a v e =
    ground
      (arith, memory_byte-lt rs a v, lane-lt (r.memory.words ((a - r.base) / 4)) ((a - r.base) % 4))

pub write-writes :
    (c : Cpu) (a old v : ℕ)
    → AreRegions c.regions
    → v < 256
    → memory_byte c.regions a ≡ some old
    → (c' : Cpu) × (Regions.write c a v ≡ ok c')
      × AreRegions c'.regions
      × ((b : ℕ) → memory_byte c'.regions b ≡ (if a == b then some v else memory_byte c.regions b))
unfolding Regions.write
write-writes c a old v good fits is =
    let (rs', done, good', stored) =
      store_regions-Stored c.regions a v 1 good (omega arith) (inl refl)
        (memory_byte-valid c.regions a old is) in
    (record c { regions = rs' }, rw done refl, good', λ b. ground (arith, stored b))

pub read-reads :
    (c : Cpu) (a v : ℕ)
    → AreRegions c.regions
    → memory_byte c.regions a ≡ some v
    → Regions.read c a ≡ ok v
unfolding Regions.read
read-reads c a v good is =
    rw
      (
        load_regions-value c.regions a 1 false good (inl refl) (memory_byte-valid c.regions a v is),
        is,
      )
      (ap ok (omega (arith, memory_byte-lt c.regions a v is)))

-- The memory of the simulator keeps the contract that the cosimulation asks for.
abbrev pub mem_laws : (fresh : ℕ → ℕ → ℕ) → MemLaws (mem_api fresh)
mem_laws fresh = record {
  Good = λ c. AreRegions c.regions;
  byte_at = λ c. memory_byte c.regions;
  write_lem = write-writes;
  read_lem = read-reads;
}
