-- ===== src/Cosim.antt =====
-- isa_sim/cosim_api.h and isa_sim/cosim_api.cpp: several processors run in step, over shared
-- memories. An object is reached by a pointer, a number, so that one object can be attached as a
-- processor and as a memory, as isa_sim/main.cpp does.
pub mod Memory
pub mod Lockstep
pub mod Single
pub mod Bytes
pub mod Words
pub mod Exit
pub mod Riscv
use Prim.Native.String.{String}
use system_on_chip_design_pr.Base.{
  ℕ, zero, suc, ◌+◌, ◌*◌, ◌/◌, ◌%◌, ◌^◌, Bool, true, false, not, ◌&&◌, ◌||◌, List, [], ◌∷◌, ◌++◌,
  Option, none, some, bit_or, if◌then◌else◌, ltb, leb, ◌==◌, update, add32, shl32, shr32,
}
use system_on_chip_design_pr.Base.Text.{Text}
use system_on_chip_design_pr.Outcome.{Outcome, ok, exit, undefined, ◌>>=◌}
use system_on_chip_design_pr.Cpu.{CosimEvent}

-- `t_cosim_event`.
pub data EventKind : Type 0 where
  load load_result store : EventKind

-- `cosim_cpu_api`, with its event queues.
pub record CpuApi (S : Type 0) : Type 0 where
  pub reset : S → ℕ → S
  pub get_fault : S → Bool
  pub get_stopped : S → Bool
  pub step : S → Outcome S
  pub get_opcode : S → Outcome ℕ
  pub get_pc : S → ℕ
  pub get_reg_valid : S → ℕ → Bool
  pub get_register : S → ℕ → ℕ
  pub get_num_reg : S → ℕ
  pub set_register : S → ℕ → ℕ → S
  pub set_interrupt : S → ℕ → Outcome S
  pub enable_trace : S → ℕ → S
  pub event_q : S → EventKind → List CosimEvent
  pub set_event_q : S → EventKind → List CosimEvent → S

-- `cosim_mem_api`. The last argument of `create_memory` is the words of the caller's buffer, if there
-- is one.
pub record MemApi (S : Type 0) : Type 0 where
  pub create_memory : S → ℕ → ℕ → Option (ℕ → ℕ) → Outcome (S × Bool)
  pub valid_addr : S → ℕ → Bool
  pub write : S → ℕ → ℕ → Outcome S
  pub read : S → ℕ → Outcome ℕ

pub record CpuItem : Type 0 where
  pub name : String
  pub cpu : ℕ

pub record MemItem : Type 0 where
  pub name : String
  pub mem : ℕ
  pub base : ℕ
  pub size : ℕ

-- `m_dump_file`, if it is set, with the range of `dump_on_exit`.
pub record Dump : Type 0 where
  pub file : Text
  pub start : ℕ
  pub end_ : ℕ

-- The class `cosim`, and the objects that its pointers reach.
pub record Cosim (S : Type 0) : Type 0 where
  pub cpus : List CpuItem
  pub mems : List MemItem
  pub dump : Option Dump
  pub objects : ℕ → S

module _ {S : Type 0} where
  unfoldable pub attach_cpu : String → ℕ → Cosim S → Cosim S
  attach_cpu name p s = record s { cpus = s.cpus ++ record { name = name; cpu = p } ∷ [] }

  unfoldable pub attach_mem : String → ℕ → ℕ → ℕ → Cosim S → Cosim S
  attach_mem name p base size s = record s {
    mems = s.mems ++ record { name = name; mem = p; base = base; size = size } ∷ [];
  }

  unfoldable pub dump_on_exit : Dump → Cosim S → Cosim S
  dump_on_exit d s = record s { dump = some d }

  -- A call on each processor in turn.
  unfoldable pub each : (S → Outcome S) → List CpuItem → (ℕ → S) → Outcome (ℕ → S)
  each f [] objects = ok objects
  each f (it ∷ rest) objects = do x ← f (objects it.cpu); each f rest (update objects it.cpu x)

  abbrev pub on_objects : Cosim S → Outcome (ℕ → S) → Outcome (Cosim S)
  on_objects s run = do objects ← run; ok (record s { objects = objects })

  -- `m_cpu.front()`, of no meaning if there is no processor.
  unfoldable pub front : Cosim S → Outcome S
  front s = elim s.cpus [ [] ↦ undefined | it ∷ rest ↦ ok (s.objects it.cpu) ]

  unfoldable pub any_cpu : (S → Bool) → List CpuItem → (ℕ → S) → Bool
  any_cpu f [] objects = false
  any_cpu f (it ∷ rest) objects = f (objects it.cpu) || any_cpu f rest objects

module _ {S : Type 0} (api : CpuApi S) where
  unfoldable pub reset : Cosim S → ℕ → Outcome (Cosim S)
  reset s pc = on_objects s (each (λ x. ok (api.reset x pc)) s.cpus s.objects)

  unfoldable pub get_fault : Cosim S → Bool
  get_fault s = any_cpu api.get_fault s.cpus s.objects

  unfoldable pub get_stopped : Cosim S → Bool
  get_stopped s = any_cpu api.get_stopped s.cpus s.objects

  abbrev pub not_ready : EventKind → S → Bool
  not_ready ev x = elim (api.event_q x ev) [ [] ↦ true | e ∷ q ↦ false ]

  abbrev pub same_event : CosimEvent → Option CosimEvent → Bool
  same_event item none = true
  same_event item (some last) = item.arg1 == last.arg1 && item.arg2 == last.arg2

  -- The inner loop: `last` is `none` in the first round. An empty queue has no front.
  unfoldable pub pop_events :
      EventKind → Option CosimEvent → List CpuItem → (ℕ → S) → Outcome (ℕ → S)
  pop_events ev last [] objects = ok objects
  pop_events ev last (it ∷ rest) objects = elim (api.event_q (objects it.cpu) ev) [
    | [] ↦ undefined
    | item ∷ q ↦ elim (same_event item last) [
      | true ↦
          pop_events ev (some item) rest
            (update objects it.cpu (api.set_event_q (objects it.cpu) ev q))
      | false ↦ exit 0xFFFF_FFFF
    ]
  ]

  -- One round of the loop over the kinds of events.
  unfoldable pub compare_event : EventKind → List CpuItem → (ℕ → S) → Outcome (ℕ → S)
  compare_event ev cpus objects =
      if any_cpu (not_ready ev) cpus objects then ok objects else pop_events ev none cpus objects

  unfoldable pub compare_events : List CpuItem → (ℕ → S) → Outcome (ℕ → S)
  compare_events cpus objects = do
    o1 ← compare_event load cpus objects
    o2 ← compare_event load_result cpus o1
    compare_event store cpus o2

  -- The loop that compares the program counters with that of the first processor.
  unfoldable pub compare_pcs : S → List CpuItem → (ℕ → S) → Outcome (Unit {0})
  compare_pcs first [] objects = ok tt
  compare_pcs first (it ∷ rest) objects =
      if api.get_pc first == api.get_pc (objects it.cpu)
      then compare_pcs first rest objects
      else exit 0xFFFF_FFFF

  abbrev pub same_register : S → S → ℕ → Bool
  same_register first x i =
      not (api.get_reg_valid first i && api.get_reg_valid x i)
      || api.get_register first i == api.get_register x i

  -- The inner loop over the processors, and the outer one over the registers from `i` on.
  unfoldable pub compare_register : S → ℕ → List CpuItem → (ℕ → S) → Outcome (Unit {0})
  compare_register first i [] objects = ok tt
  compare_register first i (it ∷ rest) objects =
      if same_register first (objects it.cpu) i
      then compare_register first i rest objects
      else exit 0xFFFF_FFFF

  unfoldable pub compare_registers : S → ℕ → ℕ → List CpuItem → (ℕ → S) → Outcome (Unit {0})
  compare_registers first zero i cpus objects = ok tt
  compare_registers first (suc left) i cpus objects = do
    _ ← compare_register first i cpus objects
    compare_registers first left (i + 1) cpus objects

  -- What follows the calls of `step`.
  unfoldable pub compare_states : List CpuItem → (ℕ → S) → Outcome (Unit {0})
  compare_states [] objects = undefined
  compare_states (it ∷ rest) objects =
      let first = objects it.cpu in
      do
        _ ← compare_pcs first (it ∷ rest) objects
        compare_registers first (api.get_num_reg first) 0 (it ∷ rest) objects

  unfoldable pub step : Cosim S → Outcome (Cosim S)
  step s = do
    o1 ← compare_events s.cpus s.objects
    o2 ← each api.step s.cpus o1
    _ ← compare_states s.cpus o2
    ok (record s { objects = o2 })

  unfoldable pub get_opcode : Cosim S → Outcome ℕ
  get_opcode s = do x ← front s; api.get_opcode x

  unfoldable pub get_pc : Cosim S → Outcome ℕ
  get_pc s = do x ← front s; ok (api.get_pc x)

  unfoldable pub get_reg_valid : Cosim S → ℕ → Outcome Bool
  get_reg_valid s r = do x ← front s; ok (api.get_reg_valid x r)

  unfoldable pub get_register : Cosim S → ℕ → Outcome ℕ
  get_register s r = do x ← front s; ok (api.get_register x r)

  unfoldable pub get_num_reg : Cosim S → Outcome ℕ
  get_num_reg s = do x ← front s; ok (api.get_num_reg x)

  unfoldable pub set_register : Cosim S → ℕ → ℕ → Outcome (Cosim S)
  set_register s r v = on_objects s (each (λ x. ok (api.set_register x r v)) s.cpus s.objects)

  unfoldable pub set_interrupt : Cosim S → ℕ → Outcome (Cosim S)
  set_interrupt s irq = on_objects s (each (λ x. api.set_interrupt x irq) s.cpus s.objects)

  unfoldable pub enable_trace : Cosim S → ℕ → Outcome (Cosim S)
  enable_trace s mask = on_objects s (each (λ x. ok (api.enable_trace x mask)) s.cpus s.objects)
