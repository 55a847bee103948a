-- ===== src/Simulator/Loop.antt =====
-- How the loop of `riscv_main` (isa_sim/riscv_main.cpp) ends.
use system_on_chip_design_pr.Base.{
  ℕ, zero, suc, ◌+◌, ◌≡◌, ◌⊎◌, inl, inr, refl, Bool, true, false, Option, none, some, u32,
}
use system_on_chip_design_pr.Outcome.{Outcome, ok, exit, abort, undefined, ◌>>=◌}
use system_on_chip_design_pr.Cosim.{CpuApi, Cosim}
use system_on_chip_design_pr.Simulator.{Options, run, goes_on, is_full, on_sim, trace_from}

-- Two calls that do not return, in the same way.
pub data FailsAs {A B : Type 0} : Outcome A → Outcome B → Type 0 where
  both_exit : (n : ℕ) → FailsAs (exit n) (exit n)
  both_abort : FailsAs abort abort
  both_undefined : FailsAs undefined undefined

-- A chain fails as its first part does, or that returns.
pub chain :
    {A B : Type 0} (m : Outcome A) (next : A → Outcome B)
    → FailsAs m (m >>= next) ⊎ ((a : A) × (m ≡ ok a))
chain (ok a) next = inr (a, refl)
chain (exit n) next = inl (both_exit n)
chain abort next = inl both_abort
chain undefined next = inl both_undefined

pub FailsAs-bind :
    {A B C : Type 0} (m : Outcome A) (r : Outcome B) (next : B → Outcome C)
    → FailsAs m r
    → FailsAs m (r >>= next)
FailsAs-bind _ _ next (both_exit n) = both_exit n
FailsAs-bind _ _ next both_abort = both_abort
FailsAs-bind _ _ next both_undefined = both_undefined

module _ {S : Type 0} (cpu_api : CpuApi S) (sim : ℕ) (o : Options) where
  -- The state, the program counter and the count of instructions at the head of the loop, and the
  -- rounds until then. In each round the loop goes on, the step returns, and the count is not full.
  pub data Rounds : ℕ → Cosim S → ℕ → ℕ → Cosim S → ℕ → ℕ → Type 0 where
    head : (s : Cosim S) (pc cycles : ℕ) → Rounds zero s pc cycles s pc cycles
    round :
        (n : ℕ) (s s' : Cosim S) (pc cycles pc' cycles' : ℕ) (x : S)
        → goes_on cpu_api sim o s pc ≡ true
        → cpu_api.step (s.objects sim) ≡ ok x
        → is_full cpu_api sim o (u32 (cycles + 1)) ≡ false
        → Rounds n
            (trace_from cpu_api sim o (on_sim cpu_api sim o s x) (cpu_api.get_pc (s.objects sim)))
            (cpu_api.get_pc (s.objects sim))
            (u32 (cycles + 1))
            s'
            pc'
            cycles'
        → Rounds (suc n) s pc cycles s' pc' cycles'

  -- How the loop ends: it has used up its fuel; its condition does not hold; the count is full
  -- behind a step; or a step does not return.
  pub data LoopEnds : ℕ → Cosim S → ℕ → ℕ → Outcome (Option (Cosim S)) → Type 0 where
    out_of_fuel :
        (fuel : ℕ) (s s' : Cosim S) (pc cycles pc' cycles' : ℕ)
        → Rounds fuel s pc cycles s' pc' cycles'
        → LoopEnds fuel s pc cycles (ok none)
    stops :
        (fuel n : ℕ) (s s' : Cosim S) (pc cycles pc' cycles' : ℕ)
        → Rounds n s pc cycles s' pc' cycles'
        → goes_on cpu_api sim o s' pc' ≡ false
        → LoopEnds fuel s pc cycles (ok (some s'))
    fills :
        (fuel n : ℕ) (s s' : Cosim S) (pc cycles pc' cycles' : ℕ) (x : S)
        → Rounds n s pc cycles s' pc' cycles'
        → goes_on cpu_api sim o s' pc' ≡ true
        → cpu_api.step (s'.objects sim) ≡ ok x
        → is_full cpu_api sim o (u32 (cycles' + 1)) ≡ true
        → LoopEnds fuel s pc cycles (ok (some (on_sim cpu_api sim o s' x)))
    fails :
        (fuel n : ℕ) (s s' : Cosim S) (pc cycles pc' cycles' : ℕ) (r : Outcome (Option (Cosim S)))
        → Rounds n s pc cycles s' pc' cycles'
        → goes_on cpu_api sim o s' pc' ≡ true
        → FailsAs (cpu_api.step (s'.objects sim)) r
        → LoopEnds fuel s pc cycles r

  -- A round before the loop.
  LoopEnds-round :
      (fuel : ℕ) (s t : Cosim S) (pc cycles pc1 cycles1 : ℕ) (r : Outcome (Option (Cosim S)))
      → ((n : ℕ) (s' : Cosim S) (pc' cycles' : ℕ)
          → Rounds n t pc1 cycles1 s' pc' cycles'
          → Rounds (suc n) s pc cycles s' pc' cycles')
      → LoopEnds fuel t pc1 cycles1 r
      → LoopEnds (suc fuel) s pc cycles r
  LoopEnds-round _ s _ pc cycles _ _ _ before
        (out_of_fuel fuel t s' pc1 cycles1 pc' cycles' rounds) =
      out_of_fuel (suc fuel) s s' pc cycles pc' cycles' (before fuel s' pc' cycles' rounds)
  LoopEnds-round _ s _ pc cycles _ _ _ before
        (stops fuel n t s' pc1 cycles1 pc' cycles' rounds off) =
      stops (suc fuel) (suc n) s s' pc cycles pc' cycles' (before n s' pc' cycles' rounds) off
  LoopEnds-round _ s _ pc cycles _ _ _ before
        (fills fuel n t s' pc1 cycles1 pc' cycles' x rounds on e full) =
      fills (suc fuel) (suc n) s s' pc cycles pc' cycles' x (before n s' pc' cycles' rounds) on e
        full
  LoopEnds-round _ s _ pc cycles _ _ _ before
        (fails fuel n t s' pc1 cycles1 pc' cycles' r rounds on f) =
      fails (suc fuel) (suc n) s s' pc cycles pc' cycles' r (before n s' pc' cycles' rounds) on f

  -- The next rounds, and what follows a step by whether the count is full.
  abbrev next : ℕ → Cosim S → ℕ → S → Outcome (Option (Cosim S))
  next fuel s cycles x =
      run cpu_api sim o fuel
        (trace_from cpu_api sim o (on_sim cpu_api sim o s x) (cpu_api.get_pc (s.objects sim)))
        (cpu_api.get_pc (s.objects sim)) (u32 (cycles + 1))

  abbrev behind : ℕ → Cosim S → ℕ → Bool → S → Outcome (Option (Cosim S))
  behind fuel s cycles b x = elim b [
    | true ↦ ok (some (on_sim cpu_api sim o s x))
    | false ↦ next fuel s cycles x
  ]

  pub run-LoopEnds :
      (fuel : ℕ) (s : Cosim S) (pc cycles : ℕ)
      → LoopEnds fuel s pc cycles (run cpu_api sim o fuel s pc cycles)
  unfolding run
  run-LoopEnds zero s pc cycles = out_of_fuel zero s s pc cycles pc cycles (head s pc cycles)
  run-LoopEnds (suc fuel) s pc cycles = by_condition (goes_on cpu_api sim o s pc) refl λ x.
      run-LoopEnds fuel
        (trace_from cpu_api sim o (on_sim cpu_api sim o s x) (cpu_api.get_pc (s.objects sim)))
        (cpu_api.get_pc (s.objects sim)) (u32 (cycles + 1))
    where
      by_count :
          (b : Bool) (x : S)
          → is_full cpu_api sim o (u32 (cycles + 1)) ≡ b
          → goes_on cpu_api sim o s pc ≡ true
          → cpu_api.step (s.objects sim) ≡ ok x
          → LoopEnds fuel
              (trace_from cpu_api sim o (on_sim cpu_api sim o s x) (cpu_api.get_pc (s.objects sim)))
              (cpu_api.get_pc (s.objects sim))
              (u32 (cycles + 1))
              (next fuel s cycles x)
          → LoopEnds (suc fuel) s pc cycles (behind fuel s cycles b x)
      by_count true x full on e later =
          fills (suc fuel) zero s s pc cycles pc cycles x (head s pc cycles) on e full
      by_count false x more on e later =
          LoopEnds-round fuel s _ pc cycles _ _ _
            (λ n s' pc' cycles' rounds. round n s s' pc cycles pc' cycles' x on e more rounds) later

      by_condition :
          (b : Bool)
          → goes_on cpu_api sim o s pc ≡ b
          → ((x : S)
              → LoopEnds fuel
                  (trace_from cpu_api sim o
                    (on_sim cpu_api sim o s x)
                    (cpu_api.get_pc (s.objects sim)))
                  (cpu_api.get_pc (s.objects sim))
                  (u32 (cycles + 1))
                  (next fuel s cycles x))
          → LoopEnds (suc fuel) s pc cycles (elim b as (λ t. Outcome (Option (Cosim S))) [
            | false ↦ ok (some s)
            | true ↦
                cpu_api.step (s.objects sim)
                >>= behind fuel s cycles (is_full cpu_api sim o (u32 (cycles + 1)))
          ])
      by_condition false off later =
          stops (suc fuel) zero s s pc cycles pc cycles (head s pc cycles) off
      by_condition true on later =
          elim (chain (cpu_api.step (s.objects sim)) (behind fuel s cycles _)) [
            | inl f ↦ fails (suc fuel) zero s s pc cycles pc cycles _ (head s pc cycles) on f
            | inr (x, e) ↦ rw e (by_count _ x refl on e (later x))
          ]
