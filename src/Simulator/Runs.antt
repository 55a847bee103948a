-- ===== src/Simulator/Runs.antt =====
-- When the loop of isa_sim/riscv_main.cpp ends.
use system_on_chip_design_pr.Base.{
  ℕ, zero, suc, ◌+◌, ◌^◌, ◌<◌, ◌≤◌, ◌≡◌, ◌≢◌, inl, inr, refl, ap, fun_ext, false, Option, none,
  arith, ◌==◌, u32, Bool-cases,
}
use system_on_chip_design_pr.Outcome.{Outcome, ok, ◌>>=◌, >>=-eq-ok}
use system_on_chip_design_pr.Cosim.{CpuApi, Cosim}
use system_on_chip_design_pr.Simulator.{Options, on_sim, goes_on, is_full, trace_from, run}

module _ {S : Type 0} (cpu_api : CpuApi S) (sim : ℕ) (o : Options) where
  -- With a limit of instructions, fuel for the instructions that are left finishes the loop.
  pub run-enough :
      (fuel : ℕ) (s : Cosim S) (current_pc cycles : ℕ)
      → o.max_cycles < 0xFFFF_FFFF
      → cycles < o.max_cycles
      → o.max_cycles ≤ cycles + fuel
      → run cpu_api sim o fuel s current_pc cycles ≢ ok none
  unfolding run
  run-enough zero s current_pc cycles limit before enough e = omega arith
  run-enough (suc fuel) s current_pc cycles limit before enough e =
      elim (Bool-cases (goes_on cpu_api sim o s current_pc)) [
        | inr ends ↦ absurd (let h = rw (ends, run) at e in cc)
        | inl goes ↦
            let (x, done, e') = >>=-eq-ok (cpu_api.step (s.objects sim)) _ (rw (goes, run) at e) in
            elim (Bool-cases (is_full cpu_api sim o (u32 (cycles + 1)))) [
              | inl full ↦ absurd (let h = rw full at e' in cc)
              | inr more ↦
                  run-enough fuel
                    (trace_from cpu_api sim o (on_sim cpu_api sim o s x)
                      (cpu_api.get_pc (s.objects sim)))
                    (cpu_api.get_pc (s.objects sim)) (u32 (cycles + 1)) limit (ground arith)
                    (omega arith) (rw more at e')
            ]
      ]

-- `-c 0` sets no limit before the count of instructions wraps at 2 ^ 32: it runs as with none.
pub run-zero :
    {S : Type 0} (cpu_api : CpuApi S) (sim : ℕ) (o : Options) (fuel : ℕ) (s : Cosim S)
    (current_pc cycles : ℕ)
    → cycles + fuel < 2 ^ 32
    → run cpu_api sim (record o { max_cycles = 0 }) fuel s current_pc cycles
      ≡ run cpu_api sim (record o { max_cycles = 0xFFFF_FFFF }) fuel s current_pc cycles
unfolding run
run-zero cpu_api sim o zero s current_pc cycles below = refl
run-zero {S = S} cpu_api sim o (suc fuel) s current_pc cycles below =
    let e : (0 == u32 (cycles + 1)) ≡ false = ground arith in
    elim (Bool-cases (goes_on cpu_api sim o s current_pc)) [
      | inr ends ↦ rw (ends, run) refl
      | inl goes ↦
          rw (goes, run)
            (ap (λ (next : S → Outcome (Option (Cosim S))). cpu_api.step (s.objects sim) >>= next)
              (fun_ext (λ x. rw e (
                run-zero cpu_api sim o fuel
                  (trace_from cpu_api sim o (on_sim cpu_api sim o s x)
                    (cpu_api.get_pc (s.objects sim)))
                  (cpu_api.get_pc (s.objects sim)) (u32 (cycles + 1)) (omega arith)))))
    ]
