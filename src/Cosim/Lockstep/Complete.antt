-- ===== src/Cosim/Lockstep/Complete.antt =====
-- The comparisons of a step of the cosimulation (isa_sim/cosim_api.cpp) decide whether the
-- processors agree.
use system_on_chip_design_pr.Base.{
  ℕ, zero, suc, ◌+◌, ◌≤◌, ◌<◌, ◌≡◌, ◌↔◌, refl, true, List, [], ◌∷◌, arith, All, All-map,
}
use system_on_chip_design_pr.Outcome.{ok}
use system_on_chip_design_pr.Cosim.{
  CpuApi, CpuItem, compare_pcs, same_register, compare_register, compare_registers, compare_states,
}
use system_on_chip_design_pr.Cosim.Lockstep.{Agrees, InStep, states_sound}

module _ {S : Type 0} (api : CpuApi S) where
  pcs_complete :
      (first : S) (cpus : List CpuItem) (objects : ℕ → S)
      → All (λ it. Agrees api first (objects it.cpu)) cpus
      → compare_pcs api first cpus objects ≡ ok tt
  unfolding compare_pcs
  pcs_complete first [] objects agree = refl
  pcs_complete first (it ∷ rest) objects (here, later) =
      ground (arith, here.same_pc, pcs_complete first rest objects later)

  same_register-Agrees :
      (first x : S) (i : ℕ)
      → Agrees api first x
      → i < api.get_num_reg first
      → same_register api first x i ≡ true
  same_register-Agrees first x i agree below = ground (arith, agree.same_registers i below)

  register_complete :
      (first : S) (i : ℕ) (cpus : List CpuItem) (objects : ℕ → S)
      → All (λ it. same_register api first (objects it.cpu) i ≡ true) cpus
      → compare_register api first i cpus objects ≡ ok tt
  unfolding compare_register
  register_complete first i [] objects same = refl
  register_complete first i (it ∷ rest) objects (here, later) =
      rw here (register_complete first i rest objects later)

  registers_complete :
      (first : S) (left i : ℕ) (cpus : List CpuItem) (objects : ℕ → S)
      → left + i ≤ api.get_num_reg first
      → All (λ it. Agrees api first (objects it.cpu)) cpus
      → compare_registers api first left i cpus objects ≡ ok tt
  unfolding compare_registers
  registers_complete first zero i cpus objects below agree = refl
  registers_complete first (suc left) i cpus objects below agree =
      rw
        (register_complete first i cpus objects (
          All-map cpus (λ it h. same_register-Agrees first (objects it.cpu) i h (omega arith))
            agree))
        (registers_complete first left (i + 1) cpus objects (omega arith) agree)

  -- The comparisons behind the calls of `step` pass exactly where there is a processor and all agree
  -- with the first on the program counter and on every register that both have.
  pub compare_states-InStep :
      (cpus : List CpuItem) (objects : ℕ → S)
      → (compare_states api cpus objects ≡ ok tt) ↔ InStep api cpus objects
  unfolding compare_states
  compare_states-InStep [] objects = (states_sound api [] objects, λ h. absurd h)
  compare_states-InStep (it ∷ rest) objects = (
    states_sound api (it ∷ rest) objects,
    λ agree.
        let first = objects it.cpu in
        rw (pcs_complete first (it ∷ rest) objects agree) (
          registers_complete first (api.get_num_reg first) 0 (it ∷ rest) objects (omega arith)
            agree),
  )
