-- ===== src/Cosim/Lockstep.antt =====
-- What a step of the cosimulation that returns says of the processors.
pub mod Complete
use system_on_chip_design_pr.Base.{
  ℕ, zero, suc, ◌+◌, ◌≤◌, ◌<◌, ◌≡◌, refl, sym, inl, inr, true, List, [], ◌∷◌, arith, All, ◌==◌,
  ==_iff, Bool-cases,
}
use system_on_chip_design_pr.Outcome.{ok, >>=-eq-ok}
use system_on_chip_design_pr.Cosim.{
  CpuApi, CpuItem, Cosim, each, compare_events, compare_pcs, same_register, compare_register,
  compare_registers, compare_states, step,
}

module _ {S : Type 0} (api : CpuApi S) where
  -- A processor agrees with the first one: on the program counter, and on every register that both
  -- have.
  pub record Agrees (first x : S) : Type 0 where
    pub same_pc : api.get_pc first ≡ api.get_pc x
    pub same_registers :
        (i : ℕ)
        → i < api.get_num_reg first
        → api.get_reg_valid first i ≡ true
        → api.get_reg_valid x i ≡ true
        → api.get_register first i ≡ api.get_register x i

  -- All processors agree with the first one; there is one.
  abbrev pub InStep : List CpuItem → (ℕ → S) → Type 0
  InStep [] objects = ⊥
  InStep (it ∷ rest) objects = All (λ it'. Agrees (objects it.cpu) (objects it'.cpu)) (it ∷ rest)

  pcs_sound :
      (first : S) (cpus : List CpuItem) (objects : ℕ → S)
      → compare_pcs api first cpus objects ≡ ok tt
      → All (λ it. api.get_pc first ≡ api.get_pc (objects it.cpu)) cpus
  unfolding compare_pcs
  pcs_sound first [] objects e = tt
  pcs_sound first (it ∷ rest) objects e = ground (arith, pcs_sound first rest objects)

  register_sound :
      (first : S) (i : ℕ) (cpus : List CpuItem) (objects : ℕ → S)
      → compare_register api first i cpus objects ≡ ok tt
      → All (λ it. same_register api first (objects it.cpu) i ≡ true) cpus
  unfolding compare_register
  register_sound first i [] objects e = tt
  register_sound first i (it ∷ rest) objects e = ground (arith, register_sound first i rest objects)

  registers_sound :
      (first : S) (left i : ℕ) (cpus : List CpuItem) (objects : ℕ → S)
      → compare_registers api first left i cpus objects ≡ ok tt
      → (j : ℕ) → i ≤ j
      → j < left + i
      → All (λ it. same_register api first (objects it.cpu) j ≡ true) cpus
  unfolding compare_registers
  registers_sound first zero i cpus objects e j low high = absurd (omega arith)
  registers_sound first (suc left) i cpus objects e j low high =
      let (u, here, later) = >>=-eq-ok (compare_register api first i cpus objects) _ e in
      elim (Bool-cases (i == j)) [
        | inl same ↦
            let eq : i ≡ j = (==_iff i j).0 same in
            rw (sym eq) (register_sound first i cpus objects here)
        | inr other ↦
            registers_sound first left (i + 1) cpus objects later j (ground arith) (ground arith)
      ]

  -- Agreement of each processor, from agreement of all on the counter and on each register.
  AllAgree :
      (first : S) (cpus : List CpuItem) (objects : ℕ → S)
      → All (λ it. api.get_pc first ≡ api.get_pc (objects it.cpu)) cpus
      → ((j : ℕ)
          → j < api.get_num_reg first
          → All (λ it. same_register api first (objects it.cpu) j ≡ true) cpus)
      → All (λ it. Agrees first (objects it.cpu)) cpus
  AllAgree first [] objects pcs registers = tt
  AllAgree first (it ∷ rest) objects (pc, pcs) registers = (
    record {
      same_pc = pc;
      same_registers = λ j below here there. let h = (registers j below).0 in ground arith;
    },
    AllAgree first rest objects pcs (λ j below. (registers j below).1),
  )

  pub states_sound :
      (cpus : List CpuItem) (objects : ℕ → S)
      → compare_states api cpus objects ≡ ok tt
      → InStep cpus objects
  unfolding compare_states
  states_sound [] objects e = cc
  states_sound (it ∷ rest) objects e =
      let first = objects it.cpu in
      let (u, pcs, registers) = >>=-eq-ok (compare_pcs api first (it ∷ rest) objects) _ e in
      AllAgree first (it ∷ rest) objects (pcs_sound first (it ∷ rest) objects pcs) (λ j below.
        registers_sound first (api.get_num_reg first) 0 (it ∷ rest) objects registers j
          (omega arith) (omega arith))

  -- When a step of the cosimulation returns, the attached processors are those that were attached,
  -- and all of them agree with the first on the program counter and on every register that both
  -- have.
  pub step-InStep :
      (s s' : Cosim S) → step api s ≡ ok s' → (s'.cpus ≡ s.cpus) × InStep s'.cpus s'.objects
  unfolding step
  step-InStep s s' e =
      let (o1, events, e1) = >>=-eq-ok (compare_events api s.cpus s.objects) _ e in
      let (o2, stepped, e2) = >>=-eq-ok (each api.step s.cpus o1) _ e1 in
      let (u, compared, e3) = >>=-eq-ok (compare_states api s.cpus o2) _ e2 in
      let sound = states_sound s.cpus o2 compared in
      let same : record s { objects = o2 } ≡ s' = cc in rw (sym same) (refl, sound)
