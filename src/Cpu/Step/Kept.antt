-- ===== src/Cpu/Step/Kept.antt =====
-- What the operations below `Riscv::execute` leave alone.
use system_on_chip_design_pr.Base.{
  ℕ, ◌≡◌, refl, ◌∙◌, Bool, true, false, Option, none, some, Bool-cases, inl, inr, List, ltb, ap,
}
use system_on_chip_design_pr.Outcome.{ok, error, ◌>>=◌}
use system_on_chip_design_pr.Isa.Status.{priv_super}
use system_on_chip_design_pr.Outcome.Ensures.{
  Ensures, returns, exits, Ensures-bind, Ensures-after, Ensures-if,
}
use system_on_chip_design_pr.Cpu.{Cpu, Region}
use system_on_chip_design_pr.Cpu.Regions.{finish_store, load_regions, store_regions}
use system_on_chip_design_pr.Cpu.Trap.{exception, is_delegated}
use system_on_chip_design_pr.Cpu.Mmu.{
  mmu_walk, mmu_i_translate, mmu_d_translate, fetch_faults, access_faults,
}
use system_on_chip_design_pr.Cpu.Access.{load, store, count_load, record_result, count_store}

-- The registers, the fault flag and the breakpoints are as before.
pub record Kept (c c' : Cpu) : Type 0 where
  pub registers : (i : ℕ) → c'.gpr i ≡ c.gpr i
  pub same_fault : c'.fault ≡ c.fault
  pub same_breakpoints : c'.breakpoints ≡ c.breakpoints
  pub same_flag : c'.has_breakpoints ≡ c.has_breakpoints

pub same_state : (c : Cpu) → Kept c c
same_state c = record {
  registers = λ i. refl;
  same_fault = refl;
  same_breakpoints = refl;
  same_flag = refl;
}

pub trans-Kept : (a b c : Cpu) → Kept a b → Kept b c → Kept a c
trans-Kept a b c p q = record {
  registers = λ i. q.registers i ∙ p.registers i;
  same_fault = q.same_fault ∙ p.same_fault;
  same_breakpoints = q.same_breakpoints ∙ p.same_breakpoints;
  same_flag = q.same_flag ∙ p.same_flag;
}

pub Kept-parts :
    (c c' : Cpu)
    → c'.gpr ≡ c.gpr
    → c'.fault ≡ c.fault
    → c'.breakpoints ≡ c.breakpoints
    → c'.has_breakpoints ≡ c.has_breakpoints
    → Kept c c'
Kept-parts c c' r f b h = record {
  registers = λ i. ap (λ g. g i) r;
  same_fault = f;
  same_breakpoints = b;
  same_flag = h;
}

pub Kept-exception : (c : Cpu) (cause pc badaddr : ℕ) → Kept c (exception c cause pc badaddr)
unfolding exception
Kept-exception c cause pc badaddr = elim (Bool-cases (is_delegated c.csr cause)) [
  | inl yes_delegated ↦ rw yes_delegated (record {
    registers = λ i. refl;
    same_fault = refl;
    same_breakpoints = refl;
    same_flag = refl;
  })
  | inr not_delegated ↦ rw not_delegated (record {
    registers = λ i. refl;
    same_fault = refl;
    same_breakpoints = refl;
    same_flag = refl;
  })
]

-- The same of a state in a pair with a result.
abbrev pub KeptWith : {A : Type 0} → Cpu → A × Cpu → Type 0
KeptWith c r = Kept c r.1

pub Kept-mmu_d_translate :
    (c : Cpu) (pc addr : ℕ) (w : Bool) → Ensures (KeptWith c) (mmu_d_translate c pc addr w)
unfolding mmu_d_translate
Kept-mmu_d_translate c pc addr w =
    Ensures-if _ (ltb priv_super c.csr.mpriv) _ _ (returns _ (same_state c)) (
      Ensures-after _ (mmu_walk c addr) _ λ pte.
        Ensures-after _ (access_faults c.csr.mpriv c.csr.msr pte w) _ λ fault.
          Ensures-if _ fault _ _ (returns _ (Kept-exception c _ pc addr))
            (returns _ (same_state c)))

pub Kept-mmu_i_translate : (c : Cpu) (addr : ℕ) → Ensures (KeptWith c) (mmu_i_translate c addr)
unfolding mmu_i_translate
Kept-mmu_i_translate c addr =
    Ensures-if _ (ltb priv_super c.csr.mpriv) _ _ (returns _ (same_state c)) (
      Ensures-after _ (mmu_walk c addr) _ λ pte.
        Ensures-after _ (fetch_faults c.csr.mpriv pte) _ λ fault.
          Ensures-if _ fault _ _ (returns _ (Kept-exception c _ addr addr))
            (returns _ (same_state c)))

found_load :
    (c c' : Cpu) (physical : ℕ) (found : Option ℕ)
    → Kept c c'
    → Ensures {A = Option ℕ × Cpu} (KeptWith c) (elim found [
      | none ↦ error
      | some result ↦ ok (some result, record_result (count_load c' physical) result)
    ])
unfolding record_result count_load
found_load c c' physical none k = exits _
found_load c c' physical (some v) k = returns _ (record {
  registers = k.registers;
  same_fault = k.same_fault;
  same_breakpoints = k.same_breakpoints;
  same_flag = k.same_flag;
})

pub Kept-load : (c : Cpu) (pc a width : ℕ) (s : Bool) → Ensures (KeptWith c) (load c pc a width s)
unfolding load
Kept-load c pc a width s =
    Ensures-bind (KeptWith c) (KeptWith c) (mmu_d_translate c pc a false) _
      (Kept-mmu_d_translate c pc a false) λ r k. go r.1 r.0 k
  where
    go :
        (c' : Cpu) (translated : Option ℕ)
        → Kept c c'
        → Ensures {A = Option ℕ × Cpu} (KeptWith c) (elim translated [
          | none ↦ ok (none, c')
          | some physical ↦ do
            found ← load_regions c'.regions physical width s
            elim found [
              | none ↦ error
              | some result ↦ ok (some result, record_result (count_load c' physical) result)
            ]
        ])
    go c' none k = returns _ k
    go c' (some physical) k =
        Ensures-after _ (load_regions c'.regions physical width s) _
          λ found. found_load c c' physical found k

found_store :
    (c c' : Cpu) (physical v width : ℕ) (found : Option (List Region))
    → Kept c c'
    → Ensures {A = Bool × Cpu}
        (KeptWith c)
        (finish_store (count_store c' physical v width) found >>= λ c''. ok (true, c''))
unfolding count_store
found_store c c' physical v width none k = exits _
found_store c c' physical v width (some rs) k = returns _ (record {
  registers = k.registers;
  same_fault = k.same_fault;
  same_breakpoints = k.same_breakpoints;
  same_flag = k.same_flag;
})

pub Kept-store : (c : Cpu) (pc a v width : ℕ) → Ensures (KeptWith c) (store c pc a v width)
unfolding store
Kept-store c pc a v width =
    Ensures-bind (KeptWith c) (KeptWith c) (mmu_d_translate c pc a true) _
      (Kept-mmu_d_translate c pc a true) λ r k. go r.1 r.0 k
  where
    go :
        (c' : Cpu) (translated : Option ℕ)
        → Kept c c'
        → Ensures {A = Bool × Cpu} (KeptWith c) (elim translated [
          | none ↦ ok (false, c')
          | some physical ↦ do
            found ← store_regions c'.regions physical v width
            c'' ← finish_store (count_store c' physical v width) found
            ok (true, c'')
        ])
    go c' none k = returns _ k
    go c' (some physical) k =
        Ensures-after _ (store_regions c'.regions physical v width) _
          λ found. found_store c c' physical v width found k
