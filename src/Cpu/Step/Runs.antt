-- ===== src/Cpu/Step/Runs.antt =====
-- Sequences of steps, and the states that a processor reaches by calls of the methods of the class.
use system_on_chip_design_pr.Base.{
  ℕ, ◌+◌, ◌^◌, ◌<◌, ◌≡◌, ◌≢◌, refl, ◌∙◌, Bool, true, false, not, ◌==◌, ltb, leb, List, Option, none,
  some, Bool-cases, inl, inr, arith,
}
use system_on_chip_design_pr.Outcome.{ok}
use system_on_chip_design_pr.Outcome.Ensures.{
  Ensures, returns, exits, aborts, is_undefined, Ensures-after, Ensures-if, Ensures-elim,
}
use system_on_chip_design_pr.Cpu.{Cpu, Region}
use system_on_chip_design_pr.Cpu.Regions.{
  attach_memory, create_memory, count, max_mem_regions, store_regions, finish_store, write, write32,
}
use system_on_chip_design_pr.Cpu.Registers.{Register, set_pc, set_register, register_of, put}
use system_on_chip_design_pr.Cpu.Breakpoints.{
  construct, reset, set_interrupt, set_breakpoint, clr_breakpoint, erase_first, get_break, is_empty,
}
use system_on_chip_design_pr.Cpu.Step.{step}
use system_on_chip_design_pr.Cpu.Step.Invariant.{Intact, step-Intact, same-Intact, trans-Intact}

-- The states that calls of `step` go through.
data Steps : Cpu → Cpu → Type 0 where
  stay : (c : Cpu) → Steps c c
  go_on : (a b c : Cpu) → step a ≡ ok b → Steps b c → Steps a c

-- Any number of steps leaves x0, the fault flag, the list of breakpoints and its flag as they
-- were.
Steps-Intact : (c c' : Cpu) → Steps c c' → Intact c c'
Steps-Intact _ _ (stay c) = same-Intact c
Steps-Intact _ _ (go_on a b c e rest) =
    trans-Intact a b c (step-Intact a b e) (Steps-Intact b c rest)

-- The states behind the constructor and any calls that return: of the methods that prepare a run, of
-- those for a debugger, of whose registers it writes x1 to x31, and of `step`.
pub data Reached : Cpu → Type 0 where
  constructed :
      (raw c : Cpu) (base len : ℕ) (words : ℕ → ℕ) → construct raw base len words ≡ ok c → Reached c
  attached :
      (c c' : Cpu) (base len : ℕ) (words : ℕ → ℕ) (made : Bool)
      → Reached c
      → create_memory c base len words ≡ ok (c', made)
      → Reached c'
  written : (c c' : Cpu) (addr value : ℕ) → Reached c → write c addr value ≡ ok c' → Reached c'
  written32 : (c c' : Cpu) (addr value : ℕ) → Reached c → write32 c addr value ≡ ok c' → Reached c'
  was_reset : (c : Cpu) (start_addr : ℕ) → Reached c → Reached (reset c start_addr)
  jumped : (c : Cpu) (pc : ℕ) → Reached c → Reached (set_pc c pc)
  debugged : (c : Cpu) (r value : ℕ) → Reached c → r ≢ 0 → r < 32 → Reached (set_register c r value)
  interrupted : (c c' : Cpu) (irq : ℕ) → Reached c → set_interrupt c irq ≡ ok c' → Reached c'
  breakpoint_set : (c : Cpu) (pc : ℕ) → Reached c → Reached (set_breakpoint c pc).0
  breakpoint_cleared : (c : Cpu) (pc : ℕ) → Reached c → Reached (clr_breakpoint c pc).0
  break_read : (c : Cpu) → Reached c → Reached (get_break c).0
  stepped : (c c' : Cpu) → Reached c → step c ≡ ok c' → Reached c'

-- x0 and the fault flag of a new processor.
abbrev IsClear : Cpu → Type 0
IsClear c = (c.gpr 0 ≡ 0) × (c.fault ≡ false)

Ensures-construct :
    (raw : Cpu) (base len : ℕ) (words : ℕ → ℕ) → Ensures IsClear (construct raw base len words)
unfolding construct reset
Ensures-construct raw base len words =
    Ensures-if _ (len == 0) _ _ (returns _ (refl, refl))
      (Ensures-after _ (create_memory _ base len words) _ λ r. returns _ (refl, refl))

IsClear-attach :
    (c : Cpu) (base len : ℕ) (words : ℕ → ℕ)
    → IsClear c
    → Ensures (λ (r : Cpu × Bool). IsClear r.0) (create_memory c base len words)
unfolding create_memory attach_memory
IsClear-attach c base len words clear =
    Ensures-if _ (ltb (len + 3) (2 ^ 31)) _ _
      (returns _ (elim (Bool-cases (ltb (count c.regions) max_mem_regions)) [
        | inl free ↦ rw free clear
        | inr full ↦ rw full clear
      ]))
      is_undefined

IsClear-finish :
    (c : Cpu) (found : Option (List Region)) → IsClear c → Ensures IsClear (finish_store c found)
IsClear-finish c none clear = exits _
IsClear-finish c (some rs) clear = returns _ clear

IsClear-write : (c : Cpu) (addr value : ℕ) → IsClear c → Ensures IsClear (write c addr value)
unfolding write
IsClear-write c addr value clear =
    Ensures-after _ (store_regions c.regions addr value 1) _ λ found. IsClear-finish c found clear

IsClear-write32 : (c : Cpu) (addr value : ℕ) → IsClear c → Ensures IsClear (write32 c addr value)
unfolding write32
IsClear-write32 c addr value clear =
    Ensures-after _ (store_regions c.regions addr value 4) _ λ found. IsClear-finish c found clear

IsClear-set_register :
    (c : Cpu) (r value : ℕ) → r ≢ 0 → r < 32 → IsClear c → IsClear (set_register c r value)
unfolding set_register register_of put
IsClear-set_register c r value other general clear =
    let low : leb r 31 ≡ true = ground arith in
    let there : register_of r ≡ Register.general r = rw low refl in rw there (ground arith, clear.1)

IsClear-set_interrupt : (c : Cpu) (irq : ℕ) → IsClear c → Ensures IsClear (set_interrupt c irq)
unfolding set_interrupt
IsClear-set_interrupt c irq clear = elim (Bool-cases (irq == 0)) [
  | inl line ↦ rw line (returns _ clear)
  | inr other ↦ rw other aborts
]

IsClear-clr_breakpoint : (c : Cpu) (pc : ℕ) → IsClear c → IsClear (clr_breakpoint c pc).0
unfolding clr_breakpoint
IsClear-clr_breakpoint c pc clear = by_result (erase_first c.breakpoints pc)
  where
    by_result :
        (found : Option (List ℕ))
        → IsClear
            (elim found as (λ x. Cpu × Bool) [
              | none ↦ (c, false)
              | some rest ↦
                  (record c { breakpoints = rest; has_breakpoints = not (is_empty rest) }, true)
            ]).0
    by_result none = clear
    by_result (some rest) = clear

-- In every state that a new processor reaches by its constructor and any calls that return of
-- create_memory, write, write32, reset, set_pc, set_register of x1 to x31, set_interrupt,
-- set_breakpoint, clr_breakpoint, get_break and step, x0 is 0 and the fault flag is not set,
-- whatever program is in the memory.
pub Reached-IsClear : (c : Cpu) → Reached c → (c.gpr 0 ≡ 0) × (c.fault ≡ false)
unfolding reset set_pc set_breakpoint get_break
Reached-IsClear _ (constructed raw c base len words e) =
    Ensures-elim IsClear _ c (Ensures-construct raw base len words) e
Reached-IsClear _ (attached c c' base len words made before e) =
    Ensures-elim (λ (r : Cpu × Bool). IsClear r.0) _ (c', made)
      (IsClear-attach c base len words (Reached-IsClear c before)) e
Reached-IsClear _ (written c c' addr value before e) =
    Ensures-elim IsClear _ c' (IsClear-write c addr value (Reached-IsClear c before)) e
Reached-IsClear _ (written32 c c' addr value before e) =
    Ensures-elim IsClear _ c' (IsClear-write32 c addr value (Reached-IsClear c before)) e
Reached-IsClear _ (was_reset c start_addr before) = (refl, refl)
Reached-IsClear _ (jumped c pc before) = Reached-IsClear c before
Reached-IsClear _ (debugged c r value before other general) =
    IsClear-set_register c r value other general (Reached-IsClear c before)
Reached-IsClear _ (interrupted c c' irq before e) =
    Ensures-elim IsClear _ c' (IsClear-set_interrupt c irq (Reached-IsClear c before)) e
Reached-IsClear _ (breakpoint_set c pc before) = Reached-IsClear c before
Reached-IsClear _ (breakpoint_cleared c pc before) =
    IsClear-clr_breakpoint c pc (Reached-IsClear c before)
Reached-IsClear _ (break_read c before) = Reached-IsClear c before
Reached-IsClear _ (stepped c c' before e) =
    let kept = step-Intact c c' e in
    let clear = Reached-IsClear c before in
    (kept.zero_register ∙ clear.0, kept.fault_flag ∙ clear.1)
