-- ===== src/Cpu/Breakpoints/Laws.antt =====
-- Setting, clearing and hitting breakpoints.
use system_on_chip_design_pr.Base.{
  ℕ, ◌+◌, ◌≡◌, ◌⊎◌, refl, Bool, true, false, not, List, [], ◌∷◌, ◌++◌, Option, none, some, arith,
  if◌then◌else◌, ◌==◌, Bool-cases, inl, inr,
}
use system_on_chip_design_pr.Cpu.{Cpu}
use system_on_chip_design_pr.Cpu.Breakpoints.{
  is_empty, set_breakpoint, clr_breakpoint, check_breakpoint, erase_first, holds,
}

-- How often an address is in the list: the abstract view, a multiset.
unfoldable pub times : List ℕ → ℕ → ℕ
times [] pc = 0
times (x ∷ xs) pc = (if x == pc then 1 else 0) + times xs pc

-- The flag says whether there are any breakpoints.
abbrev pub IsFlagged : Cpu → Type 0
IsFlagged c = c.has_breakpoints ≡ not (is_empty c.breakpoints)

times-append :
    (xs : List ℕ) (pc q : ℕ) → times (xs ++ pc ∷ []) q ≡ times xs q + (if pc == q then 1 else 0)
unfolding times
times-append [] pc q = omega arith
times-append (x ∷ xs) pc q = omega (arith, times-append xs pc q)

append-ne-empty : (xs : List ℕ) (pc : ℕ) → is_empty (xs ++ pc ∷ []) ≡ false
append-ne-empty [] pc = refl
append-ne-empty (x ∷ xs) pc = refl

holds-times : (xs : List ℕ) (pc : ℕ) → holds xs pc ≡ not (times xs pc == 0)
unfolding holds times
holds-times [] pc = refl
holds-times (x ∷ xs) pc = ground (arith, holds-times xs pc)

-- The result of `erase_first` in the multiset view.
abbrev Erased : List ℕ → ℕ → Option (List ℕ) → Type 0
Erased xs pc none = times xs pc ≡ 0
Erased xs pc (some ys) = (q : ℕ) → times xs q ≡ times ys q + (if pc == q then 1 else 0)

Erased-cons :
    (x : ℕ) (xs : List ℕ) (pc : ℕ) (r : Option (List ℕ))
    → (x == pc) ≡ false
    → Erased xs pc r
    → Erased (x ∷ xs) pc (elim r [ none ↦ none | some ys ↦ some (x ∷ ys) ])
unfolding times
Erased-cons x xs pc none e h = ground arith
Erased-cons x xs pc (some ys) e h = λ q. omega (arith, h q)

erase_first-Erased : (xs : List ℕ) (pc : ℕ) → Erased xs pc (erase_first xs pc)
unfolding erase_first times
erase_first-Erased [] pc = refl
erase_first-Erased (x ∷ xs) pc = elim (Bool-cases (x == pc)) [
  | inl same ↦ rw same (λ q. ground arith)
  | inr other ↦ rw other (Erased-cons x xs pc (erase_first xs pc) other (erase_first-Erased xs pc))
]

-- Setting a breakpoint adds one occurrence of its address and of no other, keeps the flag right,
-- and makes the address a hit.
set_breakpoint-times :
    (c : Cpu) (pc : ℕ)
    → let c' = (set_breakpoint c pc).0 in
      IsFlagged c'
      × ((q : ℕ) → times c'.breakpoints q ≡ times c.breakpoints q + (if pc == q then 1 else 0))
      × (check_breakpoint c' pc ≡ true)
unfolding set_breakpoint check_breakpoint
set_breakpoint-times c pc = (
  rw (append-ne-empty c.breakpoints pc) refl,
  λ q. times-append c.breakpoints pc q,
  ground (arith, holds-times (c.breakpoints ++ pc ∷ []) pc, times-append c.breakpoints pc pc),
)

-- What clearing a breakpoint does: without an occurrence it reports failure and changes nothing;
-- else it removes one occurrence and keeps the flag right.
abbrev pub Cleared : Cpu → ℕ → Cpu × Bool → Type 0
Cleared c pc r =
    ((r.1 ≡ false) × (r.0 ≡ c) × (check_breakpoint c pc ≡ false))
    ⊎ ((r.1 ≡ true)
        × IsFlagged r.0
        × ((q : ℕ)
            → times c.breakpoints q ≡ times (r.0).breakpoints q + (if pc == q then 1 else 0)))

-- Clearing a breakpoint: if the address is not in the list, it reports failure and changes
-- nothing; else it reports success, removes one occurrence of the address and of no other, and
-- keeps the flag right.
pub clr_breakpoint-Cleared : (c : Cpu) (pc : ℕ) → Cleared c pc (clr_breakpoint c pc)
unfolding clr_breakpoint check_breakpoint
clr_breakpoint-Cleared c pc =
    go (erase_first c.breakpoints pc) refl (erase_first-Erased c.breakpoints pc)
  where
    go :
        (r : Option (List ℕ))
        → erase_first c.breakpoints pc ≡ r
        → Erased c.breakpoints pc r
        → Cleared c pc (elim r [
          | none ↦ (c, false)
          | some rest ↦
              (record c { breakpoints = rest; has_breakpoints = not (is_empty rest) }, true)
        ])
    go none e h = inl (refl, refl, ground (arith, holds-times c.breakpoints pc))
    go (some ys) e h = inr (refl, refl, h)
