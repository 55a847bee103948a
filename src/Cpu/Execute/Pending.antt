-- ===== src/Cpu/Execute/Pending.antt =====
-- Which interrupt `Riscv::execute` takes.
use system_on_chip_design_pr.Base.{
  ℕ, zero, suc, ◌+◌, ◌<◌, ◌≤◌, ◌^◌, ◌≡◌, ◌≢◌, ◌↔◌, ◌⊎◌, inl, inr, ltb, refl, Bool, true, false, not,
  ◌&&◌, Option, none, some, arith, bit_and, ◌==◌, not32, Bool-cases, sym, ap, ◌∙◌, ==_iff,
}
use native.Mathlib.Nat.{one-le-pow}
use system_on_chip_design_pr.Base.Bits.{bit, bit-bit_and, bit_ext, bit_and_mask, bit_and-zero}
use system_on_chip_design_pr.Base.Bits.Masks.{zero-bit, any_bit-pow, bit-not32, bit_ones}
use system_on_chip_design_pr.Cpu.{CsrFile}
use system_on_chip_design_pr.Cpu.Execute.Interrupts.{
  first_interrupt, enabled_interrupts, machine_enabled, super_enabled, all_or_nothing,
}

-- The answer of a search for the lowest bit from `i` up to `i + left`.
abbrev pub IsLowest : ℕ → ℕ → ℕ → Option ℕ → Type 0
IsLowest interrupts i left (some j) =
    (i ≤ j)
    × (j < i + left)
    × (bit j interrupts ≡ true)
    × ((k : ℕ) → i ≤ k → k < j → bit k interrupts ≡ false)
IsLowest interrupts i left none = (k : ℕ) → i ≤ k → k < i + left → bit k interrupts ≡ false

IsLowest-step :
    (interrupts i left : ℕ) (r : Option ℕ)
    → bit i interrupts ≡ false
    → IsLowest interrupts (i + 1) left r
    → IsLowest interrupts i (suc left) r
IsLowest-step interrupts i left none unset h = λ k p q. elim (Bool-cases (i == k)) [
  | inl same ↦ ground arith
  | inr other ↦ h k (ground arith) (omega arith)
]
IsLowest-step interrupts i left (some j) unset (a, b, c, d) = (
  omega arith,
  omega arith,
  c,
  λ k p q. elim (Bool-cases (i == k)) [
    | inl same ↦ ground arith
    | inr other ↦ d k (ground arith) q
  ],
)

-- The loop finds the lowest-numbered interrupt of its range, and nothing only if there is none.
pub first_interrupt-IsLowest :
    (left i interrupts : ℕ) → IsLowest interrupts i left (first_interrupt left i interrupts)
unfolding first_interrupt
first_interrupt-IsLowest zero i interrupts = λ k p q. absurd (omega arith)
first_interrupt-IsLowest (suc left) i interrupts = elim (Bool-cases (bit i interrupts)) [
  | inl yes_bit ↦
      rw (any_bit-pow i interrupts, yes_bit)
        (omega arith, omega arith, yes_bit, λ k p q. absurd (omega arith))
  | inr no_bit ↦
      rw (any_bit-pow i interrupts, no_bit)
        (IsLowest-step interrupts i left (first_interrupt left (i + 1) interrupts) no_bit
          (first_interrupt-IsLowest left (i + 1) interrupts))
]

bit-all_or_nothing : (b : Bool) (k : ℕ) → k < 32 → bit k (all_or_nothing b) ≡ b
bit-all_or_nothing true k h = ground (arith, bit_ones 32 k)
bit-all_or_nothing false k h = zero-bit k

-- Machine mode takes its interrupts at every lower level, and at its own, 3, if MIE (bit 3) is set;
-- supervisor mode, of level 1, does so with SIE (bit 1).
abbrev pub TakesMachine : CsrFile → Type 0
TakesMachine r = (r.mpriv < 3) ⊎ ((r.mpriv ≡ 3) × (bit 3 r.msr ≡ true))

abbrev pub TakesSuper : CsrFile → Type 0
TakesSuper r = (r.mpriv < 1) ⊎ ((r.mpriv ≡ 1) × (bit 1 r.msr ≡ true))

-- Interrupt `k` is pending, enabled, not delegated, and machine mode takes it; or it is delegated,
-- and supervisor mode takes it.
abbrev pub ForMachine : CsrFile → ℕ → Type 0
ForMachine r k =
    (bit k r.mip ≡ true) × (bit k r.mie ≡ true) × (bit k r.mideleg ≡ false) × TakesMachine r

abbrev pub ForSuper : CsrFile → ℕ → Type 0
ForSuper r k = (bit k r.mip ≡ true) × (bit k r.mie ≡ true) × (bit k r.mideleg ≡ true) × TakesSuper r

machine_enabled-TakesMachine : (r : CsrFile) → (machine_enabled r ≡ true) ↔ TakesMachine r
machine_enabled-TakesMachine r = elim (Bool-cases (ltb r.mpriv 3)) [
  | inl lower ↦ (λ e. inl (ground arith), λ h. rw lower refl)
  | inr own ↦ (
    λ e. inr (ground (arith, any_bit-pow 3 r.msr), ground (arith, any_bit-pow 3 r.msr)),
    λ h. ground (arith, any_bit-pow 3 r.msr),
  )
]

super_enabled-TakesSuper : (r : CsrFile) → (super_enabled r ≡ true) ↔ TakesSuper r
super_enabled-TakesSuper r = elim (Bool-cases (ltb r.mpriv 1)) [
  | inl lower ↦ (λ e. inl (ground arith), λ h. rw lower refl)
  | inr own ↦ (
    λ e. inr (ground (arith, any_bit-pow 1 r.msr), ground (arith, any_bit-pow 1 r.msr)),
    λ h. ground (arith, any_bit-pow 1 r.msr),
  )
]

abbrev machine_interrupts : CsrFile → ℕ
machine_interrupts r =
    bit_and (bit_and (bit_and r.mip r.mie) (not32 r.mideleg)) (all_or_nothing (machine_enabled r))

abbrev super_interrupts : CsrFile → ℕ
super_interrupts r =
    bit_and (bit_and (bit_and r.mip r.mie) r.mideleg) (all_or_nothing (super_enabled r))

bit-machine_interrupts :
    (r : CsrFile) (k : ℕ)
    → k < 32
    → bit k (machine_interrupts r)
      ≡ (bit k r.mip && bit k r.mie && not (bit k r.mideleg) && machine_enabled r)
bit-machine_interrupts r k h = ground (
  arith,
  bit-bit_and k (bit_and (bit_and r.mip r.mie) (not32 r.mideleg))
      (all_or_nothing (machine_enabled r)),
  bit-bit_and k (bit_and r.mip r.mie) (not32 r.mideleg),
  bit-bit_and k r.mip r.mie,
  bit-not32 r.mideleg k,
  bit-all_or_nothing (machine_enabled r) k,
)

bit-super_interrupts :
    (r : CsrFile) (k : ℕ)
    → k < 32
    → bit k (super_interrupts r)
      ≡ (bit k r.mip && bit k r.mie && bit k r.mideleg && super_enabled r)
bit-super_interrupts r k h = ground (
  arith,
  bit-bit_and k (bit_and (bit_and r.mip r.mie) r.mideleg) (all_or_nothing (super_enabled r)),
  bit-bit_and k (bit_and r.mip r.mie) r.mideleg,
  bit-bit_and k r.mip r.mie,
  bit-all_or_nothing (super_enabled r) k,
)

negation : (b : Bool) → (not b ≡ true) ↔ (b ≡ false)
negation true = ((λ e. cc), (λ e. cc))
negation false = ((λ e. refl), (λ e. refl))

all_true :
    (a b c d : Bool) (C D : Type 0)
    → (c ≡ true) ↔ C
    → (d ≡ true) ↔ D
    → ((a && b && c && d) ≡ true) ↔ ((a ≡ true) × (b ≡ true) × C × D)
all_true true true true d C D (c_to, c_from) (to, from) =
    ((λ e. (refl, refl, c_to refl, to e)), (λ h. let (ha, hb, hc, hd) = h in from hd))
all_true true true false d C D (c_to, c_from) (to, from) =
    ((λ e. absurd cc), (λ h. absurd (let (ha, hb, hc, hd) = h in let e = c_from hc in cc)))
all_true true false c d C D ceq deq =
    ((λ e. absurd cc), (λ h. absurd (let (ha, hb, hc, hd) = h in cc)))
all_true false b c d C D ceq deq =
    ((λ e. absurd cc), (λ h. absurd (let (ha, hb, hc, hd) = h in cc)))

machine_interrupts-lt : (r : CsrFile) → machine_interrupts r < 2 ^ 32
machine_interrupts-lt r = elim (Bool-cases (machine_enabled r)) [
  | inl on ↦
      rw on (omega (arith, bit_and_mask 32 (bit_and (bit_and r.mip r.mie) (not32 r.mideleg))))
  | inr off ↦ rw off (omega (arith, bit_and-zero (bit_and (bit_and r.mip r.mie) (not32 r.mideleg))))
]

machine_interrupts-ForMachine :
    (r : CsrFile) (k : ℕ) → k < 32 → (bit k (machine_interrupts r) ≡ true) ↔ ForMachine r k
machine_interrupts-ForMachine r k h = rw (bit-machine_interrupts r k h) (
    all_true (bit k r.mip) (bit k r.mie) (not (bit k r.mideleg)) (machine_enabled r)
      (bit k r.mideleg ≡ false) (TakesMachine r) (negation (bit k r.mideleg))
      (machine_enabled-TakesMachine r))

super_interrupts-ForSuper :
    (r : CsrFile) (k : ℕ) → k < 32 → (bit k (super_interrupts r) ≡ true) ↔ ForSuper r k
super_interrupts-ForSuper r k h = rw (bit-super_interrupts r k h) (
    all_true (bit k r.mip) (bit k r.mie) (bit k r.mideleg) (super_enabled r)
      (bit k r.mideleg ≡ true) (TakesSuper r) ((λ e. e), (λ e. e)) (super_enabled-TakesSuper r))

-- A word that is not 0 has a bit.
some_bit : (n a : ℕ) → a < 2 ^ n → a ≢ 0 → (j : ℕ) × (j < n) × (bit j a ≡ true)
some_bit n a fits used = by_search (first_interrupt n 0 a) (first_interrupt-IsLowest n 0 a)
  where
    by_search : (r : Option ℕ) → IsLowest a 0 n r → (j : ℕ) × (j < n) × (bit j a ≡ true)
    by_search (some j) (low, high, is, lowest) = (j, omega arith, is)
    by_search none nothing = absurd (
        used (
          bit_ext n a 0 fits (omega (arith, one-le-pow n 2))
            λ k small. nothing k (omega arith) (omega arith) ∙ sym (zero-bit k)))

-- Where machine mode takes some of the 32 interrupts, the enabled ones are those that it takes;
-- where it takes none, they are those that supervisor mode takes. An interrupt is taken where it is
-- pending, enabled and, by its delegation, for a mode that takes interrupts at the current level
-- with the current status.
pub enabled_interrupts-bit :
    (r : CsrFile) (k : ℕ)
    → k < 32
    → ((j : ℕ) × (j < 32)
        × ForMachine r j
        × ((bit k (enabled_interrupts r) ≡ true) ↔ ForMachine r k))
      ⊎ (((j : ℕ) → j < 32 → ¬ ForMachine r j)
          × ((bit k (enabled_interrupts r) ≡ true) ↔ ForSuper r k))
unfolding enabled_interrupts
enabled_interrupts-bit r k h = elim (Bool-cases (machine_interrupts r == 0)) [
  | inl nothing ↦ inr (
    λ j l taken.
        let set = (machine_interrupts-ForMachine r j l).1 taken in
        let unset : bit j (machine_interrupts r) ≡ false =
          ap (bit j) ((==_iff (machine_interrupts r) 0).0 nothing) ∙ zero-bit j in
        cc,
    rw nothing (super_interrupts-ForSuper r k h),
  )
  | inr something ↦
      let (j, small, set) =
        some_bit 32 (machine_interrupts r) (machine_interrupts-lt r) (λ e. ground arith) in
      inl (
        j,
        small,
        (machine_interrupts-ForMachine r j small).0 set,
        rw something (machine_interrupts-ForMachine r k h),
      )
]
