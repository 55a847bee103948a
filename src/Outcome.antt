-- ===== src/Outcome.antt =====
-- How a run of the simulator's code can end. The model of isa_sim/riscv.cpp and isa_sim/memory.h
-- shares these results and their monad.
pub mod Ensures
use system_on_chip_design_pr.Base.{ℕ, ◌≡◌, refl, Bool, true, false}

-- `exit n` is a call of `exit(n)` (as a 32-bit pattern), `abort` a failed `assert`, and
-- `undefined` a step to which C++ gives no meaning: an access out of an array, a shift by 32 or
-- more, a string that is not terminated.
pub data Outcome {ℓ} (A : Type ℓ) : Type ℓ where
  ok : A → Outcome A
  exit : ℕ → Outcome A
  abort : Outcome A
  undefined : Outcome A

-- The chain of an outcome and the code that goes on from its value.
infixl 5 ◌>>=◌
abbrev pub ◌>>=◌ {ℓ κ} :
    {A : Type ℓ} {B : Type κ} (m : Outcome A) (next : A → Outcome B) → Outcome B
undefined >>= next = undefined
abort >>= next = abort
exit status >>= next = exit status
ok value >>= next = next value

-- `assert(b)`.
abbrev pub assert {ℓ} : {A : Type ℓ} → Bool → Outcome A → Outcome A
assert true r = r
assert false r = abort

-- `error(...)` prints a message and calls `exit(-1)`: nothing after it runs.
abbrev pub error {ℓ} : {A : Type ℓ} → Outcome A
error = exit 0xFFFF_FFFF

-- A chain that returns has a first part that returns.
pub >>=-eq-ok {ℓ κ} :
    {A : Type ℓ} {B : Type κ} (first : Outcome A) (next : A → Outcome B) {final : B}
    → (first >>= next) ≡ ok final
    → (value : A) × (first ≡ ok value) × (next value ≡ ok final)
>>=-eq-ok undefined next returns = cc
>>=-eq-ok abort next returns = cc
>>=-eq-ok (exit status) next returns = cc
>>=-eq-ok (ok value) next returns = (value, refl, returns)

pub ok-injective {ℓ} : {A : Type ℓ} {a b : A} → ok a ≡ ok b → a ≡ b
ok-injective e = cc
