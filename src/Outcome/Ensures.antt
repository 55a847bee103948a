-- ===== src/Outcome/Ensures.antt =====
-- What holds of the value of a run, if it has one.
use system_on_chip_design_pr.Base.{◌≡◌, ℕ, Bool, true, false, if◌then◌else◌}
use system_on_chip_design_pr.Outcome.{Outcome, ok, exit, abort, undefined, ◌>>=◌}

pub data Ensures {A : Type 0} (P : A → Type 0) : Outcome A → Type 0 where
  returns : (a : A) → P a → Ensures P (ok a)
  exits : (n : ℕ) → Ensures P (exit n)
  aborts : Ensures P abort
  is_undefined : Ensures P undefined

pub Ensures-bind :
    {A B : Type 0} (P : A → Type 0) (Q : B → Type 0) (m : Outcome A) (f : A → Outcome B)
    → Ensures P m
    → ((a : A) → P a → Ensures Q (f a))
    → Ensures Q (m >>= f)
Ensures-bind P Q _ f (returns a h) k = k a h
Ensures-bind P Q _ f (exits n) k = exits n
Ensures-bind P Q _ f aborts k = aborts
Ensures-bind P Q _ f is_undefined k = is_undefined

pub Ensures-after :
    {A B : Type 0} (Q : B → Type 0) (m : Outcome A) (f : A → Outcome B)
    → ((a : A) → Ensures Q (f a))
    → Ensures Q (m >>= f)
Ensures-after Q (ok a) f k = k a
Ensures-after Q (exit n) f k = exits n
Ensures-after Q abort f k = aborts
Ensures-after Q undefined f k = is_undefined

pub Ensures-if :
    {A : Type 0} (P : A → Type 0) (b : Bool) (m n : Outcome A)
    → Ensures P m
    → Ensures P n
    → Ensures P (if b then m else n)
Ensures-if P true m n h k = h
Ensures-if P false m n h k = k

-- The value of a run that returns has the property.
pub Ensures-elim :
    {A : Type 0} (P : A → Type 0) (m : Outcome A) (a : A) → Ensures P m → m ≡ ok a → P a
Ensures-elim P _ a (returns b h) e = let same : b ≡ a = cc in rw same at h
Ensures-elim P _ a (exits n) e = absurd cc
Ensures-elim P _ a aborts e = absurd cc
Ensures-elim P _ a is_undefined e = absurd cc
