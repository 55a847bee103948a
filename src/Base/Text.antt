-- ===== src/Base/Text.antt =====
-- Text as the codes of its characters, and the conversions of `sprintf` that the simulator uses.
use Prim.Native.Char.{code}
use Prim.Native.String.{String}
use Prim.Native.Nat.{ℕ, zero, suc, ◌+◌, ◌-◌, ◌*◌, ◌/◌, ◌%◌, ◌^◌, ◌<◌, ◌≤◌}
use mathlib.Core.Path.{◌≡◌, refl}
use mathlib.Core.Bool.{Bool, true, false, ◌&&◌}
use mathlib.Core.List.{List, [], ◌∷◌, ◌++◌}
use native.Mathlib.Nat.{pow-suc}
use native.Mathlib.Omega.{arith}
use system_on_chip_design_pr.Base.Tests.{ltb, ◌==◌, if◌then◌else◌}
use system_on_chip_design_pr.Base.Word.{is_neg, neg32}

abbrev pub Text : Type 0
Text = List ℕ

abbrev pub codes : String → Text
codes String.[] = []
codes (String.◌∷◌ c s) = code c ∷ codes s

abbrev pub length {ℓ} : {A : Type ℓ} → List A → ℕ
length [] = 0
length (x ∷ xs) = suc (length xs)

pub length-append {ℓ} : {A : Type ℓ} (xs ys : List A) → length (xs ++ ys) ≡ length xs + length ys
length-append [] ys = omega arith
length-append (x ∷ xs) ys = omega (arith, length-append xs ys)

abbrev pub digit : ℕ → ℕ
digit d = if ltb d 10 then b'0' + d else b'a' + (d - 10)

-- The digits of `n` before `out`, at most `fuel` of them.
unfoldable pub digits : ℕ → ℕ → ℕ → Text → Text
digits base zero n out = out
digits base (suc fuel) n out =
    let rest = digits base fuel (n / base) (digit (n % base) ∷ out) in if n == 0 then out else rest

-- `%x` and `%u` of a 32-bit number, which has at most 8 and 10 digits.
unfoldable pub hexadecimal : ℕ → Text
hexadecimal n = if n == 0 then b'0' ∷ [] else digits 16 8 n []

unfoldable pub unsigned_decimal : ℕ → Text
unsigned_decimal n = if n == 0 then b'0' ∷ [] else digits 10 10 n []

-- `%d`.
unfoldable pub decimal : ℕ → Text
decimal n = if is_neg n then b'-' ∷ unsigned_decimal (neg32 n) else unsigned_decimal n

-- `%08x`.
unfoldable pub hex_digits : ℕ → ℕ → Text
hex_digits zero n = []
hex_digits (suc places) n = digit (n / 16 ^ places % 16) ∷ hex_digits places n

pub length-digits :
    (base fuel n : ℕ) (out : Text) → length (digits base fuel n out) ≤ fuel + length out
unfolding digits
length-digits base zero n out = omega arith
length-digits base (suc fuel) n out =
    ground (arith, length-digits base fuel (n / base) (digit (n % base) ∷ out))

pub length-decimal : (n : ℕ) → length (decimal n) ≤ 11
unfolding decimal unsigned_decimal
length-decimal n = ground (arith, length-digits 10 10 n [], length-digits 10 10 (neg32 n) [])

pub length-hexadecimal : (n : ℕ) → length (hexadecimal n) ≤ 8
unfolding hexadecimal
length-hexadecimal n = ground (arith, length-digits 16 8 n [])

pub length-hex_digits : (places n : ℕ) → length (hex_digits places n) ≡ places
unfolding hex_digits
length-hex_digits zero n = refl
length-hex_digits (suc places) n = omega (arith, length-hex_digits places n)

-- The number that digits spell behind `acc`.
unfoldable pub spelled : ℕ → Text → ℕ → ℕ
spelled base [] acc = acc
spelled base (c ∷ s) acc =
    spelled base s (acc * base + (if ltb c b'a' then c - b'0' else c - b'a' + 10))

spelled-digits_10 :
    (fuel n : ℕ) (out : Text)
    → n < 10 ^ fuel
    → spelled 10 (digits 10 fuel n out) 0 ≡ spelled 10 out n
unfolding spelled digits
spelled-digits_10 zero n out h = let e : n ≡ 0 = omega arith in rw e
spelled-digits_10 (suc fuel) n out h =
    ground (arith, pow-suc 10 fuel, spelled-digits_10 fuel (n / 10) (digit (n % 10) ∷ out))

spelled-digits_16 :
    (fuel n : ℕ) (out : Text)
    → n < 16 ^ fuel
    → spelled 16 (digits 16 fuel n out) 0 ≡ spelled 16 out n
unfolding spelled digits
spelled-digits_16 zero n out h = let e : n ≡ 0 = omega arith in rw e
spelled-digits_16 (suc fuel) n out h =
    ground (arith, pow-suc 16 fuel, spelled-digits_16 fuel (n / 16) (digit (n % 16) ∷ out))

-- The fuel is enough: the digits of a 32-bit number spell it.
pub spelled-unsigned_decimal : (n : ℕ) → n < 2 ^ 32 → spelled 10 (unsigned_decimal n) 0 ≡ n
unfolding unsigned_decimal spelled
spelled-unsigned_decimal n h = ground (arith, spelled-digits_10 10 n [])

pub spelled-hexadecimal : (n : ℕ) → n < 2 ^ 32 → spelled 16 (hexadecimal n) 0 ≡ n
unfolding hexadecimal spelled
spelled-hexadecimal n h = ground (arith, spelled-digits_16 8 n [])

-- `!strcmp(a, b)`.
unfoldable pub equal_text : Text → Text → Bool
equal_text [] [] = true
equal_text [] (y ∷ ys) = false
equal_text (x ∷ xs) [] = false
equal_text (x ∷ xs) (y ∷ ys) = x == y && equal_text xs ys
