-- ===== src/Cosim/Exit/Signature.antt =====
-- The signature text of `cosim::at_exit` (isa_sim/cosim_api.cpp): its rows as numbers.
use mathlib.Core.List.{append-nil, append_assoc}
use native.Mathlib.Nat.{pow-suc, div-div-eq-div-mul}
use system_on_chip_design_pr.Base.{
  ℕ, zero, suc, ◌+◌, ◌*◌, ◌/◌, ◌%◌, ◌^◌, ◌<◌, ◌≡◌, refl, sym, ◌∙◌, ap, ap₂, List, [], ◌∷◌, ◌++◌,
  arith, All,
}
use system_on_chip_design_pr.Base.Text.{Text, hex_digits}
use system_on_chip_design_pr.Cosim.Exit.{byte_at, word_at, print_columns, print_rows}

pow_eight : (p : ℕ) → 16 ^ (p + 8) ≡ 16 ^ 8 * 16 ^ p
pow_eight zero = refl
pow_eight (suc p) =
    let e : suc p + 8 ≡ suc (p + 8) = omega arith in
    rw e (omega (arith, pow-suc 16 (p + 8), pow-suc 16 p, pow_eight p))

shift_low : (p q x : ℕ) → x < 2 ^ 32 → (q * 2 ^ 32 + x) / 16 ^ (p + 8) ≡ q / 16 ^ p
shift_low p q x h =
    let low : (q * 2 ^ 32 + x) / 16 ^ 8 ≡ q = omega arith in
    rw (pow_eight p, sym (div-div-eq-div-mul (q * 2 ^ 32 + x) (16 ^ 8) (16 ^ p)), low) refl

hex_digits-low : (q x : ℕ) → x < 2 ^ 32 → hex_digits 8 (q * 2 ^ 32 + x) ≡ hex_digits 8 x
unfolding hex_digits
hex_digits-low q x h =
    let e0 : (q * 2 ^ 32 + x) / 1 % 16 ≡ x / 1 % 16 = omega arith in
    let e1 : (q * 2 ^ 32 + x) / 16 % 16 ≡ x / 16 % 16 = omega arith in
    let e2 : (q * 2 ^ 32 + x) / 256 % 16 ≡ x / 256 % 16 = omega arith in
    let e3 : (q * 2 ^ 32 + x) / 4096 % 16 ≡ x / 4096 % 16 = omega arith in
    let e4 : (q * 2 ^ 32 + x) / 65536 % 16 ≡ x / 65536 % 16 = omega arith in
    let e5 : (q * 2 ^ 32 + x) / 1048576 % 16 ≡ x / 1048576 % 16 = omega arith in
    let e6 : (q * 2 ^ 32 + x) / 16777216 % 16 ≡ x / 16777216 % 16 = omega arith in
    let e7 : (q * 2 ^ 32 + x) / 268435456 % 16 ≡ x / 268435456 % 16 = omega arith in
    rw (e0, e1, e2, e3, e4, e5, e6, e7) refl

-- The digits of a number are those of its upper part and the eight of its lower 32 bits.
hex_digits-join :
    (places q x : ℕ)
    → x < 2 ^ 32
    → hex_digits (places + 8) (q * 2 ^ 32 + x) ≡ hex_digits places q ++ hex_digits 8 x
unfolding hex_digits
hex_digits-join zero q x h = hex_digits-low q x h
hex_digits-join (suc places) q x h =
    let e : suc places + 8 ≡ suc (places + 8) = omega arith in
    rw (e, shift_low places q x h, hex_digits-join places q x h) refl

-- The number whose `n` bytes, lowest first, stand at `i`.
unfoldable pub little_endian : List ℕ → ℕ → ℕ → ℕ
little_endian buffer i zero = 0
little_endian buffer i (suc n) = byte_at buffer i + 256 * little_endian buffer (i + 1) n

-- A text file of one number in 32 hexadecimal digits on each line.
unfoldable pub number_lines : List ℕ → ℕ → ℕ → Text
number_lines buffer zero i = []
number_lines buffer (suc left) i =
    hex_digits 32 (little_endian buffer i 16) ++ b'\n' ∷ number_lines buffer left (i + 16)

byte_at-lt : (buffer : List ℕ) (i : ℕ) → All (λ b. b < 256) buffer → byte_at buffer i < 256
unfolding byte_at
byte_at-lt [] i h = omega arith
byte_at-lt (b ∷ bs) zero (h, hs) = h
byte_at-lt (b ∷ bs) (suc i) (h, hs) = byte_at-lt bs i hs

word_at-lt : (buffer : List ℕ) (i : ℕ) → All (λ b. b < 256) buffer → word_at buffer i < 2 ^ 32
unfolding word_at
word_at-lt buffer i h = omega (
  arith,
  byte_at-lt buffer i h,
  byte_at-lt buffer (i + 1) h,
  byte_at-lt buffer (i + 2) h,
  byte_at-lt buffer (i + 3) h,
)

regroup : (a b c d : Text) → a ++ b ++ c ++ d ≡ a ++ (b ++ (c ++ (d ++ [])))
regroup a b c d = rw (append-nil d) (append_assoc (a ++ b) c d ∙ append_assoc a b (c ++ d))

-- Four words, the highest first, are the digits of the number that they make.
four_words :
    (w3 w2 w1 w0 : ℕ)
    → w2 < 2 ^ 32
    → w1 < 2 ^ 32
    → w0 < 2 ^ 32
    → hex_digits 8 w3 ++ (hex_digits 8 w2 ++ (hex_digits 8 w1 ++ (hex_digits 8 w0 ++ [])))
      ≡ hex_digits 32 (((w3 * 2 ^ 32 + w2) * 2 ^ 32 + w1) * 2 ^ 32 + w0)
four_words w3 w2 w1 w0 h2 h1 h0 = sym (
    hex_digits-join 24 ((w3 * 2 ^ 32 + w2) * 2 ^ 32 + w1) w0 h0
    ∙ ap (λ t. t ++ hex_digits 8 w0) (hex_digits-join 16 (w3 * 2 ^ 32 + w2) w1 h1)
    ∙ ap (λ t. (t ++ hex_digits 8 w1) ++ hex_digits 8 w0) (hex_digits-join 8 w3 w2 h2)
    ∙ regroup (hex_digits 8 w3) (hex_digits 8 w2) (hex_digits 8 w1) (hex_digits 8 w0))

little_endian-word :
    (buffer : List ℕ) (i n : ℕ)
    → little_endian buffer i (suc (suc (suc (suc n))))
      ≡ word_at buffer i + 2 ^ 32 * little_endian buffer (i + 4) n
unfolding word_at little_endian
little_endian-word buffer i n =
    let e2 : i + 1 + 1 ≡ i + 2 = omega arith in
    let e3 : i + 2 + 1 ≡ i + 3 = omega arith in
    let e4 : i + 3 + 1 ≡ i + 4 = omega arith in rw (e2, e3, e4) (omega arith)

little_endian-words :
    (buffer : List ℕ) (i : ℕ)
    → little_endian buffer i 16
      ≡ ((word_at buffer (i + 12) * 2 ^ 32 + word_at buffer (i + 8)) * 2 ^ 32
            + word_at buffer (i + 4))
          * 2 ^ 32
        + word_at buffer (i + 0)
unfolding little_endian
little_endian-words buffer i =
    let e0 : i + 0 ≡ i = omega arith in
    let e8 : i + 4 + 4 ≡ i + 8 = omega arith in
    let e12 : i + 8 + 4 ≡ i + 12 = omega arith in
    let w0 = little_endian-word buffer i 12 in
    let w1 = little_endian-word buffer (i + 4) 8 in
    let w2 : little_endian buffer (i + 8) 8
        ≡ word_at buffer (i + 8) + 2 ^ 32 * little_endian buffer (i + 12) 4 =
      rw e12 at (little_endian-word buffer (i + 8) 4) in
    let w3 : little_endian buffer (i + 12) 4 ≡ word_at buffer (i + 12) =
      omega (arith, little_endian-word buffer (i + 12) 0) in
    rw (e0, w0, w1, e8, w2, w3) (omega arith)

row-digits :
    (buffer : List ℕ) (r : ℕ)
    → All (λ b. b < 256) buffer
    → print_columns buffer r 4 0 ≡ hex_digits 32 (little_endian buffer (r * 16) 16)
unfolding print_columns
row-digits buffer r h = rw (little_endian-words buffer (r * 16)) (
    four_words _ _ _ _ (word_at-lt buffer (r * 16 + 8) h) (word_at-lt buffer (r * 16 + 4) h)
      (word_at-lt buffer (r * 16 + 0) h))

-- For a buffer of bytes, the rows of the signature text are the numbers that each 16 bytes of the
-- buffer make, lowest byte first, in 32 hexadecimal digits.
pub print_rows-number_lines :
    (buffer : List ℕ) (left r : ℕ)
    → All (λ b. b < 256) buffer
    → print_rows buffer left r ≡ number_lines buffer left (r * 16)
unfolding print_rows number_lines
print_rows-number_lines buffer zero r h = refl
print_rows-number_lines buffer (suc left) r h =
    let e : (r + 1) * 16 ≡ r * 16 + 16 = omega arith in
    ap₂ (λ line rest. line ++ b'\n' ∷ rest) (row-digits buffer r h)
      (rw e at (print_rows-number_lines buffer left (r + 1) h))
