-- ===== src/Testbench/CommandLine/Forwarding.antt =====
-- Which words of the command line of top_cache_axi/tb/main.cpp get to `riscv_main`.
use system_on_chip_design_pr.Base.{ℕ, suc, ◌+◌, ◌-◌, ◌≡◌, refl, ap, ◌∙◌, List, [], ◌∷◌, ◌++◌, arith}
use system_on_chip_design_pr.Base.Text.{Text, codes, equal_text}
use system_on_chip_design_pr.Outcome.{ok}
use system_on_chip_design_pr.Testbench.CommandLine.{
  Settings, other_word, word_of, Environment, left_at, with_trace, with_seed, with_name, scan,
  initial, with_waves, drop, sc_main,
}

-- An option of the testbench with its value.
pub data TbOption : Type 0 where
  trace seed vcd_name : Text → TbOption

abbrev pub value : TbOption → Text
value (trace v) = v
value (seed v) = v
value (vcd_name v) = v

abbrev pub words : List TbOption → List Text
words [] = []
words (trace v ∷ os) = codes "--trace" ∷ v ∷ words os
words (seed v ∷ os) = codes "--seed" ∷ v ∷ words os
words (vcd_name v ∷ os) = codes "--vcd_name" ∷ v ∷ words os

-- The word in front of those that are left.
abbrev pub word_before : Text → List TbOption → Text
word_before name [] = name
word_before name (o ∷ os) = word_before (value o) os

abbrev pub word_count : List TbOption → ℕ
word_count [] = 0
word_count (o ∷ os) = suc (suc (word_count os))

-- The words from the one before the first word that is not the testbench's.
drop-words :
    (os : List TbOption) (name a : Text) (rest : List Text)
    → drop (word_count os) (name ∷ words os ++ a ∷ rest) ≡ word_before name os ∷ a ∷ rest
unfolding drop
drop-words [] name a rest = refl
drop-words (trace v ∷ os) name a rest = drop-words os v a rest
drop-words (seed v ∷ os) name a rest = drop-words os v a rest
drop-words (vcd_name v ∷ os) name a rest = drop-words os v a rest

module _ (e : Environment) where
  abbrev pub set : TbOption → Settings → Settings
  set (trace v) s = with_trace e s v
  set (seed v) s = with_seed e s v
  set (vcd_name v) s = with_name e s v

  -- The options in their order, so that the last one of a kind counts.
  abbrev pub set_all : List TbOption → Settings → Settings
  set_all [] s = s
  set_all (o ∷ os) s = set_all os (set o s)

  scan-option :
      (i : ℕ) (o : TbOption) (ws : List Text) (s : Settings)
      → scan e i (words (o ∷ []) ++ ws) s ≡ scan e (i + 2) ws (set o s)
  unfolding scan word_of equal_text
  scan-option i (trace v) ws s = refl
  scan-option i (seed v) ws s = refl
  scan-option i (vcd_name v) ws s = refl

  scan-other :
      (i : ℕ) (a : Text) (rest : List Text) (s : Settings)
      → word_of a ≡ other_word
      → scan e i (a ∷ rest) s ≡ ok (left_at i s)
  unfolding scan
  scan-other i a [] s other = rw (other, scan) refl
  scan-other i a (v ∷ more) s other = rw (other, scan) refl

  scan-words :
      (os : List TbOption) (i : ℕ) (a : Text) (rest : List Text) (s : Settings)
      → word_of a ≡ other_word
      → scan e i (words os ++ a ∷ rest) s ≡ ok (left_at (i + word_count os) (set_all os s))
  scan-words [] i a rest s other =
      scan-other i a rest s other ∙ ap (λ (n : ℕ). ok (left_at n s)) (omega arith)
  scan-words (trace v ∷ os) i a rest s other =
      scan-option i (trace v) (words os ++ a ∷ rest) s
      ∙ scan-words os (i + 2) a rest (with_trace e s v) other
      ∙ ap (λ (n : ℕ). ok (left_at n (set_all os (with_trace e s v)))) (omega arith)
  scan-words (seed v ∷ os) i a rest s other =
      scan-option i (seed v) (words os ++ a ∷ rest) s
      ∙ scan-words os (i + 2) a rest (with_seed e s v) other
      ∙ ap (λ (n : ℕ). ok (left_at n (set_all os (with_seed e s v)))) (omega arith)
  scan-words (vcd_name v ∷ os) i a rest s other =
      scan-option i (vcd_name v) (words os ++ a ∷ rest) s
      ∙ scan-words os (i + 2) a rest (with_name e s v) other
      ∙ ap (λ (n : ℕ). ok (left_at n (set_all os (with_name e s v)))) (omega arith)

  scan-all : (os : List TbOption) (i : ℕ) (s : Settings) → scan e i (words os) s ≡ ok (set_all os s)
  unfolding scan
  scan-all [] i s = refl
  scan-all (trace v ∷ os) i s =
      scan-option i (trace v) (words os) s ∙ scan-all os (i + 2) (with_trace e s v)
  scan-all (seed v ∷ os) i s =
      scan-option i (seed v) (words os) s ∙ scan-all os (i + 2) (with_seed e s v)
  scan-all (vcd_name v ∷ os) i s =
      scan-option i (vcd_name v) (words os) s ∙ scan-all os (i + 2) (with_name e s v)

  set_all-last_argc : (os : List TbOption) (s : Settings) → (set_all os s).last_argc ≡ s.last_argc
  set_all-last_argc [] s = refl
  set_all-last_argc (trace v ∷ os) s = set_all-last_argc os (with_trace e s v)
  set_all-last_argc (seed v ∷ os) s = set_all-last_argc os (with_seed e s v)
  set_all-last_argc (vcd_name v ∷ os) s = set_all-last_argc os (with_name e s v)

  -- Options of the testbench, each with its value, set the variables in their order. `riscv_main` gets
  -- the first word that is not such an option with all behind it, and in front of them, for the name
  -- of the program, the word before; but where there is no such word, it gets the whole command line,
  -- the options of the testbench included.
  pub sc_main-words :
      (name : Text) (os : List TbOption) (a : Text) (rest : List Text)
      → word_of a ≡ other_word
      → (sc_main e name (words os ++ a ∷ rest)
          ≡ ok (
            with_waves e (left_at (1 + word_count os) (set_all os (initial e))),
            word_before name os ∷ a ∷ rest,
          ))
        × (sc_main e name (words os) ≡ ok (with_waves e (set_all os (initial e)), name ∷ words os))
  unfolding sc_main drop
  sc_main-words name os a rest other =
      let set_up = set_all os (initial e) in
      let count : 1 + word_count os - 1 ≡ word_count os = omega arith in
      (
        rw (scan-words os 1 a rest (initial e) other, count, drop-words os name a rest) refl,
        rw (scan-all os 1 (initial e)) (
            ap (λ (n : ℕ). ok (with_waves e set_up, drop n (name ∷ words os)))
              (set_all-last_argc os (initial e))),
      )
