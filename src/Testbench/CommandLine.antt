-- ===== src/Testbench/CommandLine.antt =====
-- The command line of top_cache_axi/tb/main.cpp, which top_tcm_axi/tb/main.cpp repeats: the options of
-- the testbench, and the words that it leaves to `riscv_main`. `strtol` and the environment are
-- parameters.
pub mod Forwarding
use system_on_chip_design_pr.Base.{
  ℕ, zero, suc, ◌+◌, ◌-◌, ◌%◌, ◌^◌, Bool, true, false, not, List, [], ◌∷◌, Option, none, some,
  if◌then◌else◌, ◌==◌, u32,
}
use system_on_chip_design_pr.Base.Text.{Text, codes, equal_text}
use system_on_chip_design_pr.Outcome.{Outcome, ok, undefined, ◌>>=◌}

-- The local variables. `vcd_name` is `none` for a null pointer.
pub record Settings : Type 0 where
  pub trace : Bool
  pub seed : ℕ
  pub last_argc : ℕ
  pub vcd_name : Option Text

-- What the comparisons of the loop make of a word.
pub data Word : Type 0 where
  trace_word seed_word vcd_word other_word : Word

unfoldable pub word_of : Text → Word
word_of a =
    if equal_text a (codes "--trace")
    then trace_word
    else if equal_text a (codes "--seed")
    then seed_word
    else if equal_text a (codes "--vcd_name")
    then vcd_word
    else other_word

-- The numbers that `strtol` reads, and the variables SEED and ENABLE_WAVES.
pub record Environment : Type 0 where
  pub strtol : Text → ℕ
  pub seed_variable : Option Text
  pub enable_waves : Option Text

abbrev pub left_at : ℕ → Settings → Settings
left_at i o = record o { last_argc = i - 1 }

-- `&argv[n]`.
unfoldable pub drop : ℕ → List Text → List Text
drop zero ws = ws
drop (suc n) [] = []
drop (suc n) (x ∷ ws) = drop n ws

module _ (e : Environment) where
  abbrev pub with_trace : Settings → Text → Settings
  with_trace o v = record o { trace = not (e.strtol v == 0) }

  abbrev pub with_seed : Settings → Text → Settings
  with_seed o v = record o { seed = u32 (e.strtol v) }

  abbrev pub with_name : Settings → Text → Settings
  with_name o v = record o { vcd_name = some v }

  -- The loop from word `i` on. The word behind the last one is a null pointer, which `strtol` does not
  -- read.
  unfoldable pub scan : ℕ → List Text → Settings → Outcome Settings
  scan i [] o = ok o
  scan i (a ∷ []) o = elim (word_of a) [
    | trace_word ↦ undefined
    | seed_word ↦ undefined
    | vcd_word ↦ ok (record o { vcd_name = none })
    | other_word ↦ ok (left_at i o)
  ]
  scan i (a ∷ v ∷ rest) o = elim (word_of a) [
    | trace_word ↦ scan (i + 2) rest (with_trace o v)
    | seed_word ↦ scan (i + 2) rest (with_seed o v)
    | vcd_word ↦ scan (i + 2) rest (with_name o v)
    | other_word ↦ ok (left_at i o)
  ]

  -- The variables before the loop: SEED counts where it is set and not empty.
  abbrev pub initial_seed : Option Text → ℕ
  initial_seed none = 1
  initial_seed (some []) = 1
  initial_seed (some (c ∷ cs)) = u32 (e.strtol (c ∷ cs))

  abbrev pub initial : Settings
  initial = record {
    trace = true;
    seed = initial_seed e.seed_variable;
    last_argc = 0;
    vcd_name = some (codes "sysc_wave");
  }

  -- ENABLE_WAVES behind the loop.
  abbrev pub waves_off : Option Text → Bool
  waves_off none = false
  waves_off (some s) = equal_text s (codes "no")

  abbrev pub with_waves : Settings → Settings
  with_waves o = if waves_off e.enable_waves then record o { trace = false } else o

  -- `sc_main` up to `set_argcv`: the settings, and the words that `riscv_main` gets, for a program
  -- name and its arguments.
  unfoldable pub sc_main : Text → List Text → Outcome (Settings × List Text)
  sc_main name args = do o ← scan 1 args initial; ok (with_waves o, drop o.last_argc (name ∷ args))
