-- ===== src/Examples/CommandLineWitnesses.antt =====
-- A command line of the testbench: its seed, then the file for the simulator.
use system_on_chip_design_pr.Base.{◌+◌, ◌≡◌, refl, [], ◌∷◌, ◌++◌, none}
use system_on_chip_design_pr.Base.Text.{codes, equal_text}
use system_on_chip_design_pr.Outcome.{ok}
use system_on_chip_design_pr.Testbench.CommandLine.{
  Environment, word_of, left_at, initial, with_waves, sc_main,
}
use system_on_chip_design_pr.Testbench.CommandLine.Forwarding.{
  seed, words, word_before, word_count, set_all, sc_main-words,
}

abbrev plain : Environment
plain = record { strtol = λ t. 7; seed_variable = none; enable_waves = none }

sc_main-words_example :
    (sc_main plain (codes "tb") (words (seed (codes "7") ∷ []) ++ codes "-f" ∷ codes "a.elf" ∷ [])
      ≡ ok (
        with_waves plain (
            left_at
              (1 + word_count (seed (codes "7") ∷ []))
              (set_all plain (seed (codes "7") ∷ []) (initial plain))),
        word_before (codes "tb") (seed (codes "7") ∷ []) ∷ codes "-f" ∷ codes "a.elf" ∷ [],
      ))
    × (sc_main plain (codes "tb") (words (seed (codes "7") ∷ []))
        ≡ ok (
          with_waves plain (set_all plain (seed (codes "7") ∷ []) (initial plain)),
          codes "tb" ∷ words (seed (codes "7") ∷ []),
        ))
unfolding word_of equal_text
sc_main-words_example =
    sc_main-words plain (codes "tb") (seed (codes "7") ∷ []) (codes "-f") (codes "a.elf" ∷ []) refl
