-- ===== src/Testbench/Process/Answered.antt =====
-- Every queued read of top_cache_axi/tb/tb_axi4_mem.cpp is answered, whatever the coins delay before.
use mathlib.Core.List.{append_assoc}
use native.Mathlib.Decide.{dec_lt}
use system_on_chip_design_pr.Base.{
  ℕ, zero, suc, ◌+◌, ◌^◌, ◌≤◌, ◌<◌, ◌≡◌, Bool, false, List, [], ◌∷◌, ◌++◌, All, arith,
}
use system_on_chip_design_pr.Outcome.{ok}
use system_on_chip_design_pr.Testbench.Axi.{Master, Slave}
use system_on_chip_design_pr.Testbench.Regions.{World, MemRegion}
use system_on_chip_design_pr.Testbench.Process.{AxiMem, cycle}
use system_on_chip_design_pr.Testbench.Process.Words.Reading.{HasWord}
use system_on_chip_design_pr.Testbench.Process.Progress.{OnlyReads, Serves, Answers}
use system_on_chip_design_pr.Testbench.Process.Turn.{Turn, answered, delayed, one_cycle}

-- After some cycle, of the master with the signals `is` from time `t` on.
pub data Eventually (is : ℕ → Master) (P : Slave → AxiMem → Type 0)
    : ℕ → Slave → AxiMem → Type 0 where
  next :
      {t : ℕ} {o : Slave} {s : AxiMem} (r : AxiMem × Slave)
      → cycle (is t) o s ≡ ok r
      → P r.1 r.0
      → Eventually is P t o s
  later :
      {t : ℕ} {o : Slave} {s : AxiMem} (r : AxiMem × Slave)
      → cycle (is t) o s ≡ ok r
      → Eventually is P (suc t) r.1 r.0
      → Eventually is P t o s

Eventually-map :
    {is : ℕ → Master} {P Q : Slave → AxiMem → Type 0} {t : ℕ} {o : Slave} {s : AxiMem}
    → ((o' : Slave) (s' : AxiMem) → P o' s' → Q o' s')
    → Eventually is P t o s
    → Eventually is Q t o s
Eventually-map f (next r e h) = next r e (f r.1 r.0 h)
Eventually-map f (later r e h) = later r e (Eventually-map f h)

Eventually-then :
    {is : ℕ → Master} {P Q : Slave → AxiMem → Type 0} {t : ℕ} {o : Slave} {s : AxiMem}
    → Eventually is P t o s
    → ((t' : ℕ) (o' : Slave) (s' : AxiMem) → P o' s' → Eventually is Q t' o' s')
    → Eventually is Q t o s
Eventually-then (next {t} r e h) f = later r e (f (suc t) r.1 r.0 h)
Eventually-then (later r e h) f = later r e (Eventually-then h f)

-- Four coins in a row that delay nothing come up behind every place.
abbrev pub IsFair : (ℕ → Bool) → Type 0
IsFair coins = (n : ℕ) → (m : ℕ) × (n ≤ m) × ((k : ℕ) → m ≤ k → k < m + 4 → coins k ≡ false)

module _ (w : World) (rs : List MemRegion) (coins : ℕ → Bool) where
  -- The read is answered, and what was queued behind it still is.
  abbrev pub AnswersFirst : Master → ℕ → List Master → Slave → AxiMem → Type 0
  AnswersFirst item v q o s =
      Answers item v o × (rest : List Master) × Serves w rs coins (q ++ rest) s

  joined :
      (item : Master) (v : ℕ) (q new : List Master) (o : Slave) (s : AxiMem)
      → AnswersFirst item v (q ++ new) o s
      → AnswersFirst item v q o s
  joined item v q new o s (given, rest, served) =
      (given, new ++ rest, rw (← append_assoc q new rest) served)

  -- A turn that is delayed comes before the quiet coins.
  after-Turn :
      (is : ℕ → Master) (m t v : ℕ) (item : Master) (q new : List Master) (o : Slave) (s : AxiMem)
      (r : AxiMem × Slave)
      → s.drawn ≤ m + 3
      → ((k : ℕ) → m ≤ k → k < m + 4 → coins k ≡ false)
      → cycle (is t) o s ≡ ok r
      → Turn w rs coins item v (q ++ new) s.drawn r
      → (Serves w rs coins (item ∷ (q ++ new)) r.0
          → s.drawn < m
          → s.drawn < r.0.drawn
          → r.0.drawn ≤ s.drawn + 4
          → Eventually is (AnswersFirst item v (q ++ new)) (suc t) r.1 r.0)
      → Eventually is (AnswersFirst item v q) t o s
  after-Turn is m t v item q new o s r near quiet runs (answered served given) go_on =
      next r runs (given, new, served)
  after-Turn is m t v item q new o s r near quiet runs (delayed served coin low high) go_on =
      elim (dec_lt s.drawn m) [
        | yes early ↦
            later r runs (Eventually-map (joined item v q new) (go_on served early low high))
        | no late ↦ absurd (let h = quiet s.drawn (omega arith) (omega arith) in cc)
      ]

  module _ (is : ℕ → Master) (only : (t : ℕ) → OnlyReads (is t)) where
    first_answered :
        (fuel m t v : ℕ) (item : Master) (q : List Master) (o : Slave) (s : AxiMem)
        → m < s.drawn + fuel
        → s.drawn ≤ m + 3
        → ((k : ℕ) → m ≤ k → k < m + 4 → coins k ≡ false)
        → v < 2 ^ 32
        → HasWord w rs item.araddr v
        → Serves w rs coins (item ∷ q) s
        → Eventually is (AnswersFirst item v q) t o s
    first_answered zero m t v item q o s enough near quiet fits has serves =
        let (new, r, runs, turn) =
          one_cycle w rs coins item v q (is t) o s fits has serves (only t) in
        after-Turn is m t v item q new o s r near quiet runs turn
          (λ served early low high. absurd (omega arith))
    first_answered (suc fuel) m t v item q o s enough near quiet fits has serves =
        let (new, r, runs, turn) =
          one_cycle w rs coins item v q (is t) o s fits has serves (only t) in
        after-Turn is m t v item q new o s r near quiet runs turn (λ served early low high.
          first_answered fuel m (suc t) v item (q ++ new) r.1 r.0 (omega arith) (omega arith) quiet
            fits has served)

    -- The first read of the queue, by the next quiet coins.
    first_by_fair :
        (t v : ℕ) (item : Master) (q : List Master) (o : Slave) (s : AxiMem)
        → IsFair coins
        → v < 2 ^ 32
        → HasWord w rs item.araddr v
        → Serves w rs coins (item ∷ q) s
        → Eventually is (AnswersFirst item v q) t o s
    first_by_fair t v item q o s fair fits has serves =
        let (m, behind, quiet) = fair s.drawn in
        first_answered (suc m) m t v item q o s (omega arith) (omega arith) quiet fits has serves

    -- Where no write is queued, the master only reads and takes each answer, and four coins in a row
    -- that delay nothing come up behind every place: a queued read is answered after some cycle, if
    -- it and those before it have words in the memory. No cycle fails before. The answer has the word
    -- at the address, the identifier and the mark of the last; the reads that stood behind are then
    -- at the front of the queue.
    pub read-IsAnswered :
        (before : List Master) (t v : ℕ) (item : Master) (after : List Master) (o : Slave)
        (s : AxiMem)
        → IsFair coins
        → All (λ i. (u : ℕ) × (u < 2 ^ 32) × HasWord w rs i.araddr u) before
        → v < 2 ^ 32
        → HasWord w rs item.araddr v
        → Serves w rs coins (before ++ item ∷ after) s
        → Eventually is (AnswersFirst item v after) t o s
    read-IsAnswered [] t v item after o s fair words fits has serves =
        first_by_fair t v item after o s fair fits has serves
    read-IsAnswered (b ∷ bs) t v item after o s fair ((u, u_fits, u_has), words) fits has serves =
        Eventually-then (first_by_fair t u b (bs ++ item ∷ after) o s fair u_fits u_has serves)
          λ t' o' s' (given, rest, served). Eventually-map (joined item v after rest) (
            read-IsAnswered bs t' v item (after ++ rest) o' s' fair words fits has
              (rw (append_assoc bs (item ∷ after) rest) at served))
