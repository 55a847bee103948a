-- ===== src/Testbench/Process/Turn.antt =====
-- What one cycle of top_cache_axi/tb/tb_axi4_mem.cpp does for the first read of its queue.
use system_on_chip_design_pr.Base.{
  ℕ, ◌+◌, ◌^◌, ◌≤◌, ◌<◌, ◌≡◌, refl, sym, ap, ◌∙◌, Bool, true, false, List, [], ◌∷◌, ◌++◌, arith,
}
use system_on_chip_design_pr.Outcome.{ok}
use system_on_chip_design_pr.Testbench.Axi.{Master, Slave, resp_okay}
use system_on_chip_design_pr.Testbench.Regions.{World, MemRegion, TbMemory}
use system_on_chip_design_pr.Testbench.Process.{
  AxiMem, delay_cycle, clear_read, give_read, answer_read, clear_write, handshake, cycle, read32,
}
use system_on_chip_design_pr.Testbench.Process.Words.Reading.{HasWord, read32-word}
use system_on_chip_design_pr.Testbench.Process.Stable.{
  clear_write-SameRead, handshake-SameRead, then-SameRead,
}
use system_on_chip_design_pr.Testbench.Process.Progress.{
  OnlyReads, Serves, Answers, delay_cycle-Drew, handshake-Drew, take-reads, answer_read-first,
  clear_read-free, delay-coin, after-Answers, after-Serves, rest_of_cycle,
}

give_read-runs :
    (item : Master) (q : List Master) (o : Slave) (s : AxiMem) (m : TbMemory) (v : ℕ)
    → read32 s.world s.memory item.araddr ≡ ok (m, v)
    → give_read false item q o s
      ≡ ok (
        record s { rd_q = q; memory = m },
        record o {
          rvalid = true;
          rdata = v;
          rid = item.arid;
          rlast = item.wlast;
          rresp = resp_okay;
        },
      )
unfolding give_read
give_read-runs item q o s m v e = rw e refl

word_moved :
    {w : World} {rs : List MemRegion} (w' : World) (rs' : List MemRegion) (addr v : ℕ)
    → w' ≡ w
    → rs' ≡ rs
    → HasWord w rs addr v
    → HasWord w' rs' addr v
word_moved w' rs' addr v same_world same_regions has = rw (same_world, same_regions) has

module _ (w : World) (rs : List MemRegion) (coins : ℕ → Bool) where
  -- What a cycle does for the first read: it answers it, or a coin delays it.
  pub data Turn (item : Master) (v : ℕ) (q : List Master) (before : ℕ) (r : AxiMem × Slave)
      : Type 0 where
    answered : Serves w rs coins q r.0 → Answers item v r.1 → Turn item v q before r
    delayed :
        Serves w rs coins (item ∷ q) r.0
        → coins before ≡ true
        → before < r.0.drawn
        → r.0.drawn ≤ before + 4
        → Turn item v q before r

  read-Turn :
      (item : Master) (v : ℕ) (q : List Master) (o : Slave) (s : AxiMem)
      → v < 2 ^ 32
      → HasWord w rs item.araddr v
      → Serves w rs coins (item ∷ q) s
      → o.rvalid ≡ false
      → (r : AxiMem × Slave) × (answer_read o s ≡ ok r)
        × (r.0.wr_q ≡ [])
        × ((i : Master) → Turn item v q s.drawn (handshake (clear_write i r.1) r.0))
  unfolding give_read
  read-Turn item v q o s fits has serves free = by_coin (delay_cycle s).1 refl
    where
      s2 : AxiMem
      s2 = (delay_cycle s).0

      now : Serves w rs coins (item ∷ q) s2
      now = after-Serves (delay_cycle-Drew s) serves

      by_coin :
          (b : Bool)
          → (delay_cycle s).1 ≡ b
          → (r : AxiMem × Slave) × (answer_read o s ≡ ok r)
            × (r.0.wr_q ≡ [])
            × ((i : Master) → Turn item v q s.drawn (handshake (clear_write i r.1) r.0))
      by_coin true e = (
        (s2, o),
        answer_read-first o s item q free serves.reads ∙ ap (λ b. give_read b item q o s2) e,
        now.no_writes,
        λ i.
            let drew = handshake-Drew (clear_write i o) s2 in
            let (coin, drawn) = delay-coin s e in
            delayed (after-Serves drew now) (ap (λ c. c s.drawn) (sym serves.coins_kept) ∙ coin)
              (omega (arith, drew.low)) (omega (arith, drew.high)),
      )
      by_coin false e =
          let (m, runs, same) =
            read32-word item.araddr v s2.world s2.memory fits
              (word_moved s2.world s2.memory.regions item.araddr v now.world now.regions has) in
          let s3 = record s2 { rd_q = q; memory = m } in
          let o3 = record o {
            rvalid = true;
            rdata = v;
            rid = item.arid;
            rlast = item.wlast;
            rresp = resp_okay;
          } in
          let given : Answers item v o3 = record {
            rvalid = refl;
            rdata = refl;
            rid = refl;
            rresp = refl;
            rlast = refl;
          } in
          let next : Serves w rs coins q s3 = record {
            world = now.world;
            regions = same ∙ now.regions;
            coins_kept = now.coins_kept;
            reads = refl;
            no_writes = now.no_writes;
          } in
          (
            (s3, o3),
            answer_read-first o s item q free serves.reads
                ∙ ap (λ b. give_read b item q o s2) e
                ∙ give_read-runs item q o s2 m v runs,
            now.no_writes,
            λ i. answered (after-Serves (handshake-Drew (clear_write i o3) s3) next) (
                after-Answers o3 (handshake (clear_write i o3) s3).1
                  (then-SameRead o3 (clear_write i o3) (handshake (clear_write i o3) s3).1
                    (clear_write-SameRead i o3) (handshake-SameRead (clear_write i o3) s3))
                  given),
          )

  -- One cycle, with the reads that it takes from the master.
  pub one_cycle :
      (item : Master) (v : ℕ) (q : List Master) (i : Master) (o : Slave) (s : AxiMem)
      → v < 2 ^ 32
      → HasWord w rs item.araddr v
      → Serves w rs coins (item ∷ q) s
      → OnlyReads i
      → (new : List Master) × (r : AxiMem × Slave) × (cycle i o s ≡ ok r)
        × Turn item v (q ++ new) s.drawn r
  one_cycle item v q i o s fits has serves only =
      let (new, taken) = take-reads i o s only in
      let s1 = record s { rd_q = s.rd_q ++ new } in
      let serves1 : Serves w rs coins (item ∷ (q ++ new)) s1 = record {
        world = serves.world;
        regions = serves.regions;
        coins_kept = serves.coins_kept;
        reads = ap (λ l. l ++ new) serves.reads;
        no_writes = serves.no_writes;
      } in
      let (r, read, idle, turn) =
        read-Turn item v (q ++ new) (clear_read i o) s1 fits has serves1
          (clear_read-free i o only.takes) in
      (new, handshake (clear_write i r.1) r.0, rest_of_cycle i o s s1 r taken read idle, turn i)
