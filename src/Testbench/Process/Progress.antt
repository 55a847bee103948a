-- ===== src/Testbench/Process/Progress.antt =====
-- The reads of the AXI slave of top_cache_axi/tb/tb_axi4_mem.cpp are answered in the end.
use mathlib.Core.List.{append-nil}
use system_on_chip_design_pr.Base.{
  ℕ, ◌+◌, ◌≤◌, ◌≡◌, refl, ap, ◌∙◌, Bool, true, false, ◌&&◌, List, [], ◌∷◌, ◌++◌, if◌then◌else◌,
  arith,
}
use system_on_chip_design_pr.Outcome.{ok}
use system_on_chip_design_pr.Testbench.Axi.{Master, Slave, resp_okay}
use system_on_chip_design_pr.Testbench.Burst.{read_burst}
use system_on_chip_design_pr.Testbench.Regions.{World, MemRegion}
use system_on_chip_design_pr.Testbench.Process.{
  AxiMem, delay_cycle, take_commands, take_data, clear_read, give_read, next_read, answer_read,
  clear_write, next_write, answer_write, handshake, cycle,
}
use system_on_chip_design_pr.Testbench.Process.Stable.{SameRead}

-- A master that only reads, as that of the instructions, and that takes each answer at once.
pub record OnlyReads (i : Master) : Type 0 where
  pub no_command : i.awvalid ≡ false
  pub no_data : i.wvalid ≡ false
  pub takes : i.rready ≡ true

-- All but the coins that are drawn is as before; at most `most` coins are drawn.
pub record Drew (most : ℕ) (s s' : AxiMem) : Type 0 where
  pub world : s'.world ≡ s.world
  pub memory : s'.memory ≡ s.memory
  pub delays : s'.enable_delays ≡ s.enable_delays
  pub rd_q : s'.rd_q ≡ s.rd_q
  pub wr_q : s'.wr_q ≡ s.wr_q
  pub coins : s'.coins ≡ s.coins
  pub low : s.drawn ≤ s'.drawn
  pub high : s'.drawn ≤ s.drawn + most

pub delay_cycle-Drew : (s : AxiMem) → Drew 1 s (delay_cycle s).0
unfolding delay_cycle
delay_cycle-Drew s = record {
  world = ground arith;
  memory = ground arith;
  delays = ground arith;
  rd_q = ground arith;
  wr_q = ground arith;
  coins = ground arith;
  low = ground arith;
  high = ground arith;
}

then-Drew : {m n : ℕ} {s1 s2 s3 : AxiMem} → Drew m s1 s2 → Drew n s2 s3 → Drew (m + n) s1 s3
then-Drew a b = record {
  world = b.world ∙ a.world;
  memory = b.memory ∙ a.memory;
  delays = b.delays ∙ a.delays;
  rd_q = b.rd_q ∙ a.rd_q;
  wr_q = b.wr_q ∙ a.wr_q;
  coins = b.coins ∙ a.coins;
  low = omega (arith, a.low, b.low);
  high = omega (arith, a.high, b.high);
}

-- At most `most`, one more coin, where a condition asks for it.
then-if :
    {m : ℕ} {s1 s2 : AxiMem} (b : Bool)
    → Drew m s1 s2
    → Drew (m + 1) s1 (if b then delay_cycle s2 else (s2, false)).0
then-if true a = then-Drew a (delay_cycle-Drew _)
then-if {s1} {s2} false a = record {
  world = a.world;
  memory = a.memory;
  delays = a.delays;
  rd_q = a.rd_q;
  wr_q = a.wr_q;
  coins = a.coins;
  low = a.low;
  high = omega (arith, a.high);
}

pub handshake-Drew : (o : Slave) (s : AxiMem) → Drew 3 s (handshake o s).0
unfolding handshake
handshake-Drew o s = then-if _ (then-Drew (delay_cycle-Drew s) (delay_cycle-Drew (delay_cycle s).0))

-- The commands that a cycle takes from such a master.
pub take-reads :
    (i : Master) (o : Slave) (s : AxiMem)
    → OnlyReads i
    → (new : List Master) × (take_data i o (take_commands i o s)
        ≡ ok (record s { rd_q = s.rd_q ++ new }))
unfolding take_commands take_data
take-reads i o s only = by_case (i.arvalid && o.arready) refl
  where
    by_case :
        (b : Bool)
        → (i.arvalid && o.arready) ≡ b
        → (new : List Master) × (take_data i o (take_commands i o s)
            ≡ ok (record s { rd_q = s.rd_q ++ new }))
    by_case true e = (read_burst i, rw (only.no_data, only.no_command, e) refl)
    by_case false e = ([], rw (only.no_data, only.no_command, e, append-nil) refl)

pub answer_read-first :
    (o : Slave) (s : AxiMem) (item : Master) (q : List Master)
    → o.rvalid ≡ false
    → s.rd_q ≡ item ∷ q
    → answer_read o s ≡ give_read (delay_cycle s).1 item q o (delay_cycle s).0
unfolding answer_read next_read
answer_read-first o s item q free first =
    ap (λ b. next_read b s.rd_q o s) free ∙ ap (λ l. next_read false l o s) first

answer_write-idle : (o : Slave) (s : AxiMem) → s.wr_q ≡ [] → answer_write o s ≡ ok (s, o)
unfolding answer_write next_write
answer_write-idle o s idle = ap (λ l. next_write o.bvalid l o s) idle ∙ by_case o.bvalid
  where
    by_case : (b : Bool) → next_write b [] o s ≡ ok (s, o)
    by_case true = refl
    by_case false = refl

pub clear_read-free : (i : Master) (o : Slave) → i.rready ≡ true → (clear_read i o).rvalid ≡ false
unfolding clear_read
clear_read-free i o takes = ground arith

pub delay-coin :
    (s : AxiMem)
    → (delay_cycle s).1 ≡ true
    → (s.coins s.drawn ≡ true) × ((delay_cycle s).0.drawn ≡ s.drawn + 1)
unfolding delay_cycle
delay-coin s delayed = ground arith

-- The memory holds its regions, its coins and a queue of reads, and has no write to do.
pub record Serves (w : World) (rs : List MemRegion) (coins : ℕ → Bool) (queue : List Master)
    (s : AxiMem) : Type 0 where
  pub world : s.world ≡ w
  pub regions : s.memory.regions ≡ rs
  pub coins_kept : s.coins ≡ coins
  pub reads : s.rd_q ≡ queue
  pub no_writes : s.wr_q ≡ []

-- The answer to a read: the word at its address, its identifier, and whether it is the last.
pub record Answers (item : Master) (v : ℕ) (o : Slave) : Type 0 where
  pub rvalid : o.rvalid ≡ true
  pub rdata : o.rdata ≡ v
  pub rid : o.rid ≡ item.arid
  pub rresp : o.rresp ≡ resp_okay
  pub rlast : o.rlast ≡ item.wlast

pub after-Answers :
    {item : Master} {v : ℕ} (o o' : Slave) → SameRead o o' → Answers item v o → Answers item v o'
after-Answers o o' same a = record {
  rvalid = same.rvalid ∙ a.rvalid;
  rdata = same.rdata ∙ a.rdata;
  rid = same.rid ∙ a.rid;
  rresp = same.rresp ∙ a.rresp;
  rlast = same.rlast ∙ a.rlast;
}

pub after-Serves :
    {w : World} {rs : List MemRegion} {coins : ℕ → Bool} {queue : List Master} {n : ℕ}
    {s s' : AxiMem}
    → Drew n s s'
    → Serves w rs coins queue s
    → Serves w rs coins queue s'
after-Serves drew a = record {
  world = drew.world ∙ a.world;
  regions = ap (λ m. m.regions) drew.memory ∙ a.regions;
  coins_kept = drew.coins ∙ a.coins_kept;
  reads = drew.rd_q ∙ a.reads;
  no_writes = drew.wr_q ∙ a.no_writes;
}

-- The rest of a cycle once the read channel is done and no write is queued.
pub rest_of_cycle :
    (i : Master) (o : Slave) (s s1 : AxiMem) (r : AxiMem × Slave)
    → take_data i o (take_commands i o s) ≡ ok s1
    → answer_read (clear_read i o) s1 ≡ ok r
    → r.0.wr_q ≡ []
    → cycle i o s ≡ ok (handshake (clear_write i r.1) r.0)
unfolding cycle
rest_of_cycle i o s s1 r taken answered idle =
    rw (taken, answered, answer_write-idle (clear_write i r.1) r.0 idle) refl
