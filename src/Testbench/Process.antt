-- ===== src/Testbench/Process.antt =====
-- top_cache_axi/tb/tb_axi4_mem.cpp: the accesses to memory, and `process`, which is one `cycle` for
-- each clock edge.
pub mod Words
pub mod Progress
pub mod Turn
pub mod Answered
pub mod Stable
use system_on_chip_design_pr.Base.{
  ℕ, zero, suc, ◌+◌, ◌*◌, ◌%◌, ◌^◌, Bool, true, false, not, ◌&&◌, List, [], ◌∷◌, ◌++◌, bit_or,
  if◌then◌else◌, ltb, add32, shl32, shr32, any_bit,
}
use system_on_chip_design_pr.Base.Text.{length}
use system_on_chip_design_pr.Outcome.{Outcome, ok, assert, ◌>>=◌}
use system_on_chip_design_pr.Testbench.Axi.{Master, Slave, resp_okay}
use system_on_chip_design_pr.Testbench.Regions.{World, TbMemory}
use system_on_chip_design_pr.Testbench.Regions
use system_on_chip_design_pr.Testbench.Burst.{calc_next_addr, read_burst}

-- The loop of `write32` from byte `i` on, with the rounds left: the bytes that the strobes select.
unfoldable pub write_bytes : World → TbMemory → ℕ → ℕ → ℕ → ℕ → ℕ → Outcome (World × TbMemory)
write_bytes w m addr value strb zero i = ok (w, m)
write_bytes w m addr value strb (suc left) i = elim (any_bit strb (shl32 1 i)) [
  | true ↦ do
    done ← Regions.write w m (add32 addr i) (shr32 value (i * 8) % 2 ^ 8)
    write_bytes done.0 done.1 addr value strb left (i + 1)
  | false ↦ write_bytes w m addr value strb left (i + 1)
]

unfoldable pub write32 : World → TbMemory → ℕ → ℕ → ℕ → Outcome (World × TbMemory)
write32 w m addr value strb = write_bytes w m addr value strb 4 0

unfoldable pub read_bytes : World → TbMemory → ℕ → ℕ → ℕ → ℕ → Outcome (TbMemory × ℕ)
read_bytes w m addr value zero i = ok (m, value)
read_bytes w m addr value (suc left) i = do
  done ← Regions.read w m (add32 addr i)
  read_bytes w done.0 addr (bit_or value (shl32 done.1 (i * 8))) left (i + 1)

unfoldable pub read32 : World → TbMemory → ℕ → Outcome (TbMemory × ℕ)
read32 w m addr = read_bytes w m addr 0 4 0

-- The object, with the local variables of `process`. `coins` are the values of `rand() & 1`, of
-- which `drawn` are used.
pub record AxiMem : Type 0 where
  pub world : World
  pub memory : TbMemory
  pub enable_delays : Bool
  pub rd_q : List Master
  pub wr_q : List Master
  pub wr_req : Master
  pub coins : ℕ → Bool
  pub drawn : ℕ

unfoldable pub delay_cycle : AxiMem → AxiMem × Bool
delay_cycle s = elim s.enable_delays [
  | true ↦ (record s { drawn = s.drawn + 1 }, s.coins s.drawn)
  | false ↦ (s, false)
]

-- The read command and the write command.
unfoldable pub take_commands : Master → Slave → AxiMem → AxiMem
take_commands i o s = record s {
  rd_q = if i.arvalid && o.arready then s.rd_q ++ read_burst i else s.rd_q;
  wr_req = if i.awvalid && o.awready then i else s.wr_req;
}

-- The write data.
unfoldable pub take_data : Master → Slave → AxiMem → Outcome AxiMem
take_data i o s =
    if i.wvalid && o.wready
    then assert s.wr_req.awvalid (
        ok (record s {
          wr_q =
              s.wr_q
              ++ record s.wr_req {
                awvalid = true;
                wvalid = true;
                wdata = i.wdata;
                wstrb = i.wstrb;
                wlast = i.wlast;
              }
                ∷ [];
          wr_req = record s.wr_req {
            awaddr = calc_next_addr s.wr_req.awaddr s.wr_req.awburst s.wr_req.awlen;
            awvalid = if i.wlast then false else s.wr_req.awvalid;
          };
        }))
    else ok s

-- A read answer that the master has taken is cleared.
abbrev pub no_read_answer : Slave → Slave
no_read_answer o = record o { rvalid = false; rdata = 0; rid = 0; rresp = 0; rlast = false }

unfoldable pub clear_read : Master → Slave → Slave
clear_read i o = if o.rvalid && i.rready then no_read_answer o else o

-- The answer to the first read, unless the coin of this cycle delays it.
unfoldable pub give_read : Bool → Master → List Master → Slave → AxiMem → Outcome (AxiMem × Slave)
give_read true item q o s = ok (s, o)
give_read false item q o s = do
  done ← read32 s.world s.memory item.araddr
  ok (
    record s { rd_q = q; memory = done.0 },
    record o {
      rvalid = true;
      rdata = done.1;
      rid = item.arid;
      rlast = item.wlast;
      rresp = resp_okay;
    },
  )

-- A coin is drawn where no answer stands (the first argument) and a read is queued (the second).
unfoldable pub next_read : Bool → List Master → Slave → AxiMem → Outcome (AxiMem × Slave)
next_read true q o s = ok (s, o)
next_read false [] o s = ok (s, o)
next_read false (item ∷ q) o s = let (s', delayed) = delay_cycle s in give_read delayed item q o s'

unfoldable pub answer_read : Slave → AxiMem → Outcome (AxiMem × Slave)
answer_read o s = next_read o.rvalid s.rd_q o s

abbrev pub no_write_answer : Slave → Slave
no_write_answer o = record o { bvalid = false; bid = 0; bresp = 0 }

unfoldable pub clear_write : Master → Slave → Slave
clear_write i o = if o.bvalid && i.bready then no_write_answer o else o

-- The first write, unless it is delayed; it is answered at the last item of its burst.
unfoldable pub do_write : Bool → Master → List Master → Slave → AxiMem → Outcome (AxiMem × Slave)
do_write true item q o s = ok (s, o)
do_write false item q o s = do
  done ← write32 s.world s.memory item.awaddr item.wdata item.wstrb
  ok (
    record s { wr_q = q; world = done.0; memory = done.1 },
    record o { bvalid = item.wlast; bid = item.awid; bresp = resp_okay },
  )

unfoldable pub next_write : Bool → List Master → Slave → AxiMem → Outcome (AxiMem × Slave)
next_write true q o s = ok (s, o)
next_write false [] o s = ok (s, o)
next_write false (item ∷ q) o s = let (s', delayed) = delay_cycle s in do_write delayed item q o s'

unfoldable pub answer_write : Slave → AxiMem → Outcome (AxiMem × Slave)
answer_write o s = next_write o.bvalid s.wr_q o s

-- The handshakes: a queue is open below 128 items.
unfoldable pub handshake : Slave → AxiMem → AxiMem × Slave
handshake o s =
    let (s1, delay1) = delay_cycle s in
    let (s2, delay2) = delay_cycle s1 in
    let aw = not delay2 && ltb (length s2.wr_q) 128 in
    let (s3, delay3) = if aw then delay_cycle s2 else (s2, false) in
    (
      s3,
      record o {
        arready = not delay1 && ltb (length s1.rd_q) 128;
        wready = aw && not delay3;
        awready = aw && not s3.wr_req.awvalid;
      },
    )

-- One round of the loop: the signals of the master, and of this slave before and after.
unfoldable pub cycle : Master → Slave → AxiMem → Outcome (AxiMem × Slave)
cycle i o s = do
  s1 ← take_data i o (take_commands i o s)
  r ← answer_read (clear_read i o) s1
  b ← answer_write (clear_write i r.1) r.0
  ok (handshake b.1 b.0)
