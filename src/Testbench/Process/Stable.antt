-- ===== src/Testbench/Process/Stable.antt =====
-- The rules of AXI that the slave of top_cache_axi/tb/tb_axi4_mem.cpp keeps in each cycle.
use mathlib.Core.Path.{subst}
use system_on_chip_design_pr.Base.{
  ◌≡◌, refl, ap, ◌∙◌, Bool, true, false, ◌&&◌, ◌||◌, if◌then◌else◌, arith, List, [], ◌∷◌,
}
use system_on_chip_design_pr.Outcome.{ok, >>=-eq-ok}
use system_on_chip_design_pr.Outcome.Ensures.{Ensures, returns, Ensures-after, Ensures-elim}
use system_on_chip_design_pr.Testbench.Axi.{Master, Slave}
use system_on_chip_design_pr.Testbench.Process.{
  AxiMem, delay_cycle, take_commands, take_data, no_read_answer, clear_read, give_read, next_read,
  answer_read, no_write_answer, clear_write, do_write, next_write, answer_write, handshake, cycle,
}

-- The signals of the read answer, and of the write answer, are the same.
pub record SameRead (o o' : Slave) : Type 0 where
  pub rvalid : o'.rvalid ≡ o.rvalid
  pub rdata : o'.rdata ≡ o.rdata
  pub rid : o'.rid ≡ o.rid
  pub rresp : o'.rresp ≡ o.rresp
  pub rlast : o'.rlast ≡ o.rlast

pub record SameWrite (o o' : Slave) : Type 0 where
  pub bvalid : o'.bvalid ≡ o.bvalid
  pub bid : o'.bid ≡ o.bid
  pub bresp : o'.bresp ≡ o.bresp

same_read : (o : Slave) → SameRead o o
same_read o = record { rvalid = refl; rdata = refl; rid = refl; rresp = refl; rlast = refl }

clear_read-kept : (i : Master) (o : Slave) → i.rready ≡ false → clear_read i o ≡ o
unfolding clear_read
clear_read-kept i o waits =
    let e : (o.rvalid && i.rready) ≡ false = ground arith in
    ap (λ b. if b then no_read_answer o else o) e

clear_write-kept : (i : Master) (o : Slave) → i.bready ≡ false → clear_write i o ≡ o
unfolding clear_write
clear_write-kept i o waits =
    let e : (o.bvalid && i.bready) ≡ false = ground arith in
    ap (λ b. if b then no_write_answer o else o) e

-- The steps on one channel leave the other alone.
clear_read-SameWrite : (i : Master) (o : Slave) → SameWrite o (clear_read i o)
unfolding clear_read
clear_read-SameWrite i o = by_case (o.rvalid && i.rready)
  where
    by_case : (b : Bool) → SameWrite o (if b then no_read_answer o else o)
    by_case true = record { bvalid = refl; bid = refl; bresp = refl }
    by_case false = record { bvalid = refl; bid = refl; bresp = refl }

pub clear_write-SameRead : (i : Master) (o : Slave) → SameRead o (clear_write i o)
unfolding clear_write
clear_write-SameRead i o = by_case (o.bvalid && i.bready)
  where
    by_case : (b : Bool) → SameRead o (if b then no_write_answer o else o)
    by_case true = record { rvalid = refl; rdata = refl; rid = refl; rresp = refl; rlast = refl }
    by_case false = record { rvalid = refl; rdata = refl; rid = refl; rresp = refl; rlast = refl }

give_read-SameWrite :
    (delayed : Bool) (item : Master) (q : List Master) (o : Slave) (s : AxiMem)
    → Ensures (λ r. SameWrite o r.1) (give_read delayed item q o s)
unfolding give_read
give_read-SameWrite true item q o s = returns _ (record { bvalid = refl; bid = refl; bresp = refl })
give_read-SameWrite false item q o s =
    Ensures-after _ _ _ (λ done. returns _ (record { bvalid = refl; bid = refl; bresp = refl }))

next_read-SameWrite :
    (b : Bool) (q : List Master) (o : Slave) (s : AxiMem)
    → Ensures (λ r. SameWrite o r.1) (next_read b q o s)
unfolding next_read
next_read-SameWrite true q o s = returns _ (record { bvalid = refl; bid = refl; bresp = refl })
next_read-SameWrite false [] o s = returns _ (record { bvalid = refl; bid = refl; bresp = refl })
next_read-SameWrite false (item ∷ q) o s =
    give_read-SameWrite (delay_cycle s).1 item q o (delay_cycle s).0

do_write-SameRead :
    (delayed : Bool) (item : Master) (q : List Master) (o : Slave) (s : AxiMem)
    → Ensures (λ r. SameRead o r.1) (do_write delayed item q o s)
unfolding do_write
do_write-SameRead true item q o s = returns _ (same_read o)
do_write-SameRead false item q o s = Ensures-after _ _ _ (λ done.
    returns _ (record { rvalid = refl; rdata = refl; rid = refl; rresp = refl; rlast = refl }))

next_write-SameRead :
    (b : Bool) (q : List Master) (o : Slave) (s : AxiMem)
    → Ensures (λ r. SameRead o r.1) (next_write b q o s)
unfolding next_write
next_write-SameRead true q o s = returns _ (same_read o)
next_write-SameRead false [] o s = returns _ (same_read o)
next_write-SameRead false (item ∷ q) o s =
    do_write-SameRead (delay_cycle s).1 item q o (delay_cycle s).0

pub then-SameRead : (o1 o2 o3 : Slave) → SameRead o1 o2 → SameRead o2 o3 → SameRead o1 o3
then-SameRead o1 o2 o3 a b = record {
  rvalid = b.rvalid ∙ a.rvalid;
  rdata = b.rdata ∙ a.rdata;
  rid = b.rid ∙ a.rid;
  rresp = b.rresp ∙ a.rresp;
  rlast = b.rlast ∙ a.rlast;
}

then-SameWrite : (o1 o2 o3 : Slave) → SameWrite o1 o2 → SameWrite o2 o3 → SameWrite o1 o3
then-SameWrite o1 o2 o3 a b = record {
  bvalid = b.bvalid ∙ a.bvalid;
  bid = b.bid ∙ a.bid;
  bresp = b.bresp ∙ a.bresp;
}

pub handshake-SameRead : (o : Slave) (s : AxiMem) → SameRead o (handshake o s).1
unfolding handshake
handshake-SameRead o s = record {
  rvalid = refl;
  rdata = refl;
  rid = refl;
  rresp = refl;
  rlast = refl;
}

handshake-SameWrite : (o : Slave) (s : AxiMem) → SameWrite o (handshake o s).1
unfolding handshake
handshake-SameWrite o s = record { bvalid = refl; bid = refl; bresp = refl }

handshake-one :
    (o : Slave) (s : AxiMem)
    → ((handshake o s).1.awready && (handshake o s).0.wr_req.awvalid) ≡ false
unfolding handshake
handshake-one o s = ground arith

handshake-data :
    (o : Slave) (s : AxiMem)
    → (handshake o s).1.wready ≡ true
    → ((handshake o s).1.awready || (handshake o s).0.wr_req.awvalid) ≡ true
unfolding handshake
handshake-data o s ready = ground arith

-- A read answer that stands, through the steps on the read channel.
read_channel :
    (i : Master) (o : Slave) (s : AxiMem) (r : AxiMem × Slave)
    → o.rvalid ≡ true
    → i.rready ≡ false
    → answer_read (clear_read i o) s ≡ ok r
    → r.1 ≡ o
unfolding answer_read next_read
read_channel i o s r stands waits e =
    let kept : answer_read o s ≡ ok (s, o) = ap (λ b. next_read b s.rd_q o s) stands in
    let e' : answer_read o s ≡ ok r = rw (clear_read-kept i o waits) at e in cc

write_channel :
    (i : Master) (o : Slave) (s : AxiMem) (r : AxiMem × Slave)
    → o.bvalid ≡ true
    → i.bready ≡ false
    → answer_write (clear_write i o) s ≡ ok r
    → r.1 ≡ o
unfolding answer_write next_write
write_channel i o s r stands waits e =
    let kept : answer_write o s ≡ ok (s, o) = ap (λ b. next_write b s.wr_q o s) stands in
    let e' : answer_write o s ≡ ok r = rw (clear_write-kept i o waits) at e in cc

SameWrite-of : (o o' : Slave) → o' ≡ o → SameWrite o o'
SameWrite-of o o' e = record {
  bvalid = ap (λ x. x.bvalid) e;
  bid = ap (λ x. x.bid) e;
  bresp = ap (λ x. x.bresp) e;
}

SameRead-of : (o o' : Slave) → o' ≡ o → SameRead o o'
SameRead-of o o' e = record {
  rvalid = ap (λ x. x.rvalid) e;
  rdata = ap (λ x. x.rdata) e;
  rid = ap (λ x. x.rid) e;
  rresp = ap (λ x. x.rresp) e;
  rlast = ap (λ x. x.rlast) e;
}

-- The rules of AXI that a cycle keeps on its two answers, and what it does not offer.
pub record KeepsRules (i : Master) (o o' : Slave) (s' : AxiMem) : Type 0 where
  pub read_stands : o.rvalid ≡ true → i.rready ≡ false → SameRead o o'
  pub write_stands : o.bvalid ≡ true → i.bready ≡ false → SameWrite o o'
  pub one_command : (o'.awready && s'.wr_req.awvalid) ≡ false
  pub expects_data : o'.wready ≡ true → (o'.awready || s'.wr_req.awvalid) ≡ true

steps-KeepsRules :
    (i : Master) (o : Slave) (s : AxiMem) (r b : AxiMem × Slave)
    → answer_read (clear_read i o) s ≡ ok r
    → answer_write (clear_write i r.1) r.0 ≡ ok b
    → KeepsRules i o (handshake b.1 b.0).1 (handshake b.1 b.0).0
unfolding answer_read answer_write
steps-KeepsRules i o s r b read written =
    let before = then-SameWrite o (clear_read i o) r.1 (clear_read-SameWrite i o) (
      Ensures-elim _ _ r (next_read-SameWrite (clear_read i o).rvalid s.rd_q (clear_read i o) s)
        read) in
    let behind = then-SameRead r.1 (clear_write i r.1) b.1 (clear_write-SameRead i r.1) (
      Ensures-elim _ _ b
        (next_write-SameRead (clear_write i r.1).bvalid r.0.wr_q (clear_write i r.1) r.0)
        written) in
    record {
      read_stands = λ stands waits.
          then-SameRead o r.1 (handshake b.1 b.0).1
            (SameRead-of o r.1 (read_channel i o s r stands waits read))
            (then-SameRead r.1 b.1 (handshake b.1 b.0).1 behind (handshake-SameRead b.1 b.0));
      write_stands = λ stands waits. then-SameWrite o r.1 (handshake b.1 b.0).1 before (
          then-SameWrite r.1 b.1 (handshake b.1 b.0).1
            (SameWrite-of r.1 b.1
              (write_channel i r.1 r.0 b (before.bvalid ∙ stands) waits written))
            (handshake-SameWrite b.1 b.0));
      one_command = handshake-one b.1 b.0;
      expects_data = handshake-data b.1 b.0;
    }

-- In a cycle that returns, a read answer that stands and that the master does not take stays as it
-- is, and so does a write answer. Behind the cycle, a write command is accepted only if none is
-- open, and write data only if one is open or accepted.
pub cycle-KeepsRules :
    (i : Master) (o o' : Slave) (s s' : AxiMem) → cycle i o s ≡ ok (s', o') → KeepsRules i o o' s'
unfolding cycle
cycle-KeepsRules i o o' s s' e =
    let (s1, taken, e1) = >>=-eq-ok (take_data i o (take_commands i o s)) _ e in
    let (r, read, e2) = >>=-eq-ok (answer_read (clear_read i o) s1) _ e1 in
    let (b, written, e3) = >>=-eq-ok (answer_write (clear_write i r.1) r.0) _ e2 in
    let done : handshake b.1 b.0 ≡ (s', o') = cc in
    subst (λ (h : AxiMem × Slave). KeepsRules i o h.1 h.0) done
      (steps-KeepsRules i o s1 r b read written)
