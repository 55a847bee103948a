-- ===== src/Testbench/Axi.antt =====
-- top_cache_axi/tb/axi4.h and axi4_defines.h: the signals of an AXI4 master and of a slave.
pub mod Equal
use system_on_chip_design_pr.Base.{ℕ, Bool, true, false, not, ◌&&◌, ◌==◌}

pub record Master : Type 0 where
  pub awvalid : Bool
  pub awaddr : ℕ
  pub awid : ℕ
  pub awlen : ℕ
  pub awburst : ℕ
  pub wvalid : Bool
  pub wdata : ℕ
  pub wstrb : ℕ
  pub wlast : Bool
  pub bready : Bool
  pub arvalid : Bool
  pub araddr : ℕ
  pub arid : ℕ
  pub arlen : ℕ
  pub arburst : ℕ
  pub rready : Bool

pub record Slave : Type 0 where
  pub awready : Bool
  pub wready : Bool
  pub bvalid : Bool
  pub bresp : ℕ
  pub bid : ℕ
  pub arready : Bool
  pub rvalid : Bool
  pub rdata : ℕ
  pub rresp : ℕ
  pub rid : ℕ
  pub rlast : Bool

-- `init`.
abbrev pub init_master : Master
init_master = record {
  awvalid = false;
  awaddr = 0;
  awid = 0;
  awlen = 0;
  awburst = 0;
  wvalid = false;
  wdata = 0;
  wstrb = 0;
  wlast = false;
  bready = false;
  arvalid = false;
  araddr = 0;
  arid = 0;
  arlen = 0;
  arburst = 0;
  rready = false;
}

abbrev pub init_slave : Slave
init_slave = record {
  awready = false;
  wready = false;
  bvalid = false;
  bresp = 0;
  bid = 0;
  arready = false;
  rvalid = false;
  rdata = 0;
  rresp = 0;
  rid = 0;
  rlast = false;
}

-- `eAXI4_BURST` and `eAXI4_RESP`.
abbrev pub burst_incr : ℕ
burst_incr = 1

abbrev pub burst_wrap : ℕ
burst_wrap = 2

abbrev pub resp_okay : ℕ
resp_okay = 0

-- Two members of one bit agree.
unfoldable pub same_bit : Bool → Bool → Bool
same_bit true b = b
same_bit false b = not b

-- `operator ==`.
unfoldable pub equal_master : Master → Master → Bool
equal_master a v =
    same_bit a.awvalid v.awvalid
    && (a.awaddr == v.awaddr)
    && (a.awid == v.awid)
    && (a.awlen == v.awlen)
    && (a.awburst == v.awburst)
    && same_bit a.wvalid v.wvalid
    && (a.wdata == v.wdata)
    && (a.wstrb == v.wstrb)
    && same_bit a.wlast v.wlast
    && same_bit a.bready v.bready
    && same_bit a.arvalid v.arvalid
    && (a.araddr == v.araddr)
    && (a.arid == v.arid)
    && (a.arlen == v.arlen)
    && (a.arburst == v.arburst)
    && same_bit a.rready v.rready

unfoldable pub equal_slave : Slave → Slave → Bool
equal_slave a v =
    same_bit a.awready v.awready
    && same_bit a.wready v.wready
    && same_bit a.bvalid v.bvalid
    && (a.bresp == v.bresp)
    && (a.bid == v.bid)
    && same_bit a.arready v.arready
    && same_bit a.rvalid v.rvalid
    && (a.rdata == v.rdata)
    && (a.rresp == v.rresp)
    && (a.rid == v.rid)
    && same_bit a.rlast v.rlast

-- `MEMBER_COPY_AXI4_MASTER` and `MEMBER_COPY_AXI4_SLAVE`: the first takes the members of the second.
unfoldable pub copy_master : Master → Master → Master
copy_master s d = record s {
  awvalid = d.awvalid;
  awaddr = d.awaddr;
  awid = d.awid;
  awlen = d.awlen;
  awburst = d.awburst;
  wvalid = d.wvalid;
  wdata = d.wdata;
  wstrb = d.wstrb;
  wlast = d.wlast;
  bready = d.bready;
  arvalid = d.arvalid;
  araddr = d.araddr;
  arid = d.arid;
  arlen = d.arlen;
  arburst = d.arburst;
  rready = d.rready;
}

unfoldable pub copy_slave : Slave → Slave → Slave
copy_slave s d = record s {
  awready = d.awready;
  wready = d.wready;
  bvalid = d.bvalid;
  bresp = d.bresp;
  bid = d.bid;
  arready = d.arready;
  rvalid = d.rvalid;
  rdata = d.rdata;
  rresp = d.rresp;
  rid = d.rid;
  rlast = d.rlast;
}
