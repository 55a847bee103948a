-- ===== src/Testbench/AxiLite.antt =====
-- top_tcm_axi/tb/axi4_lite.h: the signals of an AXI4-Lite master and of a slave.
use system_on_chip_design_pr.Base.{ℕ, Bool, false, ◌&&◌, ◌==◌}
use system_on_chip_design_pr.Testbench.Axi.{same_bit}

pub record LiteMaster : Type 0 where
  pub awvalid : Bool
  pub awaddr : ℕ
  pub wvalid : Bool
  pub wdata : ℕ
  pub wstrb : ℕ
  pub bready : Bool
  pub arvalid : Bool
  pub araddr : ℕ
  pub rready : Bool

pub record LiteSlave : Type 0 where
  pub awready : Bool
  pub wready : Bool
  pub bvalid : Bool
  pub bresp : ℕ
  pub arready : Bool
  pub rvalid : Bool
  pub rdata : ℕ
  pub rresp : ℕ

-- `init`.
abbrev pub init_lite_master : LiteMaster
init_lite_master = record {
  awvalid = false;
  awaddr = 0;
  wvalid = false;
  wdata = 0;
  wstrb = 0;
  bready = false;
  arvalid = false;
  araddr = 0;
  rready = false;
}

abbrev pub init_lite_slave : LiteSlave
init_lite_slave = record {
  awready = false;
  wready = false;
  bvalid = false;
  bresp = 0;
  arready = false;
  rvalid = false;
  rdata = 0;
  rresp = 0;
}

-- `operator ==`.
unfoldable pub equal_lite_master : LiteMaster → LiteMaster → Bool
equal_lite_master a v =
    same_bit a.awvalid v.awvalid
    && (a.awaddr == v.awaddr)
    && same_bit a.wvalid v.wvalid
    && (a.wdata == v.wdata)
    && (a.wstrb == v.wstrb)
    && same_bit a.bready v.bready
    && same_bit a.arvalid v.arvalid
    && (a.araddr == v.araddr)
    && same_bit a.rready v.rready

unfoldable pub equal_lite_slave : LiteSlave → LiteSlave → Bool
equal_lite_slave a v =
    same_bit a.awready v.awready
    && same_bit a.wready v.wready
    && same_bit a.bvalid v.bvalid
    && (a.bresp == v.bresp)
    && same_bit a.arready v.arready
    && same_bit a.rvalid v.rvalid
    && (a.rdata == v.rdata)
    && (a.rresp == v.rresp)

-- `MEMBER_COPY_AXI4_LITE_MASTER` and `MEMBER_COPY_AXI4_LITE_SLAVE`: the first takes the members of
-- the second.
unfoldable pub copy_lite_master : LiteMaster → LiteMaster → LiteMaster
copy_lite_master s d = record s {
  awvalid = d.awvalid;
  awaddr = d.awaddr;
  wvalid = d.wvalid;
  wdata = d.wdata;
  wstrb = d.wstrb;
  bready = d.bready;
  arvalid = d.arvalid;
  araddr = d.araddr;
  rready = d.rready;
}

unfoldable pub copy_lite_slave : LiteSlave → LiteSlave → LiteSlave
copy_lite_slave s d = record s {
  awready = d.awready;
  wready = d.wready;
  bvalid = d.bvalid;
  bresp = d.bresp;
  arready = d.arready;
  rvalid = d.rvalid;
  rdata = d.rdata;
  rresp = d.rresp;
}
