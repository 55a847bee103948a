-- ===== src/Testbench/CacheTop.antt =====
-- top_cache_axi/tb/riscv_top.h and riscv_top.cpp: the SystemC module around the generated model of
-- the hardware, which is a parameter: it is known by its pins.
pub mod Pins
pub mod Connected
use system_on_chip_design_pr.Base.{ℕ, Bool}
use system_on_chip_design_pr.Testbench.Axi.{Master, Slave}
use system_on_chip_design_pr.Testbench.CacheTop.Pins.{WiresIn, WiresOut}

-- The module: its ports and its signals.
pub record Top : Type 0 where
  pub clk_in : Bool
  pub rst_in : Bool
  pub intr_in : Bool
  pub reset_vector_in : ℕ
  pub axi_i_in : Slave
  pub axi_i_out : Master
  pub axi_d_in : Slave
  pub axi_d_out : Master
  pub wires_in : WiresIn
  pub wires_out : WiresOut

-- The process: what it writes.
unfoldable pub async_outputs : Top → Top
async_outputs t = record t {
  wires_in = record {
    clk_in = t.clk_in;
    rst_in = t.rst_in;
    intr_in = t.intr_in;
    reset_vector_in = t.reset_vector_in;
    axi_i_awready_in = t.axi_i_in.awready;
    axi_i_wready_in = t.axi_i_in.wready;
    axi_i_bvalid_in = t.axi_i_in.bvalid;
    axi_i_bresp_in = t.axi_i_in.bresp;
    axi_i_bid_in = t.axi_i_in.bid;
    axi_i_arready_in = t.axi_i_in.arready;
    axi_i_rvalid_in = t.axi_i_in.rvalid;
    axi_i_rdata_in = t.axi_i_in.rdata;
    axi_i_rresp_in = t.axi_i_in.rresp;
    axi_i_rid_in = t.axi_i_in.rid;
    axi_i_rlast_in = t.axi_i_in.rlast;
    axi_d_awready_in = t.axi_d_in.awready;
    axi_d_wready_in = t.axi_d_in.wready;
    axi_d_bvalid_in = t.axi_d_in.bvalid;
    axi_d_bresp_in = t.axi_d_in.bresp;
    axi_d_bid_in = t.axi_d_in.bid;
    axi_d_arready_in = t.axi_d_in.arready;
    axi_d_rvalid_in = t.axi_d_in.rvalid;
    axi_d_rdata_in = t.axi_d_in.rdata;
    axi_d_rresp_in = t.axi_d_in.rresp;
    axi_d_rid_in = t.axi_d_in.rid;
    axi_d_rlast_in = t.axi_d_in.rlast;
  };
  axi_i_out = record {
    awvalid = t.wires_out.axi_i_awvalid_out;
    awaddr = t.wires_out.axi_i_awaddr_out;
    awid = t.wires_out.axi_i_awid_out;
    awlen = t.wires_out.axi_i_awlen_out;
    awburst = t.wires_out.axi_i_awburst_out;
    wvalid = t.wires_out.axi_i_wvalid_out;
    wdata = t.wires_out.axi_i_wdata_out;
    wstrb = t.wires_out.axi_i_wstrb_out;
    wlast = t.wires_out.axi_i_wlast_out;
    bready = t.wires_out.axi_i_bready_out;
    arvalid = t.wires_out.axi_i_arvalid_out;
    araddr = t.wires_out.axi_i_araddr_out;
    arid = t.wires_out.axi_i_arid_out;
    arlen = t.wires_out.axi_i_arlen_out;
    arburst = t.wires_out.axi_i_arburst_out;
    rready = t.wires_out.axi_i_rready_out;
  };
  axi_d_out = record {
    awvalid = t.wires_out.axi_d_awvalid_out;
    awaddr = t.wires_out.axi_d_awaddr_out;
    awid = t.wires_out.axi_d_awid_out;
    awlen = t.wires_out.axi_d_awlen_out;
    awburst = t.wires_out.axi_d_awburst_out;
    wvalid = t.wires_out.axi_d_wvalid_out;
    wdata = t.wires_out.axi_d_wdata_out;
    wstrb = t.wires_out.axi_d_wstrb_out;
    wlast = t.wires_out.axi_d_wlast_out;
    bready = t.wires_out.axi_d_bready_out;
    arvalid = t.wires_out.axi_d_arvalid_out;
    araddr = t.wires_out.axi_d_araddr_out;
    arid = t.wires_out.axi_d_arid_out;
    arlen = t.wires_out.axi_d_arlen_out;
    arburst = t.wires_out.axi_d_arburst_out;
    rready = t.wires_out.axi_d_rready_out;
  };
}

-- The signals that the process is sensitive to.
pub record Watched : Type 0 where
  pub clk_in : Bool
  pub rst_in : Bool
  pub intr_in : Bool
  pub reset_vector_in : ℕ
  pub axi_i_in : Slave
  pub axi_d_in : Slave
  pub axi_i_awvalid_out : Bool
  pub axi_i_awaddr_out : ℕ
  pub axi_i_awid_out : ℕ
  pub axi_i_awlen_out : ℕ
  pub axi_i_awburst_out : ℕ
  pub axi_i_wvalid_out : Bool
  pub axi_i_wdata_out : ℕ
  pub axi_i_wstrb_out : ℕ
  pub axi_i_wlast_out : Bool
  pub axi_i_bready_out : Bool
  pub axi_i_arvalid_out : Bool
  pub axi_i_araddr_out : ℕ
  pub axi_i_arid_out : ℕ
  pub axi_i_arlen_out : ℕ
  pub axi_i_arburst_out : ℕ
  pub axi_i_rready_out : Bool
  pub axi_d_awvalid_out : Bool
  pub axi_d_awaddr_out : ℕ
  pub axi_d_awid_out : ℕ
  pub axi_d_awlen_out : ℕ
  pub axi_d_awburst_out : ℕ
  pub axi_d_wvalid_out : Bool
  pub axi_d_wdata_out : ℕ
  pub axi_d_wstrb_out : ℕ
  pub axi_d_wlast_out : Bool
  pub axi_d_bready_out : Bool
  pub axi_d_arvalid_out : Bool
  pub axi_d_araddr_out : ℕ
  pub axi_d_arid_out : ℕ
  pub axi_d_arlen_out : ℕ
  pub axi_d_arburst_out : ℕ
  pub axi_d_rready_out : Bool

unfoldable pub sensitive : Top → Watched
sensitive t = record {
  clk_in = t.clk_in;
  rst_in = t.rst_in;
  intr_in = t.intr_in;
  reset_vector_in = t.reset_vector_in;
  axi_i_in = t.axi_i_in;
  axi_d_in = t.axi_d_in;
  axi_i_awvalid_out = t.wires_out.axi_i_awvalid_out;
  axi_i_awaddr_out = t.wires_out.axi_i_awaddr_out;
  axi_i_awid_out = t.wires_out.axi_i_awid_out;
  axi_i_awlen_out = t.wires_out.axi_i_awlen_out;
  axi_i_awburst_out = t.wires_out.axi_i_awburst_out;
  axi_i_wvalid_out = t.wires_out.axi_i_wvalid_out;
  axi_i_wdata_out = t.wires_out.axi_i_wdata_out;
  axi_i_wstrb_out = t.wires_out.axi_i_wstrb_out;
  axi_i_wlast_out = t.wires_out.axi_i_wlast_out;
  axi_i_bready_out = t.wires_out.axi_i_bready_out;
  axi_i_arvalid_out = t.wires_out.axi_i_arvalid_out;
  axi_i_araddr_out = t.wires_out.axi_i_araddr_out;
  axi_i_arid_out = t.wires_out.axi_i_arid_out;
  axi_i_arlen_out = t.wires_out.axi_i_arlen_out;
  axi_i_arburst_out = t.wires_out.axi_i_arburst_out;
  axi_i_rready_out = t.wires_out.axi_i_rready_out;
  axi_d_awvalid_out = t.wires_out.axi_d_awvalid_out;
  axi_d_awaddr_out = t.wires_out.axi_d_awaddr_out;
  axi_d_awid_out = t.wires_out.axi_d_awid_out;
  axi_d_awlen_out = t.wires_out.axi_d_awlen_out;
  axi_d_awburst_out = t.wires_out.axi_d_awburst_out;
  axi_d_wvalid_out = t.wires_out.axi_d_wvalid_out;
  axi_d_wdata_out = t.wires_out.axi_d_wdata_out;
  axi_d_wstrb_out = t.wires_out.axi_d_wstrb_out;
  axi_d_wlast_out = t.wires_out.axi_d_wlast_out;
  axi_d_bready_out = t.wires_out.axi_d_bready_out;
  axi_d_arvalid_out = t.wires_out.axi_d_arvalid_out;
  axi_d_araddr_out = t.wires_out.axi_d_araddr_out;
  axi_d_arid_out = t.wires_out.axi_d_arid_out;
  axi_d_arlen_out = t.wires_out.axi_d_arlen_out;
  axi_d_arburst_out = t.wires_out.axi_d_arburst_out;
  axi_d_rready_out = t.wires_out.axi_d_rready_out;
}
