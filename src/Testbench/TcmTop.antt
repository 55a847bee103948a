-- ===== src/Testbench/TcmTop.antt =====
-- top_tcm_axi/tb/riscv_tcm_top_rtl.h and riscv_tcm_top_rtl.cpp: the SystemC module around the
-- generated model of the hardware, which is a parameter: it is known by its pins.
pub mod Pins
pub mod Connected
use system_on_chip_design_pr.Base.{ℕ, Bool}
use system_on_chip_design_pr.Testbench.Axi.{Master, Slave}
use system_on_chip_design_pr.Testbench.AxiLite.{LiteMaster, LiteSlave}
use system_on_chip_design_pr.Testbench.TcmTop.Pins.{WiresIn, WiresOut}

-- The module: its ports and its signals.
pub record Top : Type 0 where
  pub clk_in : Bool
  pub rst_in : Bool
  pub rst_cpu_in : Bool
  pub intr_in : ℕ
  pub axi_i_in : LiteSlave
  pub axi_i_out : LiteMaster
  pub axi_t_in : Master
  pub axi_t_out : Slave
  pub wires_in : WiresIn
  pub wires_out : WiresOut

-- The process: what it writes.
unfoldable pub async_outputs : Top → Top
async_outputs t = record t {
  wires_in = record {
    clk_in = t.clk_in;
    rst_in = t.rst_in;
    rst_cpu_in = t.rst_cpu_in;
    intr_in = t.intr_in;
    axi_i_awready_in = t.axi_i_in.awready;
    axi_i_wready_in = t.axi_i_in.wready;
    axi_i_bvalid_in = t.axi_i_in.bvalid;
    axi_i_bresp_in = t.axi_i_in.bresp;
    axi_i_arready_in = t.axi_i_in.arready;
    axi_i_rvalid_in = t.axi_i_in.rvalid;
    axi_i_rdata_in = t.axi_i_in.rdata;
    axi_i_rresp_in = t.axi_i_in.rresp;
    axi_t_awvalid_in = t.axi_t_in.awvalid;
    axi_t_awaddr_in = t.axi_t_in.awaddr;
    axi_t_awid_in = t.axi_t_in.awid;
    axi_t_awlen_in = t.axi_t_in.awlen;
    axi_t_awburst_in = t.axi_t_in.awburst;
    axi_t_wvalid_in = t.axi_t_in.wvalid;
    axi_t_wdata_in = t.axi_t_in.wdata;
    axi_t_wstrb_in = t.axi_t_in.wstrb;
    axi_t_wlast_in = t.axi_t_in.wlast;
    axi_t_bready_in = t.axi_t_in.bready;
    axi_t_arvalid_in = t.axi_t_in.arvalid;
    axi_t_araddr_in = t.axi_t_in.araddr;
    axi_t_arid_in = t.axi_t_in.arid;
    axi_t_arlen_in = t.axi_t_in.arlen;
    axi_t_arburst_in = t.axi_t_in.arburst;
    axi_t_rready_in = t.axi_t_in.rready;
  };
  axi_i_out = record {
    awvalid = t.wires_out.axi_i_awvalid_out;
    awaddr = t.wires_out.axi_i_awaddr_out;
    wvalid = t.wires_out.axi_i_wvalid_out;
    wdata = t.wires_out.axi_i_wdata_out;
    wstrb = t.wires_out.axi_i_wstrb_out;
    bready = t.wires_out.axi_i_bready_out;
    arvalid = t.wires_out.axi_i_arvalid_out;
    araddr = t.wires_out.axi_i_araddr_out;
    rready = t.wires_out.axi_i_rready_out;
  };
  axi_t_out = record {
    awready = t.wires_out.axi_t_awready_out;
    wready = t.wires_out.axi_t_wready_out;
    bvalid = t.wires_out.axi_t_bvalid_out;
    bresp = t.wires_out.axi_t_bresp_out;
    bid = t.wires_out.axi_t_bid_out;
    arready = t.wires_out.axi_t_arready_out;
    rvalid = t.wires_out.axi_t_rvalid_out;
    rdata = t.wires_out.axi_t_rdata_out;
    rresp = t.wires_out.axi_t_rresp_out;
    rid = t.wires_out.axi_t_rid_out;
    rlast = t.wires_out.axi_t_rlast_out;
  };
}

-- The signals that the process is sensitive to.
pub record Watched : Type 0 where
  pub clk_in : Bool
  pub rst_in : Bool
  pub rst_cpu_in : Bool
  pub intr_in : ℕ
  pub axi_i_in : LiteSlave
  pub axi_t_in : Master
  pub axi_i_awvalid_out : Bool
  pub axi_i_awaddr_out : ℕ
  pub axi_i_wvalid_out : Bool
  pub axi_i_wdata_out : ℕ
  pub axi_i_wstrb_out : ℕ
  pub axi_i_bready_out : Bool
  pub axi_i_arvalid_out : Bool
  pub axi_i_araddr_out : ℕ
  pub axi_i_rready_out : Bool
  pub axi_t_awready_out : Bool
  pub axi_t_wready_out : Bool
  pub axi_t_bvalid_out : Bool
  pub axi_t_bresp_out : ℕ
  pub axi_t_bid_out : ℕ
  pub axi_t_arready_out : Bool
  pub axi_t_rvalid_out : Bool
  pub axi_t_rdata_out : ℕ
  pub axi_t_rresp_out : ℕ
  pub axi_t_rid_out : ℕ
  pub axi_t_rlast_out : Bool

unfoldable pub sensitive : Top → Watched
sensitive t = record {
  clk_in = t.clk_in;
  rst_in = t.rst_in;
  rst_cpu_in = t.rst_cpu_in;
  intr_in = t.intr_in;
  axi_i_in = t.axi_i_in;
  axi_t_in = t.axi_t_in;
  axi_i_awvalid_out = t.wires_out.axi_i_awvalid_out;
  axi_i_awaddr_out = t.wires_out.axi_i_awaddr_out;
  axi_i_wvalid_out = t.wires_out.axi_i_wvalid_out;
  axi_i_wdata_out = t.wires_out.axi_i_wdata_out;
  axi_i_wstrb_out = t.wires_out.axi_i_wstrb_out;
  axi_i_bready_out = t.wires_out.axi_i_bready_out;
  axi_i_arvalid_out = t.wires_out.axi_i_arvalid_out;
  axi_i_araddr_out = t.wires_out.axi_i_araddr_out;
  axi_i_rready_out = t.wires_out.axi_i_rready_out;
  axi_t_awready_out = t.wires_out.axi_t_awready_out;
  axi_t_wready_out = t.wires_out.axi_t_wready_out;
  axi_t_bvalid_out = t.wires_out.axi_t_bvalid_out;
  axi_t_bresp_out = t.wires_out.axi_t_bresp_out;
  axi_t_bid_out = t.wires_out.axi_t_bid_out;
  axi_t_arready_out = t.wires_out.axi_t_arready_out;
  axi_t_rvalid_out = t.wires_out.axi_t_rvalid_out;
  axi_t_rdata_out = t.wires_out.axi_t_rdata_out;
  axi_t_rresp_out = t.wires_out.axi_t_rresp_out;
  axi_t_rid_out = t.wires_out.axi_t_rid_out;
  axi_t_rlast_out = t.wires_out.axi_t_rlast_out;
}
