-- ===== src/Testbench/CacheTop/Pins.antt =====
-- The signals and the pins of `riscv_top` of top_cache_axi/tb/riscv_top.cpp, and the bindings of its constructor.
use system_on_chip_design_pr.Base.{ℕ, Bool}

-- The signals that `riscv_top` drives, with the names of riscv_top.h less their `m_`.
pub record WiresIn : Type 0 where
  pub clk_in : Bool
  pub rst_in : Bool
  pub axi_i_awready_in : Bool
  pub axi_i_wready_in : Bool
  pub axi_i_bvalid_in : Bool
  pub axi_i_bresp_in : ℕ
  pub axi_i_bid_in : ℕ
  pub axi_i_arready_in : Bool
  pub axi_i_rvalid_in : Bool
  pub axi_i_rdata_in : ℕ
  pub axi_i_rresp_in : ℕ
  pub axi_i_rid_in : ℕ
  pub axi_i_rlast_in : Bool
  pub axi_d_awready_in : Bool
  pub axi_d_wready_in : Bool
  pub axi_d_bvalid_in : Bool
  pub axi_d_bresp_in : ℕ
  pub axi_d_bid_in : ℕ
  pub axi_d_arready_in : Bool
  pub axi_d_rvalid_in : Bool
  pub axi_d_rdata_in : ℕ
  pub axi_d_rresp_in : ℕ
  pub axi_d_rid_in : ℕ
  pub axi_d_rlast_in : Bool
  pub intr_in : Bool
  pub reset_vector_in : ℕ

-- The signals that the hardware drives.
pub record WiresOut : Type 0 where
  pub axi_i_awvalid_out : Bool
  pub axi_i_awaddr_out : ℕ
  pub axi_i_awid_out : ℕ
  pub axi_i_awlen_out : ℕ
  pub axi_i_awburst_out : ℕ
  pub axi_i_wvalid_out : Bool
  pub axi_i_wdata_out : ℕ
  pub axi_i_wstrb_out : ℕ
  pub axi_i_wlast_out : Bool
  pub axi_i_bready_out : Bool
  pub axi_i_arvalid_out : Bool
  pub axi_i_araddr_out : ℕ
  pub axi_i_arid_out : ℕ
  pub axi_i_arlen_out : ℕ
  pub axi_i_arburst_out : ℕ
  pub axi_i_rready_out : Bool
  pub axi_d_awvalid_out : Bool
  pub axi_d_awaddr_out : ℕ
  pub axi_d_awid_out : ℕ
  pub axi_d_awlen_out : ℕ
  pub axi_d_awburst_out : ℕ
  pub axi_d_wvalid_out : Bool
  pub axi_d_wdata_out : ℕ
  pub axi_d_wstrb_out : ℕ
  pub axi_d_wlast_out : Bool
  pub axi_d_bready_out : Bool
  pub axi_d_arvalid_out : Bool
  pub axi_d_araddr_out : ℕ
  pub axi_d_arid_out : ℕ
  pub axi_d_arlen_out : ℕ
  pub axi_d_arburst_out : ℕ
  pub axi_d_rready_out : Bool

-- The inputs and the outputs of the generated model of the hardware.
pub record PinsIn : Type 0 where
  pub clk_i : Bool
  pub rst_i : Bool
  pub axi_i_awready_i : Bool
  pub axi_i_wready_i : Bool
  pub axi_i_bvalid_i : Bool
  pub axi_i_bresp_i : ℕ
  pub axi_i_bid_i : ℕ
  pub axi_i_arready_i : Bool
  pub axi_i_rvalid_i : Bool
  pub axi_i_rdata_i : ℕ
  pub axi_i_rresp_i : ℕ
  pub axi_i_rid_i : ℕ
  pub axi_i_rlast_i : Bool
  pub axi_d_awready_i : Bool
  pub axi_d_wready_i : Bool
  pub axi_d_bvalid_i : Bool
  pub axi_d_bresp_i : ℕ
  pub axi_d_bid_i : ℕ
  pub axi_d_arready_i : Bool
  pub axi_d_rvalid_i : Bool
  pub axi_d_rdata_i : ℕ
  pub axi_d_rresp_i : ℕ
  pub axi_d_rid_i : ℕ
  pub axi_d_rlast_i : Bool
  pub intr_i : Bool
  pub reset_vector_i : ℕ

pub record PinsOut : Type 0 where
  pub axi_i_awvalid_o : Bool
  pub axi_i_awaddr_o : ℕ
  pub axi_i_awid_o : ℕ
  pub axi_i_awlen_o : ℕ
  pub axi_i_awburst_o : ℕ
  pub axi_i_wvalid_o : Bool
  pub axi_i_wdata_o : ℕ
  pub axi_i_wstrb_o : ℕ
  pub axi_i_wlast_o : Bool
  pub axi_i_bready_o : Bool
  pub axi_i_arvalid_o : Bool
  pub axi_i_araddr_o : ℕ
  pub axi_i_arid_o : ℕ
  pub axi_i_arlen_o : ℕ
  pub axi_i_arburst_o : ℕ
  pub axi_i_rready_o : Bool
  pub axi_d_awvalid_o : Bool
  pub axi_d_awaddr_o : ℕ
  pub axi_d_awid_o : ℕ
  pub axi_d_awlen_o : ℕ
  pub axi_d_awburst_o : ℕ
  pub axi_d_wvalid_o : Bool
  pub axi_d_wdata_o : ℕ
  pub axi_d_wstrb_o : ℕ
  pub axi_d_wlast_o : Bool
  pub axi_d_bready_o : Bool
  pub axi_d_arvalid_o : Bool
  pub axi_d_araddr_o : ℕ
  pub axi_d_arid_o : ℕ
  pub axi_d_arlen_o : ℕ
  pub axi_d_arburst_o : ℕ
  pub axi_d_rready_o : Bool

-- The bindings of the constructor: each pin is the signal that it is bound to.
unfoldable pub bound_inputs : WiresIn → PinsIn
bound_inputs s = record {
  clk_i = s.clk_in;
  rst_i = s.rst_in;
  axi_i_awready_i = s.axi_i_awready_in;
  axi_i_wready_i = s.axi_i_wready_in;
  axi_i_bvalid_i = s.axi_i_bvalid_in;
  axi_i_bresp_i = s.axi_i_bresp_in;
  axi_i_bid_i = s.axi_i_bid_in;
  axi_i_arready_i = s.axi_i_arready_in;
  axi_i_rvalid_i = s.axi_i_rvalid_in;
  axi_i_rdata_i = s.axi_i_rdata_in;
  axi_i_rresp_i = s.axi_i_rresp_in;
  axi_i_rid_i = s.axi_i_rid_in;
  axi_i_rlast_i = s.axi_i_rlast_in;
  axi_d_awready_i = s.axi_d_awready_in;
  axi_d_wready_i = s.axi_d_wready_in;
  axi_d_bvalid_i = s.axi_d_bvalid_in;
  axi_d_bresp_i = s.axi_d_bresp_in;
  axi_d_bid_i = s.axi_d_bid_in;
  axi_d_arready_i = s.axi_d_arready_in;
  axi_d_rvalid_i = s.axi_d_rvalid_in;
  axi_d_rdata_i = s.axi_d_rdata_in;
  axi_d_rresp_i = s.axi_d_rresp_in;
  axi_d_rid_i = s.axi_d_rid_in;
  axi_d_rlast_i = s.axi_d_rlast_in;
  intr_i = s.intr_in;
  reset_vector_i = s.reset_vector_in;
}

unfoldable pub bound_outputs : PinsOut → WiresOut
bound_outputs p = record {
  axi_i_awvalid_out = p.axi_i_awvalid_o;
  axi_i_awaddr_out = p.axi_i_awaddr_o;
  axi_i_awid_out = p.axi_i_awid_o;
  axi_i_awlen_out = p.axi_i_awlen_o;
  axi_i_awburst_out = p.axi_i_awburst_o;
  axi_i_wvalid_out = p.axi_i_wvalid_o;
  axi_i_wdata_out = p.axi_i_wdata_o;
  axi_i_wstrb_out = p.axi_i_wstrb_o;
  axi_i_wlast_out = p.axi_i_wlast_o;
  axi_i_bready_out = p.axi_i_bready_o;
  axi_i_arvalid_out = p.axi_i_arvalid_o;
  axi_i_araddr_out = p.axi_i_araddr_o;
  axi_i_arid_out = p.axi_i_arid_o;
  axi_i_arlen_out = p.axi_i_arlen_o;
  axi_i_arburst_out = p.axi_i_arburst_o;
  axi_i_rready_out = p.axi_i_rready_o;
  axi_d_awvalid_out = p.axi_d_awvalid_o;
  axi_d_awaddr_out = p.axi_d_awaddr_o;
  axi_d_awid_out = p.axi_d_awid_o;
  axi_d_awlen_out = p.axi_d_awlen_o;
  axi_d_awburst_out = p.axi_d_awburst_o;
  axi_d_wvalid_out = p.axi_d_wvalid_o;
  axi_d_wdata_out = p.axi_d_wdata_o;
  axi_d_wstrb_out = p.axi_d_wstrb_o;
  axi_d_wlast_out = p.axi_d_wlast_o;
  axi_d_bready_out = p.axi_d_bready_o;
  axi_d_arvalid_out = p.axi_d_arvalid_o;
  axi_d_araddr_out = p.axi_d_araddr_o;
  axi_d_arid_out = p.axi_d_arid_o;
  axi_d_arlen_out = p.axi_d_arlen_o;
  axi_d_arburst_out = p.axi_d_arburst_o;
  axi_d_rready_out = p.axi_d_rready_o;
}
