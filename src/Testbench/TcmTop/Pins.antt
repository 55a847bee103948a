-- ===== src/Testbench/TcmTop/Pins.antt =====
-- The signals and the pins of `riscv_tcm_top_rtl` of top_tcm_axi/tb/riscv_tcm_top_rtl.cpp, and the bindings of its constructor.
use system_on_chip_design_pr.Base.{ℕ, Bool}

-- The signals that `riscv_tcm_top_rtl` drives, with the names of riscv_tcm_top_rtl.h less their `m_`.
pub record WiresIn : Type 0 where
  pub clk_in : Bool
  pub rst_in : Bool
  pub rst_cpu_in : Bool
  pub axi_i_awready_in : Bool
  pub axi_i_wready_in : Bool
  pub axi_i_bvalid_in : Bool
  pub axi_i_bresp_in : ℕ
  pub axi_i_arready_in : Bool
  pub axi_i_rvalid_in : Bool
  pub axi_i_rdata_in : ℕ
  pub axi_i_rresp_in : ℕ
  pub axi_t_awvalid_in : Bool
  pub axi_t_awaddr_in : ℕ
  pub axi_t_awid_in : ℕ
  pub axi_t_awlen_in : ℕ
  pub axi_t_awburst_in : ℕ
  pub axi_t_wvalid_in : Bool
  pub axi_t_wdata_in : ℕ
  pub axi_t_wstrb_in : ℕ
  pub axi_t_wlast_in : Bool
  pub axi_t_bready_in : Bool
  pub axi_t_arvalid_in : Bool
  pub axi_t_araddr_in : ℕ
  pub axi_t_arid_in : ℕ
  pub axi_t_arlen_in : ℕ
  pub axi_t_arburst_in : ℕ
  pub axi_t_rready_in : Bool
  pub intr_in : ℕ

-- The signals that the hardware drives.
pub record WiresOut : Type 0 where
  pub axi_i_awvalid_out : Bool
  pub axi_i_awaddr_out : ℕ
  pub axi_i_wvalid_out : Bool
  pub axi_i_wdata_out : ℕ
  pub axi_i_wstrb_out : ℕ
  pub axi_i_bready_out : Bool
  pub axi_i_arvalid_out : Bool
  pub axi_i_araddr_out : ℕ
  pub axi_i_rready_out : Bool
  pub axi_t_awready_out : Bool
  pub axi_t_wready_out : Bool
  pub axi_t_bvalid_out : Bool
  pub axi_t_bresp_out : ℕ
  pub axi_t_bid_out : ℕ
  pub axi_t_arready_out : Bool
  pub axi_t_rvalid_out : Bool
  pub axi_t_rdata_out : ℕ
  pub axi_t_rresp_out : ℕ
  pub axi_t_rid_out : ℕ
  pub axi_t_rlast_out : Bool

-- The inputs and the outputs of the generated model of the hardware.
pub record PinsIn : Type 0 where
  pub clk_i : Bool
  pub rst_i : Bool
  pub rst_cpu_i : Bool
  pub axi_i_awready_i : Bool
  pub axi_i_wready_i : Bool
  pub axi_i_bvalid_i : Bool
  pub axi_i_bresp_i : ℕ
  pub axi_i_arready_i : Bool
  pub axi_i_rvalid_i : Bool
  pub axi_i_rdata_i : ℕ
  pub axi_i_rresp_i : ℕ
  pub axi_t_awvalid_i : Bool
  pub axi_t_awaddr_i : ℕ
  pub axi_t_awid_i : ℕ
  pub axi_t_awlen_i : ℕ
  pub axi_t_awburst_i : ℕ
  pub axi_t_wvalid_i : Bool
  pub axi_t_wdata_i : ℕ
  pub axi_t_wstrb_i : ℕ
  pub axi_t_wlast_i : Bool
  pub axi_t_bready_i : Bool
  pub axi_t_arvalid_i : Bool
  pub axi_t_araddr_i : ℕ
  pub axi_t_arid_i : ℕ
  pub axi_t_arlen_i : ℕ
  pub axi_t_arburst_i : ℕ
  pub axi_t_rready_i : Bool
  pub intr_i : ℕ

pub record PinsOut : Type 0 where
  pub axi_i_awvalid_o : Bool
  pub axi_i_awaddr_o : ℕ
  pub axi_i_wvalid_o : Bool
  pub axi_i_wdata_o : ℕ
  pub axi_i_wstrb_o : ℕ
  pub axi_i_bready_o : Bool
  pub axi_i_arvalid_o : Bool
  pub axi_i_araddr_o : ℕ
  pub axi_i_rready_o : Bool
  pub axi_t_awready_o : Bool
  pub axi_t_wready_o : Bool
  pub axi_t_bvalid_o : Bool
  pub axi_t_bresp_o : ℕ
  pub axi_t_bid_o : ℕ
  pub axi_t_arready_o : Bool
  pub axi_t_rvalid_o : Bool
  pub axi_t_rdata_o : ℕ
  pub axi_t_rresp_o : ℕ
  pub axi_t_rid_o : ℕ
  pub axi_t_rlast_o : Bool

-- The bindings of the constructor: each pin is the signal that it is bound to.
unfoldable pub bound_inputs : WiresIn → PinsIn
bound_inputs s = record {
  clk_i = s.clk_in;
  rst_i = s.rst_in;
  rst_cpu_i = s.rst_cpu_in;
  axi_i_awready_i = s.axi_i_awready_in;
  axi_i_wready_i = s.axi_i_wready_in;
  axi_i_bvalid_i = s.axi_i_bvalid_in;
  axi_i_bresp_i = s.axi_i_bresp_in;
  axi_i_arready_i = s.axi_i_arready_in;
  axi_i_rvalid_i = s.axi_i_rvalid_in;
  axi_i_rdata_i = s.axi_i_rdata_in;
  axi_i_rresp_i = s.axi_i_rresp_in;
  axi_t_awvalid_i = s.axi_t_awvalid_in;
  axi_t_awaddr_i = s.axi_t_awaddr_in;
  axi_t_awid_i = s.axi_t_awid_in;
  axi_t_awlen_i = s.axi_t_awlen_in;
  axi_t_awburst_i = s.axi_t_awburst_in;
  axi_t_wvalid_i = s.axi_t_wvalid_in;
  axi_t_wdata_i = s.axi_t_wdata_in;
  axi_t_wstrb_i = s.axi_t_wstrb_in;
  axi_t_wlast_i = s.axi_t_wlast_in;
  axi_t_bready_i = s.axi_t_bready_in;
  axi_t_arvalid_i = s.axi_t_arvalid_in;
  axi_t_araddr_i = s.axi_t_araddr_in;
  axi_t_arid_i = s.axi_t_arid_in;
  axi_t_arlen_i = s.axi_t_arlen_in;
  axi_t_arburst_i = s.axi_t_arburst_in;
  axi_t_rready_i = s.axi_t_rready_in;
  intr_i = s.intr_in;
}

unfoldable pub bound_outputs : PinsOut → WiresOut
bound_outputs p = record {
  axi_i_awvalid_out = p.axi_i_awvalid_o;
  axi_i_awaddr_out = p.axi_i_awaddr_o;
  axi_i_wvalid_out = p.axi_i_wvalid_o;
  axi_i_wdata_out = p.axi_i_wdata_o;
  axi_i_wstrb_out = p.axi_i_wstrb_o;
  axi_i_bready_out = p.axi_i_bready_o;
  axi_i_arvalid_out = p.axi_i_arvalid_o;
  axi_i_araddr_out = p.axi_i_araddr_o;
  axi_i_rready_out = p.axi_i_rready_o;
  axi_t_awready_out = p.axi_t_awready_o;
  axi_t_wready_out = p.axi_t_wready_o;
  axi_t_bvalid_out = p.axi_t_bvalid_o;
  axi_t_bresp_out = p.axi_t_bresp_o;
  axi_t_bid_out = p.axi_t_bid_o;
  axi_t_arready_out = p.axi_t_arready_o;
  axi_t_rvalid_out = p.axi_t_rvalid_o;
  axi_t_rdata_out = p.axi_t_rdata_o;
  axi_t_rresp_out = p.axi_t_rresp_o;
  axi_t_rid_out = p.axi_t_rid_o;
  axi_t_rlast_out = p.axi_t_rlast_o;
}
