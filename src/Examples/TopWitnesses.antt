-- ===== src/Examples/TopWitnesses.antt =====
-- The modules around the generated hardware, with distinct values on all pins and ports.
use system_on_chip_design_pr.Base.{true, false, refl}
use system_on_chip_design_pr.Testbench.Axi.{init_master, init_slave}
use system_on_chip_design_pr.Testbench.AxiLite.{init_lite_master, init_lite_slave}
use system_on_chip_design_pr.Testbench.CacheTop
use system_on_chip_design_pr.Testbench.TcmTop

abbrev cache_pins : CacheTop.Pins.PinsOut
cache_pins = record {
  axi_i_awvalid_o = true;
  axi_i_awaddr_o = 2;
  axi_i_awid_o = 3;
  axi_i_awlen_o = 4;
  axi_i_awburst_o = 5;
  axi_i_wvalid_o = false;
  axi_i_wdata_o = 7;
  axi_i_wstrb_o = 8;
  axi_i_wlast_o = true;
  axi_i_bready_o = false;
  axi_i_arvalid_o = true;
  axi_i_araddr_o = 12;
  axi_i_arid_o = 13;
  axi_i_arlen_o = 14;
  axi_i_arburst_o = 15;
  axi_i_rready_o = false;
  axi_d_awvalid_o = true;
  axi_d_awaddr_o = 18;
  axi_d_awid_o = 19;
  axi_d_awlen_o = 20;
  axi_d_awburst_o = 21;
  axi_d_wvalid_o = false;
  axi_d_wdata_o = 23;
  axi_d_wstrb_o = 24;
  axi_d_wlast_o = true;
  axi_d_bready_o = false;
  axi_d_arvalid_o = true;
  axi_d_araddr_o = 28;
  axi_d_arid_o = 29;
  axi_d_arlen_o = 30;
  axi_d_arburst_o = 31;
  axi_d_rready_o = false;
}

abbrev cache_top : CacheTop.Top
cache_top = record {
  clk_in = true;
  rst_in = false;
  intr_in = true;
  reset_vector_in = 36;
  axi_i_in = record init_slave { bvalid = true; rresp = 2 };
  axi_i_out = init_master;
  axi_d_in = record init_slave { bvalid = true; rresp = 2 };
  axi_d_out = init_master;
  wires_in = record {
    clk_in = false;
    rst_in = false;
    axi_i_awready_in = false;
    axi_i_wready_in = false;
    axi_i_bvalid_in = false;
    axi_i_bresp_in = 0;
    axi_i_bid_in = 0;
    axi_i_arready_in = false;
    axi_i_rvalid_in = false;
    axi_i_rdata_in = 0;
    axi_i_rresp_in = 0;
    axi_i_rid_in = 0;
    axi_i_rlast_in = false;
    axi_d_awready_in = false;
    axi_d_wready_in = false;
    axi_d_bvalid_in = false;
    axi_d_bresp_in = 0;
    axi_d_bid_in = 0;
    axi_d_arready_in = false;
    axi_d_rvalid_in = false;
    axi_d_rdata_in = 0;
    axi_d_rresp_in = 0;
    axi_d_rid_in = 0;
    axi_d_rlast_in = false;
    intr_in = false;
    reset_vector_in = 0;
  };
  wires_out = CacheTop.Pins.bound_outputs cache_pins;
}

riscv_top-Connects_example :
    CacheTop.Connected.Connects cache_top cache_pins (CacheTop.async_outputs cache_top)
riscv_top-Connects_example = CacheTop.Connected.riscv_top-Connects cache_top cache_pins refl

abbrev tcm_pins : TcmTop.Pins.PinsOut
tcm_pins = record {
  axi_i_awvalid_o = true;
  axi_i_awaddr_o = 2;
  axi_i_wvalid_o = true;
  axi_i_wdata_o = 4;
  axi_i_wstrb_o = 5;
  axi_i_bready_o = false;
  axi_i_arvalid_o = true;
  axi_i_araddr_o = 8;
  axi_i_rready_o = true;
  axi_t_awready_o = false;
  axi_t_wready_o = true;
  axi_t_bvalid_o = false;
  axi_t_bresp_o = 13;
  axi_t_bid_o = 14;
  axi_t_arready_o = true;
  axi_t_rvalid_o = false;
  axi_t_rdata_o = 17;
  axi_t_rresp_o = 18;
  axi_t_rid_o = 19;
  axi_t_rlast_o = false;
}

abbrev tcm_top : TcmTop.Top
tcm_top = record {
  clk_in = true;
  rst_in = false;
  rst_cpu_in = true;
  intr_in = 24;
  axi_i_in = record init_lite_slave { rvalid = true; rdata = 9 };
  axi_i_out = init_lite_master;
  axi_t_in = record init_master { awvalid = true; araddr = 7 };
  axi_t_out = init_slave;
  wires_in = record {
    clk_in = false;
    rst_in = false;
    rst_cpu_in = false;
    axi_i_awready_in = false;
    axi_i_wready_in = false;
    axi_i_bvalid_in = false;
    axi_i_bresp_in = 0;
    axi_i_arready_in = false;
    axi_i_rvalid_in = false;
    axi_i_rdata_in = 0;
    axi_i_rresp_in = 0;
    axi_t_awvalid_in = false;
    axi_t_awaddr_in = 0;
    axi_t_awid_in = 0;
    axi_t_awlen_in = 0;
    axi_t_awburst_in = 0;
    axi_t_wvalid_in = false;
    axi_t_wdata_in = 0;
    axi_t_wstrb_in = 0;
    axi_t_wlast_in = false;
    axi_t_bready_in = false;
    axi_t_arvalid_in = false;
    axi_t_araddr_in = 0;
    axi_t_arid_in = 0;
    axi_t_arlen_in = 0;
    axi_t_arburst_in = 0;
    axi_t_rready_in = false;
    intr_in = 0;
  };
  wires_out = TcmTop.Pins.bound_outputs tcm_pins;
}

riscv_tcm_top_rtl-Connects_example :
    TcmTop.Connected.Connects tcm_top tcm_pins (TcmTop.async_outputs tcm_top)
riscv_tcm_top_rtl-Connects_example =
    TcmTop.Connected.riscv_tcm_top_rtl-Connects tcm_top tcm_pins refl
