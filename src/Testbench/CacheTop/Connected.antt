-- ===== src/Testbench/CacheTop/Connected.antt =====
-- `async_outputs` of top_cache_axi/tb/riscv_top.cpp connects the hardware to the testbench.
use system_on_chip_design_pr.Base.{◌≡◌, refl, ap}
use system_on_chip_design_pr.Testbench.Axi.{Master}
use system_on_chip_design_pr.Testbench.CacheTop.{Top, async_outputs, Watched, sensitive}
use system_on_chip_design_pr.Testbench.CacheTop.Pins.{
  WiresOut, PinsIn, PinsOut, bound_inputs, bound_outputs,
}

-- The pins, each with the member or port of its name.
abbrev named_inputs : Top → PinsIn
named_inputs t = record {
  clk_i = t.clk_in;
  rst_i = t.rst_in;
  axi_i_awready_i = t.axi_i_in.awready;
  axi_i_wready_i = t.axi_i_in.wready;
  axi_i_bvalid_i = t.axi_i_in.bvalid;
  axi_i_bresp_i = t.axi_i_in.bresp;
  axi_i_bid_i = t.axi_i_in.bid;
  axi_i_arready_i = t.axi_i_in.arready;
  axi_i_rvalid_i = t.axi_i_in.rvalid;
  axi_i_rdata_i = t.axi_i_in.rdata;
  axi_i_rresp_i = t.axi_i_in.rresp;
  axi_i_rid_i = t.axi_i_in.rid;
  axi_i_rlast_i = t.axi_i_in.rlast;
  axi_d_awready_i = t.axi_d_in.awready;
  axi_d_wready_i = t.axi_d_in.wready;
  axi_d_bvalid_i = t.axi_d_in.bvalid;
  axi_d_bresp_i = t.axi_d_in.bresp;
  axi_d_bid_i = t.axi_d_in.bid;
  axi_d_arready_i = t.axi_d_in.arready;
  axi_d_rvalid_i = t.axi_d_in.rvalid;
  axi_d_rdata_i = t.axi_d_in.rdata;
  axi_d_rresp_i = t.axi_d_in.rresp;
  axi_d_rid_i = t.axi_d_in.rid;
  axi_d_rlast_i = t.axi_d_in.rlast;
  intr_i = t.intr_in;
  reset_vector_i = t.reset_vector_in;
}

abbrev axi_i_members : PinsOut → Master
axi_i_members p = record {
  awvalid = p.axi_i_awvalid_o;
  awaddr = p.axi_i_awaddr_o;
  awid = p.axi_i_awid_o;
  awlen = p.axi_i_awlen_o;
  awburst = p.axi_i_awburst_o;
  wvalid = p.axi_i_wvalid_o;
  wdata = p.axi_i_wdata_o;
  wstrb = p.axi_i_wstrb_o;
  wlast = p.axi_i_wlast_o;
  bready = p.axi_i_bready_o;
  arvalid = p.axi_i_arvalid_o;
  araddr = p.axi_i_araddr_o;
  arid = p.axi_i_arid_o;
  arlen = p.axi_i_arlen_o;
  arburst = p.axi_i_arburst_o;
  rready = p.axi_i_rready_o;
}

abbrev axi_d_members : PinsOut → Master
axi_d_members p = record {
  awvalid = p.axi_d_awvalid_o;
  awaddr = p.axi_d_awaddr_o;
  awid = p.axi_d_awid_o;
  awlen = p.axi_d_awlen_o;
  awburst = p.axi_d_awburst_o;
  wvalid = p.axi_d_wvalid_o;
  wdata = p.axi_d_wdata_o;
  wstrb = p.axi_d_wstrb_o;
  wlast = p.axi_d_wlast_o;
  bready = p.axi_d_bready_o;
  arvalid = p.axi_d_arvalid_o;
  araddr = p.axi_d_araddr_o;
  arid = p.axi_d_arid_o;
  arlen = p.axi_d_arlen_o;
  arburst = p.axi_d_arburst_o;
  rready = p.axi_d_rready_o;
}

-- What a run of the process does for the hardware with the outputs `p`.
pub record Connects (t : Top) (p : PinsOut) (t' : Top) : Type 0 where
  pub inputs : bound_inputs t'.wires_in ≡ named_inputs t
  pub axi_i : t'.axi_i_out ≡ axi_i_members p
  pub axi_d : t'.axi_d_out ≡ axi_d_members p
  pub settled : sensitive t' ≡ sensitive t
  pub complete :
      (u : Top)
      → sensitive u ≡ sensitive t
      → ((async_outputs u).wires_in ≡ t'.wires_in)
        × ((async_outputs u).axi_i_out ≡ t'.axi_i_out)
        × ((async_outputs u).axi_d_out ≡ t'.axi_d_out)

-- Once the signals of the hardware's outputs carry its pins, a run of `async_outputs` gives every
-- input pin the port, or the member of a port, of its name, and every member of an output port the
-- output pin of its name. It changes nothing that it is sensitive to, and what it writes depends on
-- nothing else.
pub riscv_top-Connects :
    (t : Top) (p : PinsOut) → t.wires_out ≡ bound_outputs p → Connects t p (async_outputs t)
unfolding async_outputs bound_inputs bound_outputs sensitive
riscv_top-Connects t p driven = record {
  inputs = refl;
  axi_i =
      ap
        (λ (o : WiresOut). record {
          awvalid = o.axi_i_awvalid_out;
          awaddr = o.axi_i_awaddr_out;
          awid = o.axi_i_awid_out;
          awlen = o.axi_i_awlen_out;
          awburst = o.axi_i_awburst_out;
          wvalid = o.axi_i_wvalid_out;
          wdata = o.axi_i_wdata_out;
          wstrb = o.axi_i_wstrb_out;
          wlast = o.axi_i_wlast_out;
          bready = o.axi_i_bready_out;
          arvalid = o.axi_i_arvalid_out;
          araddr = o.axi_i_araddr_out;
          arid = o.axi_i_arid_out;
          arlen = o.axi_i_arlen_out;
          arburst = o.axi_i_arburst_out;
          rready = o.axi_i_rready_out;
        })
        driven;
  axi_d =
      ap
        (λ (o : WiresOut). record {
          awvalid = o.axi_d_awvalid_out;
          awaddr = o.axi_d_awaddr_out;
          awid = o.axi_d_awid_out;
          awlen = o.axi_d_awlen_out;
          awburst = o.axi_d_awburst_out;
          wvalid = o.axi_d_wvalid_out;
          wdata = o.axi_d_wdata_out;
          wstrb = o.axi_d_wstrb_out;
          wlast = o.axi_d_wlast_out;
          bready = o.axi_d_bready_out;
          arvalid = o.axi_d_arvalid_out;
          araddr = o.axi_d_araddr_out;
          arid = o.axi_d_arid_out;
          arlen = o.axi_d_arlen_out;
          arburst = o.axi_d_arburst_out;
          rready = o.axi_d_rready_out;
        })
        driven;
  settled = refl;
  complete = λ u same. (
    ap
        (λ (s : Watched). record {
          clk_in = s.clk_in;
          rst_in = s.rst_in;
          intr_in = s.intr_in;
          reset_vector_in = s.reset_vector_in;
          axi_i_awready_in = s.axi_i_in.awready;
          axi_i_wready_in = s.axi_i_in.wready;
          axi_i_bvalid_in = s.axi_i_in.bvalid;
          axi_i_bresp_in = s.axi_i_in.bresp;
          axi_i_bid_in = s.axi_i_in.bid;
          axi_i_arready_in = s.axi_i_in.arready;
          axi_i_rvalid_in = s.axi_i_in.rvalid;
          axi_i_rdata_in = s.axi_i_in.rdata;
          axi_i_rresp_in = s.axi_i_in.rresp;
          axi_i_rid_in = s.axi_i_in.rid;
          axi_i_rlast_in = s.axi_i_in.rlast;
          axi_d_awready_in = s.axi_d_in.awready;
          axi_d_wready_in = s.axi_d_in.wready;
          axi_d_bvalid_in = s.axi_d_in.bvalid;
          axi_d_bresp_in = s.axi_d_in.bresp;
          axi_d_bid_in = s.axi_d_in.bid;
          axi_d_arready_in = s.axi_d_in.arready;
          axi_d_rvalid_in = s.axi_d_in.rvalid;
          axi_d_rdata_in = s.axi_d_in.rdata;
          axi_d_rresp_in = s.axi_d_in.rresp;
          axi_d_rid_in = s.axi_d_in.rid;
          axi_d_rlast_in = s.axi_d_in.rlast;
        })
        same,
    ap
        (λ (s : Watched). record {
          awvalid = s.axi_i_awvalid_out;
          awaddr = s.axi_i_awaddr_out;
          awid = s.axi_i_awid_out;
          awlen = s.axi_i_awlen_out;
          awburst = s.axi_i_awburst_out;
          wvalid = s.axi_i_wvalid_out;
          wdata = s.axi_i_wdata_out;
          wstrb = s.axi_i_wstrb_out;
          wlast = s.axi_i_wlast_out;
          bready = s.axi_i_bready_out;
          arvalid = s.axi_i_arvalid_out;
          araddr = s.axi_i_araddr_out;
          arid = s.axi_i_arid_out;
          arlen = s.axi_i_arlen_out;
          arburst = s.axi_i_arburst_out;
          rready = s.axi_i_rready_out;
        })
        same,
    ap
        (λ (s : Watched). record {
          awvalid = s.axi_d_awvalid_out;
          awaddr = s.axi_d_awaddr_out;
          awid = s.axi_d_awid_out;
          awlen = s.axi_d_awlen_out;
          awburst = s.axi_d_awburst_out;
          wvalid = s.axi_d_wvalid_out;
          wdata = s.axi_d_wdata_out;
          wstrb = s.axi_d_wstrb_out;
          wlast = s.axi_d_wlast_out;
          bready = s.axi_d_bready_out;
          arvalid = s.axi_d_arvalid_out;
          araddr = s.axi_d_araddr_out;
          arid = s.axi_d_arid_out;
          arlen = s.axi_d_arlen_out;
          arburst = s.axi_d_arburst_out;
          rready = s.axi_d_rready_out;
        })
        same,
  );
}
