-- ===== src/Testbench/TcmTop/Connected.antt =====
-- `async_outputs` of top_tcm_axi/tb/riscv_tcm_top_rtl.cpp connects the hardware to the testbench.
use system_on_chip_design_pr.Base.{◌≡◌, refl, ap}
use system_on_chip_design_pr.Testbench.Axi.{Slave}
use system_on_chip_design_pr.Testbench.AxiLite.{LiteMaster}
use system_on_chip_design_pr.Testbench.TcmTop.{Top, async_outputs, Watched, sensitive}
use system_on_chip_design_pr.Testbench.TcmTop.Pins.{
  WiresOut, PinsIn, PinsOut, bound_inputs, bound_outputs,
}

-- The pins, each with the member or port of its name.
abbrev named_inputs : Top → PinsIn
named_inputs t = record {
  clk_i = t.clk_in;
  rst_i = t.rst_in;
  rst_cpu_i = t.rst_cpu_in;
  axi_i_awready_i = t.axi_i_in.awready;
  axi_i_wready_i = t.axi_i_in.wready;
  axi_i_bvalid_i = t.axi_i_in.bvalid;
  axi_i_bresp_i = t.axi_i_in.bresp;
  axi_i_arready_i = t.axi_i_in.arready;
  axi_i_rvalid_i = t.axi_i_in.rvalid;
  axi_i_rdata_i = t.axi_i_in.rdata;
  axi_i_rresp_i = t.axi_i_in.rresp;
  axi_t_awvalid_i = t.axi_t_in.awvalid;
  axi_t_awaddr_i = t.axi_t_in.awaddr;
  axi_t_awid_i = t.axi_t_in.awid;
  axi_t_awlen_i = t.axi_t_in.awlen;
  axi_t_awburst_i = t.axi_t_in.awburst;
  axi_t_wvalid_i = t.axi_t_in.wvalid;
  axi_t_wdata_i = t.axi_t_in.wdata;
  axi_t_wstrb_i = t.axi_t_in.wstrb;
  axi_t_wlast_i = t.axi_t_in.wlast;
  axi_t_bready_i = t.axi_t_in.bready;
  axi_t_arvalid_i = t.axi_t_in.arvalid;
  axi_t_araddr_i = t.axi_t_in.araddr;
  axi_t_arid_i = t.axi_t_in.arid;
  axi_t_arlen_i = t.axi_t_in.arlen;
  axi_t_arburst_i = t.axi_t_in.arburst;
  axi_t_rready_i = t.axi_t_in.rready;
  intr_i = t.intr_in;
}

abbrev axi_i_members : PinsOut → LiteMaster
axi_i_members p = record {
  awvalid = p.axi_i_awvalid_o;
  awaddr = p.axi_i_awaddr_o;
  wvalid = p.axi_i_wvalid_o;
  wdata = p.axi_i_wdata_o;
  wstrb = p.axi_i_wstrb_o;
  bready = p.axi_i_bready_o;
  arvalid = p.axi_i_arvalid_o;
  araddr = p.axi_i_araddr_o;
  rready = p.axi_i_rready_o;
}

abbrev axi_t_members : PinsOut → Slave
axi_t_members p = record {
  awready = p.axi_t_awready_o;
  wready = p.axi_t_wready_o;
  bvalid = p.axi_t_bvalid_o;
  bresp = p.axi_t_bresp_o;
  bid = p.axi_t_bid_o;
  arready = p.axi_t_arready_o;
  rvalid = p.axi_t_rvalid_o;
  rdata = p.axi_t_rdata_o;
  rresp = p.axi_t_rresp_o;
  rid = p.axi_t_rid_o;
  rlast = p.axi_t_rlast_o;
}

-- What a run of the process does for the hardware with the outputs `p`.
pub record Connects (t : Top) (p : PinsOut) (t' : Top) : Type 0 where
  pub inputs : bound_inputs t'.wires_in ≡ named_inputs t
  pub axi_i : t'.axi_i_out ≡ axi_i_members p
  pub axi_t : t'.axi_t_out ≡ axi_t_members p
  pub settled : sensitive t' ≡ sensitive t
  pub complete :
      (u : Top)
      → sensitive u ≡ sensitive t
      → ((async_outputs u).wires_in ≡ t'.wires_in)
        × ((async_outputs u).axi_i_out ≡ t'.axi_i_out)
        × ((async_outputs u).axi_t_out ≡ t'.axi_t_out)

-- Once the signals of the hardware's outputs carry its pins, a run of `async_outputs` gives every
-- input pin the port, or the member of a port, of its name, and every member of an output port the
-- output pin of its name. It changes nothing that it is sensitive to, and what it writes depends on
-- nothing else.
pub riscv_tcm_top_rtl-Connects :
    (t : Top) (p : PinsOut) → t.wires_out ≡ bound_outputs p → Connects t p (async_outputs t)
unfolding async_outputs bound_inputs bound_outputs sensitive
riscv_tcm_top_rtl-Connects t p driven = record {
  inputs = refl;
  axi_i =
      ap
        (λ (o : WiresOut). record {
          awvalid = o.axi_i_awvalid_out;
          awaddr = o.axi_i_awaddr_out;
          wvalid = o.axi_i_wvalid_out;
          wdata = o.axi_i_wdata_out;
          wstrb = o.axi_i_wstrb_out;
          bready = o.axi_i_bready_out;
          arvalid = o.axi_i_arvalid_out;
          araddr = o.axi_i_araddr_out;
          rready = o.axi_i_rready_out;
        })
        driven;
  axi_t =
      ap
        (λ (o : WiresOut). record {
          awready = o.axi_t_awready_out;
          wready = o.axi_t_wready_out;
          bvalid = o.axi_t_bvalid_out;
          bresp = o.axi_t_bresp_out;
          bid = o.axi_t_bid_out;
          arready = o.axi_t_arready_out;
          rvalid = o.axi_t_rvalid_out;
          rdata = o.axi_t_rdata_out;
          rresp = o.axi_t_rresp_out;
          rid = o.axi_t_rid_out;
          rlast = o.axi_t_rlast_out;
        })
        driven;
  settled = refl;
  complete = λ u same. (
    ap
        (λ (s : Watched). record {
          clk_in = s.clk_in;
          rst_in = s.rst_in;
          rst_cpu_in = s.rst_cpu_in;
          intr_in = s.intr_in;
          axi_i_awready_in = s.axi_i_in.awready;
          axi_i_wready_in = s.axi_i_in.wready;
          axi_i_bvalid_in = s.axi_i_in.bvalid;
          axi_i_bresp_in = s.axi_i_in.bresp;
          axi_i_arready_in = s.axi_i_in.arready;
          axi_i_rvalid_in = s.axi_i_in.rvalid;
          axi_i_rdata_in = s.axi_i_in.rdata;
          axi_i_rresp_in = s.axi_i_in.rresp;
          axi_t_awvalid_in = s.axi_t_in.awvalid;
          axi_t_awaddr_in = s.axi_t_in.awaddr;
          axi_t_awid_in = s.axi_t_in.awid;
          axi_t_awlen_in = s.axi_t_in.awlen;
          axi_t_awburst_in = s.axi_t_in.awburst;
          axi_t_wvalid_in = s.axi_t_in.wvalid;
          axi_t_wdata_in = s.axi_t_in.wdata;
          axi_t_wstrb_in = s.axi_t_in.wstrb;
          axi_t_wlast_in = s.axi_t_in.wlast;
          axi_t_bready_in = s.axi_t_in.bready;
          axi_t_arvalid_in = s.axi_t_in.arvalid;
          axi_t_araddr_in = s.axi_t_in.araddr;
          axi_t_arid_in = s.axi_t_in.arid;
          axi_t_arlen_in = s.axi_t_in.arlen;
          axi_t_arburst_in = s.axi_t_in.arburst;
          axi_t_rready_in = s.axi_t_in.rready;
        })
        same,
    ap
        (λ (s : Watched). record {
          awvalid = s.axi_i_awvalid_out;
          awaddr = s.axi_i_awaddr_out;
          wvalid = s.axi_i_wvalid_out;
          wdata = s.axi_i_wdata_out;
          wstrb = s.axi_i_wstrb_out;
          bready = s.axi_i_bready_out;
          arvalid = s.axi_i_arvalid_out;
          araddr = s.axi_i_araddr_out;
          rready = s.axi_i_rready_out;
        })
        same,
    ap
        (λ (s : Watched). record {
          awready = s.axi_t_awready_out;
          wready = s.axi_t_wready_out;
          bvalid = s.axi_t_bvalid_out;
          bresp = s.axi_t_bresp_out;
          bid = s.axi_t_bid_out;
          arready = s.axi_t_arready_out;
          rvalid = s.axi_t_rvalid_out;
          rdata = s.axi_t_rdata_out;
          rresp = s.axi_t_rresp_out;
          rid = s.axi_t_rid_out;
          rlast = s.axi_t_rlast_out;
        })
        same,
  );
}
