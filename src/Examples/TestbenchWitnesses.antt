-- ===== src/Examples/TestbenchWitnesses.antt =====
-- The theorems on the AXI memory at a wrapping burst and at a cycle.
use system_on_chip_design_pr.Base.{◌≡◌, inl, inr, refl, true, false, [], arith}
use system_on_chip_design_pr.Outcome.{Outcome, ok}
use system_on_chip_design_pr.Testbench.Axi.{Master, Slave, init_master, init_slave}
use system_on_chip_design_pr.Testbench.Regions.{no_regions}
use system_on_chip_design_pr.Testbench.Burst.{read_burst}
use system_on_chip_design_pr.Testbench.Burst.Addresses.{beats, read_burst-beats}
use system_on_chip_design_pr.Testbench.Process.{
  AxiMem, delay_cycle, take_commands, take_data, clear_read, next_read, answer_read, clear_write,
  next_write, answer_write, handshake, cycle,
}
use system_on_chip_design_pr.Testbench.Process.Stable.{KeepsRules, cycle-KeepsRules}

-- Eight words from 0x10C on, which wrap at 0x120.
abbrev wrapping : Master
wrapping = record init_master { arvalid = true; araddr = 0x10C; arlen = 7; arburst = 2 }

read_burst-beats_example : read_burst wrapping ≡ beats wrapping 8 0
read_burst-beats_example = read_burst-beats wrapping (omega arith) (λ e. inr (inr (inr (inl refl))))

-- A write command is taken while a read answer stands.
abbrev command : Master
command = record init_master { awvalid = true; awaddr = 8 }

abbrev standing : Slave
standing = record init_slave { awready = true; rvalid = true; rdata = 7 }

abbrev quiet_memory : AxiMem
quiet_memory = record {
  world = record { arrays = λ p i. 0; next = 0; now = 0 };
  memory = no_regions;
  enable_delays = true;
  rd_q = [];
  wr_q = [];
  wr_req = init_master;
  coins = λ i. false;
  drawn = 0;
}

abbrev value_or : Outcome (AxiMem × Slave) → AxiMem × Slave
value_or (ok r) = r
value_or other = (quiet_memory, standing)

abbrev behind : AxiMem × Slave
behind = value_or (cycle command standing quiet_memory)

command-cycle : cycle command standing quiet_memory ≡ ok behind
unfolding cycle delay_cycle take_commands take_data clear_read next_read answer_read clear_write
    next_write answer_write handshake
command-cycle = refl

cycle-KeepsRules_example : KeepsRules command standing behind.1 behind.0
cycle-KeepsRules_example =
    cycle-KeepsRules command standing behind.1 quiet_memory behind.0 command-cycle
