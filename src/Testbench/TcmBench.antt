-- ===== src/Testbench/TcmBench.antt =====
-- The memory of the cosimulation in top_tcm_axi/tb/testbench.h: the tightly coupled memory of the
-- hardware, whose access functions are parameters.
use system_on_chip_design_pr.Base.{ℕ, ◌*◌, true, ltb, add32}
use system_on_chip_design_pr.Outcome.{ok, assert}
use system_on_chip_design_pr.Cosim.{MemApi}

-- `u_tcm` in the generated model of the hardware.
pub record Tcm (H : Type 0) : Type 0 where
  pub write : H → ℕ → ℕ → H
  pub read : H → ℕ → ℕ

-- The sum of base and size wraps; the base is not compared with anything below it.
unfoldable pub tcm_mem_api : {H : Type 0} → Tcm H → MemApi H
tcm_mem_api tcm = record {
  create_memory = λ h base size mem. assert (ltb (add32 base size) (64 * 1024)) (ok (h, true));
  valid_addr = λ h addr. true;
  write = λ h addr value. ok (tcm.write h addr value);
  read = λ h addr. ok (tcm.read h addr);
}
