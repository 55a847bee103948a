-- ===== src/Testbench/Axi/Equal.antt =====
-- `operator ==` of top_cache_axi/tb/axi4.h and top_tcm_axi/tb/axi4_lite.h compares all members.
use system_on_chip_design_pr.Base.{true, ◌≡◌, ◌↔◌, arith}
use system_on_chip_design_pr.Testbench.Axi.{Master, Slave, same_bit, equal_master, equal_slave}
use system_on_chip_design_pr.Testbench.AxiLite.{
  LiteMaster, LiteSlave, equal_lite_master, equal_lite_slave,
}

equal_master_refl : (a : Master) → equal_master a a ≡ true
unfolding equal_master same_bit
equal_master_refl a = ground arith

pub equal_master_iff : (a v : Master) → (equal_master a v ≡ true) ↔ (a ≡ v)
unfolding equal_master same_bit
equal_master_iff a v = (λ e. ground arith, λ e. rw (← e) (equal_master_refl a))

equal_slave_refl : (a : Slave) → equal_slave a a ≡ true
unfolding equal_slave same_bit
equal_slave_refl a = ground arith

pub equal_slave_iff : (a v : Slave) → (equal_slave a v ≡ true) ↔ (a ≡ v)
unfolding equal_slave same_bit
equal_slave_iff a v = (λ e. ground arith, λ e. rw (← e) (equal_slave_refl a))

equal_lite_master_refl : (a : LiteMaster) → equal_lite_master a a ≡ true
unfolding equal_lite_master same_bit
equal_lite_master_refl a = ground arith

pub equal_lite_master_iff : (a v : LiteMaster) → (equal_lite_master a v ≡ true) ↔ (a ≡ v)
unfolding equal_lite_master same_bit
equal_lite_master_iff a v = (λ e. ground arith, λ e. rw (← e) (equal_lite_master_refl a))

equal_lite_slave_refl : (a : LiteSlave) → equal_lite_slave a a ≡ true
unfolding equal_lite_slave same_bit
equal_lite_slave_refl a = ground arith

pub equal_lite_slave_iff : (a v : LiteSlave) → (equal_lite_slave a v ≡ true) ↔ (a ≡ v)
unfolding equal_lite_slave same_bit
equal_lite_slave_iff a v = (λ e. ground arith, λ e. rw (← e) (equal_lite_slave_refl a))

-- The comparisons of the four kinds of signals hold exactly where all members agree.
pub members-equal :
    ((a v : Master) → (equal_master a v ≡ true) ↔ (a ≡ v))
    × ((a v : Slave) → (equal_slave a v ≡ true) ↔ (a ≡ v))
    × ((a v : LiteMaster) → (equal_lite_master a v ≡ true) ↔ (a ≡ v))
    × ((a v : LiteSlave) → (equal_lite_slave a v ≡ true) ↔ (a ≡ v))
members-equal = (equal_master_iff, equal_slave_iff, equal_lite_master_iff, equal_lite_slave_iff)
