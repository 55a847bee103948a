-- ===== src/Cpu/Trap.antt =====
-- `Riscv::exception` of isa_sim/riscv.cpp, and the status changes of `mret` and `sret` in
-- `Riscv::execute`.
pub mod Status
pub mod RoundTrip
use system_on_chip_design_pr.Base.{
  ℕ, ◌-◌, ◌<◌, Bool, ◌&&◌, bit_and, bit_or, if◌then◌else◌, ltb, leb, ◌==◌, not32, shl32, shr32,
  any_bit,
}
use system_on_chip_design_pr.Outcome.{Outcome, ok, assert}
use system_on_chip_design_pr.Isa.Status.{
  priv_user, priv_super, priv_machine, sr_sie, sr_mie, sr_spie, sr_mpie, sr_spp, sr_mpp,
  sr_mpp_shift, sr_mpp_u, sr_get_mpp, mcause_interrupt,
}
use system_on_chip_design_pr.Cpu.{Cpu, CsrFile}

-- The status on entry to supervisor mode: interrupts are saved and disabled, and the privilege
-- level is recorded.
unfoldable pub enter_super_status : ℕ → ℕ → ℕ
enter_super_status s mpriv =
    let s1 = bit_and s (not32 sr_spie) in
    let s2 = bit_or s1 (if any_bit s1 sr_sie then sr_spie else 0) in
    let s3 = bit_and s2 (not32 sr_sie) in
    let s4 = bit_and s3 (not32 sr_spp) in bit_or s4 (if mpriv == priv_super then sr_spp else 0)

-- The status on entry to machine mode.
unfoldable pub enter_machine_status : ℕ → ℕ → ℕ
enter_machine_status s mpriv =
    let s1 = bit_and s (not32 sr_mpie) in
    let s2 = bit_or s1 (if any_bit s1 sr_mie then sr_mpie else 0) in
    let s3 = bit_and s2 (not32 sr_mie) in
    let s4 = bit_and s3 (not32 sr_mpp) in bit_or s4 (shl32 mpriv sr_mpp_shift)

-- The delegation register and the bit in it for a cause. No caller gives a cause from 32 up to
-- the interrupts, nor an interrupt number from 32 on.
abbrev pub delegation : CsrFile → ℕ → ℕ
delegation r cause = if leb mcause_interrupt cause then r.mideleg else r.medeleg

abbrev pub cause_bit : ℕ → ℕ
cause_bit cause =
    if leb mcause_interrupt cause then shl32 1 (cause - mcause_interrupt) else shl32 1 cause

abbrev pub is_delegated : CsrFile → ℕ → Bool
is_delegated r cause = leb r.mpriv priv_super && any_bit (delegation r cause) (cause_bit cause)

unfoldable pub exception : Cpu → ℕ → ℕ → ℕ → Cpu
exception c cause pc badaddr =
    if is_delegated c.csr cause
    then record c {
      csr = record c.csr {
        mpriv = priv_super;
        msr = enter_super_status c.csr.msr c.csr.mpriv;
        sepc = pc;
        scause = cause;
        stval = badaddr;
      };
      pc = c.csr.sevec;
    }
    else record c {
      csr = record c.csr {
        mpriv = priv_machine;
        msr = enter_machine_status c.csr.msr c.csr.mpriv;
        mepc = pc;
        mcause = cause;
      };
      pc = c.csr.mevec;
    }

unfoldable pub leave_machine_status : ℕ → ℕ
leave_machine_status s =
    let s1 = bit_and s (not32 sr_mie) in
    let s2 = bit_or s1 (if any_bit s1 sr_mpie then sr_mie else 0) in
    let s3 = bit_or s2 sr_mpie in let s4 = bit_and s3 (not32 sr_mpp) in bit_or s4 sr_mpp_u

unfoldable pub leave_super_status : ℕ → ℕ
leave_super_status s =
    let s1 = bit_and s (not32 sr_sie) in
    let s2 = bit_or s1 (if any_bit s1 sr_spie then sr_sie else 0) in
    let s3 = bit_or s2 sr_spie in bit_and s3 (not32 sr_spp)

-- The branch of `mret`: the state and the address to go on at.
unfoldable pub machine_return : Cpu → Outcome (Cpu × ℕ)
machine_return c = assert (c.csr.mpriv == priv_machine) (
    ok (
      record c {
        csr = record c.csr { mpriv = sr_get_mpp c.csr.msr; msr = leave_machine_status c.csr.msr };
      },
      c.csr.mepc,
    ))

-- The branch of `sret`.
unfoldable pub super_return : Cpu → Outcome (Cpu × ℕ)
super_return c = assert (c.csr.mpriv == priv_super) (
    ok (
      record c {
        csr = record c.csr {
          mpriv = if any_bit c.csr.msr sr_spp then priv_super else priv_user;
          msr = leave_super_status c.csr.msr;
        };
      },
      c.csr.sepc,
    ))
