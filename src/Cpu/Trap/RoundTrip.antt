-- ===== src/Cpu/Trap/RoundTrip.antt =====
-- A trap and the return from it.
use system_on_chip_design_pr.Base.{
  ℕ, ◌/◌, ◌^◌, ◌<◌, ◌≡◌, refl, Bool, true, false, ◌||◌, arith, any_bit, if◌then◌else◌, ◌==◌,
}
use system_on_chip_design_pr.Base.Bits.{bit, bit_and_mask}
use system_on_chip_design_pr.Base.Bits.Masks.{bit_value, any_bit-pow}
use system_on_chip_design_pr.Outcome.{ok}
use system_on_chip_design_pr.Isa.Status.{sr_get_mpp, sr_spp, priv_super, priv_user}
use system_on_chip_design_pr.Cpu.{Cpu}
use system_on_chip_design_pr.Cpu.Trap.{
  exception, machine_return, super_return, is_delegated, enter_machine_status, leave_machine_status,
  enter_super_status, leave_super_status,
}
use system_on_chip_design_pr.Cpu.Trap.Status.{
  bit-enter_machine_status, bit-leave_machine_status, bit-enter_super_status,
  bit-leave_super_status,
}

-- MPP, read back from the status on entry, is the old level.
get_mpp-enter : (s p : ℕ) → p < 4 → sr_get_mpp (enter_machine_status s p) ≡ p
unfolding bit
get_mpp-enter s p h = ground (
  arith,
  bit_and_mask 2 (enter_machine_status s p / 2 ^ 11),
  bit_value 11 (enter_machine_status s p),
  bit_value 12 (enter_machine_status s p),
  bit-enter_machine_status s p 11,
  bit-enter_machine_status s p 12,
)

-- The status after a trap to machine mode and the return from it.
abbrev pub machine_round : ℕ → ℕ → Bool
machine_round s k = if k == 7 then true else if (k == 11) || (k == 12) then false else bit k s

-- A trap that is not delegated, taken at a privilege level below 4, and `mret` after it: the
-- processor goes on at the trapped address, at the old level, with the old interrupt enable; of
-- the status, MPIE is set and MPP cleared, and all else outside the machine trap registers is as
-- before the trap.
pub machine_return-exception :
    (c : Cpu) (cause pc badaddr : ℕ)
    → c.csr.mpriv < 4
    → is_delegated c.csr cause ≡ false
    → (s : ℕ) × (machine_return (exception c cause pc badaddr)
        ≡ ok (
          record c { csr = record c.csr { msr = s; mepc = pc; mcause = cause }; pc = c.csr.mevec },
          pc,
        ))
      × ((k : ℕ) → k < 32 → bit k s ≡ machine_round c.csr.msr k)
unfolding exception machine_return
machine_return-exception c cause pc badaddr h out = (
  leave_machine_status (enter_machine_status c.csr.msr c.csr.mpriv),
  rw (out, get_mpp-enter c.csr.msr c.csr.mpriv h) refl,
  λ k l. ground (
    arith,
    bit-leave_machine_status (enter_machine_status c.csr.msr c.csr.mpriv) k,
    bit-enter_machine_status c.csr.msr c.csr.mpriv k,
    bit-enter_machine_status c.csr.msr c.csr.mpriv 7,
  ),
)

-- The status after a trap to supervisor mode and the return from it.
abbrev pub super_round : ℕ → ℕ → Bool
super_round s k = if k == 5 then true else if k == 8 then false else bit k s

-- A delegated trap and `sret` after it: the processor goes on at the trapped address, at the old
-- level, with the old interrupt enable; of the status, SPIE is set and SPP cleared, and all else
-- outside the supervisor trap registers is as before the trap.
pub super_return-exception :
    (c : Cpu) (cause pc badaddr : ℕ)
    → is_delegated c.csr cause ≡ true
    → (s : ℕ) × (super_return (exception c cause pc badaddr)
        ≡ ok (
          record c {
            csr = record c.csr { msr = s; sepc = pc; scause = cause; stval = badaddr };
            pc = c.csr.sevec;
          },
          pc,
        ))
      × ((k : ℕ) → k < 32 → bit k s ≡ super_round c.csr.msr k)
unfolding exception super_return
super_return-exception c cause pc badaddr h = (
  leave_super_status (enter_super_status c.csr.msr c.csr.mpriv),
  rw (h, old_level) refl,
  λ k l. ground (
    arith,
    bit-leave_super_status (enter_super_status c.csr.msr c.csr.mpriv) k,
    bit-enter_super_status c.csr.msr c.csr.mpriv k,
    bit-enter_super_status c.csr.msr c.csr.mpriv 5,
  ),
)
  where
    old_level :
        (if any_bit (enter_super_status c.csr.msr c.csr.mpriv) sr_spp
          then priv_super
          else priv_user)
        ≡ c.csr.mpriv
    old_level = ground (
      arith,
      any_bit-pow 8 (enter_super_status c.csr.msr c.csr.mpriv),
      bit-enter_super_status c.csr.msr c.csr.mpriv 8,
    )
