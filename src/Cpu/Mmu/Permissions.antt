-- ===== src/Cpu/Mmu/Permissions.antt =====
-- The permission checks of `mmu_i_translate` and `mmu_d_translate`, on the bits of an entry.
use system_on_chip_design_pr.Base.{
  ℕ, ◌/◌, ◌%◌, ◌^◌, ◌≡◌, Bool, true, false, not, ◌&&◌, arith, if◌then◌else◌, ◌==◌, all_bits,
}
use system_on_chip_design_pr.Base.Bits.{bit, bit_and_at, bit_and_field, bit_and_mask}
use system_on_chip_design_pr.Base.Bits.Masks.{bit_value, any_bit-pow}
use system_on_chip_design_pr.Outcome.{ok, error}
use system_on_chip_design_pr.Isa.Status.{priv_super}
use system_on_chip_design_pr.Cpu.Mmu.{fetch_faults, access_faults, is_reserved}

-- The permission bits by their places in an entry.
abbrev pub readable : ℕ → Bool
readable pte = bit 1 pte

abbrev pub writable : ℕ → Bool
writable pte = bit 2 pte

abbrev pub executable : ℕ → Bool
executable pte = bit 3 pte

abbrev pub user_page : ℕ → Bool
user_page pte = bit 4 pte

is_reserved_lem : (pte : ℕ) → is_reserved pte ≡ (writable pte && not (readable pte))
is_reserved_lem pte =
    ground (arith, bit_and_field 1 3 pte, bit_value 1 pte, bit_value 2 pte, bit_value 3 pte)

all_bits-pow :
    (pte : ℕ)
    → (all_bits pte 2 ≡ bit 1 pte) × (all_bits pte 4 ≡ bit 2 pte) × (all_bits pte 8 ≡ bit 3 pte)
all_bits-pow pte = (
  ground (arith, bit_and_field 1 1 pte, bit_value 1 pte),
  ground (arith, bit_and_field 2 1 pte, bit_value 2 pte),
  ground (arith, bit_and_field 3 1 pte, bit_value 3 pte),
)

all_bits-user :
    (pte : ℕ)
    → (all_bits pte 18 ≡ (bit 4 pte && bit 1 pte))
      × (all_bits pte 20 ≡ (bit 4 pte && bit 2 pte))
      × (all_bits pte 24 ≡ (bit 4 pte && bit 3 pte))
all_bits-user pte = (
  ground (
    arith,
    bit_and_at 4 pte 18,
    bit_and_mask 1 (pte / 2 ^ 4),
    bit_and_field 1 1 (pte % 2 ^ 4),
    bit_value 1 pte,
    bit_value 4 pte,
  ),
  ground (
    arith,
    bit_and_at 4 pte 20,
    bit_and_mask 1 (pte / 2 ^ 4),
    bit_and_field 2 1 (pte % 2 ^ 4),
    bit_value 2 pte,
    bit_value 4 pte,
  ),
  ground (
    arith,
    bit_and_at 4 pte 24,
    bit_and_mask 1 (pte / 2 ^ 4),
    bit_and_field 3 1 (pte % 2 ^ 4),
    bit_value 3 pte,
    bit_value 4 pte,
  ),
)

-- Whether the entry allows the access, apart from the user bit: a writable page must be readable.
abbrev pub allows : ℕ → Bool → Bool
allows pte write_not_read =
    (if write_not_read then writable pte else readable pte)
    && not (writable pte && not (readable pte))

abbrev pub allows_fetch : ℕ → Bool
allows_fetch pte = executable pte && not (writable pte && not (readable pte))

-- A load or a store from user mode is a page fault unless the page is a user page that allows it;
-- from supervisor mode, a user page with SUM clear ends the simulation (unless the entry is
-- reserved), and else it is a page fault unless the page allows the access.
pub access_faults-allows :
    (mpriv msr pte : ℕ) (write_not_read : Bool)
    → access_faults mpriv msr pte write_not_read ≡ (
        if mpriv == priv_super
        then (if writable pte && not (readable pte)
            then ok true
            else if user_page pte && not (bit 18 msr)
            then error
            else ok (not (allows pte write_not_read)))
        else ok (not (user_page pte && allows pte write_not_read)))
unfolding access_faults
access_faults-allows mpriv msr pte true = ground (
  arith,
  is_reserved_lem pte,
  all_bits-pow pte,
  all_bits-user pte,
  any_bit-pow 18 msr,
  any_bit-pow 4 pte,
)
access_faults-allows mpriv msr pte false = ground (
  arith,
  is_reserved_lem pte,
  all_bits-pow pte,
  all_bits-user pte,
  any_bit-pow 18 msr,
  any_bit-pow 4 pte,
)

-- An instruction fetch from user mode is a page fault unless the page is a user page that allows
-- it; from supervisor mode, a user page ends the simulation (unless the entry is reserved), and
-- else it is a page fault unless the page allows the fetch.
pub fetch_faults-allows :
    (mpriv pte : ℕ)
    → fetch_faults mpriv pte ≡ (
        if mpriv == priv_super
        then (if writable pte && not (readable pte)
            then ok true
            else if user_page pte
            then error
            else ok (not (allows_fetch pte)))
        else ok (not (user_page pte && allows_fetch pte)))
unfolding fetch_faults
fetch_faults-allows mpriv pte =
    ground (arith, is_reserved_lem pte, all_bits-pow pte, all_bits-user pte, any_bit-pow 4 pte)
