-- ===== src/Isa/Decode/RoundTrip.antt =====
-- Decoding undoes encoding: the chain of tests of `Riscv::execute` picks the instruction that was
-- assembled.
use system_on_chip_design_pr.Base.{◌≡◌, refl, arith, some}
use system_on_chip_design_pr.Isa.Inst.{
  Inst, immediate, register, jump, branch, load, store, multiply, system, csr, ImmOp, RegOp, MulOp,
  JumpOp, BranchOp, LoadOp, StoreOp, SystemOp, CsrOp, andi, add, jal, beq, lb, sb, mul, ecall,
  csrrw,
}
use system_on_chip_design_pr.Isa.Fields.Encoding.{Arguments, encode, Fit}
use system_on_chip_design_pr.Isa.Decode.{decode}
use system_on_chip_design_pr.Isa.Decode.Masks.{mask_values, system_mask_values}

decode-immediate :
    (op : ImmOp) (g : Arguments)
    → Fit (immediate op) g
    → decode (encode (immediate op) g) ≡ some (immediate op)
unfolding decode
decode-immediate andi g h = ground (arith, mask_values (encode (immediate andi) g))
decode-immediate op g h = ground (arith, mask_values (encode (immediate op) g))

decode-register :
    (op : RegOp) (g : Arguments)
    → Fit (register op) g
    → decode (encode (register op) g) ≡ some (register op)
unfolding decode
decode-register add g h = ground (arith, mask_values (encode (register add) g))
decode-register op g h = ground (arith, mask_values (encode (register op) g))

decode-jump :
    (op : JumpOp) (g : Arguments) → Fit (jump op) g → decode (encode (jump op) g) ≡ some (jump op)
unfolding decode
decode-jump jal g h = ground (arith, mask_values (encode (jump jal) g))
decode-jump op g h = ground (arith, mask_values (encode (jump op) g))

decode-branch :
    (op : BranchOp) (g : Arguments)
    → Fit (branch op) g
    → decode (encode (branch op) g) ≡ some (branch op)
unfolding decode
decode-branch beq g h = ground (arith, mask_values (encode (branch beq) g))
decode-branch op g h = ground (arith, mask_values (encode (branch op) g))

decode-load :
    (op : LoadOp) (g : Arguments) → Fit (load op) g → decode (encode (load op) g) ≡ some (load op)
unfolding decode
decode-load lb g h = ground (arith, mask_values (encode (load lb) g))
decode-load op g h = ground (arith, mask_values (encode (load op) g))

decode-store :
    (op : StoreOp) (g : Arguments)
    → Fit (store op) g
    → decode (encode (store op) g) ≡ some (store op)
unfolding decode
decode-store sb g h = ground (arith, mask_values (encode (store sb) g))
decode-store op g h = ground (arith, mask_values (encode (store op) g))

decode-multiply :
    (op : MulOp) (g : Arguments)
    → Fit (multiply op) g
    → decode (encode (multiply op) g) ≡ some (multiply op)
unfolding decode
decode-multiply mul g h = ground (arith, mask_values (encode (multiply mul) g))
decode-multiply op g h = ground (arith, mask_values (encode (multiply op) g))

decode-csr :
    (op : CsrOp) (g : Arguments) → Fit (csr op) g → decode (encode (csr op) g) ≡ some (csr op)
unfolding decode
decode-csr csrrw g h =
    ground (arith, mask_values (encode (csr csrrw) g), system_mask_values (encode (csr csrrw) g))
decode-csr op g h =
    ground (arith, mask_values (encode (csr op) g), system_mask_values (encode (csr op) g))

decode-system : (op : SystemOp) (g : Arguments) → decode (encode (system op) g) ≡ some (system op)
unfolding decode
decode-system ecall g = refl
decode-system op g = refl

-- For every instruction and all operands that fit their fields, decoding the encoding of the
-- instruction manual gives the instruction back.
pub decode-encode : (i : Inst) (g : Arguments) → Fit i g → decode (encode i g) ≡ some i
decode-encode (immediate op) g h = decode-immediate op g h
decode-encode (register op) g h = decode-register op g h
decode-encode (jump op) g h = decode-jump op g h
decode-encode (branch op) g h = decode-branch op g h
decode-encode (load op) g h = decode-load op g h
decode-encode (store op) g h = decode-store op g h
decode-encode (multiply op) g h = decode-multiply op g h
decode-encode (system op) g h = decode-system op g
decode-encode (csr op) g h = decode-csr op g h
