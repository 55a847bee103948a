-- ===== src/Isa/Dump/Listing.antt =====
-- The text of an assembled instruction.
use Prim.Native.String.{String}
use system_on_chip_design_pr.Base.{
  Bool, false, if◌then◌else◌, ℕ, ◌*◌, ◌^◌, ◌≡◌, refl, true, List, [], ◌∷◌, some, ap, sym, ◌∙◌, ◌<◌,
  arith,
}
use system_on_chip_design_pr.Isa.Inst.{
  CsrOp, csrrw, csrrs, csrrc, csrrwi, csrrsi, csrrci, Inst, immediate, register, jump, branch, load,
  store, multiply, system, csr, ImmOp, slli, srli, srai, lui, auipc, andi, jal, jalr,
}
use system_on_chip_design_pr.Isa.Fields.Encoding.{Arguments, encode, Fit}
use system_on_chip_design_pr.Isa.Fields.RoundTrip.{sign_extended}
use system_on_chip_design_pr.Isa.Fields.Operands.{immediate_fields, operands-encode, IsEven}
use system_on_chip_design_pr.Isa.Decode.RoundTrip.{decode-encode}
use system_on_chip_design_pr.Isa.Dump.{
  Piece, text, address, hex, dec, sprintf, inst_name, inst_operands, print_inst, inst_decode,
  csr_source,
}

-- The accesses whose first operand is a register, and not a number.
abbrev pub reads_register : CsrOp → Bool
reads_register csrrw = true
reads_register csrrs = true
reads_register csrrc = true
reads_register csrrwi = false
reads_register csrrsi = false
reads_register csrrci = false

-- The operands of an instruction as they were assembled; for `jalr`, the two that its format string
-- shows.
abbrev pub assembly : Inst → Arguments → List Piece
assembly (immediate slli) g =
    text " r" ∷ dec g.rd ∷ text ", r" ∷ dec g.rs1 ∷ text ", " ∷ dec g.imm ∷ []
assembly (immediate srli) g =
    text " r" ∷ dec g.rd ∷ text ", r" ∷ dec g.rs1 ∷ text ", " ∷ dec g.imm ∷ []
assembly (immediate srai) g =
    text " r" ∷ dec g.rd ∷ text ", r" ∷ dec g.rs1 ∷ text ", " ∷ dec g.imm ∷ []
assembly (immediate lui) g = text " r" ∷ dec g.rd ∷ text ", 0x" ∷ hex (g.imm * 2 ^ 12) ∷ []
assembly (immediate auipc) g = text " r" ∷ dec g.rd ∷ text ", 0x" ∷ hex (g.imm * 2 ^ 12) ∷ []
assembly (immediate op) g =
    text " r" ∷ dec g.rd ∷ text ", r" ∷ dec g.rs1 ∷ text ", " ∷ dec (sign_extended 12 g.imm) ∷ []
assembly (register op) g =
    text " r" ∷ dec g.rd ∷ text ", r" ∷ dec g.rs1 ∷ text ", r" ∷ dec g.rs2 ∷ []
assembly (multiply op) g =
    text " r" ∷ dec g.rd ∷ text ", r" ∷ dec g.rs1 ∷ text ", r" ∷ dec g.rs2 ∷ []
assembly (jump jal) g = text " r" ∷ dec g.rd ∷ text ", " ∷ dec (sign_extended 21 g.imm) ∷ []
assembly (jump jalr) g = text " r" ∷ dec g.rs1 ∷ text ", r" ∷ dec (sign_extended 12 g.imm) ∷ []
assembly (branch op) g =
    text " r" ∷ dec g.rs1 ∷ text ", r" ∷ dec g.rs2 ∷ text ", " ∷ dec (sign_extended 13 g.imm) ∷ []
assembly (load op) g =
    text " r"
    ∷ dec g.rd
    ∷ text ", "
    ∷ dec (sign_extended 12 g.imm)
    ∷ text "(r"
    ∷ dec g.rs1
    ∷ text ")"
    ∷ []
assembly (store op) g =
    text " " ∷ dec (sign_extended 12 g.imm) ∷ text "(r" ∷ dec g.rs1 ∷ text "), r" ∷ dec g.rs2 ∷ []
assembly (system op) g = []
assembly (csr op) g =
    text " r"
    ∷ dec g.rd
    ∷ (if reads_register op then text ", r" else text ", ")
    ∷ dec g.rs1
    ∷ text ", 0x"
    ∷ hex (sign_extended 12 g.imm)
    ∷ []

operands_immediate :
    (op : ImmOp) (g : Arguments)
    → Fit (immediate op) g
    → inst_operands (immediate op) (encode (immediate op) g) ≡ assembly (immediate op) g
unfolding inst_operands
operands_immediate andi g fits = ground (arith, immediate_fields andi g fits)
operands_immediate op g fits = ground (arith, immediate_fields op g fits)

csr_source-lem :
    (op : CsrOp) → text (csr_source op) ≡ (if reads_register op then text ", r" else text ", ")
csr_source-lem csrrw = refl
csr_source-lem csrrs = refl
csr_source-lem csrrc = refl
csr_source-lem csrrwi = refl
csr_source-lem csrrsi = refl
csr_source-lem csrrci = refl

operands_lem :
    (i : Inst) (g : Arguments) → Fit i g → IsEven i g → inst_operands i (encode i g) ≡ assembly i g
unfolding inst_operands
operands_lem (immediate op) g fits even = operands_immediate op g fits
operands_lem (register op) g fits even = ground (arith, operands-encode (register op) g fits even)
operands_lem (jump jal) g fits even = ground (arith, operands-encode (jump jal) g fits even)
operands_lem (jump jalr) g fits even = ground (arith, operands-encode (jump jalr) g fits even)
operands_lem (branch op) g fits even = ground (arith, operands-encode (branch op) g fits even)
operands_lem (load op) g fits even = ground (arith, operands-encode (load op) g fits even)
operands_lem (store op) g fits even = ground (arith, operands-encode (store op) g fits even)
operands_lem (multiply op) g fits even = ground (arith, operands-encode (multiply op) g fits even)
operands_lem (system op) g fits even = refl
operands_lem (csr op) g fits even =
    rw (← csr_source-lem op) (ground (arith, operands-encode (csr op) g fits even))

print_inst-encode :
    (pc : ℕ) (i : Inst) (g : Arguments)
    → Fit i g
    → IsEven i g
    → print_inst pc (encode i g) (some i)
      ≡ (sprintf (address pc ∷ text ": " ∷ text (inst_name i) ∷ assembly i g), true)
unfolding print_inst
print_inst-encode pc i g fits even = rw (operands_lem i g fits even) refl

inst_decode-shown :
    (pc : ℕ) (i : Inst) (g : Arguments)
    → Fit i g
    → IsEven i g
    → inst_decode pc (encode i g)
      ≡ (sprintf (address pc ∷ text ": " ∷ text (inst_name i) ∷ assembly i g), true)
unfolding inst_decode
inst_decode-shown pc i g fits even =
    ap (print_inst pc (encode i g)) (decode-encode i g fits) ∙ print_inst-encode pc i g fits even

-- The text of `jalr` does not show its destination: encodings that differ in `rd` have one text.
jalr-same_text :
    (pc : ℕ) (g : Arguments) (r : ℕ)
    → Fit (jump jalr) g
    → r < 32
    → inst_decode pc (encode (jump jalr) (record g { rd = r }))
      ≡ inst_decode pc (encode (jump jalr) g)
jalr-same_text pc g r fits small =
    inst_decode-shown pc (jump jalr) (record g { rd = r })
      (record {
        rd_fits = small;
        rs1_fits = fits.rs1_fits;
        rs2_fits = fits.rs2_fits;
        imm_fits = fits.imm_fits;
      })
      tt
    ∙ sym (inst_decode-shown pc (jump jalr) g fits tt)
