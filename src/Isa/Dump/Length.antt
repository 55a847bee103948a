-- ===== src/Isa/Dump/Length.antt =====
-- The text of an instruction fits the buffers that isa_sim/riscv_inst_dump.cpp gives it.
use system_on_chip_design_pr.Base.{ℕ, ◌+◌, ◌≤◌, List, [], ◌∷◌, Option, none, some, arith}
use system_on_chip_design_pr.Base.Text.{
  codes, length, length-append, length-decimal, length-hexadecimal, length-hex_digits,
}
use system_on_chip_design_pr.Isa.Inst.{
  Inst, immediate, register, jump, branch, load, store, multiply, system, csr, andi, add, beq, lb,
  sb, mul, ecall, csrrw, jal, jalr,
}
use system_on_chip_design_pr.Isa.Decode.{decode}
use system_on_chip_design_pr.Isa.Dump.{
  Piece, text, address, hex, dec, print_piece, sprintf, inst_name, inst_operands, print_inst,
  inst_decode,
}

abbrev piece_bound : Piece → ℕ
piece_bound (text s) = length (codes s)
piece_bound (address n) = 8
piece_bound (hex n) = 8
piece_bound (dec n) = 11

abbrev bound : List Piece → ℕ
bound [] = 0
bound (p ∷ ps) = piece_bound p + bound ps

length-print_piece : (p : Piece) → length (print_piece p) ≤ piece_bound p
unfolding print_piece
length-print_piece (text s) = omega arith
length-print_piece (address n) = omega (arith, length-hex_digits 8 n)
length-print_piece (hex n) = length-hexadecimal n
length-print_piece (dec n) = length-decimal n

length-sprintf : (ps : List Piece) → length (sprintf ps) ≤ bound ps
unfolding sprintf
length-sprintf [] = omega arith
length-sprintf (p ∷ ps) =
    omega
      (arith, length-append (print_piece p) (sprintf ps), length-print_piece p, length-sprintf ps)

abbrev line : ℕ → Inst → ℕ → List Piece
line pc i x = address pc ∷ text ": " ∷ text (inst_name i) ∷ inst_operands i x

bound-line : (i : Inst) (pc x : ℕ) → bound (line pc i x) ≤ 64
unfolding inst_name inst_operands
bound-line (immediate andi) pc x = omega arith
bound-line (immediate op) pc x = omega arith
bound-line (register add) pc x = omega arith
bound-line (register op) pc x = omega arith
bound-line (jump jal) pc x = omega arith
bound-line (jump jalr) pc x = omega arith
bound-line (branch beq) pc x = omega arith
bound-line (branch op) pc x = omega arith
bound-line (load lb) pc x = omega arith
bound-line (load op) pc x = omega arith
bound-line (store sb) pc x = omega arith
bound-line (store op) pc x = omega arith
bound-line (multiply mul) pc x = omega arith
bound-line (multiply op) pc x = omega arith
bound-line (system ecall) pc x = omega arith
bound-line (system op) pc x = omega arith
bound-line (csr csrrw) pc x = omega arith
bound-line (csr op) pc x = omega arith

length-print_inst : (pc opcode : ℕ) (d : Option Inst) → length (print_inst pc opcode d).0 ≤ 64
unfolding print_inst
length-print_inst pc opcode none =
    omega (arith, length-sprintf (address pc ∷ text ": invalid!" ∷ []))
length-print_inst pc opcode (some i) =
    omega (arith, length-sprintf (line pc i opcode), bound-line i pc opcode)

-- For every address and every opcode, known or not, the text of the instruction has at most 64
-- characters, and so fits the 1024 bytes of `riscv_inst_print` with its final 0.
pub length-inst_decode : (pc opcode : ℕ) → length (inst_decode pc opcode).0 ≤ 64
unfolding inst_decode
length-inst_decode pc opcode = length-print_inst pc opcode (decode opcode)
