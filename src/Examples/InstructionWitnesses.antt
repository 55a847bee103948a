-- ===== src/Examples/InstructionWitnesses.antt =====
-- The theorems on instructions and their fields at assembled instructions.
use system_on_chip_design_pr.Base.{◌≡◌, ◌<◌, refl, some, arith, ◌^◌, ◌+◌, ◌*◌, ◌%◌, ◌≤◌}
use system_on_chip_design_pr.Isa.Inst.{Inst, jump, branch, jalr, blt, rem, div, divu, remu}
use system_on_chip_design_pr.Isa.Fields.Encoding.{Arguments, Fit, encode, imm_bits}
use system_on_chip_design_pr.Isa.Fields.Operands.{AreOperands, operands-encode}
use system_on_chip_design_pr.Isa.Dump.{inst_decode}
use system_on_chip_design_pr.Isa.Dump.Length.{length-inst_decode}
use system_on_chip_design_pr.Base.Text.{length}
use system_on_chip_design_pr.Isa.Decode.{decode}
use system_on_chip_design_pr.Isa.Decode.RoundTrip.{decode-encode}
use system_on_chip_design_pr.Cpu.Alu.{alu_multiply}
use system_on_chip_design_pr.Isa.Classes.Groups.{Groups, encode-Groups}
use system_on_chip_design_pr.Cpu.Alu.Division.{division-identity}

-- Registers 3, 17 and 30, with the offset -2 of a 12-bit field.
abbrev arguments : Arguments
arguments = record { rd = 3; rs1 = 17; rs2 = 30; imm = 0xFFE }

arguments-Fit : (i : Inst) → 0xFFE < 2 ^ imm_bits i → Fit i arguments
arguments-Fit i h = record {
  rd_fits = omega arith;
  rs1_fits = omega arith;
  rs2_fits = omega arith;
  imm_fits = h;
}

decode-encode_example : decode (encode (branch blt) arguments) ≡ some (branch blt)
decode-encode_example =
    decode-encode (branch blt) arguments (arguments-Fit (branch blt) (omega arith))

operands-encode_example : AreOperands (branch blt) arguments (encode (branch blt) arguments)
operands-encode_example =
    operands-encode (branch blt) arguments (arguments-Fit (branch blt) (omega arith)) refl

length-inst_decode_example : length (inst_decode 0x8000 0x00A1_0093).0 ≤ 64
length-inst_decode_example = length-inst_decode 0x8000 0x00A1_0093

encode-Groups_example : Groups (jump jalr) (encode (jump jalr) arguments)
encode-Groups_example =
    encode-Groups (jump jalr) arguments (arguments-Fit (jump jalr) (omega arith))

-- The overflowing division.
division-identity_example :
    ((alu_multiply div 0x8000_0000 0xFFFF_FFFF * 0xFFFF_FFFF
          + alu_multiply rem 0x8000_0000 0xFFFF_FFFF)
        % 2 ^ 32
      ≡ 0x8000_0000)
    × ((alu_multiply divu 0x8000_0000 0xFFFF_FFFF * 0xFFFF_FFFF
            + alu_multiply remu 0x8000_0000 0xFFFF_FFFF)
          % 2 ^ 32
        ≡ 0x8000_0000)
division-identity_example = division-identity 0x8000_0000 0xFFFF_FFFF (omega arith) (omega arith)
