-- ===== src/Iop/Core/Decode/Laws.antt =====
-- The decoder against the encodings of the R3000 and its coprocessors, as their manuals give them.
use orbum.Base.{ℕ, ◌≡◌, refl, sym, ap, ◌∙◌, Option, none, some, ◌>>=◌}
use orbum.Common.Mips.Instruction.{opcode, rs, rt, funct}
use orbum.Iop.Core.Decode.{
  Method, instruction_unknown, bltzal, bgezal, ncdt, lookup_fields, lookup, method_at, decode, j,
  jal, beq, bne, blez, bgtz, addi, addiu, slti, sltiu, andi, ori, xori, lui, lb, lh, lwl, lw, lbu,
  lhu, lwr, sb, sh, swl, sw, swr, lwc2, swc2, sll, srl, sra, sllv, srlv, srav, jr, jalr, syscall,
  break, mfhi, mthi, mflo, mtlo, mult, multu, div, divu, add, addu, sub, subu, and, or, xor, nor,
  slt, sltu, bltz, bgez, mfc0, cfc0, mtc0, ctc0, rfe, rtps, nclip, op, dpcs, intpl, mvmva, ncds,
  cdp, nccs, cc, ncs, nct, sqr, dcpl, dpct, avsz3, avsz4, rtpt, gpf, gpl, mfc2, cfc2, mtc2, ctc2,
}

-- the field that tells an instruction from the others of its class
pub data Encoding : Type 0 where
  special regimm system cop2_move cop2 primary : ℕ → Encoding

-- the manuals' numbers
unfoldable pub encoding : Method → Option Encoding
encoding instruction_unknown = none
encoding j = some (primary 2)
encoding jal = some (primary 3)
encoding beq = some (primary 4)
encoding bne = some (primary 5)
encoding blez = some (primary 6)
encoding bgtz = some (primary 7)
encoding addi = some (primary 8)
encoding addiu = some (primary 9)
encoding slti = some (primary 10)
encoding sltiu = some (primary 11)
encoding andi = some (primary 12)
encoding ori = some (primary 13)
encoding xori = some (primary 14)
encoding lui = some (primary 15)
encoding lb = some (primary 32)
encoding lh = some (primary 33)
encoding lwl = some (primary 34)
encoding lw = some (primary 35)
encoding lbu = some (primary 36)
encoding lhu = some (primary 37)
encoding lwr = some (primary 38)
encoding sb = some (primary 40)
encoding sh = some (primary 41)
encoding swl = some (primary 42)
encoding sw = some (primary 43)
encoding swr = some (primary 46)
encoding lwc2 = some (primary 50)
encoding swc2 = some (primary 58)
encoding sll = some (special 0)
encoding srl = some (special 2)
encoding sra = some (special 3)
encoding sllv = some (special 4)
encoding srlv = some (special 6)
encoding srav = some (special 7)
encoding jr = some (special 8)
encoding jalr = some (special 9)
encoding syscall = some (special 12)
encoding break = some (special 13)
encoding mfhi = some (special 16)
encoding mthi = some (special 17)
encoding mflo = some (special 18)
encoding mtlo = some (special 19)
encoding mult = some (special 24)
encoding multu = some (special 25)
encoding div = some (special 26)
encoding divu = some (special 27)
encoding add = some (special 32)
encoding addu = some (special 33)
encoding sub = some (special 34)
encoding subu = some (special 35)
encoding and = some (special 36)
encoding or = some (special 37)
encoding xor = some (special 38)
encoding nor = some (special 39)
encoding slt = some (special 42)
encoding sltu = some (special 43)
encoding bltz = some (regimm 0)
encoding bgez = some (regimm 1)
encoding bltzal = some (regimm 16)
encoding bgezal = some (regimm 17)
encoding mfc0 = some (system 0)
encoding cfc0 = some (system 2)
encoding mtc0 = some (system 4)
encoding ctc0 = some (system 6)
encoding rfe = some (system 16)
encoding rtps = some (cop2 1)
encoding nclip = some (cop2 6)
encoding op = some (cop2 12)
encoding dpcs = some (cop2 16)
encoding intpl = some (cop2 17)
encoding mvmva = some (cop2 18)
encoding ncds = some (cop2 19)
encoding cdp = some (cop2 20)
encoding ncdt = some (cop2 22)
encoding nccs = some (cop2 27)
encoding cc = some (cop2 28)
encoding ncs = some (cop2 30)
encoding nct = some (cop2 32)
encoding sqr = some (cop2 40)
encoding dcpl = some (cop2 41)
encoding dpct = some (cop2 42)
encoding avsz3 = some (cop2 45)
encoding avsz4 = some (cop2 46)
encoding rtpt = some (cop2 48)
encoding gpf = some (cop2 61)
encoding gpl = some (cop2 62)
encoding mfc2 = some (cop2_move 0)
encoding cfc2 = some (cop2_move 2)
encoding mtc2 = some (cop2_move 4)
encoding ctc2 = some (cop2_move 6)

-- the word `w` has the fields of an encoding
unfoldable pub Matches : Encoding → ℕ → Type 0
Matches (special fn) w = (opcode w ≡ 0) × (funct w ≡ fn)
Matches (regimm t) w = (opcode w ≡ 1) × (rt w ≡ t)
Matches (system s) w = (opcode w ≡ 16) × (rs w ≡ s)
Matches (cop2_move s) w = (opcode w ≡ 18) × (funct w ≡ 0) × (rs w ≡ s)
Matches (cop2 fn) w = (opcode w ≡ 18) × (funct w ≡ fn)
Matches (primary code) w = opcode w ≡ code

-- the decoder on an encoding, the fields that it leaves open being `s`, `t` and `fn`
decode_encoding : ℕ → ℕ → ℕ → Encoding → Option Method
decode_encoding s t fn (special f) = lookup_fields 0 s t f >>= method_at
decode_encoding s t fn (regimm r) = lookup_fields 1 s r fn >>= method_at
decode_encoding s t fn (system r) = lookup_fields 16 r t fn >>= method_at
decode_encoding s t fn (cop2_move r) = lookup_fields 18 r t 0 >>= method_at
decode_encoding s t fn (cop2 f) = lookup_fields 18 s t f >>= method_at
decode_encoding s t fn (primary code) = lookup_fields code s t fn >>= method_at

-- What the decoder makes of the word of an instruction: the instruction, but that BLTZAL is run as
-- BGEZAL, and that BGEZAL and NCDT are not known.
pub decoded : Method → Option Method
decoded instruction_unknown = none
decoded bltzal = some bgezal
decoded bgezal = none
decoded ncdt = none
decoded m = some m

decode_encoding_lem :
    (s t fn : ℕ) (m : Method) → (encoding m >>= decode_encoding s t fn) ≡ decoded m
unfolding encoding decode_encoding decoded lookup_fields method_at
decode_encoding_lem s t fn instruction_unknown = refl
decode_encoding_lem s t fn _ = refl

decode-Matches :
    (e : Encoding) (w : ℕ) → Matches e w → decode w ≡ decode_encoding (rs w) (rt w) (funct w) e
unfolding Matches decode lookup decode_encoding
decode-Matches (special f) w h = rw h.0 (rw h.1 refl)
decode-Matches (regimm r) w h = rw h.0 (rw h.1 refl)
decode-Matches (system r) w h = rw h.0 (rw h.1 refl)
decode-Matches (cop2_move r) w h = rw h.0 (rw h.1 (rw h.2 refl))
decode-Matches (cop2 f) w h = rw h.0 (rw h.1 refl)
decode-Matches (primary code) w h = rw h refl

-- A word with the fields of an instruction, as the manuals give them, is decoded as that
-- instruction; but a BLTZAL is decoded as BGEZAL, and BGEZAL and NCDT throw.
pub decode_lem :
    (m : Method) (e : Encoding) (w : ℕ) → encoding m ≡ some e → Matches e w → decode w ≡ decoded m
decode_lem m e w h matches =
    decode-Matches e w matches
    ∙ sym (ap (λ o. o >>= decode_encoding (rs w) (rt w) (funct w)) h)
    ∙ decode_encoding_lem (rs w) (rt w) (funct w) m
