-- ===== src/Ee/Core/Decode/Laws.antt =====
-- The decoder of the EE core against the encodings of the manuals.
use orbum.Base.{ℕ, ◌≡◌, refl, sym, ap, ◌∙◌, Option, none, some, ◌>>=◌}
use orbum.Common.Mips.Instruction.{opcode, rs, rt, shamt, funct}
use orbum.Ee.Core.Decode.Lookup.{
  Fields, fields_of, lookup_fields, lookup, method_at, decode, dest, co,
}
use orbum.Ee.Core.Decode.Method.{
  Method, instruction_unknown, sqc2, lqc2, rsqrt_s, adda_s, suba_s, mula_s, madd_s, msub_s, madda_s,
  msuba_s, cvt_w_s, max_s, min_s, c_f_s, c_eq_s, c_lt_s, c_le_s,
}
use orbum.Ee.Core.Decode.Encodings.{
  Encoding, encoding, special, regimm, mmi, mmi0, mmi1, mmi2, mmi3, primary, cop0_move, cop0_branch,
  cop0_function, cop1_move, cop1_branch, single, word, cop2_move, cop2_branch, macro, macro_60,
  macro_61, macro_62, macro_63,
}

-- the word `w` has the fields of an encoding
unfoldable pub Matches : Encoding → ℕ → Type 0
Matches (special x) w = (opcode w ≡ 0) × (funct w ≡ x)
Matches (regimm x) w = (opcode w ≡ 1) × (rt w ≡ x)
Matches (mmi x) w = (opcode w ≡ 28) × (funct w ≡ x)
Matches (mmi0 x) w = (opcode w ≡ 28) × (funct w ≡ 8) × (shamt w ≡ x)
Matches (mmi1 x) w = (opcode w ≡ 28) × (funct w ≡ 40) × (shamt w ≡ x)
Matches (mmi2 x) w = (opcode w ≡ 28) × (funct w ≡ 9) × (shamt w ≡ x)
Matches (mmi3 x) w = (opcode w ≡ 28) × (funct w ≡ 41) × (shamt w ≡ x)
Matches (primary x) w = opcode w ≡ x
Matches (cop0_move x) w = (opcode w ≡ 16) × (rs w ≡ x)
Matches (cop0_branch x) w = (opcode w ≡ 16) × (rs w ≡ 8) × (rt w ≡ x)
Matches (cop0_function x) w = (opcode w ≡ 16) × (rs w ≡ 16) × (funct w ≡ x)
Matches (cop1_move x) w = (opcode w ≡ 17) × (rs w ≡ x)
Matches (cop1_branch x) w = (opcode w ≡ 17) × (rs w ≡ 8) × (rt w ≡ x)
Matches (single x) w = (opcode w ≡ 17) × (rs w ≡ 16) × (funct w ≡ x)
Matches (word x) w = (opcode w ≡ 17) × (rs w ≡ 20) × (funct w ≡ x)
Matches (cop2_move x) w = (opcode w ≡ 18) × (co w ≡ 0) × (dest w ≡ x)
Matches (cop2_branch x) w = (opcode w ≡ 18) × (co w ≡ 0) × (dest w ≡ 8) × (rt w ≡ x)
Matches (macro x) w = (opcode w ≡ 18) × (co w ≡ 1) × (funct w ≡ x)
Matches (macro_60 x) w = (opcode w ≡ 18) × (co w ≡ 1) × (funct w ≡ 60) × (shamt w ≡ x)
Matches (macro_61 x) w = (opcode w ≡ 18) × (co w ≡ 1) × (funct w ≡ 61) × (shamt w ≡ x)
Matches (macro_62 x) w = (opcode w ≡ 18) × (co w ≡ 1) × (funct w ≡ 62) × (shamt w ≡ x)
Matches (macro_63 x) w = (opcode w ≡ 18) × (co w ≡ 1) × (funct w ≡ 63) × (shamt w ≡ x)

-- the fields of an encoding, those that it leaves open being those of `f`
with_fields : Fields → Encoding → Fields
with_fields f (special x) = record f { code = 0; fn = x }
with_fields f (regimm x) = record f { code = 1; t = x }
with_fields f (mmi x) = record f { code = 28; fn = x }
with_fields f (mmi0 x) = record f { code = 28; fn = 8; sh = x }
with_fields f (mmi1 x) = record f { code = 28; fn = 40; sh = x }
with_fields f (mmi2 x) = record f { code = 28; fn = 9; sh = x }
with_fields f (mmi3 x) = record f { code = 28; fn = 41; sh = x }
with_fields f (primary x) = record f { code = x }
with_fields f (cop0_move x) = record f { code = 16; s = x }
with_fields f (cop0_branch x) = record f { code = 16; s = 8; t = x }
with_fields f (cop0_function x) = record f { code = 16; s = 16; fn = x }
with_fields f (cop1_move x) = record f { code = 17; s = x }
with_fields f (cop1_branch x) = record f { code = 17; s = 8; t = x }
with_fields f (single x) = record f { code = 17; s = 16; fn = x }
with_fields f (word x) = record f { code = 17; s = 20; fn = x }
with_fields f (cop2_move x) = record f { code = 18; c = 0; d = x }
with_fields f (cop2_branch x) = record f { code = 18; c = 0; d = 8; t = x }
with_fields f (macro x) = record f { code = 18; c = 1; fn = x }
with_fields f (macro_60 x) = record f { code = 18; c = 1; fn = 60; sh = x }
with_fields f (macro_61 x) = record f { code = 18; c = 1; fn = 61; sh = x }
with_fields f (macro_62 x) = record f { code = 18; c = 1; fn = 62; sh = x }
with_fields f (macro_63 x) = record f { code = 18; c = 1; fn = 63; sh = x }

-- What the decoder makes of the word of an instruction: the instruction, but that SQC2 is run as LQC2, and
-- that the operations of the floating-point unit from RSQRT.S on are run as others or not known.
pub decoded : Method → Option Method
decoded instruction_unknown = none
decoded sqc2 = some lqc2
decoded rsqrt_s = none
decoded adda_s = some suba_s
decoded suba_s = some mula_s
decoded mula_s = none
decoded madd_s = some msub_s
decoded msub_s = some madda_s
decoded madda_s = some msuba_s
decoded msuba_s = none
decoded cvt_w_s = none
decoded max_s = some min_s
decoded min_s = none
decoded c_f_s = none
decoded c_eq_s = none
decoded c_lt_s = none
decoded c_le_s = none
decoded m = some m

decode_fields : Fields → Option Method
unfolding lookup_fields method_at
decode_fields f = lookup_fields f >>= method_at

decode_encoding_lem :
    (f : Fields) (m : Method) → (encoding m >>= λ e. decode_fields (with_fields f e)) ≡ decoded m
unfolding encoding decode_fields with_fields decoded lookup_fields method_at
decode_encoding_lem f instruction_unknown = refl
decode_encoding_lem f _ = refl

decode-Matches :
    (e : Encoding) (w : ℕ) → Matches e w → decode w ≡ decode_fields (with_fields (fields_of w) e)
unfolding Matches decode lookup decode_fields with_fields fields_of
decode-Matches (special x) w h = rw h.0 (rw h.1 refl)
decode-Matches (regimm x) w h = rw h.0 (rw h.1 refl)
decode-Matches (mmi x) w h = rw h.0 (rw h.1 refl)
decode-Matches (mmi0 x) w h = rw h.0 (rw h.1 (rw h.2 refl))
decode-Matches (mmi1 x) w h = rw h.0 (rw h.1 (rw h.2 refl))
decode-Matches (mmi2 x) w h = rw h.0 (rw h.1 (rw h.2 refl))
decode-Matches (mmi3 x) w h = rw h.0 (rw h.1 (rw h.2 refl))
decode-Matches (primary x) w h = rw h refl
decode-Matches (cop0_move x) w h = rw h.0 (rw h.1 refl)
decode-Matches (cop0_branch x) w h = rw h.0 (rw h.1 (rw h.2 refl))
decode-Matches (cop0_function x) w h = rw h.0 (rw h.1 (rw h.2 refl))
decode-Matches (cop1_move x) w h = rw h.0 (rw h.1 refl)
decode-Matches (cop1_branch x) w h = rw h.0 (rw h.1 (rw h.2 refl))
decode-Matches (single x) w h = rw h.0 (rw h.1 (rw h.2 refl))
decode-Matches (word x) w h = rw h.0 (rw h.1 (rw h.2 refl))
decode-Matches (cop2_move x) w h = rw h.0 (rw h.1 (rw h.2 refl))
decode-Matches (cop2_branch x) w h = rw h.0 (rw h.1 (rw h.2 (rw h.3 refl)))
decode-Matches (macro x) w h = rw h.0 (rw h.1 (rw h.2 refl))
decode-Matches (macro_60 x) w h = rw h.0 (rw h.1 (rw h.2 (rw h.3 refl)))
decode-Matches (macro_61 x) w h = rw h.0 (rw h.1 (rw h.2 (rw h.3 refl)))
decode-Matches (macro_62 x) w h = rw h.0 (rw h.1 (rw h.2 (rw h.3 refl)))
decode-Matches (macro_63 x) w h = rw h.0 (rw h.1 (rw h.2 (rw h.3 refl)))

-- A word with the fields of an instruction, as the manuals give them, is decoded as that instruction; but
-- an SQC2 is decoded as LQC2; ADDA.S, SUBA.S, MADD.S, MSUB.S, MADDA.S and MAX.S are decoded as the next
-- instruction of the manual's table; and RSQRT.S, MULA.S, MSUBA.S, CVT.W.S, MIN.S and the comparisons of the
-- floating-point unit throw.
pub decode-decoded :
    (m : Method) (e : Encoding) (w : ℕ) → encoding m ≡ some e → Matches e w → decode w ≡ decoded m
decode-decoded m e w h matches =
    decode-Matches e w matches
    ∙ sym (ap (λ o. o >>= λ c. decode_fields (with_fields (fields_of w) c)) h)
    ∙ decode_encoding_lem (fields_of w) m
