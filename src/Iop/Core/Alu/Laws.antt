-- ===== src/Iop/Core/Alu/Laws.antt =====
-- What the arithmetic instructions of the IOP core compute.
use orbum.Base.{
  ℕ, ◌^◌, ◌<◌, ◌≡◌, ◌⊎◌, inl, inr, Bool-cases, refl, Option, some, ◌==◌, if◌then◌else◌, arith,
}
use orbum.Base.Int.{ℤ, ◌+ℤ◌, ◌-ℤ◌, to_u32, signed32_range, to_u32-lt}
use orbum.Common.Mips.Instruction.Fields.{s_imm_range}
use orbum.Utilities.Numbers.{test_over_or_underflow_32}
use orbum.Utilities.Numbers.Laws.{IsSword, test_over_or_underflow_32_iff}
use orbum.Common.Mips.Instruction.{rs, rt, rd, s_imm}
use orbum.Iop.Core.State.{IopCore, write_gpr}
use orbum.Iop.Core.Valid.{IsCore, write_gpr_lem}
use orbum.Iop.Core.Exceptions.{overflow}
use orbum.Iop.Core.Exceptions.Laws.{Entered, handle_exception_lem}
use orbum.Iop.Core.Alu.{sword_of, handle_no_over_or_underflow_32_check, checked, add, addi, sub}

-- The state `t` is `s` with `v` in general register `i`, unless `i` is 0, which stays 0.
pub record Wrote (i v : ℕ) (s t : IopCore) : Type 0 where
  pub values : (j : ℕ) → (t.gpr j).w ≡ (if j == i then (if i == 0 then 0 else v) else (s.gpr j).w)
  pub same_pc : t.pc ≡ s.pc
  pub same_bdelay : t.bdelay ≡ s.bdelay
  pub same_hi : t.hi ≡ s.hi
  pub same_lo : t.lo ≡ s.lo
  pub same_cop0 : t.cop0 ≡ s.cop0
  pub same_data : t.translation_cache_data ≡ s.translation_cache_data
  pub same_inst : t.translation_cache_inst ≡ s.translation_cache_inst

pub write_gpr-Wrote :
    (s : IopCore) (i v : ℕ) → IsCore s → v < 2 ^ 32 → Wrote i v s (write_gpr s i v)
write_gpr-Wrote s i v h word = record {
  values = λ j. ground (arith, write_gpr_lem s i v j (h.gprs i));
  same_pc = unfold write_gpr in refl;
  same_bdelay = unfold write_gpr in refl;
  same_hi = unfold write_gpr in refl;
  same_lo = unfold write_gpr in refl;
  same_cop0 = unfold write_gpr in refl;
  same_data = unfold write_gpr in refl;
  same_inst = unfold write_gpr in refl;
}

-- The two outcomes of a checked instruction over `x` and `y` that is to write `z` to register `i`.
pub Checked : ℤ → ℤ → ℕ → IopCore → Option IopCore → Type 0
Checked sum z i s result =
    (IsSword sum × (t : IopCore) × (result ≡ some t) × Wrote i (to_u32 z) s t)
    ⊎ ((¬ IsSword sum) × (t : IopCore) × (result ≡ some t) × Entered overflow s t × IsCore t)

checked_lem :
    (x y z : ℤ) (i : ℕ) (s : IopCore)
    → IsCore s
    → IsSword x
    → IsSword y
    → Checked (x +ℤ y) z i s (checked x y s (λ t. write_gpr t i (to_u32 z)))
unfolding Checked handle_no_over_or_underflow_32_check
checked_lem x y z i s h hx hy = elim (Bool-cases (test_over_or_underflow_32 x y)) [
  | inl over ↦
      let (t, e, entered, k) = handle_exception_lem overflow s refl h in
      inr (
        λ fits. ground (arith, over, (test_over_or_underflow_32_iff x y hx hy).1 fits),
        t,
        ground (arith, over, e),
        entered,
        k,
      )
  | inr fits ↦ inl (
    (test_over_or_underflow_32_iff x y hx hy).0 fits,
    write_gpr s i (to_u32 z),
    ground (arith, fits),
    write_gpr-Wrote s i (to_u32 z) h (to_u32-lt z),
  )
]

-- ADD adds two swords: the sum is written where it is a sword, and else the overflow exception is
-- entered and no register is written.
pub add_lem :
    (inst : ℕ) (s : IopCore)
    → IsCore s
    → let z = sword_of s (rs inst) +ℤ sword_of s (rt inst) in Checked z z (rd inst) s (add inst s)
unfolding add handle_no_over_or_underflow_32_check
add_lem inst s h =
    checked_lem (sword_of s (rs inst)) (sword_of s (rt inst))
      (sword_of s (rs inst) +ℤ sword_of s (rt inst)) (rd inst) s h
      (signed32_range _ (h.gprs (rs inst)).word) (signed32_range _ (h.gprs (rt inst)).word)

imm_IsSword : (inst : ℕ) → IsSword (s_imm inst)
imm_IsSword inst = (omega (arith, s_imm_range inst), omega (arith, s_imm_range inst))

-- ADDI adds a sword and the sign-extended immediate, with the outcomes of ADD.
addi_lem :
    (inst : ℕ) (s : IopCore)
    → IsCore s
    → let z = sword_of s (rs inst) +ℤ s_imm inst in Checked z z (rt inst) s (addi inst s)
unfolding addi handle_no_over_or_underflow_32_check
addi_lem inst s h =
    checked_lem (sword_of s (rs inst)) (s_imm inst) (sword_of s (rs inst) +ℤ s_imm inst) (rt inst) s
      h (signed32_range _ (h.gprs (rs inst)).word) (imm_IsSword inst)

-- SUB writes the difference of two swords where their sum is a sword, and else enters the overflow
-- exception: the test that it makes is the one of an addition.
pub sub_lem :
    (inst : ℕ) (s : IopCore)
    → IsCore s
    → let x = sword_of s (rs inst) in
      let y = sword_of s (rt inst) in Checked (x +ℤ y) (x -ℤ y) (rd inst) s (sub inst s)
unfolding sub handle_no_over_or_underflow_32_check
sub_lem inst s h =
    checked_lem (sword_of s (rs inst)) (sword_of s (rt inst))
      (sword_of s (rs inst) -ℤ sword_of s (rt inst)) (rd inst) s h
      (signed32_range _ (h.gprs (rs inst)).word) (signed32_range _ (h.gprs (rt inst)).word)
