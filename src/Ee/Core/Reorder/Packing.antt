-- ===== src/Ee/Core/Reorder/Packing.antt =====
-- Recovering the elements of a register from its extensions, by the packings.
use orbum.Base.{ℕ, ◌<◌, ◌≡◌, refl, [], ◌∷◌, inl, inr, arith}
use orbum.Common.Mips.Instruction.{rt, rd}
use orbum.Ee.Core.State.{EeCoreR5900, gpr_lane}
use orbum.Ee.Core.Reorder.{
  of_rs, of_rt, pextlw, pextuw, ppacw, pextlh, pextuh, ppach, pextlb, pextub, ppacb,
}
use orbum.Ee.Core.Reorder.Recovery.{IsPacking, packed}

ppacb-pextub-pextlb :
    (i_low i_high i_pack : ℕ) (s : EeCoreR5900) (j : ℕ)
    → IsPacking s i_low i_high i_pack
    → j < 16
    → gpr_lane 8 (ppacb i_pack (pextub i_high (pextlb i_low s))) (rd i_pack) j
      ≡ gpr_lane 8 s (rt i_low) j
unfolding ppacb pextub pextlb
ppacb-pextub-pextlb i_low i_high i_pack s j h l =
    packed 8 16
      (of_rt 0
        ∷ of_rs 0
        ∷ of_rt 1
        ∷ of_rs 1
        ∷ of_rt 2
        ∷ of_rs 2
        ∷ of_rt 3
        ∷ of_rs 3
        ∷ of_rt 4
        ∷ of_rs 4
        ∷ of_rt 5
        ∷ of_rs 5
        ∷ of_rt 6
        ∷ of_rs 6
        ∷ of_rt 7
        ∷ of_rs 7
        ∷ [])
      (of_rt 8
        ∷ of_rs 8
        ∷ of_rt 9
        ∷ of_rs 9
        ∷ of_rt 10
        ∷ of_rs 10
        ∷ of_rt 11
        ∷ of_rs 11
        ∷ of_rt 12
        ∷ of_rs 12
        ∷ of_rt 13
        ∷ of_rs 13
        ∷ of_rt 14
        ∷ of_rs 14
        ∷ of_rt 15
        ∷ of_rs 15
        ∷ [])
      (of_rt 0
        ∷ of_rt 2
        ∷ of_rt 4
        ∷ of_rt 6
        ∷ of_rt 8
        ∷ of_rt 10
        ∷ of_rt 12
        ∷ of_rt 14
        ∷ of_rs 0
        ∷ of_rs 2
        ∷ of_rs 4
        ∷ of_rs 6
        ∷ of_rs 8
        ∷ of_rs 10
        ∷ of_rs 12
        ∷ of_rs 14
        ∷ [])
      i_low i_high i_pack s j h refl
      (
        (0, inl (refl, refl, omega arith)),
        (
          (2, inl (refl, refl, omega arith)),
          (
            (4, inl (refl, refl, omega arith)),
            (
              (6, inl (refl, refl, omega arith)),
              (
                (8, inl (refl, refl, omega arith)),
                (
                  (10, inl (refl, refl, omega arith)),
                  (
                    (12, inl (refl, refl, omega arith)),
                    (
                      (14, inl (refl, refl, omega arith)),
                      (
                        (0, inr (refl, refl, omega arith)),
                        (
                          (2, inr (refl, refl, omega arith)),
                          (
                            (4, inr (refl, refl, omega arith)),
                            (
                              (6, inr (refl, refl, omega arith)),
                              (
                                (8, inr (refl, refl, omega arith)),
                                (
                                  (10, inr (refl, refl, omega arith)),
                                  (
                                    (12, inr (refl, refl, omega arith)),
                                    ((14, inr (refl, refl, omega arith)), tt),
                                  ),
                                ),
                              ),
                            ),
                          ),
                        ),
                      ),
                    ),
                  ),
                ),
              ),
            ),
          ),
        ),
      )
      l

ppach-pextuh-pextlh :
    (i_low i_high i_pack : ℕ) (s : EeCoreR5900) (j : ℕ)
    → IsPacking s i_low i_high i_pack
    → j < 8
    → gpr_lane 16 (ppach i_pack (pextuh i_high (pextlh i_low s))) (rd i_pack) j
      ≡ gpr_lane 16 s (rt i_low) j
unfolding ppach pextuh pextlh
ppach-pextuh-pextlh i_low i_high i_pack s j h l =
    packed 16 8 (of_rt 0 ∷ of_rs 0 ∷ of_rt 1 ∷ of_rs 1 ∷ of_rt 2 ∷ of_rs 2 ∷ of_rt 3 ∷ of_rs 3 ∷ [])
      (of_rt 4 ∷ of_rs 4 ∷ of_rt 5 ∷ of_rs 5 ∷ of_rt 6 ∷ of_rs 6 ∷ of_rt 7 ∷ of_rs 7 ∷ [])
      (of_rt 0 ∷ of_rt 2 ∷ of_rt 4 ∷ of_rt 6 ∷ of_rs 0 ∷ of_rs 2 ∷ of_rs 4 ∷ of_rs 6 ∷ []) i_low
      i_high i_pack s j h refl
      (
        (0, inl (refl, refl, omega arith)),
        (
          (2, inl (refl, refl, omega arith)),
          (
            (4, inl (refl, refl, omega arith)),
            (
              (6, inl (refl, refl, omega arith)),
              (
                (0, inr (refl, refl, omega arith)),
                (
                  (2, inr (refl, refl, omega arith)),
                  ((4, inr (refl, refl, omega arith)), ((6, inr (refl, refl, omega arith)), tt)),
                ),
              ),
            ),
          ),
        ),
      )
      l

ppacw-pextuw-pextlw :
    (i_low i_high i_pack : ℕ) (s : EeCoreR5900) (j : ℕ)
    → IsPacking s i_low i_high i_pack
    → j < 4
    → gpr_lane 32 (ppacw i_pack (pextuw i_high (pextlw i_low s))) (rd i_pack) j
      ≡ gpr_lane 32 s (rt i_low) j
unfolding ppacw pextuw pextlw
ppacw-pextuw-pextlw i_low i_high i_pack s j h l =
    packed 32 4 (of_rt 0 ∷ of_rs 0 ∷ of_rt 1 ∷ of_rs 1 ∷ [])
      (of_rt 2 ∷ of_rs 2 ∷ of_rt 3 ∷ of_rs 3 ∷ []) (of_rt 0 ∷ of_rt 2 ∷ of_rs 0 ∷ of_rs 2 ∷ [])
      i_low i_high i_pack s j h refl
      (
        (0, inl (refl, refl, omega arith)),
        (
          (2, inl (refl, refl, omega arith)),
          ((0, inr (refl, refl, omega arith)), ((2, inr (refl, refl, omega arith)), tt)),
        ),
      )
      l

-- The packing of the two extensions of RS and RT, in bytes, halfwords and words, gives back the elements
-- of RT, when the first extension leaves RS and RT and the packing reads the registers of the extensions.
pub ppac-pextu-pextl :
    (i_low i_high i_pack : ℕ) (s : EeCoreR5900) (b h v : ℕ)
    → IsPacking s i_low i_high i_pack
    → b < 16
    → h < 8
    → v < 4
    → (gpr_lane 8 (ppacb i_pack (pextub i_high (pextlb i_low s))) (rd i_pack) b
        ≡ gpr_lane 8 s (rt i_low) b)
      × (gpr_lane 16 (ppach i_pack (pextuh i_high (pextlh i_low s))) (rd i_pack) h
          ≡ gpr_lane 16 s (rt i_low) h)
      × (gpr_lane 32 (ppacw i_pack (pextuw i_high (pextlw i_low s))) (rd i_pack) v
          ≡ gpr_lane 32 s (rt i_low) v)
ppac-pextu-pextl i_low i_high i_pack s b h v p lb lh lv = (
  ppacb-pextub-pextlb i_low i_high i_pack s b p lb,
  ppach-pextuh-pextlh i_low i_high i_pack s h p lh,
  ppacw-pextuw-pextlw i_low i_high i_pack s v p lv,
)
