-- ===== src/Common/Mips/BranchDelay/Laws.antt =====
-- When a pending branch is taken.
use orbum.Base.{ℕ, zero, suc, ◌+◌, ◌*◌, ◌^◌, ◌<◌, ◌≡◌, true, false, u32, arith}
use orbum.Common.Register.{SizedWordRegister}
use orbum.Common.Mips.BranchDelay.{
  BranchDelaySlot, set_branch_direct, advance_pc, is_branch_pending,
}

-- the slot and the PC after `n` advances
pub run : ℕ → BranchDelaySlot × SizedWordRegister → BranchDelaySlot × SizedWordRegister
run zero s = s
run (suc n) s = run n (advance_pc s.0 s.1)

-- With more than `n` slots to go, `n` instructions run in sequence.
run_in_slots :
    (n k t : ℕ) (pc : SizedWordRegister)
    → pc.read_only ≡ false
    → pc.w < 2 ^ 32
    → run n (record { current_slot = n + suc k; branch_pc = t }, pc)
      ≡ (record { current_slot = suc k; branch_pc = t }, record pc { w = u32 (pc.w + 4 * n) })
unfolding run advance_pc
run_in_slots zero k t pc ro h = ground arith
run_in_slots (suc n) k t pc ro h =
    ground (arith, run_in_slots n k t (record pc { w = u32 (pc.w + 4) }))

-- A branch set in a delay slot of `slots`, the PC being a writable word, is taken by the advance
-- after exactly `slots` more advances: those move through the following addresses with the branch
-- pending, and the next one moves the PC to the target and leaves no branch pending.
branch_taken :
    (slots t : ℕ) (b : BranchDelaySlot) (pc : SizedWordRegister)
    → pc.read_only ≡ false
    → pc.w < 2 ^ 32
    → t < 2 ^ 32
    → let (b', pc') = run slots (set_branch_direct slots b t, pc) in
      (is_branch_pending b' ≡ true)
      × (pc'.w ≡ u32 (pc.w + 4 * slots))
      × ((advance_pc b' pc').1.w ≡ t)
      × (is_branch_pending (advance_pc b' pc').0 ≡ false)
unfolding set_branch_direct advance_pc is_branch_pending
branch_taken slots t b pc ro h ht = ground (arith, run_in_slots slots 0 t pc ro h)
