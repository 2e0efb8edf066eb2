-- ===== src/Iop/Core/Valid.antt =====
-- The invariant of the IOP core's registers, and that the operations on the state keep it.
use orbum.Base.{ℕ, ◌^◌, ◌<◌, ◌≡◌, refl, Option, some, ◌==◌, if◌then◌else◌, u32, arith}
pub use orbum.Common.Register.Laws.{IsOpen, write_uword-IsOpen, write_uword-eq}
use orbum.Common.Register.{SizedWordRegister}
use orbum.Iop.Core.Cop0.Laws.{IsStatus, initial_status-IsStatus}
use orbum.Iop.Core.State.{IopCore, initial, write_gpr}

-- Register 0 is read-only and holds 0; every other register holds a word and can be written.
pub record IsGpr (i : ℕ) (r : SizedWordRegister) : Type 0 where
  pub word : r.w < 2 ^ 32
  pub fixed : r.read_only ≡ (i == 0)
  pub zero_value : i ≡ 0 → r.w ≡ 0

-- The general registers, the PC, HI, LO, EPC and Cause hold words; Status has its own invariant.
pub record IsCore (s : IopCore) : Type 0 where
  pub gprs : (i : ℕ) → IsGpr i (s.gpr i)
  pub pc : IsOpen s.pc
  pub hi : IsOpen s.hi
  pub lo : IsOpen s.lo
  pub status : IsStatus s.cop0.status
  pub cause : IsOpen s.cop0.cause.reg
  pub epc : IsOpen s.cop0.epc

-- The constructor's state satisfies it.
pub initial-IsCore : IsCore initial
unfolding initial
initial-IsCore = record {
  gprs = λ i. record { word = omega arith; fixed = refl; zero_value = λ e. refl };
  pc = ground arith;
  hi = ground arith;
  lo = ground arith;
  status = initial_status-IsStatus;
  cause = ground arith;
  epc = ground arith;
}

-- A write to a general register stores the low 32 digits, unless it is register 0; no other
-- register changes.
pub write_gpr_lem :
    (s : IopCore) (i v j : ℕ)
    → IsGpr i (s.gpr i)
    → ((write_gpr s i v).gpr j).w ≡ (if j == i then (if i == 0 then 0 else u32 v) else (s.gpr j).w)
unfolding write_gpr
write_gpr_lem s i v j h = ground arith

write_gpr-IsGpr :
    (s : IopCore) (i v j : ℕ)
    → IsGpr i (s.gpr i)
    → IsGpr j (s.gpr j)
    → IsGpr j ((write_gpr s i v).gpr j)
unfolding write_gpr
write_gpr-IsGpr s i v j h k = ground arith

pub write_gpr-IsCore : (s : IopCore) (i v : ℕ) → IsCore s → IsCore (write_gpr s i v)
write_gpr-IsCore s i v h = record {
  gprs = λ j. write_gpr-IsGpr s i v j (h.gprs i) (h.gprs j);
  pc = unfold write_gpr in h.pc;
  hi = unfold write_gpr in h.hi;
  lo = unfold write_gpr in h.lo;
  status = unfold write_gpr in h.status;
  cause = unfold write_gpr in h.cause;
  epc = unfold write_gpr in h.epc;
}

-- a result that is no throw and keeps the invariant
abbrev pub Kept : Option IopCore → Type 0
Kept result = (t : IopCore) × (result ≡ some t) × IsCore t
