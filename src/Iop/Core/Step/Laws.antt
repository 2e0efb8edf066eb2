-- ===== src/Iop/Core/Step/Laws.antt =====
-- A step of the IOP core returns, and keeps the invariant of the core.
use mathlib.Core.Path.{subst}
use mathlib.Core.Option.{some-injective}
use orbum.Base.{ℕ, ◌≤◌, ◌≡◌, refl, sym, ◌∙◌, some, ◌>>=◌, arith}
use orbum.Common.Bus.{ByteBus, iop, read_uword}
use orbum.Common.Register.{SizedWordRegister}
use orbum.Iop.Core.State.{IopCore}
use orbum.Iop.Core.Valid.{IsOpen, IsCore, write_uword-IsOpen}
use orbum.Utilities.Caches.Timestamp.{TimestampLruCache}
use orbum.Common.Mips.BranchDelay.{BranchDelaySlot, advance_pc}
use orbum.Iop.Core.Exceptions.{handle_interrupt_check}
use orbum.Iop.Core.Exceptions.Checks.{handle_interrupt_check_lem}
use orbum.Iop.Core.Mmu.{translate_address_inst}
use orbum.Iop.Core.Mmu.Laws.{kernel_map, IsCached, translate_address_inst_lem}
use orbum.Iop.Core.LoadStore.Laws.{IsReady}
use orbum.Iop.Core.Decode.{Method, decode}
use orbum.Iop.Core.Execute.Laws.{system_register}
use orbum.Iop.Core.Step.{execute, advance, fetch, time_step}
use orbum.Iop.Core.Step.Access.{IsAccess, execute-Kept}

advance_pc-IsOpen :
    (b : BranchDelaySlot) (pc : SizedWordRegister) → IsOpen pc → IsOpen (advance_pc b pc).1
unfolding advance_pc
advance_pc-IsOpen b pc h = ground (arith, write_uword-IsOpen pc b.branch_pc h)

advance-IsCore : (s : IopCore) → IsCore s → IsCore (advance s)
unfolding advance
advance-IsCore s h = record {
  gprs = h.gprs;
  pc = advance_pc-IsOpen s.bdelay s.pc h.pc;
  hi = h.hi;
  lo = h.lo;
  status = h.status;
  cause = h.cause;
  epc = h.epc;
}

with_inst-IsCore :
    (s : IopCore) (c : TimestampLruCache)
    → IsCore s
    → IsCore (record s { translation_cache_inst = c })
with_inst-IsCore s c h = record {
  gprs = h.gprs;
  pc = h.pc;
  hi = h.hi;
  lo = h.lo;
  status = h.status;
  cause = h.cause;
  epc = h.epc;
}

module _ {S : Type 0} (bus : ByteBus S) (Ok : S → Type 0) where
  -- What a step needs of the core after its interrupt check: the kernel maps the PC, a word is there,
  -- it decodes, and the instruction finds its system register and its data.
  pub record CanStep (s : IopCore) (d devices : S) (method : Method) (raw_inst : ℕ) : Type 0 where
    pub ready : IsReady s
    pub inst_cached : IsCached s.translation_cache_inst
    pub physical : ℕ
    pub mapped : kernel_map s.pc.w ≡ some physical
    pub fetched : read_uword bus iop physical d ≡ some (raw_inst, devices)
    pub good : Ok devices
    pub decoded : decode raw_inst ≡ some method
    pub system : system_register method raw_inst ≤ 16
    pub access : IsAccess bus Ok method raw_inst s

  runs :
      (s checked u t : IopCore) (d d' d'' : S) (p raw_inst : ℕ) (m : Method)
      → handle_interrupt_check s ≡ some checked
      → translate_address_inst checked.pc.w checked ≡ some (some p, u)
      → read_uword bus iop p d ≡ some (raw_inst, d')
      → decode raw_inst ≡ some m
      → execute bus m raw_inst (u, d') ≡ some (t, d'')
      → time_step bus (s, d) ≡ some (3, (advance t, d''))
  unfolding time_step fetch
  runs s checked u t d d' d'' p raw_inst m e₁ e₂ e₃ e₄ e₅ =
      rw (time_step, fetch, e₁, e₂, e₃, e₄, e₅, ◌>>=◌) refl

  -- The whole step: after the check, which never throws, a core that can step does, in 3 cycles. What
  -- it leaves is what the method leaves, with the PC advanced, and satisfies the invariant, as do the objects on the bus.
  pub time_step-IsCore :
      (s checked : IopCore) (d devices : S) (method : Method) (raw_inst : ℕ)
      → IsCore s
      → handle_interrupt_check s ≡ some checked
      → CanStep checked d devices method raw_inst
      → (t : IopCore) × (d' : S) × (i : TimestampLruCache) × (execute bus method raw_inst
            (record checked { translation_cache_inst = i }, devices)
          ≡ some (t, d'))
        × (time_step bus (s, d) ≡ some (3, (advance t, d')))
        × IsCore (advance t)
        × Ok d'
  time_step-IsCore s checked d devices method raw_inst h e c =
      let (u, e', k', cases) = handle_interrupt_check_lem s h in
      let k : IsCore checked = subst IsCore (some-injective u checked (sym e' ∙ e)) k' in
      let (i, there, agrees) =
        translate_address_inst_lem checked.pc.w c.physical checked k.pc.0 c.ready.context c.mapped
          c.inst_cached in
      let start = record checked { translation_cache_inst = i } in
      let ready : IsReady start = record { context = c.ready.context; cached = c.ready.cached } in
      let (t, d', run, kept, good) =
        execute-Kept bus Ok method raw_inst start devices (with_inst-IsCore checked i k) c.good
          ready c.system c.access in
      (
        t,
        d',
        i,
        run,
        runs s checked start t d devices d' c.physical raw_inst method e there c.fetched c.decoded
            run,
        advance-IsCore t kept,
        good,
      )
