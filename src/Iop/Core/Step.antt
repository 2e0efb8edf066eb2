-- ===== src/Iop/Core/Step.antt =====
-- liborbum/src/Controller/Iop/Core/Interpreter/CIopCoreInterpreter.cpp: one instruction, with the
-- interrupt check, the fetch, the table of methods and the program counter. The log of a debug
-- build is left out. `none` is an exception thrown, the access of an empty result among them.
pub mod Access
pub mod Laws
use orbum.Base.{ℕ, Option, none, some, ◌>>=◌}
use orbum.Common.Bus.{ByteBus, iop, read_uword}
use orbum.Common.Mips.BranchDelay.{advance_pc}
use orbum.Iop.Core.State.{IopCore}
use orbum.Iop.Core.Exceptions.{handle_interrupt_check}
use orbum.Iop.Core.Mmu.{translate_address_inst}
use orbum.Iop.Core.LoadStore
use orbum.Iop.Core.Decode.{Method, lb, lh, lwl, lw, lbu, lhu, lwr, sb, sh, swl, sw, swr, decode}
use orbum.Iop.Core.Execute.{register_method}

unfoldable pub advance : IopCore → IopCore
advance s = let (b, pc) = advance_pc s.bdelay s.pc in record s { bdelay = b; pc = pc }

module _ {S : Type 0} (bus : ByteBus S) where
  -- the methods that access the bus
  unfoldable pub bus_method : Method → ℕ → IopCore × S → Option (IopCore × S)
  bus_method lb = LoadStore.lb bus
  bus_method lh = LoadStore.lh bus
  bus_method lwl = LoadStore.lwl bus
  bus_method lw = LoadStore.lw bus
  bus_method lbu = LoadStore.lbu bus
  bus_method lhu = LoadStore.lhu bus
  bus_method lwr = LoadStore.lwr bus
  bus_method sb = LoadStore.sb bus
  bus_method sh = LoadStore.sh bus
  bus_method swl = LoadStore.swl bus
  bus_method sw = LoadStore.sw bus
  bus_method swr = LoadStore.swr bus
  bus_method _ = λ inst t. some t

  unfoldable pub execute : Method → ℕ → IopCore × S → Option (IopCore × S)
  unfolding bus_method
  execute m inst (s, d) = elim (register_method m) [
    | some f ↦ do s' ← f inst s; some (s', d)
    | none ↦ bus_method m inst (s, d)
  ]

  -- `translate_address_inst(pc_address).value()`, and the word there
  unfoldable pub fetch : IopCore × S → Option (ℕ × (IopCore × S))
  fetch (s, d) = do
    (result, s') ← translate_address_inst s.pc.w s
    physical_address ← result
    (raw_inst, d') ← read_uword bus iop physical_address d
    some (raw_inst, (s', d'))

  -- The number is that of the cycles, which the caller counts.
  unfoldable pub time_step : IopCore × S → Option (ℕ × (IopCore × S))
  unfolding execute advance fetch
  time_step (s, d) = do
    checked ← handle_interrupt_check s
    (inst, fetched) ← fetch (checked, d)
    method ← decode inst
    (s', d') ← execute method inst fetched
    some (3, (advance s', d'))
