-- ===== src/Ee/Core/Step.antt =====
-- liborbum/src/Controller/Ee/Core/Interpreter/CEeCoreInterpreter.cpp: one instruction, with the interrupt check, the fetch, the
-- table of methods, the program counter and the counter. The methods of the floating-point unit, of VU0 and of
-- CEeCoreInterpreter_DFC.cpp are a parameter, as is the bus. The log of a debug build is left out. `none` is an exception
-- thrown, the access of an empty result among them.
use orbum.Base.{ℕ, ◌*◌, ◌%◌, Option, none, some, ◌>>=◌, ◌==◌, if◌then◌else◌}
use orbum.Common.Mips.BranchDelay.{advance_pc}
use orbum.Ee.Core.State.{EeCoreR5900}
use orbum.Ee.Core.Resources.{EeCore}
use orbum.Ee.Core.Exceptions.{handle_interrupt_check, handle_count_update}
use orbum.Ee.Core.Mmu.{translate_address_inst}
use orbum.Ee.Core.LoadStore.{BusPort}
use orbum.Ee.Core.LoadStore
use orbum.Ee.Core.Decode.Method.{
  Method, lb, lbu, ld, lh, lhu, lw, lwu, ldl, ldr, lwl, lwr, lq, lwc1, sb, sd, sh, sw, sdl, sdr,
  swl, swr, sq, swc1,
}
use orbum.Ee.Core.Decode.Lookup.{get_info, decode}
use orbum.Ee.Core.Execute.Integers.{integer_method}
use orbum.Ee.Core.Execute.Control.{branch_method, core_method}

abbrev or_else {ℓ} : {A : Type ℓ} → Option A → Option A → Option A
or_else (some a) other = some a
or_else none other = other

-- the methods that change the integer registers only
unfoldable pub register_method : Method → Option (ℕ → EeCoreR5900 → EeCoreR5900)
unfolding integer_method branch_method
register_method m = or_else (integer_method m) (branch_method m)

unfoldable pub advance : EeCore → EeCore
unfolding advance_pc
advance s =
    let (b, pc) = advance_pc s.r5900.bdelay s.r5900.pc in
    record s { r5900 = record (s.r5900) { bdelay = b; pc = pc } }

module _ {S : Type 0} (bus : BusPort S)
    (other_method : Method → ℕ → EeCore × S → Option (EeCore × S)) where
  unfoldable pub bus_method : Method → ℕ → EeCore × S → Option (EeCore × S)
  bus_method lb = LoadStore.lb bus
  bus_method lbu = LoadStore.lbu bus
  bus_method ld = LoadStore.ld bus
  bus_method lh = LoadStore.lh bus
  bus_method lhu = LoadStore.lhu bus
  bus_method lw = LoadStore.lw bus
  bus_method lwu = LoadStore.lwu bus
  bus_method ldl = LoadStore.ldl bus
  bus_method ldr = LoadStore.ldr bus
  bus_method lwl = LoadStore.lwl bus
  bus_method lwr = LoadStore.lwr bus
  bus_method lq = LoadStore.lq bus
  bus_method lwc1 = LoadStore.lwc1 bus
  bus_method sb = LoadStore.sb bus
  bus_method sd = LoadStore.sd bus
  bus_method sh = LoadStore.sh bus
  bus_method sw = LoadStore.sw bus
  bus_method sdl = LoadStore.sdl bus
  bus_method sdr = LoadStore.sdr bus
  bus_method swl = LoadStore.swl bus
  bus_method swr = LoadStore.swr bus
  bus_method sq = LoadStore.sq bus
  bus_method swc1 = LoadStore.swc1 bus
  bus_method m = other_method m

  unfoldable pub execute : Method → ℕ → EeCore × S → Option (EeCore × S)
  unfolding register_method core_method bus_method
  execute m inst (s, d) = elim (register_method m) [
    | some f ↦ some (record s { r5900 = f inst s.r5900 }, d)
    | none ↦ elim (core_method m) [
      | some f ↦ do s' ← f inst s; some (s', d)
      | none ↦ bus_method m inst (s, d)
    ]
  ]

  -- `translate_address_inst(pc_address).value()`, and the word there
  unfoldable pub fetch : EeCore × S → Option (ℕ × (EeCore × S))
  unfolding translate_address_inst
  fetch (s, d) = do
    (result, s') ← translate_address_inst s.r5900.pc.w s
    physical_address ← result
    (raw_inst, d') ← bus.bus_read 32 physical_address d
    some (raw_inst, (s', d'))

  -- The number is that of the cycles, which the caller counts.
  unfoldable pub time_step : ℕ → EeCore × S → Option (ℕ × (EeCore × S))
  unfolding execute advance fetch handle_interrupt_check handle_count_update get_info decode
  time_step ticks_available (s, d) = do
    checked ← (if ticks_available % 16 == 0 then handle_interrupt_check s else some s)
    (inst, fetched) ← fetch (checked, d)
    info ← get_info inst
    method ← decode inst
    (s', d') ← execute method inst fetched
    let advanced = advance s'
    some (
      3,
      (
        if ticks_available % 16 == 0
            then handle_count_update (info.cpi * 16) advanced
            else advanced,
        d',
      ),
    )
