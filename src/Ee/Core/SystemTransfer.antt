-- ===== src/Ee/Core/SystemTransfer.antt =====
-- liborbum/src/Controller/Ee/Core/Interpreter/CEeCoreInterpreter_SPECIAL_TRANSFER.cpp: the moves to and from SA and
-- the registers of the coprocessors. `none` is an exception thrown, or an access through a null pointer or
-- outside an array.
use orbum.Base.{ℕ, ◌*◌, Option, none, some, ◌>>=◌, ◌==◌, if◌then◌else◌, bit_and, bit_xor}
use orbum.Base.Int.{to_u32}
use orbum.Common.Register.{write_uword}
use orbum.Common.Mips.Instruction.{rs, rt, rd, s_imm, funct}
use orbum.Ee.Core.State.{EeCoreR5900, write_gpr_lane}
use orbum.Ee.Core.Scalar.{uword_of}
use orbum.Ee.Core.Cop0.{Cop0, write_status, read_cause, write_plain, write_compare}
use orbum.Ee.Core.Resources.{EeCore, EeCoreFpu}
use orbum.Ee.Core.Exceptions.{handle_cop0_usable, handle_cop1_usable, when_usable}

unfoldable pub mfsa : ℕ → EeCoreR5900 → EeCoreR5900
unfolding write_gpr_lane
mfsa inst s = write_gpr_lane 64 s (rd inst) 0 s.sa.w

abbrev put_sa : ℕ → EeCoreR5900 → EeCoreR5900
put_sa value s = record s { sa = write_uword s.sa value }

unfoldable pub mtsa : ℕ → EeCoreR5900 → EeCoreR5900
unfolding write_uword
mtsa inst s = put_sa (uword_of s (rs inst)) s

unfoldable pub mtsab : ℕ → EeCoreR5900 → EeCoreR5900
unfolding write_uword
mtsab inst s =
    put_sa (bit_xor (bit_and (uword_of s (rs inst)) 0xF) (bit_and (to_u32 (s_imm inst)) 0xF) * 8) s

unfoldable pub mtsah : ℕ → EeCoreR5900 → EeCoreR5900
unfolding write_uword
mtsah inst s =
    put_sa (bit_xor (bit_and (uword_of s (rs inst)) 0x7) (bit_and (to_u32 (s_imm inst)) 0x7) * 16) s

-- `registers[i]->read_uword()`
unfoldable pub read_register : Cop0 → ℕ → ℕ × Cop0
unfolding read_cause
read_register c i =
    if i == 12
    then (c.status.reg.w, c)
    else if i == 13
    then (let (value, cause) = read_cause c.cause in (value, record c { cause = cause }))
    else ((c.plain i).w, c)

-- `registers[i]->write_uword(value)`
unfoldable pub write_register : Cop0 → ℕ → ℕ → Option Cop0
unfolding write_status write_compare write_plain write_uword
write_register c i value =
    if i == 11
    then some (write_compare c value)
    else if i == 12
    then (do status ← write_status c.status value; some (record c { status = status }))
    else if i == 13
    then some (record c { cause = record (c.cause) { reg = write_uword c.cause.reg value } })
    else some (write_plain c i value)

abbrev put_gpr : ℕ → ℕ → EeCore → EeCore
put_gpr register value s = record s { r5900 = write_gpr_lane 64 s.r5900 register 0 value }

unfoldable pub mfc0 : ℕ → EeCore → Option EeCore
unfolding handle_cop0_usable read_register write_gpr_lane
mfc0 inst = when_usable handle_cop0_usable (λ s.
    let (value, cop0) = read_register s.cop0 (rd inst) in
    some (put_gpr (rt inst) value (record s { cop0 = cop0 })))

unfoldable pub mtc0 : ℕ → EeCore → Option EeCore
unfolding handle_cop0_usable write_register
mtc0 inst = when_usable handle_cop0_usable (λ s. do
  cop0 ← write_register s.cop0 (rd inst) (uword_of s.r5900 (rt inst))
  some (record s { cop0 = cop0 }))

-- the moves of a register that the instruction names
move_from : ℕ → ℕ → EeCore → Option EeCore
unfolding handle_cop0_usable write_gpr_lane
move_from register inst =
    when_usable handle_cop0_usable (λ s. some (put_gpr (rt inst) (s.cop0.plain register).w s))

move_to : ℕ → ℕ → EeCore → Option EeCore
unfolding handle_cop0_usable write_plain
move_to register inst =
    when_usable handle_cop0_usable
      (λ s. some (record s { cop0 = write_plain s.cop0 register (uword_of s.r5900 (rt inst)) }))

unfoldable pub mfbpc : ℕ → EeCore → Option EeCore
unfolding move_from
mfbpc inst s = move_from 24 inst s

unfoldable pub mtbpc : ℕ → EeCore → Option EeCore
unfolding move_to
mtbpc inst s = move_to 24 inst s

unfoldable pub mfdab : ℕ → EeCore → Option EeCore
unfolding move_from
mfdab inst s = move_from 34 inst s

unfoldable pub mtdab : ℕ → EeCore → Option EeCore
unfolding move_to
mtdab inst s = move_to 34 inst s

unfoldable pub mfdabm : ℕ → EeCore → Option EeCore
unfolding move_from
mfdabm inst s = move_from 35 inst s

unfoldable pub mtdabm : ℕ → EeCore → Option EeCore
unfolding move_to
mtdabm inst s = move_to 35 inst s

unfoldable pub mfdvb : ℕ → EeCore → Option EeCore
unfolding move_from
mfdvb inst s = move_from 36 inst s

unfoldable pub mtdvb : ℕ → EeCore → Option EeCore
unfolding move_to
mtdvb inst s = move_to 36 inst s

unfoldable pub mfdvbm : ℕ → EeCore → Option EeCore
unfolding move_from
mfdvbm inst s = move_from 37 inst s

unfoldable pub mtdvbm : ℕ → EeCore → Option EeCore
unfolding move_to
mtdvbm inst s = move_to 37 inst s

unfoldable pub mfiab : ℕ → EeCore → Option EeCore
unfolding move_from
mfiab inst s = move_from 32 inst s

unfoldable pub mtiab : ℕ → EeCore → Option EeCore
unfolding move_to
mtiab inst s = move_to 32 inst s

unfoldable pub mfiabm : ℕ → EeCore → Option EeCore
unfolding move_from
mfiabm inst s = move_from 33 inst s

unfoldable pub mtiabm : ℕ → EeCore → Option EeCore
unfolding move_to
mtiabm inst s = move_to 33 inst s

unfoldable pub mfps : ℕ → EeCore → Option EeCore
unfolding move_from
mfps inst s = move_from 25 inst s

unfoldable pub mtps : ℕ → EeCore → Option EeCore
unfolding move_to
mtps inst s = move_to 25 inst s

-- `pcr_registers[funct & 0x3E]`, an array of two; an even index other than 0 is outside it
abbrev pcr_index : ℕ → ℕ
pcr_index inst = bit_and (funct inst) 0x3E

unfoldable pub mfpc : ℕ → EeCore → Option EeCore
unfolding handle_cop0_usable write_gpr_lane
mfpc inst =
    when_usable handle_cop0_usable
      (λ s. if pcr_index inst == 0 then some (put_gpr (rt inst) (s.cop0.plain 38).w s) else none)

unfoldable pub mtpc : ℕ → EeCore → Option EeCore
unfolding handle_cop0_usable write_plain
mtpc inst = when_usable handle_cop0_usable (λ s.
    if pcr_index inst == 0
    then some (record s { cop0 = write_plain s.cop0 38 (uword_of s.r5900 (rt inst)) })
    else none)

-- `fcr[i]`; the pointers other than the first and the last are null
unfoldable pub cfc1 : ℕ → EeCore → Option EeCore
unfolding handle_cop1_usable write_gpr_lane
cfc1 inst = when_usable handle_cop1_usable (λ s.
    if rd inst == 0
    then some (put_gpr (rt inst) s.fpu.irr.w s)
    else if rd inst == 31
    then some (put_gpr (rt inst) s.fpu.csr.w s)
    else none)

abbrev with_fpu : EeCoreFpu → EeCore → EeCore
with_fpu fpu s = record s { fpu = fpu }

unfoldable pub ctc1 : ℕ → EeCore → Option EeCore
unfolding handle_cop1_usable write_uword
ctc1 inst = when_usable handle_cop1_usable (λ s.
    let value = uword_of s.r5900 (rt inst) in
    if rd inst == 0
    then some (with_fpu (record (s.fpu) { irr = write_uword s.fpu.irr value }) s)
    else if rd inst == 31
    then some (with_fpu (record (s.fpu) { csr = write_uword s.fpu.csr value }) s)
    else none)
