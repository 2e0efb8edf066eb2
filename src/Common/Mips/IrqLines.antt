-- ===== src/Common/Mips/IrqLines.antt =====
-- The array `irq_lines` of the Cause registers (IopCoreCop0Registers.cpp, EeCoreCop0Registers.cpp)
-- and the loop that reads it into the IP field.
pub mod Laws
use orbum.Base.{ℕ, zero, suc, ◌+◌, ◌*◌, ◌^◌, Bool, true, false, ◌==◌, if◌then◌else◌, bit_or, ◌<<<◌}

abbrev pub IrqLines : Type 0
IrqLines = ℕ → Bool

abbrev pub no_lines : IrqLines
no_lines j = false

abbrev pub set_line : ℕ → IrqLines → IrqLines
set_line irq lines j = if j == irq then true else lines j

abbrev pub clear_line : ℕ → IrqLines → IrqLines
clear_line irq lines j = if j == irq then false else lines j

-- the loop at index `i`, with `left` rounds to go
pub ip_from : ℕ → ℕ → IrqLines → ℕ → ℕ
ip_from zero i lines ip = ip
ip_from (suc left) i lines ip =
    ip_from left (i + 1) lines (if lines i then bit_or ip (1 <<< i) else ip)

pub ip_value : IrqLines → ℕ
unfolding ip_from
ip_value lines = ip_from 8 0 lines 0
