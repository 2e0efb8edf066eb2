-- ===== src/Iop/Timers.antt =====
-- The IOP timers' count register: liborbum/src/Resources/Iop/Timers/IopTimersUnitRegisters.cpp. The
-- `int`s of the prescaler are natural numbers: they count up from 0 to less than the target, by a value
-- below 2 ^ 31, which the conversion to `int` keeps; a tick of the timers adds 1.
pub mod Laws
pub mod Tick
use orbum.Base.{
  ℕ, zero, suc, ◌+◌, ◌-◌, ◌%◌, ◌^◌, Bool, true, false, ltb, leb, if◌then◌else◌, u16, u32,
}
use orbum.Common.Register.{SizedWordRegister, sized_word, write_uword}

pub record Count : Type 0 where
  pub reg : SizedWordRegister
  pub is_using_32b_mode : Bool
  pub is_overflowed : Bool
  pub prescale_target : ℕ
  pub prescale_count : ℕ

abbrev pub initial_count : Bool → Count
initial_count b32_mode = record {
  reg = sized_word 0 false;
  is_using_32b_mode = b32_mode;
  is_overflowed = false;
  prescale_target = 1;
  prescale_count = 0;
}

unfoldable pub is_overflowed_and_reset : Count → Bool × Count
is_overflowed_and_reset c = (c.is_overflowed, record c { is_overflowed = false })

unfoldable pub reset_prescale : Count → ℕ → Count
unfolding write_uword
reset_prescale c target = record c {
  reg = write_uword c.reg 0;
  prescale_target = target;
  prescale_count = 0;
}

-- the loop, with at most `left` rounds; the count has `width` binary digits
unfoldable pub count_up : ℕ → ℕ → ℕ → ℕ → ℕ → ℕ × ℕ
count_up zero width target count prescale = (count, prescale)
count_up (suc left) width target count prescale = elim (leb target prescale) [
  | true ↦ count_up left width target ((count + 1) % 2 ^ width) (prescale - target)
  | false ↦ (count, prescale)
]

-- The two increments differ in the width of the count and in the greatest value.
unfoldable pub increment_by : ℕ → ℕ → Count → ℕ → Count
unfolding count_up write_uword
increment_by width greatest c value =
    let prescale = c.prescale_count + value in
    if leb c.prescale_target prescale
    then (let (count, rest) = count_up prescale width c.prescale_target c.reg.w prescale in
        if ltb greatest count
        then record c {
          reg = write_uword c.reg (count % greatest);
          is_overflowed = true;
          prescale_count = rest;
        }
        else record c { reg = write_uword c.reg count; prescale_count = rest })
    else record c { prescale_count = prescale }

-- VALUE_UHWORD_MAX and VALUE_UWORD_MAX
abbrev pub value_uhword_max : ℕ
value_uhword_max = 0xFFFF

abbrev pub value_uword_max : ℕ
value_uword_max = 0xFFFFFFFF

unfoldable pub increment_16 : Count → ℕ → Count
unfolding increment_by
increment_16 c value = increment_by 32 value_uhword_max c (u16 value)

unfoldable pub increment_32 : Count → ℕ → Count
unfolding increment_by
increment_32 c value = increment_by 64 value_uword_max c value

unfoldable pub increment : Count → ℕ → Count
unfolding increment_16 increment_32
increment c value = if c.is_using_32b_mode then increment_32 c value else increment_16 c value
