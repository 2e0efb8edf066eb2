-- ===== src/Common/Bitfield.antt =====
-- liborbum/src/Common/Types/Bitfield.hpp at `T` = uword. The constructor's checks on negative
-- arguments have no counterpart: the fields are natural numbers.
pub mod Laws
pub mod Fields
use orbum.Base.{
  ℕ, ◌+◌, ◌-◌, ◌*◌, ◌/◌, ◌%◌, ◌^◌, ◌<◌, ◌≤◌, Bool, ◌&&◌, ◌==◌, bit_and, bit_or, u32, not32, sub32,
  ◌<<<◌, ◌>>>◌,
}

pub record Bitfield : Type 0 where
  pub start : ℕ
  pub length : ℕ

abbrev pub bits : ℕ → ℕ → Bitfield
bits start length = record { start = start; length = length }

unfoldable pub unshifted_mask : Bitfield → ℕ
unshifted_mask b = sub32 (u32 (1 <<< b.length)) 1

unfoldable pub shifted_mask : Bitfield → ℕ
shifted_mask b = u32 (unshifted_mask b <<< b.start)

unfoldable pub extract_from : Bitfield → ℕ → ℕ
extract_from b value = bit_and value (shifted_mask b) >>> b.start

unfoldable pub insert_into : Bitfield → ℕ → ℕ → ℕ
insert_into b value field_value =
    let cleaned_value = bit_and value (not32 (shifted_mask b)) in
    let cleaned_field_value = u32 (bit_and field_value (unshifted_mask b) <<< b.start) in
    bit_or cleaned_value cleaned_field_value

unfoldable equals : Bitfield → Bitfield → Bool
equals a b = a.start == b.start && a.length == b.length
