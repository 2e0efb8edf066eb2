-- ===== src/Common/Register.antt =====
-- liborbum/src/Common/Types/Register: WordRegister.hpp and SizedWordRegister.hpp, and the register
-- of MapperHwordWordRegister.hpp. The union of bytes, halfwords and the word is the word, read in
-- the little-endian order of the hosts that the program is built for. `none` is the exception that a
-- debug build throws on an offset out of range (a release build has no such check).
pub mod Laws
use orbum.Base.{ℕ, ◌+◌, ◌*◌, ◌/◌, ◌%◌, ◌^◌, Bool, Option, none, some, ltb, if◌then◌else◌, u32}
use orbum.Base.Int.{ℤ, pos, ◌+ℤ◌, to_u32}
use orbum.Common.Bitfield.{Bitfield, extract_from, insert_into}

pub record SizedWordRegister : Type 0 where
  pub w : ℕ
  pub initial_value : ℕ
  pub read_only : Bool

-- the constructor, with its arguments
abbrev pub sized_word : ℕ → Bool → SizedWordRegister
sized_word v ro = record { w = v; initial_value = v; read_only = ro }

unfoldable initialize : SizedWordRegister → SizedWordRegister
initialize r = record r { w = r.initial_value }

abbrev pub read_uword : SizedWordRegister → ℕ
read_uword r = r.w

-- The argument's conversion to uword is part of the call.
unfoldable pub write_uword : SizedWordRegister → ℕ → SizedWordRegister
write_uword r value = if r.read_only then r else record r { w = u32 value }

-- `b[offset]` and `h[offset]` of the union, and stores to them
abbrev pub byte_at : ℕ → ℕ → ℕ
byte_at w offset = w / 2 ^ (8 * offset) % 2 ^ 8

abbrev pub hword_at : ℕ → ℕ → ℕ
hword_at w offset = w / 2 ^ (16 * offset) % 2 ^ 16

abbrev pub put_byte : ℕ → ℕ → ℕ → ℕ
put_byte w offset v =
    (w / 2 ^ (8 * offset) / 2 ^ 8 * 2 ^ 8 + v % 2 ^ 8) * 2 ^ (8 * offset) + w % 2 ^ (8 * offset)

abbrev pub put_hword : ℕ → ℕ → ℕ → ℕ
put_hword w offset v =
    (w / 2 ^ (16 * offset) / 2 ^ 16 * 2 ^ 16 + v % 2 ^ 16) * 2 ^ (16 * offset)
    + w % 2 ^ (16 * offset)

unfoldable pub read_ubyte : SizedWordRegister → ℕ → Option ℕ
read_ubyte r offset = if ltb offset 4 then some (byte_at r.w offset) else none

pub write_ubyte : SizedWordRegister → ℕ → ℕ → Option SizedWordRegister
write_ubyte r offset value =
    if ltb offset 4
    then some (if r.read_only then r else record r { w = put_byte r.w offset value })
    else none

pub read_uhword : SizedWordRegister → ℕ → Option ℕ
read_uhword r offset = if ltb offset 2 then some (hword_at r.w offset) else none

pub write_uhword : SizedWordRegister → ℕ → ℕ → Option SizedWordRegister
write_uhword r offset value =
    if ltb offset 2
    then some (if r.read_only then r else record r { w = put_hword r.w offset value })
    else none

-- WordRegister's wrappers
unfoldable pub extract_field : SizedWordRegister → Bitfield → ℕ
extract_field r field = extract_from field (read_uword r)

unfoldable pub insert_field : SizedWordRegister → Bitfield → ℕ → SizedWordRegister
unfolding write_uword
insert_field r field value = write_uword r (insert_into field (read_uword r) value)

unfoldable pub offset : SizedWordRegister → ℤ → SizedWordRegister
unfolding write_uword
offset r value = write_uword r (to_u32 (pos (read_uword r) +ℤ value))

-- The bus's halfword access divides the byte offset by the size.
unfoldable byte_bus_read_uhword : SizedWordRegister → ℕ → Option ℕ
unfolding read_uhword
byte_bus_read_uhword r offset = read_uhword r (offset / 2)

unfoldable byte_bus_write_uhword : SizedWordRegister → ℕ → ℕ → Option SizedWordRegister
unfolding write_uhword
byte_bus_write_uhword r offset value = write_uhword r (offset / 2) value
