-- ===== src/Common/Memory.antt =====
-- liborbum/src/Common/Types/Memory/ArrayByteMemory.hpp. The vector of bytes is a function of the
-- index, with the size beside it. An access of more than a byte goes through a pointer cast, which
-- is the little-endian order of the hosts that the program is built for. `none` is an access that
-- reaches past the vector: a debug build throws where its first byte does, and else it is undefined.
pub mod Laws
use orbum.Base.{
  ℕ, zero, suc, ◌+◌, ◌*◌, ◌/◌, ◌%◌, Bool, Option, none, some, leb, ◌==◌, if◌then◌else◌,
}

pub record ArrayByteMemory : Type 0 where
  pub size : ℕ
  pub memory : ℕ → ℕ
  pub initial_value : ℕ
  pub read_only : Bool

-- the constructor
abbrev pub array_memory : ℕ → ℕ → Bool → ArrayByteMemory
array_memory size value ro = record {
  size = size;
  memory = λ i. value;
  initial_value = value;
  read_only = ro;
}

unfoldable pub initialize_memory : ArrayByteMemory → ArrayByteMemory
initialize_memory m = record m { memory = λ i. m.initial_value }

-- the number in the `n` bytes from `offset` on
unfoldable pub bytes_at : (ℕ → ℕ) → ℕ → ℕ → ℕ
bytes_at bytes zero offset = 0
bytes_at bytes (suc n) offset = bytes offset + 256 * bytes_at bytes n (offset + 1)

abbrev pub put : (ℕ → ℕ) → ℕ → ℕ → ℕ → ℕ
put bytes offset value i = if i == offset then value % 256 else bytes i

-- the `n` low bytes of the value, from `offset` on
unfoldable pub put_bytes : (ℕ → ℕ) → ℕ → ℕ → ℕ → ℕ → ℕ
put_bytes bytes zero offset value = bytes
put_bytes bytes (suc n) offset value =
    put_bytes (put bytes offset value) n (offset + 1) (value / 256)

-- `read_ubyte` to `read_uqword`, by the number of bytes
unfoldable pub read_bytes : ℕ → ArrayByteMemory → ℕ → Option ℕ
unfolding bytes_at
read_bytes n m offset = if leb (offset + n) m.size then some (bytes_at m.memory n offset) else none

-- `write_ubyte` to `write_uqword`: a write to a read-only memory is discarded
unfoldable pub write_bytes : ℕ → ArrayByteMemory → ℕ → ℕ → Option ArrayByteMemory
unfolding put_bytes
write_bytes n m offset value =
    if leb (offset + n) m.size
    then some (if m.read_only then m else record m { memory = put_bytes m.memory n offset value })
    else none
