-- ===== src/Common/Bus/Objects.antt =====
-- liborbum/src/Common/Types/Memory/ByteMemory.hpp: a memory as an object on the bus. The memory is a
-- part of the state of the objects. `byte_bus_map_size` is that of ArrayByteMemory.hpp.
use orbum.Base.{ℕ, Option, some, ◌>>=◌, ◌≡◌}
use orbum.Common.Memory.{ArrayByteMemory, read_bytes, write_bytes}
use orbum.Common.Bus.{BusContext, ByteBusMappable}

-- where a memory stands in the state
pub record MemoryIn (S : Type 0) : Type 0 where
  pub memory_of : S → ArrayByteMemory
  pub with_memory : ArrayByteMemory → S → S
  pub read_back : (m : ArrayByteMemory) (d : S) → memory_of (with_memory m d) ≡ m

module _ {S : Type 0} (part : MemoryIn S) where
  abbrev read_memory : ℕ → BusContext → ℕ → S → Option (ℕ × S)
  read_memory n context offset d = do
    value ← read_bytes n (part.memory_of d) offset
    some (value, d)

  abbrev write_memory : ℕ → BusContext → ℕ → ℕ → S → Option S
  write_memory n context offset value d = do
    m ← write_bytes n (part.memory_of d) offset value
    some (part.with_memory m d)

  unfoldable pub memory_object : ℕ → ByteBusMappable S
  memory_object size = record {
    byte_bus_map_size = size;
    byte_bus_read_ubyte = read_memory 1;
    byte_bus_write_ubyte = write_memory 1;
    byte_bus_read_uhword = read_memory 2;
    byte_bus_write_uhword = write_memory 2;
    byte_bus_read_uword = read_memory 4;
    byte_bus_write_uword = write_memory 4;
  }
