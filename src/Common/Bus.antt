-- ===== src/Common/Bus.antt =====
-- liborbum/src/Common/Types/Bus: BusContext.hpp, ByteBusMappable.hpp and ByteBus.hpp at AddressTy =
-- uptr, 32 bits. The objects live in a state `S`, and a pointer to one is its record of operations.
-- The vectors of directories and of pages are functions of the index, with their sizes beside them.
-- `none` is an exception thrown, or a lookup of no object. That a debug build may check the
-- alignment of an offset is switched off in the source.
pub mod Map
pub mod Objects
use orbum.Base.{ℕ, Option, none, some, ◌>>=◌, ltb, ◌&&◌, if◌then◌else◌, sub32}
use orbum.Common.Bitfield.{Bitfield, extract_from}

pub data BusContext : Type 0 where
  ee iop vu : BusContext

-- The operations take the byte offset in the object.
pub record ByteBusMappable (S : Type 0) : Type 0 where
  pub byte_bus_map_size : ℕ
  pub byte_bus_read_ubyte : BusContext → ℕ → S → Option (ℕ × S)
  pub byte_bus_write_ubyte : BusContext → ℕ → ℕ → S → Option S
  pub byte_bus_read_uhword : BusContext → ℕ → S → Option (ℕ × S)
  pub byte_bus_write_uhword : BusContext → ℕ → ℕ → S → Option S
  pub byte_bus_read_uword : BusContext → ℕ → S → Option (ℕ × S)
  pub byte_bus_write_uword : BusContext → ℕ → ℕ → S → Option S

-- the base class: every access throws
unfoldable unimplemented : {S : Type 0} → ℕ → ByteBusMappable S
unimplemented size = record {
  byte_bus_map_size = size;
  byte_bus_read_ubyte = λ c o s. none;
  byte_bus_write_ubyte = λ c o v s. none;
  byte_bus_read_uhword = λ c o s. none;
  byte_bus_write_uhword = λ c o v s. none;
  byte_bus_read_uword = λ c o s. none;
  byte_bus_write_uword = λ c o v s. none;
}

pub record Page (S : Type 0) : Type 0 where
  pub base_address : ℕ
  pub object : Option (ByteBusMappable S)

pub record Directory (S : Type 0) : Type 0 where
  pub page_mask : Bitfield
  pub optimal_alignment : ℕ
  pub page_count : ℕ
  pub page_table : ℕ → Page S

pub record ByteBus (S : Type 0) : Type 0 where
  pub directory_mask : Bitfield
  pub table_size : ℕ
  pub table : ℕ → Directory S

module _ {S : Type 0} (bus : ByteBus S) where
  unfoldable pub get_vdn : ℕ → ℕ
  get_vdn address = extract_from bus.directory_mask address

  unfoldable pub get_page : ℕ → Option (Page S)
  unfolding get_vdn
  get_page address =
      let vdn = get_vdn address in
      let directory = bus.table vdn in
      let page_index = extract_from directory.page_mask address in
      if ltb vdn bus.table_size && ltb page_index directory.page_count
      then some (directory.page_table page_index)
      else none

  unfoldable pub read_ubyte : BusContext → ℕ → S → Option (ℕ × S)
  unfolding get_page
  read_ubyte context address s = do
    page ← get_page address
    object ← page.object
    object.byte_bus_read_ubyte context (sub32 address page.base_address) s

  unfoldable pub write_ubyte : BusContext → ℕ → ℕ → S → Option S
  unfolding get_page
  write_ubyte context address value s = do
    page ← get_page address
    object ← page.object
    object.byte_bus_write_ubyte context (sub32 address page.base_address) value s

  unfoldable pub read_uhword : BusContext → ℕ → S → Option (ℕ × S)
  unfolding get_page
  read_uhword context address s = do
    page ← get_page address
    object ← page.object
    object.byte_bus_read_uhword context (sub32 address page.base_address) s

  unfoldable pub write_uhword : BusContext → ℕ → ℕ → S → Option S
  unfolding get_page
  write_uhword context address value s = do
    page ← get_page address
    object ← page.object
    object.byte_bus_write_uhword context (sub32 address page.base_address) value s

  unfoldable pub read_uword : BusContext → ℕ → S → Option (ℕ × S)
  unfolding get_page
  read_uword context address s = do
    page ← get_page address
    object ← page.object
    object.byte_bus_read_uword context (sub32 address page.base_address) s

  unfoldable pub write_uword : BusContext → ℕ → ℕ → S → Option S
  unfolding get_page
  write_uword context address value s = do
    page ← get_page address
    object ← page.object
    object.byte_bus_write_uword context (sub32 address page.base_address) value s
