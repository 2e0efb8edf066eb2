-- ===== src/Common/Bus/Map.antt =====
-- liborbum/src/Common/Types/Bus/ByteBus.hpp: the construction of a bus and the mapping of an object.
-- The directory loop runs on fuel, one more than there are directories. `none` is an exception
-- thrown, or an access past the directories.
pub mod Directories
pub mod Laws
use orbum.Base.{
  ℕ, zero, suc, ◌+◌, ◌-◌, ◌^◌, Bool, true, false, Option, none, some, ◌>>=◌, ltb, leb, ◌==◌,
  if◌then◌else◌, u32,
}
use orbum.Utilities.Numbers.{count_trailing_zeros}
use orbum.Common.Bitfield.{bits, extract_from}
use orbum.Common.Bus.{ByteBusMappable, Page, Directory, ByteBus, get_vdn}

abbrev pub null_page : {S : Type 0} → Page S
null_page = record { base_address = 0; object = none }

-- the constructor, with the number of digits of a directory's index
unfoldable pub new_bus : {S : Type 0} → ℕ → ByteBus S
new_bus directory_mask_length = record {
  directory_mask = bits (32 - directory_mask_length) directory_mask_length;
  table_size = 2 ^ directory_mask_length;
  table = λ i. record {
    page_mask = bits 0 (32 - directory_mask_length);
    optimal_alignment = 32 - directory_mask_length;
    page_count = 0;
    page_table = λ j. null_page;
  };
}

-- `page_table.resize(count)`
abbrev pub resize : {S : Type 0} → ℕ → Directory S → Directory S
resize count directory = record directory {
  page_count = count;
  page_table = λ i. if ltb i directory.page_count then directory.page_table i else null_page;
}

abbrev pub set_page : {S : Type 0} → ℕ → Page S → Directory S → Directory S
set_page i page directory = record directory {
  page_table = λ j. if j == i then page else directory.page_table j;
}

abbrev pub set_directory : {S : Type 0} → ℕ → Directory S → ByteBus S → ByteBus S
set_directory i directory bus = record bus {
  table = λ j. if j == i then directory else bus.table j;
}

module _ {S : Type 0} (address : ℕ) (object : ByteBusMappable S) where
  abbrev pub max_map_size : ℕ
  max_map_size = object.byte_bus_map_size

  -- the loop over the pages of a directory from `page_index` on, with `left` of them to go
  unfoldable pub fill_pages : ℕ → ℕ → Directory S → ℕ → ℕ → Option (Directory S × ℕ)
  fill_pages page_size zero directory page_index map_size = some (directory, map_size)
  fill_pages page_size (suc left) directory page_index map_size =
      elim (directory.page_table page_index).object [
        | some there ↦ none
        | none ↦
            let directory' =
              set_page page_index (record { base_address = address; object = some object })
                directory in
            let map_size' = map_size + page_size in
            elim (leb max_map_size map_size') [
              | true ↦ some (directory', map_size')
              | false ↦ fill_pages page_size left directory' (page_index + 1) map_size'
            ]
      ]

  -- the body of the loop over the directories: the directory, and the size mapped after it
  unfoldable pub fill_directory : Directory S → ℕ → Option (Directory S × ℕ)
  unfolding fill_pages
  fill_directory directory map_size =
      let alignment = count_trailing_zeros address in
      let mask = directory.page_mask in
      if ltb alignment mask.start
      then none
      else let count = 2 ^ mask.length in
        let best = directory.optimal_alignment in
        let resized = record (resize count directory) {
          optimal_alignment = if ltb alignment best then alignment else best;
        } in
        let page_index = extract_from mask (u32 (address + map_size)) in
        fill_pages (2 ^ mask.start) (count - page_index) resized page_index map_size

  unfoldable pub map_from : ℕ → ByteBus S → ℕ → ℕ → Option (ByteBus S)
  unfolding fill_directory
  map_from zero bus directory_index map_size = none
  map_from (suc fuel) bus directory_index map_size =
      if ltb directory_index bus.table_size
      then elim (fill_directory (bus.table directory_index) map_size) [
        | none ↦ none
        | some (directory, map_size') ↦
            let bus' = set_directory directory_index directory bus in
            elim (leb max_map_size map_size') [
              | true ↦ some bus'
              | false ↦ map_from fuel bus' (directory_index + 1) map_size'
            ]
      ]
      else none

  unfoldable pub map : ByteBus S → Option (ByteBus S)
  unfolding map_from
  map bus =
      if max_map_size == 0
      then none
      else if leb bus.table_size (get_vdn bus (u32 (address + max_map_size)))
      then none
      else map_from (bus.table_size + 1) bus (get_vdn bus address) 0
