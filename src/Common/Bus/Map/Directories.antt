-- ===== src/Common/Bus/Map/Directories.antt =====
-- One directory of a bus while an object is mapped: the pages that the loop fills.
use orbum.Base.{
  ℕ, zero, suc, ◌+◌, ◌-◌, ◌*◌, ◌/◌, ◌%◌, ◌^◌, ◌<◌, ◌≤◌, ◌≡◌, refl, ◌∙◌, false, none, some, ◌⊎◌, inl,
  inr, Bool-cases, ltb, leb, ◌==◌, ◌&&◌, if◌then◌else◌, u32, arith,
}
use orbum.Utilities.Numbers.{count_trailing_zeros}
use orbum.Common.Bitfield.{bits, extract_from}
use orbum.Common.Bitfield.Laws.{extract_from_lem}
use orbum.Common.Bus.{ByteBusMappable, Page, Directory, ByteBus}
use orbum.Common.Bus.Map.{
  new_bus, null_page, resize, set_directory, fill_pages, set_page, fill_directory,
}

module _ {S : Type 0} where
  -- the page of an address, the null page where there is none
  abbrev pub cell : Directory S → ℕ → Page S
  cell directory i = if ltb i directory.page_count then directory.page_table i else null_page

  abbrev pub page_of : ByteBus S → ℕ → Page S
  page_of bus a = cell (bus.table (a / 2 ^ 16)) (a % 2 ^ 16)

  -- A bus to which objects can be mapped still: the pages are of one byte.
  pub record IsByteBus (bus : ByteBus S) : Type 0 where
    pub directories : bus.directory_mask ≡ bits 16 16
    pub size : bus.table_size ≡ 2 ^ 16
    pub masks : (i : ℕ) → (bus.table i).page_mask ≡ bits 0 16

  pub new_bus-IsByteBus : IsByteBus (new_bus {S = S} 16)
  unfolding new_bus
  new_bus-IsByteBus = record { directories = refl; size = refl; masks = λ i. refl }

  module _ (address : ℕ) (object : ByteBusMappable S) where
    abbrev pub max : ℕ
    max = object.byte_bus_map_size

    abbrev pub mapped_page : Page S
    mapped_page = record { base_address = address; object = some object }

    -- the directory with its pages from `i` to `j` mapped
    abbrev with_pages : ℕ → ℕ → Directory S → Directory S
    with_pages i j directory = record directory {
      page_table = λ k. if leb i k && ltb k j then mapped_page else directory.page_table k;
    }

    record Filled (directory : Directory S) (i left map_size : ℕ) (r : Directory S) (ms : ℕ)
        : Type 0 where
      mask : r.page_mask ≡ directory.page_mask
      count : r.page_count ≡ directory.page_count
      grown : (ms ≡ map_size + left) × (ms < max) ⊎ (ms ≡ max) × (max ≤ map_size + left)
      pages :
          (k : ℕ)
          → r.page_table k ≡ (
              if leb i k && ltb k (i + (ms - map_size))
              then mapped_page
              else directory.page_table k)

    fill_pages_lem :
        (left : ℕ) (directory : Directory S) (i map_size : ℕ)
        → map_size < max
        → ((k : ℕ)
            → i ≤ k
            → k < i + left
            → k + map_size < i + max
            → (directory.page_table k).object ≡ none)
        → (r : Directory S) × (ms : ℕ) × (fill_pages address object 1 left directory i map_size
            ≡ some (r, ms))
          × Filled directory i left map_size r ms
    unfolding fill_pages
    fill_pages_lem zero directory i map_size h free = (
      directory,
      map_size,
      refl,
      record { mask = refl; count = refl; grown = inl (omega arith); pages = λ k. ground arith },
    )
    fill_pages_lem (suc left) directory i map_size h free =
        let first : (directory.page_table i).object ≡ none =
          free i (omega arith) (omega arith) (omega arith) in
        let next = set_page i mapped_page directory in
        elim (Bool-cases (leb max (map_size + 1))) [
          | inl done ↦ (
            next,
            map_size + 1,
            rw (fill_pages, first, done) refl,
            record {
              mask = refl;
              count = refl;
              grown = inr (ground arith);
              pages = λ k. ground arith;
            },
          )
          | inr more ↦
              let (r, ms, e, f) =
                fill_pages_lem left next (i + 1) (map_size + 1) (ground arith)
                  (λ k a b c. ground (arith, free k (omega arith) (omega arith) (omega arith))) in
              (
                r,
                ms,
                rw (fill_pages, first, more) e,
                record {
                  mask = f.mask;
                  count = f.count;
                  grown = ground (arith, f.grown);
                  pages = λ k. ground (arith, f.pages k, f.grown);
                },
              )
        ]

    -- the directory that the loop over the pages starts from
    abbrev resized : Directory S → Directory S
    resized directory = record (resize (2 ^ 16) directory) {
      optimal_alignment =
          if ltb (count_trailing_zeros address) directory.optimal_alignment
          then count_trailing_zeros address
          else directory.optimal_alignment;
    }

    fill_directory_pages :
        (directory : Directory S) (map_size : ℕ)
        → directory.page_mask ≡ bits 0 16
        → let i = (address + map_size) % 2 ^ 16 in
          fill_directory address object directory map_size
          ≡ fill_pages address object 1 (2 ^ 16 - i) (resized directory) i map_size
    unfolding fill_directory
    fill_directory_pages directory map_size mask =
        let i = (address + map_size) % 2 ^ 16 in
        let index : extract_from (bits 0 16) (u32 (address + map_size)) ≡ i =
          ground (arith, extract_from_lem (bits 0 16) (u32 (address + map_size)) (omega arith)) in
        let fits : ltb (count_trailing_zeros address) 0 ≡ false = ground arith in
        rw (fill_directory, mask, index, fits) refl

    pub record FilledDirectory (directory : Directory S) (map_size : ℕ) (r : Directory S) (ms : ℕ)
        : Type 0 where
      pub mask : r.page_mask ≡ bits 0 16
      pub grown :
          (ms ≡ map_size + (2 ^ 16 - (address + map_size) % 2 ^ 16)) × (ms < max)
          ⊎ (ms ≡ max) × (max ≤ map_size + (2 ^ 16 - (address + map_size) % 2 ^ 16))
      pub cells :
          (k : ℕ)
          → k < 2 ^ 16
          → cell r k ≡ (
              if leb ((address + map_size) % 2 ^ 16) k
                && ltb k ((address + map_size) % 2 ^ 16 + (ms - map_size))
              then mapped_page
              else cell directory k)

    pub fill_directory_lem :
        (directory : Directory S) (map_size : ℕ)
        → directory.page_mask ≡ bits 0 16
        → map_size < max
        → ((k : ℕ)
            → (address + map_size) % 2 ^ 16 ≤ k
            → k < 2 ^ 16
            → k + map_size < (address + map_size) % 2 ^ 16 + max
            → (cell directory k).object ≡ none)
        → (r : Directory S) × (ms : ℕ) × (fill_directory address object directory map_size
            ≡ some (r, ms))
          × FilledDirectory directory map_size r ms
    fill_directory_lem directory map_size mask h free =
        let i = (address + map_size) % 2 ^ 16 in
        let (r, ms, e, f) =
          fill_pages_lem (2 ^ 16 - i) (resized directory) i map_size h
            (λ k a b c. free k a (omega arith) c) in
        (
          r,
          ms,
          fill_directory_pages directory map_size mask ∙ e,
          record {
            mask = f.mask ∙ mask;
            grown = f.grown;
            cells = λ k l. ground (arith, f.count, f.pages k);
          },
        )

    pub page_at :
        (bus : ByteBus S) (d k : ℕ)
        → k < 2 ^ 16
        → page_of bus (d * 2 ^ 16 + k) ≡ cell (bus.table d) k
    page_at bus d k h =
        let q : (d * 2 ^ 16 + k) / 2 ^ 16 ≡ d = omega arith in
        let r : (d * 2 ^ 16 + k) % 2 ^ 16 ≡ k = omega arith in rw (q, r) refl

    pub filled_page :
        (bus : ByteBus S) (di map_size ms : ℕ) (r : Directory S) (x : ℕ)
        → di ≡ (address + map_size) / 2 ^ 16
        → map_size < max
        → FilledDirectory (bus.table di) map_size r ms
        → page_of (set_directory di r bus) x ≡ (
            if leb (address + map_size) x && ltb x (address + ms)
            then mapped_page
            else page_of bus x)
    filled_page bus di map_size ms r x i h f = elim (Bool-cases (x / 2 ^ 16 == di)) [
      | inl here ↦
          let q : x / 2 ^ 16 ≡ di = ground (arith, here) in
          ground (arith, here, q, f.cells (x % 2 ^ 16) (omega arith), f.grown)
      | inr elsewhere ↦ ground (arith, elsewhere, f.grown)
    ]
