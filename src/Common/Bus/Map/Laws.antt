-- ===== src/Common/Bus/Map/Laws.antt =====
-- A bus of 2 ^ 16 directories, as both cores construct theirs, is a finite map from addresses to
-- objects: the constructor gives the empty one, and mapping an object adds its range.
use native.Mathlib.Nat.{add-zero}
use orbum.Base.{
  ℕ, zero, suc, ◌+◌, ◌*◌, ◌/◌, ◌^◌, ◌<◌, ◌≤◌, ◌≡◌, refl, sym, ap, ◌∙◌, true, false, none, some, inl,
  inr, Bool-cases, ltb, leb, ◌==◌, ◌&&◌, if◌then◌else◌, u32, arith,
}
use orbum.Common.Bitfield.{bits, extract_from}
use orbum.Common.Bitfield.Laws.{extract_from_lem}
use orbum.Common.Bus.{ByteBusMappable, Page, Directory, ByteBus, get_vdn}
use orbum.Common.Bus.Map.{set_directory, fill_directory, map_from, map}
use orbum.Common.Bus.Map.Directories.{
  page_of, IsByteBus, mapped_page, max, FilledDirectory, fill_directory_lem, page_at, filled_page,
}

module _ {S : Type 0} where
  module _ (address : ℕ) (object : ByteBusMappable S) where
    -- What the loop over the directories leaves: the bus with the addresses from `a` to `b` mapped.
    record Extended (bus : ByteBus S) (a b : ℕ) (r : ByteBus S) : Type 0 where
      valid : IsByteBus r
      pages :
          (x : ℕ)
          → page_of r x ≡ (if leb a x && ltb x b then mapped_page address object else page_of bus x)

    module _ (fuel : ℕ) (bus : ByteBus S) (di map_size ms : ℕ) (directory : Directory S)
        (here : ltb di bus.table_size ≡ true)
        (e : fill_directory address object (bus.table di) map_size ≡ some (directory, ms)) where
      last_directory :
          leb (max address object) ms ≡ true
          → map_from address object (suc fuel) bus di map_size
            ≡ some (set_directory di directory bus)
      unfolding map_from
      last_directory done = rw (map_from, here, e, done) refl

      next_directory :
          leb (max address object) ms ≡ false
          → map_from address object (suc fuel) bus di map_size
            ≡ map_from address object fuel (set_directory di directory bus) (di + 1) ms
      unfolding map_from
      next_directory more = rw (map_from, here, e, more) refl

    -- two ranges side by side
    joined :
        (a b c x : ℕ) (p q : Page S)
        → a ≤ b
        → b ≤ c
        → (if leb b x && ltb x c then p else if leb a x && ltb x b then p else q)
          ≡ (if leb a x && ltb x c then p else q)
    joined a b c x p q h k = ground arith

    beyond : (a b x : ℕ) (p q : Page S) → b ≤ x → (if leb a x && ltb x b then p else q) ≡ q
    beyond a b x p q h = ground arith

    set_directory-IsByteBus :
        (di : ℕ) (bus : ByteBus S) (r : Directory S)
        → IsByteBus bus
        → r.page_mask ≡ bits 0 16
        → IsByteBus (set_directory di r bus)
    set_directory-IsByteBus di bus r v mask = record {
      directories = v.directories;
      size = v.size;
      masks = λ i. ground (arith, v.masks i);
    }

    map_from_lem :
        (fuel : ℕ) (bus : ByteBus S) (di map_size : ℕ)
        → di ≡ (address + map_size) / 2 ^ 16
        → IsByteBus bus
        → map_size < (max address object)
        → address + (max address object) ≤ 2 ^ 32
        → 2 ^ 16 < fuel + di
        → ((x : ℕ)
            → address + map_size ≤ x
            → x < address + (max address object)
            → (page_of bus x).object ≡ none)
        → (r : ByteBus S) × (map_from address object fuel bus di map_size ≡ some r)
          × Extended bus (address + map_size) (address + (max address object)) r
    map_from_lem zero bus di map_size i v h range enough free = absurd (omega arith)
    map_from_lem (suc fuel) bus di map_size i v h range enough free =
        elim (Bool-cases (leb (max address object) ms)) [
          | inl done ↦
              let whole : ms ≡ (max address object) = ground (arith, done, f.grown) in
              (
                bus',
                last_directory fuel bus di map_size ms directory here e done,
                record { valid = v'; pages = λ x. rw whole at (pages x) },
              )
          | inr more ↦
              let grown : (map_size ≤ ms)
                  × (ms < (max address object))
                  × (di + 1 ≡ (address + ms) / 2 ^ 16) =
                ground (arith, more, f.grown) in
              let (r, e', x) =
                map_from_lem fuel bus' (di + 1) ms grown.2 v' grown.1 range (omega arith)
                  (λ a lo hi.
                    ap (λ p. p.object) (pages a ∙ beyond _ _ a (mapped_page address object) _ lo)
                    ∙ free a (omega arith) hi) in
              (
                r,
                next_directory fuel bus di map_size ms directory here e more ∙ e',
                record {
                  valid = x.valid;
                  pages = λ a.
                      x.pages a
                      ∙ ap
                          (λ q.
                            if leb (address + ms) a && ltb a (address + (max address object))
                            then (mapped_page address object)
                            else q)
                          (pages a)
                      ∙ joined (address + map_size) (address + ms) (address + (max address object))
                          a (mapped_page address object) (page_of bus a) (omega arith)
                          (omega arith);
                },
              )
        ]
      where
        found :
            (r : Directory S) × (n : ℕ) × (fill_directory address object (bus.table di) map_size
              ≡ some (r, n))
            × FilledDirectory address object (bus.table di) map_size r n
        found = fill_directory_lem address object (bus.table di) map_size (v.masks di) h (λ k a b c.
            rw (sym (page_at address object bus di k b))
              (free (di * 2 ^ 16 + k) (omega arith) (omega arith)))

        directory : Directory S
        directory = found.0

        ms : ℕ
        ms = found.1

        e : fill_directory address object (bus.table di) map_size ≡ some (directory, ms)
        e = found.2

        f : FilledDirectory address object (bus.table di) map_size directory ms
        f = found.3

        bus' : ByteBus S
        bus' = set_directory di directory bus

        v' : IsByteBus bus'
        v' = set_directory-IsByteBus di bus directory v f.mask

        here : ltb di bus.table_size ≡ true
        here = ground (arith, v.size)

        pages :
            (x : ℕ)
            → page_of bus' x ≡ (
                if leb (address + map_size) x && ltb x (address + ms)
                then (mapped_page address object)
                else page_of bus x)
        pages x = filled_page address object bus di map_size ms directory x i h f

  vdn : (bus : ByteBus S) (a : ℕ) → IsByteBus bus → a < 2 ^ 32 → get_vdn bus a ≡ a / 2 ^ 16
  unfolding get_vdn
  vdn bus a v h =
      ap (λ b. extract_from b a) v.directories
      ∙ ground (arith, extract_from_lem (bits 16 16) a (omega arith))

  map_runs :
      (address : ℕ) (object : ByteBusMappable S) (bus : ByteBus S)
      → (object.byte_bus_map_size == 0) ≡ false
      → leb bus.table_size (get_vdn bus (u32 (address + object.byte_bus_map_size))) ≡ false
      → map address object bus
        ≡ map_from address object (bus.table_size + 1) bus (get_vdn bus address) 0
  unfolding map
  map_runs address object bus filled inside = rw (map, filled, inside) refl

  -- Mapping an object that is not empty to a range inside the 32 bits, no address of which is mapped,
  -- is not refused. The bus can be mapped to still, every address of the range has the object and its
  -- base address, and every other address has what it had.
  pub map_lem :
      (address : ℕ) (object : ByteBusMappable S) (bus : ByteBus S) (x : ℕ)
      → IsByteBus bus
      → 0 < object.byte_bus_map_size
      → address + object.byte_bus_map_size ≤ 2 ^ 32
      → ((a : ℕ)
          → address ≤ a
          → a < address + object.byte_bus_map_size
          → (page_of bus a).object ≡ none)
      → (r : ByteBus S) × (map address object bus ≡ some r)
        × IsByteBus r
        × (page_of r x ≡ (
            if leb address x && ltb x (address + object.byte_bus_map_size)
            then mapped_page address object
            else page_of bus x))
  map_lem address object bus x v size range free =
      let end = u32 (address + object.byte_bus_map_size) in
      let inside : leb bus.table_size (get_vdn bus end) ≡ false =
        ground (arith, v.size, vdn bus end v (omega arith)) in
      let first : get_vdn bus address ≡ (address + 0) / 2 ^ 16 =
        omega (arith, vdn bus address v (omega arith)) in
      let (r, e, y) =
        map_from_lem address object (bus.table_size + 1) bus (get_vdn bus address) 0 first v size
          range (omega (arith, v.size)) (λ a lo hi. free a (omega arith) hi) in
      (
        r,
        map_runs address object bus (ground arith) inside ∙ e,
        y.valid,
        y.pages x
            ∙ ap
                (λ b.
                  if leb b x && ltb x (address + object.byte_bus_map_size)
                  then mapped_page address object
                  else page_of bus x)
                (add-zero address),
      )
