-- ===== src/Wiring.antt =====
-- The objects on the byte bus of the IOP: the calls of ByteBus::map in initialise_iop of
-- liborbum/src/Resources/RResources.cpp. An object is named by the resource that
-- holds it and by its member there; its size is that of its class, byte_bus_map_size.
pub mod Names
pub mod IopBus
pub mod Laws
use orbum.Base.{ℕ, ◌+◌, Bool, List, [], ◌∷◌, ltb, leb, ◌&&◌, if◌then◌else◌}
use orbum.Wiring.Names.{Owner, Member}

-- one call of `map`, with the size of the object
pub record Mapping : Type 0 where
  pub address : ℕ
  pub owner : Owner
  pub member : Member
  pub map_size : ℕ

abbrev pub mapped : ℕ → Owner → Member → ℕ → Mapping
mapped address owner member map_size = record {
  address = address;
  owner = owner;
  member = member;
  map_size = map_size;
}

-- whether an address belongs to the mapping
abbrev pub is_within : ℕ → Mapping → Bool
is_within a m = leb m.address a && ltb a (m.address + m.map_size)

-- the number of mappings that an address belongs to
unfoldable pub hits : ℕ → List Mapping → ℕ
hits a [] = 0
hits a (m ∷ ms) = (if is_within a m then 1 else 0) + hits a ms
