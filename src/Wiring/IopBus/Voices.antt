-- ===== src/Wiring/IopBus/Voices.antt =====
-- Mappings of the voices' registers of both SPU2 cores, which the source writes out voice by voice
-- (initialise_iop of RResources.cpp).
use orbum.Base.{ℕ, zero, suc, ◌+◌, List, [], ◌∷◌}
use orbum.Wiring.{Mapping, mapped}
use orbum.Wiring.Names.Owner.{spu2_voice}
use orbum.Wiring.Names.Member.{
  voll, volr, pitch, adsr1, adsr2, envx, volxl, volxr, ssah, ssal, lsaxh, lsaxl, naxh, naxl,
}

-- the volumes of `left` voices of a core from one on, at an address
unfoldable pub volumes_from : ℕ → ℕ → ℕ → ℕ → List Mapping
volumes_from zero core voice address = []
volumes_from (suc left) core voice address =
    mapped address (spu2_voice core voice) voll 2
    ∷ mapped (address + 2) (spu2_voice core voice) volr 2
    ∷ mapped (address + 4) (spu2_voice core voice) pitch 2
    ∷ mapped (address + 6) (spu2_voice core voice) adsr1 2
    ∷ mapped (address + 8) (spu2_voice core voice) adsr2 2
    ∷ mapped (address + 10) (spu2_voice core voice) envx 2
    ∷ mapped (address + 12) (spu2_voice core voice) volxl 2
    ∷ mapped (address + 14) (spu2_voice core voice) volxr 2
    ∷ volumes_from left core (voice + 1) (address + 16)

-- their sample addresses
unfoldable pub addresses_from : ℕ → ℕ → ℕ → ℕ → List Mapping
addresses_from zero core voice address = []
addresses_from (suc left) core voice address =
    mapped address (spu2_voice core voice) ssah 2
    ∷ mapped (address + 2) (spu2_voice core voice) ssal 2
    ∷ mapped (address + 4) (spu2_voice core voice) lsaxh 2
    ∷ mapped (address + 6) (spu2_voice core voice) lsaxl 2
    ∷ mapped (address + 8) (spu2_voice core voice) naxh 2
    ∷ mapped (address + 10) (spu2_voice core voice) naxl 2
    ∷ addresses_from left core (voice + 1) (address + 12)

unfoldable pub spu2_core_0_voice_volumes : List Mapping
unfolding volumes_from
spu2_core_0_voice_volumes = volumes_from 24 0 0 0x1F900000

unfoldable pub spu2_core_0_voice_addresses : List Mapping
unfolding addresses_from
spu2_core_0_voice_addresses = addresses_from 24 0 0 0x1F9001C0

unfoldable pub spu2_core_1_voice_volumes : List Mapping
unfolding volumes_from
spu2_core_1_voice_volumes = volumes_from 24 1 0 0x1F900400

unfoldable pub spu2_core_1_voice_addresses : List Mapping
unfolding addresses_from
spu2_core_1_voice_addresses = addresses_from 24 1 0 0x1F9005C0
