-- ===== src/Wiring/IopBus/Laws.antt =====
-- An address belongs to at most one object of the bus.
use orbum.Base.{ℕ, ◌≤◌, ◌≡◌, true, List, [], ◌∷◌, refl, arith}
use orbum.Wiring.{Mapping}
use orbum.Wiring.Laws.{all_hits, ascends, ascends_all, ascends_all-hits}
use orbum.Wiring.IopBus.Registers.{
  iop_main_memory_on, iop_boot_rom_on, iop_rom1_on, iop_boot_rom_ffc00000_on,
  iop_core_scratchpad_memory_on, iop_hw_ram_size_on, iop_hw_ssbus_dev1_addr_on,
  iop_register_1560_on, iop_register_15f0_on, iop_dmac_channel_tomdec_madr_on,
  iop_dmac_channel_spu2c1_madr_on, iop_dmac_pcr0_on, iop_dmac_pcr1_on, iop_intc_stat_on,
  iop_cdvd_n_command_on, iop_spu2_core_0_pmon0_on, iop_spu2_core_0_esah_on,
}
use orbum.Wiring.IopBus.Sound.{
  iop_spu2_core_1_pmon0_on, iop_spu2_core_1_esah_on, iop_spu2_memory_0746_on,
  iop_spu2_core_1_mvoll_on, iop_spu2_memory_07b0_on, iop_timers_unit_0_count_on,
  iop_timers_unit_3_count_on, iop_parallel_port_on, iop_sio0_data_on, iop_sio2_port_0_ctrl_3_on,
  iop_sbus_mscom_on,
}
use orbum.Wiring.IopBus.Voices.{
  volumes_from, addresses_from, spu2_core_0_voice_volumes, spu2_core_0_voice_addresses,
  spu2_core_1_voice_volumes, spu2_core_1_voice_addresses,
}
use orbum.Wiring.IopBus.{iop_mappings}

-- the parts by address
unfoldable iop_sorted : List (List Mapping)
iop_sorted =
    iop_main_memory_on ∷ iop_sbus_mscom_on ∷ iop_rom1_on ∷ iop_parallel_port_on
    ∷ iop_cdvd_n_command_on ∷ iop_core_scratchpad_memory_on ∷ iop_sio0_data_on ∷ iop_hw_ram_size_on
    ∷ iop_intc_stat_on ∷ iop_dmac_channel_tomdec_madr_on ∷ iop_dmac_pcr0_on
    ∷ iop_timers_unit_0_count_on ∷ iop_hw_ssbus_dev1_addr_on ∷ iop_timers_unit_3_count_on
    ∷ iop_dmac_channel_spu2c1_madr_on ∷ iop_register_1560_on ∷ iop_dmac_pcr1_on
    ∷ iop_register_15f0_on ∷ iop_sio2_port_0_ctrl_3_on ∷ spu2_core_0_voice_volumes
    ∷ iop_spu2_core_0_pmon0_on ∷ spu2_core_0_voice_addresses ∷ iop_spu2_core_0_esah_on
    ∷ spu2_core_1_voice_volumes ∷ iop_spu2_core_1_pmon0_on ∷ spu2_core_1_voice_addresses
    ∷ iop_spu2_core_1_esah_on ∷ iop_spu2_memory_0746_on ∷ iop_spu2_core_1_mvoll_on
    ∷ iop_spu2_memory_07b0_on ∷ iop_boot_rom_on ∷ iop_boot_rom_ffc00000_on ∷ []

iop_sorted-ascends : ascends_all 0 iop_sorted ≡ true
unfolding iop_sorted ascends_all ascends volumes_from addresses_from iop_main_memory_on
    iop_sbus_mscom_on iop_rom1_on iop_parallel_port_on iop_cdvd_n_command_on
    iop_core_scratchpad_memory_on iop_sio0_data_on iop_hw_ram_size_on iop_intc_stat_on
    iop_dmac_channel_tomdec_madr_on iop_dmac_pcr0_on iop_timers_unit_0_count_on
    iop_hw_ssbus_dev1_addr_on iop_timers_unit_3_count_on iop_dmac_channel_spu2c1_madr_on
    iop_register_1560_on iop_dmac_pcr1_on iop_register_15f0_on iop_sio2_port_0_ctrl_3_on
    spu2_core_0_voice_volumes iop_spu2_core_0_pmon0_on spu2_core_0_voice_addresses
    iop_spu2_core_0_esah_on spu2_core_1_voice_volumes iop_spu2_core_1_pmon0_on
    spu2_core_1_voice_addresses iop_spu2_core_1_esah_on iop_spu2_memory_0746_on
    iop_spu2_core_1_mvoll_on iop_spu2_memory_07b0_on iop_boot_rom_on iop_boot_rom_ffc00000_on
iop_sorted-ascends = refl

iop_reordered : (a : ℕ) → all_hits a iop_mappings ≡ all_hits a iop_sorted
unfolding all_hits iop_mappings iop_sorted
iop_reordered a = omega arith

-- An address belongs to at most one of the mappings that initialise_iop makes on the bus of the IOP.
pub iop_mappings-hits : (a : ℕ) → all_hits a iop_mappings ≤ 1
iop_mappings-hits a =
    omega (arith, iop_reordered a, ascends_all-hits 0 iop_sorted a iop_sorted-ascends)
