-- ===== src/Wiring/IopBus.antt =====
-- The whole map of the bus of the IOP, in the order of the source.
pub mod Registers
pub mod Sound
pub mod Voices
pub mod Laws
use orbum.Base.{List, [], ◌∷◌}
use orbum.Wiring.{Mapping}
use orbum.Wiring.IopBus.Registers.{
  iop_main_memory_on, iop_boot_rom_on, iop_rom1_on, iop_boot_rom_ffc00000_on,
  iop_core_scratchpad_memory_on, iop_hw_ram_size_on, iop_hw_ssbus_dev1_addr_on,
  iop_register_1560_on, iop_register_15f0_on, iop_dmac_channel_tomdec_madr_on,
  iop_dmac_channel_spu2c1_madr_on, iop_dmac_pcr0_on, iop_dmac_pcr1_on, iop_intc_stat_on,
  iop_cdvd_n_command_on, iop_spu2_core_0_pmon0_on, iop_spu2_core_0_esah_on,
}
use orbum.Wiring.IopBus.Sound.{
  iop_spu2_core_1_pmon0_on, iop_spu2_core_1_esah_on, iop_spu2_memory_0746_on,
  iop_spu2_core_1_mvoll_on, iop_spu2_memory_07b0_on, iop_timers_unit_0_count_on,
  iop_timers_unit_3_count_on, iop_parallel_port_on, iop_sio0_data_on, iop_sio2_port_0_ctrl_3_on,
  iop_sbus_mscom_on,
}
use orbum.Wiring.IopBus.Voices.{
  spu2_core_0_voice_volumes, spu2_core_0_voice_addresses, spu2_core_1_voice_volumes,
  spu2_core_1_voice_addresses,
}

-- the parts of the map of initialise_iop
unfoldable pub iop_mappings : List (List Mapping)
iop_mappings =
    iop_main_memory_on ∷ iop_boot_rom_on ∷ iop_rom1_on ∷ iop_boot_rom_ffc00000_on
    ∷ iop_core_scratchpad_memory_on ∷ iop_hw_ram_size_on ∷ iop_hw_ssbus_dev1_addr_on
    ∷ iop_register_1560_on ∷ iop_register_15f0_on ∷ iop_dmac_channel_tomdec_madr_on
    ∷ iop_dmac_channel_spu2c1_madr_on ∷ iop_dmac_pcr0_on ∷ iop_dmac_pcr1_on ∷ iop_intc_stat_on
    ∷ iop_cdvd_n_command_on ∷ spu2_core_0_voice_volumes ∷ iop_spu2_core_0_pmon0_on
    ∷ spu2_core_0_voice_addresses ∷ iop_spu2_core_0_esah_on ∷ spu2_core_1_voice_volumes
    ∷ iop_spu2_core_1_pmon0_on ∷ spu2_core_1_voice_addresses ∷ iop_spu2_core_1_esah_on
    ∷ iop_spu2_memory_0746_on ∷ iop_spu2_core_1_mvoll_on ∷ iop_spu2_memory_07b0_on
    ∷ iop_timers_unit_0_count_on ∷ iop_timers_unit_3_count_on ∷ iop_parallel_port_on
    ∷ iop_sio0_data_on ∷ iop_sio2_port_0_ctrl_3_on ∷ iop_sbus_mscom_on ∷ []
