-- ===== src/Wiring/IopBus/Registers.antt =====
-- Mappings of the IOP's bus (initialise_iop of RResources.cpp); a list has a run of ascending addresses,
-- named by its first object.
use orbum.Base.{List, [], ◌∷◌}
use orbum.Wiring.{Mapping, mapped}
use orbum.Wiring.Names.Owner.{
  cdvd_resources, iop_core, iop_dmac, iop_dmac_channel_cdvd, iop_dmac_channel_dev9,
  iop_dmac_channel_frommdec, iop_dmac_channel_fromsio2, iop_dmac_channel_otclear,
  iop_dmac_channel_pio, iop_dmac_channel_sif0, iop_dmac_channel_sif1, iop_dmac_channel_sif2,
  iop_dmac_channel_spu2c0, iop_dmac_channel_spu2c1, iop_dmac_channel_tomdec,
  iop_dmac_channel_tosio2, iop_intc, iop_resources, resources, spu2, spu2_core_0,
}
use orbum.Wiring.Names.Member.{
  admas, apf1_l_dsth, apf1_l_dstl, apf1_r_dsth, apf1_r_dstl, apf1_sizeh, apf1_sizel, apf2_l_dsth,
  apf2_l_dstl, apf2_r_dsth, apf2_r_dstl, apf2_sizeh, apf2_sizel, attr, bcr, boot_rom, break_command,
  chcr, comb1_l_srch, comb1_l_srcl, comb1_r_srch, comb1_r_srcl, comb2_l_srch, comb2_l_srcl,
  comb2_r_srch, comb2_r_srcl, comb3_l_srch, comb3_l_srcl, comb3_r_srch, comb3_r_srcl, comb4_l_srch,
  comb4_l_srcl, comb4_r_srch, comb4_r_srcl, crt_frame, crt_minute, crt_second, ctrl, data0, data1,
  dec_set, diff_l_dsth, diff_l_dstl, diff_l_srch, diff_l_srcl, diff_r_dsth, diff_r_dstl,
  diff_r_srch, diff_r_srcl, disc_type, eeah, eeal, endx0, endx1, esah, esal, gctrl, hw_icfg,
  hw_ram_size, hw_ssbus_com_delay, hw_ssbus_dev1_addr, hw_ssbus_dev1_delay, hw_ssbus_dev5_addr,
  hw_ssbus_dev5_delay, hw_ssbus_dev9_addr3, hw_ssbus_dev9_delay1, hw_ssbus_dev9_delay2,
  hw_ssbus_dev9_delay3, hw_ssbus_pio_addr, hw_ssbus_pio_delay, hw_ssbus_rom_delay,
  hw_ssbus_spd_addr, hw_ssbus_spd_delay, hw_ssbus_spu1_addr, hw_ssbus_spu1_delay, hw_ssbus_spu_addr,
  hw_ssbus_spu_delay, icr0, icr1, intr_stat, irqah, irqal, key_20, key_21, key_22, key_23, key_24,
  key_28, key_29, key_2a, key_2b, key_2c, key_30, key_31, key_32, key_33, key_34, key_38, key_xor,
  kof0, kof1, kon0, kon1, madr, main_memory, mask, memory_0346, mmix, n_command, n_data_out,
  n_rdy_din, non0, non1, pcr0, pcr1, pmon0, pmon1, register_1560, register_1564, register_1568,
  register_15f0, register_2013, register_2070, rom1, rsv, s_command, s_data_out, s_rdy_din,
  same_l_dsth, same_l_dstl, same_l_srch, same_l_srcl, same_r_dsth, same_r_dstl, same_r_srch,
  same_r_srcl, scratchpad_memory, stat, status, statx, tadr, tray_state, tsah, tsal, vmixel0,
  vmixel1, vmixer0, vmixer1, vmixl0, vmixl1, vmixr0, vmixr1,
}

unfoldable pub iop_main_memory_on : List Mapping
iop_main_memory_on = mapped 0x00000000 iop_resources main_memory 2097152 ∷ []

unfoldable pub iop_boot_rom_on : List Mapping
iop_boot_rom_on = mapped 0x1fc00000 resources boot_rom 4194304 ∷ []

unfoldable pub iop_rom1_on : List Mapping
iop_rom1_on = mapped 0x1e000000 resources rom1 262144 ∷ []

unfoldable pub iop_boot_rom_ffc00000_on : List Mapping
iop_boot_rom_ffc00000_on = mapped 0xffc00000 resources boot_rom 4194304 ∷ []

unfoldable pub iop_core_scratchpad_memory_on : List Mapping
iop_core_scratchpad_memory_on =
    mapped 0x1f800000 iop_core scratchpad_memory 1024
    ∷ mapped 0x1f801000 iop_resources hw_ssbus_spd_addr 4
    ∷ mapped 0x1f801004 iop_resources hw_ssbus_pio_addr 4
    ∷ mapped 0x1f801008 iop_resources hw_ssbus_spd_delay 4
    ∷ mapped 0x1f80100c iop_resources hw_ssbus_dev1_delay 4
    ∷ mapped 0x1f801010 iop_resources hw_ssbus_rom_delay 4
    ∷ mapped 0x1f801014 iop_resources hw_ssbus_spu_delay 4
    ∷ mapped 0x1f801018 iop_resources hw_ssbus_dev5_delay 4
    ∷ mapped 0x1f80101c iop_resources hw_ssbus_pio_delay 4
    ∷ mapped 0x1f801020 iop_resources hw_ssbus_com_delay 4
    ∷ []

unfoldable pub iop_hw_ram_size_on : List Mapping
iop_hw_ram_size_on = mapped 0x1f801060 iop_resources hw_ram_size 4 ∷ []

unfoldable pub iop_hw_ssbus_dev1_addr_on : List Mapping
iop_hw_ssbus_dev1_addr_on =
    mapped 0x1f801400 iop_resources hw_ssbus_dev1_addr 4
    ∷ mapped 0x1f801404 iop_resources hw_ssbus_spu_addr 4
    ∷ mapped 0x1f801408 iop_resources hw_ssbus_dev5_addr 4
    ∷ mapped 0x1f80140c iop_resources hw_ssbus_spu1_addr 4
    ∷ mapped 0x1f801410 iop_resources hw_ssbus_dev9_addr3 4
    ∷ mapped 0x1f801414 iop_resources hw_ssbus_spu1_delay 4
    ∷ mapped 0x1f801418 iop_resources hw_ssbus_dev9_delay2 4
    ∷ mapped 0x1f80141c iop_resources hw_ssbus_dev9_delay3 4
    ∷ mapped 0x1f801420 iop_resources hw_ssbus_dev9_delay1 4
    ∷ mapped 0x1f801450 iop_resources hw_icfg 4
    ∷ []

unfoldable pub iop_register_1560_on : List Mapping
iop_register_1560_on =
    mapped 0x1f801560 iop_resources register_1560 4
    ∷ mapped 0x1f801564 iop_resources register_1564 4
    ∷ mapped 0x1f801568 iop_resources register_1568 4
    ∷ []

unfoldable pub iop_register_15f0_on : List Mapping
iop_register_15f0_on =
    mapped 0x1f8015f0 iop_resources register_15f0 4
    ∷ mapped 0x1f802070 iop_resources register_2070 4
    ∷ []

unfoldable pub iop_dmac_channel_tomdec_madr_on : List Mapping
iop_dmac_channel_tomdec_madr_on =
    mapped 0x1f801080 iop_dmac_channel_tomdec madr 4
    ∷ mapped 0x1f801084 iop_dmac_channel_tomdec bcr 4
    ∷ mapped 0x1f801088 iop_dmac_channel_tomdec chcr 4
    ∷ mapped 0x1f801090 iop_dmac_channel_frommdec madr 4
    ∷ mapped 0x1f801094 iop_dmac_channel_frommdec bcr 4
    ∷ mapped 0x1f801098 iop_dmac_channel_frommdec chcr 4
    ∷ mapped 0x1f8010a0 iop_dmac_channel_sif2 madr 4
    ∷ mapped 0x1f8010a4 iop_dmac_channel_sif2 bcr 4
    ∷ mapped 0x1f8010a8 iop_dmac_channel_sif2 chcr 4
    ∷ mapped 0x1f8010b0 iop_dmac_channel_cdvd madr 4
    ∷ mapped 0x1f8010b4 iop_dmac_channel_cdvd bcr 4
    ∷ mapped 0x1f8010b8 iop_dmac_channel_cdvd chcr 4
    ∷ mapped 0x1f8010c0 iop_dmac_channel_spu2c0 madr 4
    ∷ mapped 0x1f8010c4 iop_dmac_channel_spu2c0 bcr 4
    ∷ mapped 0x1f8010c8 iop_dmac_channel_spu2c0 chcr 4
    ∷ mapped 0x1f8010cc iop_dmac_channel_spu2c0 tadr 4
    ∷ mapped 0x1f8010d0 iop_dmac_channel_pio madr 4
    ∷ mapped 0x1f8010d4 iop_dmac_channel_pio bcr 4
    ∷ mapped 0x1f8010d8 iop_dmac_channel_pio chcr 4
    ∷ mapped 0x1f8010e0 iop_dmac_channel_otclear madr 4
    ∷ mapped 0x1f8010e4 iop_dmac_channel_otclear bcr 4
    ∷ mapped 0x1f8010e8 iop_dmac_channel_otclear chcr 4
    ∷ []

unfoldable pub iop_dmac_channel_spu2c1_madr_on : List Mapping
iop_dmac_channel_spu2c1_madr_on =
    mapped 0x1f801500 iop_dmac_channel_spu2c1 madr 4
    ∷ mapped 0x1f801504 iop_dmac_channel_spu2c1 bcr 4
    ∷ mapped 0x1f801508 iop_dmac_channel_spu2c1 chcr 4
    ∷ mapped 0x1f801510 iop_dmac_channel_dev9 madr 4
    ∷ mapped 0x1f801514 iop_dmac_channel_dev9 bcr 4
    ∷ mapped 0x1f801518 iop_dmac_channel_dev9 chcr 4
    ∷ mapped 0x1f801520 iop_dmac_channel_sif0 madr 4
    ∷ mapped 0x1f801524 iop_dmac_channel_sif0 bcr 4
    ∷ mapped 0x1f801528 iop_dmac_channel_sif0 chcr 4
    ∷ mapped 0x1f80152c iop_dmac_channel_sif0 tadr 4
    ∷ mapped 0x1f801530 iop_dmac_channel_sif1 madr 4
    ∷ mapped 0x1f801534 iop_dmac_channel_sif1 bcr 4
    ∷ mapped 0x1f801538 iop_dmac_channel_sif1 chcr 4
    ∷ mapped 0x1f801540 iop_dmac_channel_tosio2 madr 4
    ∷ mapped 0x1f801544 iop_dmac_channel_tosio2 bcr 4
    ∷ mapped 0x1f801548 iop_dmac_channel_tosio2 chcr 4
    ∷ mapped 0x1f801550 iop_dmac_channel_fromsio2 madr 4
    ∷ mapped 0x1f801554 iop_dmac_channel_fromsio2 bcr 4
    ∷ mapped 0x1f801558 iop_dmac_channel_fromsio2 chcr 4
    ∷ []

unfoldable pub iop_dmac_pcr0_on : List Mapping
iop_dmac_pcr0_on = mapped 0x1f8010f0 iop_dmac pcr0 4 ∷ mapped 0x1f8010f4 iop_dmac icr0 4 ∷ []

unfoldable pub iop_dmac_pcr1_on : List Mapping
iop_dmac_pcr1_on =
    mapped 0x1f801570 iop_dmac pcr1 4
    ∷ mapped 0x1f801574 iop_dmac icr1 4
    ∷ mapped 0x1f801578 iop_dmac gctrl 4
    ∷ []

unfoldable pub iop_intc_stat_on : List Mapping
iop_intc_stat_on =
    mapped 0x1f801070 iop_intc stat 4
    ∷ mapped 0x1f801074 iop_intc mask 4
    ∷ mapped 0x1f801078 iop_intc ctrl 4
    ∷ []

unfoldable pub iop_cdvd_n_command_on : List Mapping
iop_cdvd_n_command_on =
    mapped 0x1f402004 cdvd_resources n_command 1
    ∷ mapped 0x1f402005 cdvd_resources n_rdy_din 1
    ∷ mapped 0x1f402006 cdvd_resources n_data_out 1
    ∷ mapped 0x1f402007 cdvd_resources break_command 1
    ∷ mapped 0x1f402008 cdvd_resources intr_stat 1
    ∷ mapped 0x1f40200a cdvd_resources status 1
    ∷ mapped 0x1f40200b cdvd_resources tray_state 1
    ∷ mapped 0x1f40200c cdvd_resources crt_minute 1
    ∷ mapped 0x1f40200d cdvd_resources crt_second 1
    ∷ mapped 0x1f40200e cdvd_resources crt_frame 1
    ∷ mapped 0x1f40200f cdvd_resources disc_type 1
    ∷ mapped 0x1f402013 cdvd_resources register_2013 1
    ∷ mapped 0x1f402015 cdvd_resources rsv 1
    ∷ mapped 0x1f402016 cdvd_resources s_command 1
    ∷ mapped 0x1f402017 cdvd_resources s_rdy_din 1
    ∷ mapped 0x1f402018 cdvd_resources s_data_out 1
    ∷ mapped 0x1f402020 cdvd_resources key_20 1
    ∷ mapped 0x1f402021 cdvd_resources key_21 1
    ∷ mapped 0x1f402022 cdvd_resources key_22 1
    ∷ mapped 0x1f402023 cdvd_resources key_23 1
    ∷ mapped 0x1f402024 cdvd_resources key_24 1
    ∷ mapped 0x1f402028 cdvd_resources key_28 1
    ∷ mapped 0x1f402029 cdvd_resources key_29 1
    ∷ mapped 0x1f40202a cdvd_resources key_2a 1
    ∷ mapped 0x1f40202b cdvd_resources key_2b 1
    ∷ mapped 0x1f40202c cdvd_resources key_2c 1
    ∷ mapped 0x1f402030 cdvd_resources key_30 1
    ∷ mapped 0x1f402031 cdvd_resources key_31 1
    ∷ mapped 0x1f402032 cdvd_resources key_32 1
    ∷ mapped 0x1f402033 cdvd_resources key_33 1
    ∷ mapped 0x1f402034 cdvd_resources key_34 1
    ∷ mapped 0x1f402038 cdvd_resources key_38 1
    ∷ mapped 0x1f402039 cdvd_resources key_xor 1
    ∷ mapped 0x1f40203a cdvd_resources dec_set 1
    ∷ []

unfoldable pub iop_spu2_core_0_pmon0_on : List Mapping
iop_spu2_core_0_pmon0_on =
    mapped 0x1f900180 spu2_core_0 pmon0 2
    ∷ mapped 0x1f900182 spu2_core_0 pmon1 2
    ∷ mapped 0x1f900184 spu2_core_0 non0 2
    ∷ mapped 0x1f900186 spu2_core_0 non1 2
    ∷ mapped 0x1f900188 spu2_core_0 vmixl0 2
    ∷ mapped 0x1f90018a spu2_core_0 vmixl1 2
    ∷ mapped 0x1f90018c spu2_core_0 vmixel0 2
    ∷ mapped 0x1f90018e spu2_core_0 vmixel1 2
    ∷ mapped 0x1f900190 spu2_core_0 vmixr0 2
    ∷ mapped 0x1f900192 spu2_core_0 vmixr1 2
    ∷ mapped 0x1f900194 spu2_core_0 vmixer0 2
    ∷ mapped 0x1f900196 spu2_core_0 vmixer1 2
    ∷ mapped 0x1f900198 spu2_core_0 mmix 2
    ∷ mapped 0x1f90019a spu2_core_0 attr 2
    ∷ mapped 0x1f90019c spu2_core_0 irqah 2
    ∷ mapped 0x1f90019e spu2_core_0 irqal 2
    ∷ mapped 0x1f9001a0 spu2_core_0 kon0 2
    ∷ mapped 0x1f9001a2 spu2_core_0 kon1 2
    ∷ mapped 0x1f9001a4 spu2_core_0 kof0 2
    ∷ mapped 0x1f9001a6 spu2_core_0 kof1 2
    ∷ mapped 0x1f9001a8 spu2_core_0 tsah 2
    ∷ mapped 0x1f9001aa spu2_core_0 tsal 2
    ∷ mapped 0x1f9001ac spu2_core_0 data0 2
    ∷ mapped 0x1f9001ae spu2_core_0 data1 2
    ∷ mapped 0x1f9001b0 spu2_core_0 admas 2
    ∷ []

unfoldable pub iop_spu2_core_0_esah_on : List Mapping
iop_spu2_core_0_esah_on =
    mapped 0x1f9002e0 spu2_core_0 esah 2
    ∷ mapped 0x1f9002e2 spu2_core_0 esal 2
    ∷ mapped 0x1f9002e4 spu2_core_0 apf1_sizeh 2
    ∷ mapped 0x1f9002e6 spu2_core_0 apf1_sizel 2
    ∷ mapped 0x1f9002e8 spu2_core_0 apf2_sizeh 2
    ∷ mapped 0x1f9002ea spu2_core_0 apf2_sizel 2
    ∷ mapped 0x1f9002ec spu2_core_0 same_l_dsth 2
    ∷ mapped 0x1f9002ee spu2_core_0 same_l_dstl 2
    ∷ mapped 0x1f9002f0 spu2_core_0 same_r_dsth 2
    ∷ mapped 0x1f9002f2 spu2_core_0 same_r_dstl 2
    ∷ mapped 0x1f9002f4 spu2_core_0 comb1_l_srch 2
    ∷ mapped 0x1f9002f6 spu2_core_0 comb1_l_srcl 2
    ∷ mapped 0x1f9002f8 spu2_core_0 comb1_r_srch 2
    ∷ mapped 0x1f9002fa spu2_core_0 comb1_r_srcl 2
    ∷ mapped 0x1f9002fc spu2_core_0 comb2_l_srch 2
    ∷ mapped 0x1f9002fe spu2_core_0 comb2_l_srcl 2
    ∷ mapped 0x1f900300 spu2_core_0 comb2_r_srch 2
    ∷ mapped 0x1f900302 spu2_core_0 comb2_r_srcl 2
    ∷ mapped 0x1f900304 spu2_core_0 same_l_srch 2
    ∷ mapped 0x1f900306 spu2_core_0 same_l_srcl 2
    ∷ mapped 0x1f900308 spu2_core_0 same_r_srch 2
    ∷ mapped 0x1f90030a spu2_core_0 same_r_srcl 2
    ∷ mapped 0x1f90030c spu2_core_0 diff_l_dsth 2
    ∷ mapped 0x1f90030e spu2_core_0 diff_l_dstl 2
    ∷ mapped 0x1f900310 spu2_core_0 diff_r_dsth 2
    ∷ mapped 0x1f900312 spu2_core_0 diff_r_dstl 2
    ∷ mapped 0x1f900314 spu2_core_0 comb3_l_srch 2
    ∷ mapped 0x1f900316 spu2_core_0 comb3_l_srcl 2
    ∷ mapped 0x1f900318 spu2_core_0 comb3_r_srch 2
    ∷ mapped 0x1f90031a spu2_core_0 comb3_r_srcl 2
    ∷ mapped 0x1f90031c spu2_core_0 comb4_l_srch 2
    ∷ mapped 0x1f90031e spu2_core_0 comb4_l_srcl 2
    ∷ mapped 0x1f900320 spu2_core_0 comb4_r_srch 2
    ∷ mapped 0x1f900322 spu2_core_0 comb4_r_srcl 2
    ∷ mapped 0x1f900324 spu2_core_0 diff_l_srch 2
    ∷ mapped 0x1f900326 spu2_core_0 diff_l_srcl 2
    ∷ mapped 0x1f900328 spu2_core_0 diff_r_srch 2
    ∷ mapped 0x1f90032a spu2_core_0 diff_r_srcl 2
    ∷ mapped 0x1f90032c spu2_core_0 apf1_l_dsth 2
    ∷ mapped 0x1f90032e spu2_core_0 apf1_l_dstl 2
    ∷ mapped 0x1f900330 spu2_core_0 apf1_r_dsth 2
    ∷ mapped 0x1f900332 spu2_core_0 apf1_r_dstl 2
    ∷ mapped 0x1f900334 spu2_core_0 apf2_l_dsth 2
    ∷ mapped 0x1f900336 spu2_core_0 apf2_l_dstl 2
    ∷ mapped 0x1f900338 spu2_core_0 apf2_r_dsth 2
    ∷ mapped 0x1f90033a spu2_core_0 apf2_r_dstl 2
    ∷ mapped 0x1f90033c spu2_core_0 eeah 2
    ∷ mapped 0x1f90033e spu2_core_0 eeal 2
    ∷ mapped 0x1f900340 spu2_core_0 endx0 2
    ∷ mapped 0x1f900342 spu2_core_0 endx1 2
    ∷ mapped 0x1f900344 spu2_core_0 statx 2
    ∷ mapped 0x1f900346 spu2 memory_0346 186
    ∷ []
