-- ===== src/Wiring/Names.antt =====
-- The resources that hold mapped objects, and their members: liborbum/src/Resources/RResources.hpp and
-- the headers of the parts.

use orbum.Base.{ℕ}

-- The names of the resources have an underscore where the source has a dot; a voice has the numbers of
-- its core and its own. The members `type`, `break_` and `data` are disc_type, break_command and
-- data_register here.
pub data Owner : Type 0 where
  iop_resources : Owner
  resources : Owner
  iop_core : Owner
  iop_dmac_channel_tomdec : Owner
  iop_dmac_channel_frommdec : Owner
  iop_dmac_channel_sif2 : Owner
  iop_dmac_channel_cdvd : Owner
  iop_dmac_channel_spu2c0 : Owner
  iop_dmac_channel_pio : Owner
  iop_dmac_channel_otclear : Owner
  iop_dmac_channel_spu2c1 : Owner
  iop_dmac_channel_dev9 : Owner
  iop_dmac_channel_sif0 : Owner
  iop_dmac_channel_sif1 : Owner
  iop_dmac_channel_tosio2 : Owner
  iop_dmac_channel_fromsio2 : Owner
  iop_dmac : Owner
  iop_intc : Owner
  cdvd_resources : Owner
  spu2_core_0 : Owner
  spu2 : Owner
  spu2_core_1 : Owner
  iop_timers_unit_0 : Owner
  iop_timers_unit_1 : Owner
  iop_timers_unit_2 : Owner
  iop_timers_unit_3 : Owner
  iop_timers_unit_4 : Owner
  iop_timers_unit_5 : Owner
  iop_sio0 : Owner
  iop_sio2_port_0 : Owner
  iop_sio2_port_1 : Owner
  iop_sio2_port_2 : Owner
  iop_sio2_port_3 : Owner
  iop_sio2_port_4 : Owner
  iop_sio2_port_5 : Owner
  iop_sio2_port_6 : Owner
  iop_sio2_port_7 : Owner
  iop_sio2_port_8 : Owner
  iop_sio2_port_9 : Owner
  iop_sio2_port_a : Owner
  iop_sio2_port_b : Owner
  iop_sio2_port_c : Owner
  iop_sio2_port_d : Owner
  iop_sio2_port_e : Owner
  iop_sio2_port_f : Owner
  iop_sio2 : Owner
  spu2_voice : ℕ → ℕ → Owner

pub data Member : Type 0 where
  main_memory : Member
  boot_rom : Member
  rom1 : Member
  scratchpad_memory : Member
  hw_ssbus_spd_addr : Member
  hw_ssbus_pio_addr : Member
  hw_ssbus_spd_delay : Member
  hw_ssbus_dev1_delay : Member
  hw_ssbus_rom_delay : Member
  hw_ssbus_spu_delay : Member
  hw_ssbus_dev5_delay : Member
  hw_ssbus_pio_delay : Member
  hw_ssbus_com_delay : Member
  hw_ram_size : Member
  hw_ssbus_dev1_addr : Member
  hw_ssbus_spu_addr : Member
  hw_ssbus_dev5_addr : Member
  hw_ssbus_spu1_addr : Member
  hw_ssbus_dev9_addr3 : Member
  hw_ssbus_spu1_delay : Member
  hw_ssbus_dev9_delay2 : Member
  hw_ssbus_dev9_delay3 : Member
  hw_ssbus_dev9_delay1 : Member
  hw_icfg : Member
  register_1560 : Member
  register_1564 : Member
  register_1568 : Member
  register_15f0 : Member
  register_2070 : Member
  madr : Member
  bcr : Member
  chcr : Member
  tadr : Member
  pcr0 : Member
  icr0 : Member
  pcr1 : Member
  icr1 : Member
  gctrl : Member
  stat : Member
  mask : Member
  ctrl : Member
  n_command : Member
  n_rdy_din : Member
  n_data_out : Member
  break_command : Member
  intr_stat : Member
  status : Member
  tray_state : Member
  crt_minute : Member
  crt_second : Member
  crt_frame : Member
  disc_type : Member
  register_2013 : Member
  rsv : Member
  s_command : Member
  s_rdy_din : Member
  s_data_out : Member
  key_20 : Member
  key_21 : Member
  key_22 : Member
  key_23 : Member
  key_24 : Member
  key_28 : Member
  key_29 : Member
  key_2a : Member
  key_2b : Member
  key_2c : Member
  key_30 : Member
  key_31 : Member
  key_32 : Member
  key_33 : Member
  key_34 : Member
  key_38 : Member
  key_xor : Member
  dec_set : Member
  voll : Member
  volr : Member
  pitch : Member
  adsr1 : Member
  adsr2 : Member
  envx : Member
  volxl : Member
  volxr : Member
  pmon0 : Member
  pmon1 : Member
  non0 : Member
  non1 : Member
  vmixl0 : Member
  vmixl1 : Member
  vmixel0 : Member
  vmixel1 : Member
  vmixr0 : Member
  vmixr1 : Member
  vmixer0 : Member
  vmixer1 : Member
  mmix : Member
  attr : Member
  irqah : Member
  irqal : Member
  kon0 : Member
  kon1 : Member
  kof0 : Member
  kof1 : Member
  tsah : Member
  tsal : Member
  data0 : Member
  data1 : Member
  admas : Member
  ssah : Member
  ssal : Member
  lsaxh : Member
  lsaxl : Member
  naxh : Member
  naxl : Member
  esah : Member
  esal : Member
  apf1_sizeh : Member
  apf1_sizel : Member
  apf2_sizeh : Member
  apf2_sizel : Member
  same_l_dsth : Member
  same_l_dstl : Member
  same_r_dsth : Member
  same_r_dstl : Member
  comb1_l_srch : Member
  comb1_l_srcl : Member
  comb1_r_srch : Member
  comb1_r_srcl : Member
  comb2_l_srch : Member
  comb2_l_srcl : Member
  comb2_r_srch : Member
  comb2_r_srcl : Member
  same_l_srch : Member
  same_l_srcl : Member
  same_r_srch : Member
  same_r_srcl : Member
  diff_l_dsth : Member
  diff_l_dstl : Member
  diff_r_dsth : Member
  diff_r_dstl : Member
  comb3_l_srch : Member
  comb3_l_srcl : Member
  comb3_r_srch : Member
  comb3_r_srcl : Member
  comb4_l_srch : Member
  comb4_l_srcl : Member
  comb4_r_srch : Member
  comb4_r_srcl : Member
  diff_l_srch : Member
  diff_l_srcl : Member
  diff_r_srch : Member
  diff_r_srcl : Member
  apf1_l_dsth : Member
  apf1_l_dstl : Member
  apf1_r_dsth : Member
  apf1_r_dstl : Member
  apf2_l_dsth : Member
  apf2_l_dstl : Member
  apf2_r_dsth : Member
  apf2_r_dstl : Member
  eeah : Member
  eeal : Member
  endx0 : Member
  endx1 : Member
  statx : Member
  memory_0346 : Member
  memory_0746 : Member
  mvoll : Member
  mvolr : Member
  evoll : Member
  evolr : Member
  avoll : Member
  avolr : Member
  bvoll : Member
  bvolr : Member
  mvolxl : Member
  mvolxr : Member
  iir_vol : Member
  comb1_vol : Member
  comb2_vol : Member
  comb3_vol : Member
  comb4_vol : Member
  wall_vol : Member
  apf1_vol : Member
  apf2_vol : Member
  in_coef_l : Member
  in_coef_r : Member
  memory_07b0 : Member
  spdif_out : Member
  spdif_irqinfo : Member
  spdif_07c4 : Member
  spdif_mode : Member
  spdif_media : Member
  spdif_07ca : Member
  spdif_protect : Member
  memory_07ce : Member
  count : Member
  mode : Member
  compare : Member
  parallel_port : Member
  data_register : Member
  ctrl_3 : Member
  ctrl_1 : Member
  ctrl_2 : Member
  fifo_tosio2 : Member
  fifo_fromsio2 : Member
  recv1 : Member
  recv2 : Member
  recv3 : Member
  register_8278 : Member
  register_827c : Member
  intr : Member
  sbus_mscom : Member
  sbus_smcom : Member
  sbus_msflg : Member
  sbus_smflg : Member
  sbus_f240 : Member
  sbus_f260 : Member
