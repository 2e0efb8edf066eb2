-- ===== src/Wiring/IopBus/Sound.antt =====
-- Mappings of the IOP's bus (initialise_iop of RResources.cpp); a list has a run of ascending addresses,
-- named by its first object.
use orbum.Base.{List, [], ◌∷◌}
use orbum.Wiring.{Mapping, mapped}
use orbum.Wiring.Names.Owner.{
  iop_resources, iop_sio0, iop_sio2, iop_sio2_port_0, iop_sio2_port_1, iop_sio2_port_2,
  iop_sio2_port_3, iop_sio2_port_4, iop_sio2_port_5, iop_sio2_port_6, iop_sio2_port_7,
  iop_sio2_port_8, iop_sio2_port_9, iop_sio2_port_a, iop_sio2_port_b, iop_sio2_port_c,
  iop_sio2_port_d, iop_sio2_port_e, iop_sio2_port_f, iop_timers_unit_0, iop_timers_unit_1,
  iop_timers_unit_2, iop_timers_unit_3, iop_timers_unit_4, iop_timers_unit_5, resources, spu2,
  spu2_core_0, spu2_core_1,
}
use orbum.Wiring.Names.Member.{
  admas, apf1_l_dsth, apf1_l_dstl, apf1_r_dsth, apf1_r_dstl, apf1_sizeh, apf1_sizel, apf1_vol,
  apf2_l_dsth, apf2_l_dstl, apf2_r_dsth, apf2_r_dstl, apf2_sizeh, apf2_sizel, apf2_vol, attr, avoll,
  avolr, bvoll, bvolr, comb1_l_srch, comb1_l_srcl, comb1_r_srch, comb1_r_srcl, comb1_vol,
  comb2_l_srch, comb2_l_srcl, comb2_r_srch, comb2_r_srcl, comb2_vol, comb3_l_srch, comb3_l_srcl,
  comb3_r_srch, comb3_r_srcl, comb3_vol, comb4_l_srch, comb4_l_srcl, comb4_r_srch, comb4_r_srcl,
  comb4_vol, compare, count, ctrl, ctrl_1, ctrl_2, ctrl_3, data0, data1, data_register, diff_l_dsth,
  diff_l_dstl, diff_l_srch, diff_l_srcl, diff_r_dsth, diff_r_dstl, diff_r_srch, diff_r_srcl, eeah,
  eeal, endx0, endx1, esah, esal, evoll, evolr, fifo_fromsio2, fifo_tosio2, iir_vol, in_coef_l,
  in_coef_r, intr, irqah, irqal, kof0, kof1, kon0, kon1, memory_0346, memory_0746, memory_07b0,
  memory_07ce, mmix, mode, mvoll, mvolr, mvolxl, mvolxr, non0, non1, parallel_port, pmon0, pmon1,
  recv1, recv2, recv3, register_8278, register_827c, same_l_dsth, same_l_dstl, same_l_srch,
  same_l_srcl, same_r_dsth, same_r_dstl, same_r_srch, same_r_srcl, sbus_f240, sbus_f260, sbus_mscom,
  sbus_msflg, sbus_smcom, sbus_smflg, spdif_07c4, spdif_07ca, spdif_irqinfo, spdif_media,
  spdif_mode, spdif_out, spdif_protect, stat, statx, tsah, tsal, vmixel0, vmixel1, vmixer0, vmixer1,
  vmixl0, vmixl1, vmixr0, vmixr1, wall_vol,
}

unfoldable pub iop_spu2_core_1_pmon0_on : List Mapping
iop_spu2_core_1_pmon0_on =
    mapped 0x1f900580 spu2_core_1 pmon0 2
    ∷ mapped 0x1f900582 spu2_core_1 pmon1 2
    ∷ mapped 0x1f900584 spu2_core_1 non0 2
    ∷ mapped 0x1f900586 spu2_core_1 non1 2
    ∷ mapped 0x1f900588 spu2_core_1 vmixl0 2
    ∷ mapped 0x1f90058a spu2_core_1 vmixl1 2
    ∷ mapped 0x1f90058c spu2_core_1 vmixel0 2
    ∷ mapped 0x1f90058e spu2_core_1 vmixel1 2
    ∷ mapped 0x1f900590 spu2_core_1 vmixr0 2
    ∷ mapped 0x1f900592 spu2_core_1 vmixr1 2
    ∷ mapped 0x1f900594 spu2_core_1 vmixer0 2
    ∷ mapped 0x1f900596 spu2_core_1 vmixer1 2
    ∷ mapped 0x1f900598 spu2_core_1 mmix 2
    ∷ mapped 0x1f90059a spu2_core_1 attr 2
    ∷ mapped 0x1f90059c spu2_core_1 irqah 2
    ∷ mapped 0x1f90059e spu2_core_1 irqal 2
    ∷ mapped 0x1f9005a0 spu2_core_1 kon0 2
    ∷ mapped 0x1f9005a2 spu2_core_1 kon1 2
    ∷ mapped 0x1f9005a4 spu2_core_1 kof0 2
    ∷ mapped 0x1f9005a6 spu2_core_1 kof1 2
    ∷ mapped 0x1f9005a8 spu2_core_1 tsah 2
    ∷ mapped 0x1f9005aa spu2_core_1 tsal 2
    ∷ mapped 0x1f9005ac spu2_core_1 data0 2
    ∷ mapped 0x1f9005ae spu2_core_1 data1 2
    ∷ mapped 0x1f9005b0 spu2_core_1 admas 2
    ∷ []

unfoldable pub iop_spu2_core_1_esah_on : List Mapping
iop_spu2_core_1_esah_on =
    mapped 0x1f9006e0 spu2_core_1 esah 2
    ∷ mapped 0x1f9006e2 spu2_core_1 esal 2
    ∷ mapped 0x1f9006e4 spu2_core_1 apf1_sizeh 2
    ∷ mapped 0x1f9006e6 spu2_core_1 apf1_sizel 2
    ∷ mapped 0x1f9006e8 spu2_core_1 apf2_sizeh 2
    ∷ mapped 0x1f9006ea spu2_core_1 apf2_sizel 2
    ∷ mapped 0x1f9006ec spu2_core_1 same_l_dsth 2
    ∷ mapped 0x1f9006ee spu2_core_1 same_l_dstl 2
    ∷ mapped 0x1f9006f0 spu2_core_1 same_r_dsth 2
    ∷ mapped 0x1f9006f2 spu2_core_1 same_r_dstl 2
    ∷ mapped 0x1f9006f4 spu2_core_1 comb1_l_srch 2
    ∷ mapped 0x1f9006f6 spu2_core_1 comb1_l_srcl 2
    ∷ mapped 0x1f9006f8 spu2_core_1 comb1_r_srch 2
    ∷ mapped 0x1f9006fa spu2_core_1 comb1_r_srcl 2
    ∷ mapped 0x1f9006fc spu2_core_1 comb2_l_srch 2
    ∷ mapped 0x1f9006fe spu2_core_1 comb2_l_srcl 2
    ∷ mapped 0x1f900700 spu2_core_1 comb2_r_srch 2
    ∷ mapped 0x1f900702 spu2_core_1 comb2_r_srcl 2
    ∷ mapped 0x1f900704 spu2_core_1 same_l_srch 2
    ∷ mapped 0x1f900706 spu2_core_1 same_l_srcl 2
    ∷ mapped 0x1f900708 spu2_core_1 same_r_srch 2
    ∷ mapped 0x1f90070a spu2_core_1 same_r_srcl 2
    ∷ mapped 0x1f90070c spu2_core_1 diff_l_dsth 2
    ∷ mapped 0x1f90070e spu2_core_1 diff_l_dstl 2
    ∷ mapped 0x1f900710 spu2_core_1 diff_r_dsth 2
    ∷ mapped 0x1f900712 spu2_core_1 diff_r_dstl 2
    ∷ mapped 0x1f900714 spu2_core_1 comb3_l_srch 2
    ∷ mapped 0x1f900716 spu2_core_1 comb3_l_srcl 2
    ∷ mapped 0x1f900718 spu2_core_1 comb3_r_srch 2
    ∷ mapped 0x1f90071a spu2_core_1 comb3_r_srcl 2
    ∷ mapped 0x1f90071c spu2_core_1 comb4_l_srch 2
    ∷ mapped 0x1f90071e spu2_core_1 comb4_l_srcl 2
    ∷ mapped 0x1f900720 spu2_core_1 comb4_r_srch 2
    ∷ mapped 0x1f900722 spu2_core_1 comb4_r_srcl 2
    ∷ mapped 0x1f900724 spu2_core_1 diff_l_srch 2
    ∷ mapped 0x1f900726 spu2_core_1 diff_l_srcl 2
    ∷ mapped 0x1f900728 spu2_core_1 diff_r_srch 2
    ∷ mapped 0x1f90072a spu2_core_1 diff_r_srcl 2
    ∷ mapped 0x1f90072c spu2_core_1 apf1_l_dsth 2
    ∷ mapped 0x1f90072e spu2_core_1 apf1_l_dstl 2
    ∷ mapped 0x1f900730 spu2_core_1 apf1_r_dsth 2
    ∷ mapped 0x1f900732 spu2_core_1 apf1_r_dstl 2
    ∷ mapped 0x1f900734 spu2_core_1 apf2_l_dsth 2
    ∷ mapped 0x1f900736 spu2_core_1 apf2_l_dstl 2
    ∷ mapped 0x1f900738 spu2_core_1 apf2_r_dsth 2
    ∷ mapped 0x1f90073a spu2_core_1 apf2_r_dstl 2
    ∷ mapped 0x1f90073c spu2_core_1 eeah 2
    ∷ mapped 0x1f90073e spu2_core_1 eeal 2
    ∷ mapped 0x1f900740 spu2_core_1 endx0 2
    ∷ mapped 0x1f900742 spu2_core_1 endx1 2
    ∷ mapped 0x1f900744 spu2_core_1 statx 2
    ∷ []

unfoldable pub iop_spu2_memory_0746_on : List Mapping
iop_spu2_memory_0746_on =
    mapped 0x1f900746 spu2 memory_0746 26
    ∷ mapped 0x1f900760 spu2_core_0 mvoll 2
    ∷ mapped 0x1f900762 spu2_core_0 mvolr 2
    ∷ mapped 0x1f900764 spu2_core_0 evoll 2
    ∷ mapped 0x1f900766 spu2_core_0 evolr 2
    ∷ mapped 0x1f900768 spu2_core_0 avoll 2
    ∷ mapped 0x1f90076a spu2_core_0 avolr 2
    ∷ mapped 0x1f90076c spu2_core_0 bvoll 2
    ∷ mapped 0x1f90076e spu2_core_0 bvolr 2
    ∷ mapped 0x1f900770 spu2_core_0 mvolxl 2
    ∷ mapped 0x1f900772 spu2_core_0 mvolxr 2
    ∷ mapped 0x1f900774 spu2_core_0 iir_vol 2
    ∷ mapped 0x1f900776 spu2_core_0 comb1_vol 2
    ∷ mapped 0x1f900778 spu2_core_0 comb2_vol 2
    ∷ mapped 0x1f90077a spu2_core_0 comb3_vol 2
    ∷ mapped 0x1f90077c spu2_core_0 comb4_vol 2
    ∷ mapped 0x1f90077e spu2_core_0 wall_vol 2
    ∷ mapped 0x1f900780 spu2_core_0 apf1_vol 2
    ∷ mapped 0x1f900782 spu2_core_0 apf2_vol 2
    ∷ mapped 0x1f900784 spu2_core_0 in_coef_l 2
    ∷ mapped 0x1f900786 spu2_core_0 in_coef_r 2
    ∷ []

unfoldable pub iop_spu2_core_1_mvoll_on : List Mapping
iop_spu2_core_1_mvoll_on =
    mapped 0x1f900788 spu2_core_1 mvoll 2
    ∷ mapped 0x1f90078a spu2_core_1 mvolr 2
    ∷ mapped 0x1f90078c spu2_core_1 evoll 2
    ∷ mapped 0x1f90078e spu2_core_1 evolr 2
    ∷ mapped 0x1f900790 spu2_core_1 avoll 2
    ∷ mapped 0x1f900792 spu2_core_1 avolr 2
    ∷ mapped 0x1f900794 spu2_core_1 bvoll 2
    ∷ mapped 0x1f900796 spu2_core_1 bvolr 2
    ∷ mapped 0x1f900798 spu2_core_1 mvolxl 2
    ∷ mapped 0x1f90079a spu2_core_1 mvolxr 2
    ∷ mapped 0x1f90079c spu2_core_1 iir_vol 2
    ∷ mapped 0x1f90079e spu2_core_1 comb1_vol 2
    ∷ mapped 0x1f9007a0 spu2_core_1 comb2_vol 2
    ∷ mapped 0x1f9007a2 spu2_core_1 comb3_vol 2
    ∷ mapped 0x1f9007a4 spu2_core_1 comb4_vol 2
    ∷ mapped 0x1f9007a6 spu2_core_1 wall_vol 2
    ∷ mapped 0x1f9007a8 spu2_core_1 apf1_vol 2
    ∷ mapped 0x1f9007aa spu2_core_1 apf2_vol 2
    ∷ mapped 0x1f9007ac spu2_core_1 in_coef_l 2
    ∷ mapped 0x1f9007ae spu2_core_1 in_coef_r 2
    ∷ []

unfoldable pub iop_spu2_memory_07b0_on : List Mapping
iop_spu2_memory_07b0_on =
    mapped 0x1f9007b0 spu2 memory_07b0 16
    ∷ mapped 0x1f9007c0 spu2 spdif_out 2
    ∷ mapped 0x1f9007c2 spu2 spdif_irqinfo 2
    ∷ mapped 0x1f9007c4 spu2 spdif_07c4 2
    ∷ mapped 0x1f9007c6 spu2 spdif_mode 2
    ∷ mapped 0x1f9007c8 spu2 spdif_media 2
    ∷ mapped 0x1f9007ca spu2 spdif_07ca 2
    ∷ mapped 0x1f9007cc spu2 spdif_protect 2
    ∷ mapped 0x1f9007ce spu2 memory_07ce 50
    ∷ mapped 0x1f900b46 spu2 memory_0346 186
    ∷ []

unfoldable pub iop_timers_unit_0_count_on : List Mapping
iop_timers_unit_0_count_on =
    mapped 0x1f801100 iop_timers_unit_0 count 4
    ∷ mapped 0x1f801104 iop_timers_unit_0 mode 4
    ∷ mapped 0x1f801108 iop_timers_unit_0 compare 4
    ∷ mapped 0x1f801110 iop_timers_unit_1 count 4
    ∷ mapped 0x1f801114 iop_timers_unit_1 mode 4
    ∷ mapped 0x1f801118 iop_timers_unit_1 compare 4
    ∷ mapped 0x1f801120 iop_timers_unit_2 count 4
    ∷ mapped 0x1f801124 iop_timers_unit_2 mode 4
    ∷ mapped 0x1f801128 iop_timers_unit_2 compare 4
    ∷ []

unfoldable pub iop_timers_unit_3_count_on : List Mapping
iop_timers_unit_3_count_on =
    mapped 0x1f801480 iop_timers_unit_3 count 4
    ∷ mapped 0x1f801484 iop_timers_unit_3 mode 4
    ∷ mapped 0x1f801488 iop_timers_unit_3 compare 4
    ∷ mapped 0x1f801490 iop_timers_unit_4 count 4
    ∷ mapped 0x1f801494 iop_timers_unit_4 mode 4
    ∷ mapped 0x1f801498 iop_timers_unit_4 compare 4
    ∷ mapped 0x1f8014a0 iop_timers_unit_5 count 4
    ∷ mapped 0x1f8014a4 iop_timers_unit_5 mode 4
    ∷ mapped 0x1f8014a8 iop_timers_unit_5 compare 4
    ∷ []

unfoldable pub iop_parallel_port_on : List Mapping
iop_parallel_port_on = mapped 0x1f000000 iop_resources parallel_port 65536 ∷ []

unfoldable pub iop_sio0_data_on : List Mapping
iop_sio0_data_on =
    mapped 0x1f801040 iop_sio0 data_register 1
    ∷ mapped 0x1f801044 iop_sio0 stat 2
    ∷ mapped 0x1f801048 iop_sio0 mode 2
    ∷ mapped 0x1f80104c iop_sio0 ctrl 2
    ∷ []

unfoldable pub iop_sio2_port_0_ctrl_3_on : List Mapping
iop_sio2_port_0_ctrl_3_on =
    mapped 0x1f808200 iop_sio2_port_0 ctrl_3 4
    ∷ mapped 0x1f808204 iop_sio2_port_1 ctrl_3 4
    ∷ mapped 0x1f808208 iop_sio2_port_2 ctrl_3 4
    ∷ mapped 0x1f80820c iop_sio2_port_3 ctrl_3 4
    ∷ mapped 0x1f808210 iop_sio2_port_4 ctrl_3 4
    ∷ mapped 0x1f808214 iop_sio2_port_5 ctrl_3 4
    ∷ mapped 0x1f808218 iop_sio2_port_6 ctrl_3 4
    ∷ mapped 0x1f80821c iop_sio2_port_7 ctrl_3 4
    ∷ mapped 0x1f808220 iop_sio2_port_8 ctrl_3 4
    ∷ mapped 0x1f808224 iop_sio2_port_9 ctrl_3 4
    ∷ mapped 0x1f808228 iop_sio2_port_a ctrl_3 4
    ∷ mapped 0x1f80822c iop_sio2_port_b ctrl_3 4
    ∷ mapped 0x1f808230 iop_sio2_port_c ctrl_3 4
    ∷ mapped 0x1f808234 iop_sio2_port_d ctrl_3 4
    ∷ mapped 0x1f808238 iop_sio2_port_e ctrl_3 4
    ∷ mapped 0x1f80823c iop_sio2_port_f ctrl_3 4
    ∷ mapped 0x1f808240 iop_sio2_port_0 ctrl_1 4
    ∷ mapped 0x1f808244 iop_sio2_port_0 ctrl_2 4
    ∷ mapped 0x1f808248 iop_sio2_port_1 ctrl_1 4
    ∷ mapped 0x1f80824c iop_sio2_port_1 ctrl_2 4
    ∷ mapped 0x1f808250 iop_sio2_port_2 ctrl_1 4
    ∷ mapped 0x1f808254 iop_sio2_port_2 ctrl_2 4
    ∷ mapped 0x1f808258 iop_sio2_port_3 ctrl_1 4
    ∷ mapped 0x1f80825c iop_sio2_port_3 ctrl_2 4
    ∷ mapped 0x1f808260 resources fifo_tosio2 1
    ∷ mapped 0x1f808264 resources fifo_fromsio2 1
    ∷ mapped 0x1f808268 iop_sio2 ctrl 4
    ∷ mapped 0x1f80826c iop_sio2 recv1 4
    ∷ mapped 0x1f808270 iop_sio2 recv2 4
    ∷ mapped 0x1f808274 iop_sio2 recv3 4
    ∷ mapped 0x1f808278 iop_sio2 register_8278 4
    ∷ mapped 0x1f80827c iop_sio2 register_827c 4
    ∷ mapped 0x1f808280 iop_sio2 intr 4
    ∷ []

unfoldable pub iop_sbus_mscom_on : List Mapping
iop_sbus_mscom_on =
    mapped 0x1d000000 resources sbus_mscom 4
    ∷ mapped 0x1d000010 resources sbus_smcom 4
    ∷ mapped 0x1d000020 resources sbus_msflg 4
    ∷ mapped 0x1d000030 resources sbus_smflg 4
    ∷ mapped 0x1d000040 resources sbus_f240 4
    ∷ mapped 0x1d000060 resources sbus_f260 4
    ∷ []
