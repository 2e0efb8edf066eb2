-- ===== src/Iop/Core/Mmu.antt =====
-- liborbum/src/Controller/Iop/Core/CIopCore.cpp: address translation. The outer `none` is a runtime
-- error thrown, the inner one the std::nullopt that the functions return.
pub mod Laws
use orbum.Base.{ℕ, ◌-◌, Bool, true, false, Option, none, some, ltb, leb, ◌==◌, ◌&&◌, if◌then◌else◌}
use orbum.Common.Register.{extract_field}
use orbum.Common.Mips.{OperatingContext, kernel, supervisor, user}
use orbum.Common.TranslationCache.{MmuRwAccess, read, write, lookup}
use orbum.Iop.Core.Cop0.{status_isc}
use orbum.Iop.Core.State.{IopCore, data_cache, inst_cache}

-- Constants::MIPS::MMU and Constants::IOP::IOPCore::MMU
abbrev pub vaddress_kernel_lower_bound_2 : ℕ
vaddress_kernel_lower_bound_2 = 0x80000000

abbrev pub vaddress_kernel_upper_bound_2 : ℕ
vaddress_kernel_upper_bound_2 = 0x9FFFFFFF

abbrev pub vaddress_kernel_lower_bound_3 : ℕ
vaddress_kernel_lower_bound_3 = 0xA0000000

abbrev pub vaddress_kernel_upper_bound_3 : ℕ
vaddress_kernel_upper_bound_3 = 0xBFFFFFFF

abbrev pub vaddress_special_1_upper_bound : ℕ
vaddress_special_1_upper_bound = 0x001FFFFF

abbrev pub vaddress_special_2_lower_bound : ℕ
vaddress_special_2_lower_bound = 0xFFC00000

abbrev pub is_kernel : OperatingContext → Bool
is_kernel kernel = true
is_kernel _ = false

abbrev pub is_write : MmuRwAccess → Bool
is_write read = false
is_write write = true

-- The function only reads the state; it is passed on for the cache's sake.
unfoldable pub translate_address_fallback : ℕ → MmuRwAccess → IopCore → Option (Option ℕ × IopCore)
translate_address_fallback va rw_access s =
    if is_kernel s.cop0.status.operating_context
    then if leb vaddress_kernel_lower_bound_2 va && leb va vaddress_kernel_upper_bound_2
      then some (some (va - vaddress_kernel_lower_bound_2), s)
      else if leb vaddress_kernel_lower_bound_3 va && leb va vaddress_kernel_upper_bound_3
      then some (some (va - vaddress_kernel_lower_bound_3), s)
      else if leb vaddress_special_2_lower_bound va
      then some (some va, s)
      else if leb va vaddress_special_1_upper_bound
      then if ltb 0 (extract_field s.cop0.status.reg status_isc) && is_write rw_access
        then some (none, s)
        else some (some va, s)
      else none
    else none

-- TranslationCache<6, uptr, 0xFFF, TimestampLruCache>
abbrev pub cache_size : ℕ
cache_size = 6

abbrev pub cache_mask : ℕ
cache_mask = 0xFFF

unfoldable pub translate_address_data : ℕ → MmuRwAccess → IopCore → Option (Option ℕ × IopCore)
unfolding translate_address_fallback
translate_address_data va rw_access s =
    if is_write rw_access && ltb 0 (extract_field s.cop0.status.reg status_isc)
    then translate_address_fallback va rw_access s
    else lookup data_cache cache_size cache_mask translate_address_fallback va rw_access s

unfoldable pub translate_address_inst : ℕ → IopCore → Option (Option ℕ × IopCore)
unfolding translate_address_fallback
translate_address_inst va s =
    lookup inst_cache cache_size cache_mask translate_address_fallback va read s
