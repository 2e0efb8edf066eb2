-- ===== src/Ee/Core/Resources.antt =====
-- The state of the EE core: REeCore (liborbum/src/Resources/Ee/Core/REeCore.hpp) with the registers, the
-- system control coprocessor, the registers of the floating-point unit and the TLB, and the translation
-- caches of CEeCore.hpp.
use orbum.Base.{ℕ, refl, false, true}
use orbum.Utilities.Caches.Timestamp.{TimestampLruCache, empty}
use orbum.Common.Register.{SizedWordRegister, sized_word}
use orbum.Common.TranslationCache.{CacheIn}
use orbum.Ee.Core.State.{EeCoreR5900, initial_r5900}
use orbum.Ee.Core.Cop0.{Cop0, initial_cop0}
use orbum.Ee.Core.Tlb.{EeCoreTlb, PhysicalInfo}

-- EeCoreFpu; the accumulator is used by float instructions only
pub record EeCoreFpu : Type 0 where
  pub fpr : ℕ → SizedWordRegister
  pub irr : SizedWordRegister
  pub csr : SizedWordRegister

pub record EeCore : Type 0 where
  pub r5900 : EeCoreR5900
  pub cop0 : Cop0
  pub fpu : EeCoreFpu
  pub tlb : EeCoreTlb
  pub translation_cache_data : TimestampLruCache
  pub translation_cache_inst : TimestampLruCache

abbrev pub no_page : PhysicalInfo
no_page = record { pfn = 0; c = false; d = false; v = false }

-- The source leaves the entries' fields without a value but for the mask; here they are zeros.
unfoldable pub initial : EeCore
unfolding initial_r5900 initial_cop0
initial = record {
  r5900 = initial_r5900;
  cop0 = initial_cop0;
  fpu = record {
    fpr = λ i. sized_word 0 false;
    irr = sized_word 0x00002E00 true;
    csr = sized_word 0 false;
  };
  tlb = λ i. record {
    mask = record { pagemask = 0; evenodd_mask = 4096; tlb_mask = 0xFFFFE000 };
    vpn2 = 0;
    g = false;
    asid = 0;
    s = false;
    even = no_page;
    odd = no_page;
  };
  translation_cache_data = empty;
  translation_cache_inst = empty;
}

-- where the two caches stand
abbrev pub data_cache : CacheIn EeCore
data_cache = record {
  cache_of = λ s. s.translation_cache_data;
  with_cache = λ c s. record s { translation_cache_data = c };
  read_back = λ c s. refl;
  set_last = λ c d s. refl;
}

abbrev pub inst_cache : CacheIn EeCore
inst_cache = record {
  cache_of = λ s. s.translation_cache_inst;
  with_cache = λ c s. record s { translation_cache_inst = c };
  read_back = λ c s. refl;
  set_last = λ c d s. refl;
}
