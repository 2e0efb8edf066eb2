-- ===== src/Iop/Core/State.antt =====
-- The state of the IOP core: IopCoreR3000 (liborbum/src/Resources/Iop/Core/IopCoreR3000.hpp), its
-- system control coprocessor, and the translation caches of CIopCore.hpp. The array of general
-- registers is a function of the index: every index that the code uses is a field of 5 digits.
use orbum.Base.{ℕ, refl, false, ◌==◌, if◌then◌else◌}
use orbum.Utilities.Caches.Timestamp.{TimestampLruCache, empty}
use orbum.Common.Register.{SizedWordRegister, sized_word, write_uword}
use orbum.Common.Mips.BranchDelay.{BranchDelaySlot, no_branch}
use orbum.Common.TranslationCache.{CacheIn}
use orbum.Iop.Core.Cop0.{Cop0, initial_cop0}

pub record IopCore : Type 0 where
  pub pc : SizedWordRegister
  pub bdelay : BranchDelaySlot
  pub gpr : ℕ → SizedWordRegister
  pub hi : SizedWordRegister
  pub lo : SizedWordRegister
  pub cop0 : Cop0
  pub translation_cache_data : TimestampLruCache
  pub translation_cache_inst : TimestampLruCache

-- GPR[0] is read-only, and so stays 0. The PC starts at the reset vector.
unfoldable pub initial : IopCore
unfolding initial_cop0
initial = record {
  pc = sized_word 0xBFC00000 false;
  bdelay = no_branch;
  gpr = λ i. sized_word 0 (i == 0);
  hi = sized_word 0 false;
  lo = sized_word 0 false;
  cop0 = initial_cop0;
  translation_cache_data = empty;
  translation_cache_inst = empty;
}

-- `gpr[i].write_uword(value)`
unfoldable pub write_gpr : IopCore → ℕ → ℕ → IopCore
unfolding write_uword
write_gpr s i value = record s {
  gpr = λ j. if j == i then write_uword (s.gpr i) value else s.gpr j;
}

-- where the two caches stand
abbrev pub data_cache : CacheIn IopCore
data_cache = record {
  cache_of = λ s. s.translation_cache_data;
  with_cache = λ c s. record s { translation_cache_data = c };
  read_back = λ c s. refl;
  set_last = λ c d s. refl;
}

abbrev pub inst_cache : CacheIn IopCore
inst_cache = record {
  cache_of = λ s. s.translation_cache_inst;
  with_cache = λ c s. record s { translation_cache_inst = c };
  read_back = λ c s. refl;
  set_last = λ c d s. refl;
}
