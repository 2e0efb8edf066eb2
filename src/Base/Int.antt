-- ===== src/Base/Int.antt =====
-- Signed integers over the native numbers, and the sword that a bit pattern stands for.
pub mod Laws
use Prim.Native.Nat.{ℕ, suc, ◌+◌, ◌-◌, ◌*◌, ◌/◌, ◌%◌, ◌^◌, ◌≤◌, ◌<◌}
use mathlib.Core.Path.{◌≡◌}
use mathlib.Core.Bool.{Bool}
use native.Mathlib.Omega.{arith}
use orbum.Base.Tests.{ltb, leb, if◌then◌else◌}

-- `negsuc n` is -(n + 1).
pub data ℤ : Type 0 where
  pos : ℕ → ℤ
  negsuc : ℕ → ℤ

abbrev pub pos_part : ℤ → ℕ
pos_part (pos n) = n
pos_part (negsuc n) = 0

abbrev pub neg_part : ℤ → ℕ
neg_part (pos n) = 0
neg_part (negsuc n) = suc n

abbrev pub sub_ℕ : ℕ → ℕ → ℤ
sub_ℕ a b = if leb b a then pos (a - b) else negsuc (b - a - 1)

infixl 65 ◌+ℤ◌ ◌-ℤ◌
infixl 70 ◌*ℤ◌
infix 50 ◌≤ℤ◌
abbrev pub ◌+ℤ◌ : ℤ → ℤ → ℤ
a +ℤ b = sub_ℕ (pos_part a + pos_part b) (neg_part a + neg_part b)

abbrev pub ◌-ℤ◌ : ℤ → ℤ → ℤ
a -ℤ b = sub_ℕ (pos_part a + neg_part b) (neg_part a + pos_part b)

abbrev pub ◌*ℤ◌ : ℤ → ℤ → ℤ
a *ℤ b =
    sub_ℕ (pos_part a * pos_part b + neg_part a * neg_part b)
      (pos_part a * neg_part b + neg_part a * pos_part b)

abbrev pub ◌≤ℤ◌ : ℤ → ℤ → Type 0
a ≤ℤ b = pos_part a + neg_part b ≤ pos_part b + neg_part a

abbrev pub ltb_ℤ : ℤ → ℤ → Bool
ltb_ℤ a b = ltb (pos_part a + neg_part b) (pos_part b + neg_part a)

abbrev pub sword_max : ℤ
sword_max = pos (2 ^ 31 - 1)

abbrev pub sword_min : ℤ
sword_min = negsuc (2 ^ 31 - 1)

-- `static_cast<sword>` of a uword, and back: reduction modulo 2 ^ 32.
abbrev pub signed32 : ℕ → ℤ
signed32 w = if ltb w (2 ^ 31) then pos w else negsuc (2 ^ 32 - w - 1)

abbrev pub to_u32 : ℤ → ℕ
to_u32 (pos n) = n % 2 ^ 32
to_u32 (negsuc n) = 2 ^ 32 - 1 - n % 2 ^ 32

-- the pattern of an sdword
abbrev pub to_u64 : ℤ → ℕ
to_u64 (pos n) = n % 2 ^ 64
to_u64 (negsuc n) = 2 ^ 64 - 1 - n % 2 ^ 64

-- `static_cast<sdword>` of a udword
abbrev pub signed64 : ℕ → ℤ
signed64 d = if ltb d (2 ^ 63) then pos d else negsuc (2 ^ 64 - d - 1)

-- `static_cast<sbyte>` of a ubyte.
abbrev pub signed8 : ℕ → ℤ
signed8 b = if ltb b (2 ^ 7) then pos b else negsuc (2 ^ 8 - b - 1)

-- `static_cast<shword>` of a uhword.
abbrev pub signed16 : ℕ → ℤ
signed16 h = if ltb h (2 ^ 15) then pos h else negsuc (2 ^ 16 - h - 1)

-- `x >> k` of a negative sword is arithmetic: it rounds towards minus infinity.
abbrev pub sra : ℤ → ℕ → ℤ
sra (pos n) k = pos (n / 2 ^ k)
sra (negsuc n) k = negsuc (n / 2 ^ k)

-- `/` and `%` of C++ round towards 0. The divisor is not 0.
abbrev pub quot : ℤ → ℤ → ℤ
quot (pos a) (pos b) = pos (a / b)
quot (pos a) (negsuc b) = sub_ℕ 0 (a / suc b)
quot (negsuc a) (pos b) = sub_ℕ 0 (suc a / b)
quot (negsuc a) (negsuc b) = pos (suc a / suc b)

abbrev pub rem : ℤ → ℤ → ℤ
rem (pos a) (pos b) = pos (a % b)
rem (pos a) (negsuc b) = pos (a % suc b)
rem (negsuc a) (pos b) = sub_ℕ 0 (suc a % b)
rem (negsuc a) (negsuc b) = sub_ℕ 0 (suc a % suc b)

pub to_u32-signed32 : (w : ℕ) → w < 2 ^ 32 → to_u32 (signed32 w) ≡ w
to_u32-signed32 w h = ground arith

pub to_u32-lt : (z : ℤ) → to_u32 z < 2 ^ 32
to_u32-lt (pos n) = omega arith
to_u32-lt (negsuc n) = omega arith

-- The sword that a truncated integer stands for is that integer, where it fits.
pub signed32-to_u32 : (z : ℤ) → sword_min ≤ℤ z → z ≤ℤ sword_max → signed32 (to_u32 z) ≡ z
signed32-to_u32 (pos n) lo hi = ground arith
signed32-to_u32 (negsuc n) lo hi = ground arith

pub signed32_range : (w : ℕ) → w < 2 ^ 32 → (sword_min ≤ℤ signed32 w) × (signed32 w ≤ℤ sword_max)
signed32_range w h = ground arith
