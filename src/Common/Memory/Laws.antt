-- ===== src/Common/Memory/Laws.antt =====
-- What the accesses of an array memory return and leave.
use native.Mathlib.Nat.{pow-suc, mod-lt, mod-eq_of_lt, div-add-mod', add-mul-mod_self_right}
use orbum.Base.{
  ℕ, zero, suc, ◌+◌, ◌*◌, ◌/◌, ◌%◌, ◌^◌, ◌<◌, ◌≤◌, ◌≡◌, refl, ◌∙◌, ap, ◌⊎◌, false, some, arith,
}
use orbum.Common.Memory.{ArrayByteMemory, bytes_at, put, put_bytes, read_bytes, write_bytes}

abbrev pub IsBytes : (ℕ → ℕ) → Type 0
IsBytes bytes = (i : ℕ) → bytes i < 256

pub bytes_at-lt : (bytes : ℕ → ℕ) (n offset : ℕ) → IsBytes bytes → bytes_at bytes n offset < 256 ^ n
unfolding bytes_at
bytes_at-lt bytes zero offset h = omega arith
bytes_at-lt bytes (suc n) offset h =
    omega (arith, pow-suc 256 n, h offset, bytes_at-lt bytes n (offset + 1) h)

-- bytes outside the written range
pub put_bytes_other :
    (bytes : ℕ → ℕ) (n offset value i : ℕ)
    → (i < offset) ⊎ (offset + n ≤ i)
    → put_bytes bytes n offset value i ≡ bytes i
unfolding put_bytes
put_bytes_other bytes zero offset value i h = refl
put_bytes_other bytes (suc n) offset value i h =
    ground (arith, put_bytes_other (put bytes offset value) n (offset + 1) (value / 256) i)

split_low : (value m : ℕ) → 1 ≤ m → value % (256 * m) ≡ value % 256 + 256 * (value / 256 % m)
split_low value m h =
    ap (λ t. t % (256 * m)) parts
    ∙ add-mul-mod_self_right (value % 256 + 256 * (value / 256 % m)) (value / 256 / m) (256 * m)
    ∙ mod-eq_of_lt (omega (arith, mod-lt (value / 256) h))
  where
    parts : value ≡ value % 256 + 256 * (value / 256 % m) + value / 256 / m * (256 * m)
    parts = omega (arith, div-add-mod' (value / 256) m)

-- A stored number is read back, cut to its bytes.
pub bytes_at-put_bytes :
    (bytes : ℕ → ℕ) (n offset value : ℕ)
    → bytes_at (put_bytes bytes n offset value) n offset ≡ value % 256 ^ n
unfolding bytes_at put_bytes
bytes_at-put_bytes bytes zero offset value = omega arith
bytes_at-put_bytes bytes (suc n) offset value = ground (
  arith,
  put_bytes_other (put bytes offset value) n (offset + 1) (value / 256) offset,
  bytes_at-put_bytes (put bytes offset value) n (offset + 1) (value / 256),
  pow-suc 256 n,
  split_low value (256 ^ n),
)

-- A read of bytes that a write does not touch.
pub bytes_at-put_bytes_other :
    (bytes : ℕ → ℕ) (k j n offset value : ℕ)
    → (j + k ≤ offset) ⊎ (offset + n ≤ j)
    → bytes_at (put_bytes bytes n offset value) k j ≡ bytes_at bytes k j
unfolding bytes_at
bytes_at-put_bytes_other bytes zero j n offset value h = refl
bytes_at-put_bytes_other bytes (suc k) j n offset value h = ground (
  arith,
  put_bytes_other bytes n offset value j,
  bytes_at-put_bytes_other bytes k (j + 1) n offset value,
)

put-IsBytes : (bytes : ℕ → ℕ) (offset value : ℕ) → IsBytes bytes → IsBytes (put bytes offset value)
put-IsBytes bytes offset value h i = ground (arith, h i)

pub put_bytes-IsBytes :
    (bytes : ℕ → ℕ) (n offset value : ℕ) → IsBytes bytes → IsBytes (put_bytes bytes n offset value)
unfolding put_bytes
put_bytes-IsBytes bytes zero offset value h = h
put_bytes-IsBytes bytes (suc n) offset value h =
    put_bytes-IsBytes (put bytes offset value) n (offset + 1) (value / 256)
      (put-IsBytes bytes offset value h)

-- A write of `n` bytes inside a memory that can be written is not refused. It keeps the size and the
-- bytes' range, a read of the written bytes gives the value, cut to `n` bytes, and a read of `k`
-- bytes that are all outside the written range gives what it gave before the write.
pub read_bytes-write_bytes :
    (m : ArrayByteMemory) (n k offset j value : ℕ)
    → m.read_only ≡ false
    → IsBytes m.memory
    → offset + n ≤ m.size
    → (j + k ≤ offset) ⊎ (offset + n ≤ j)
    → (m' : ArrayByteMemory) × (write_bytes n m offset value ≡ some m')
      × (m'.size ≡ m.size)
      × IsBytes m'.memory
      × (read_bytes n m' offset ≡ some (value % 256 ^ n))
      × (read_bytes k m' j ≡ read_bytes k m j)
unfolding read_bytes write_bytes
read_bytes-write_bytes m n k offset j value open_memory h inside apart = (
  record m { memory = put_bytes m.memory n offset value },
  ground arith,
  refl,
  put_bytes-IsBytes m.memory n offset value h,
  ground (arith, bytes_at-put_bytes m.memory n offset value),
  ground (arith, bytes_at-put_bytes_other m.memory k j n offset value apart),
)
