-- ===== src/Iop/Core/LoadStore/Unaligned.antt =====
-- The unaligned accesses: what LWL and LWR put together, and that the pair loads a word.
use orbum.Base.{ℕ, ◌+◌, ◌-◌, ◌*◌, ◌/◌, ◌%◌, ◌^◌, ◌<◌, ◌≡◌, ◌⊎◌, inl, inr, bit_or, u32, arith}
use orbum.Base.Bits.{
  bit_and_field, bit_and-ones, bit_or_split, bit_or-zero, zero-bit_or, bit_and-zero,
}
use orbum.Common.Memory.{bytes_at}
use orbum.Common.Memory.Laws.{IsBytes, bytes_at-lt}
use orbum.Iop.Core.LoadStore.{shift_of, word_address, lwl_word, lwr_word}

pub word_address_lem : (va : ℕ) → va < 2 ^ 32 → word_address va ≡ va / 4 * 4
word_address_lem va h = ground (arith, bit_and_field 2 30 va)

pub shift_of_lem : (va : ℕ) → shift_of va ≡ va % 4 * 8
shift_of_lem va = omega (arith, bit_and-ones 2 va)

-- `k` digits below a number
joined : (k q r : ℕ) → r < 2 ^ k → bit_or r (q * 2 ^ k) ≡ q * 2 ^ k + r
joined k q r h = ground (arith, bit_or_split k 0 r q 0, bit_or-zero r, zero-bit_or q)

-- `k` digits above a number
above : (k q r : ℕ) → r < 2 ^ k → bit_or (q * 2 ^ k) r ≡ q * 2 ^ k + r
above k q r h = ground (arith, bit_or_split k q 0 0 r, bit_or-zero q, zero-bit_or r)

lwl_0 : (reg v : ℕ) → v < 2 ^ 32 → lwl_word 0 reg v ≡ v % 2 ^ 8 * 2 ^ 24 + reg % 2 ^ 24
unfolding lwl_word
lwl_0 reg v h = ground (arith, bit_and-ones 24 reg, joined 24 (v % 2 ^ 8) (reg % 2 ^ 24))

lwl_1 : (reg v : ℕ) → v < 2 ^ 32 → lwl_word 8 reg v ≡ v % 2 ^ 16 * 2 ^ 16 + reg % 2 ^ 16
unfolding lwl_word
lwl_1 reg v h = ground (arith, bit_and-ones 16 reg, joined 16 (v % 2 ^ 16) (reg % 2 ^ 16))

lwl_2 : (reg v : ℕ) → v < 2 ^ 32 → lwl_word 16 reg v ≡ v % 2 ^ 24 * 2 ^ 8 + reg % 2 ^ 8
unfolding lwl_word
lwl_2 reg v h = ground (arith, bit_and-ones 8 reg, joined 8 (v % 2 ^ 24) (reg % 2 ^ 8))

lwl_3 : (reg v : ℕ) → v < 2 ^ 32 → lwl_word 24 reg v ≡ v
unfolding lwl_word
lwl_3 reg v h = ground (arith, bit_and-zero reg, zero-bit_or v)

lwr_0 : (reg v : ℕ) → v < 2 ^ 32 → lwr_word 0 reg v ≡ v
unfolding lwr_word
lwr_0 reg v h = ground (arith, bit_and-zero reg, zero-bit_or v)

lwr_1 :
    (reg v : ℕ) → reg < 2 ^ 32 → v < 2 ^ 32 → lwr_word 8 reg v ≡ reg / 2 ^ 24 * 2 ^ 24 + v / 2 ^ 8
unfolding lwr_word
lwr_1 reg v g h = ground (arith, bit_and_field 24 8 reg, above 24 (reg / 2 ^ 24) (v / 2 ^ 8))

lwr_2 :
    (reg v : ℕ) → reg < 2 ^ 32 → v < 2 ^ 32 → lwr_word 16 reg v ≡ reg / 2 ^ 16 * 2 ^ 16 + v / 2 ^ 16
unfolding lwr_word
lwr_2 reg v g h = ground (arith, bit_and_field 16 16 reg, above 16 (reg / 2 ^ 16) (v / 2 ^ 16))

lwr_3 :
    (reg v : ℕ) → reg < 2 ^ 32 → v < 2 ^ 32 → lwr_word 24 reg v ≡ reg / 2 ^ 8 * 2 ^ 8 + v / 2 ^ 24
unfolding lwr_word
lwr_3 reg v g h = ground (arith, bit_and_field 8 24 reg, above 8 (reg / 2 ^ 8) (v / 2 ^ 24))

word_of_bytes :
    (bytes : ℕ → ℕ) (a : ℕ)
    → bytes_at bytes 4 a
      ≡ bytes a + 2 ^ 8 * bytes (a + 1) + 2 ^ 16 * bytes (a + 2) + 2 ^ 24 * bytes (a + 3)
unfolding bytes_at
word_of_bytes bytes a = ground arith

mod4 : (n : ℕ) → (n % 4 ≡ 0) ⊎ (n % 4 ≡ 1) ⊎ (n % 4 ≡ 2) ⊎ (n % 4 ≡ 3)
mod4 n = omega arith

module _ (bytes : ℕ → ℕ) (h : IsBytes bytes) (reg w : ℕ) where
  abbrev x : ℕ
  x = bytes_at bytes 4 w

  abbrev y : ℕ
  y = bytes_at bytes 4 (w + 4)

  x-lt : x < 2 ^ 32
  x-lt = bytes_at-lt bytes 4 w h

  y-lt : y < 2 ^ 32
  y-lt = bytes_at-lt bytes 4 (w + 4) h

  spliced_1 : lwr_word 8 (u32 (lwl_word 0 reg y)) x ≡ bytes_at bytes 4 (w + 1)
  spliced_1 = ground (
    arith,
    lwl_0 reg y y-lt,
    lwr_1 (u32 (lwl_word 0 reg y)) x,
    x-lt,
    word_of_bytes bytes w,
    word_of_bytes bytes (w + 1),
    word_of_bytes bytes (w + 4),
    h w,
    h (w + 1),
    h (w + 2),
    h (w + 3),
    h (w + 4),
    h (w + 5),
    h (w + 6),
    h (w + 7),
  )

  spliced_2 : lwr_word 16 (u32 (lwl_word 8 reg y)) x ≡ bytes_at bytes 4 (w + 2)
  spliced_2 = ground (
    arith,
    lwl_1 reg y y-lt,
    lwr_2 (u32 (lwl_word 8 reg y)) x,
    x-lt,
    word_of_bytes bytes w,
    word_of_bytes bytes (w + 2),
    word_of_bytes bytes (w + 4),
    h w,
    h (w + 1),
    h (w + 2),
    h (w + 3),
    h (w + 4),
    h (w + 5),
    h (w + 6),
    h (w + 7),
  )

  spliced_3 : lwr_word 24 (u32 (lwl_word 16 reg y)) x ≡ bytes_at bytes 4 (w + 3)
  spliced_3 = ground (
    arith,
    lwl_2 reg y y-lt,
    lwr_3 (u32 (lwl_word 16 reg y)) x,
    x-lt,
    word_of_bytes bytes w,
    word_of_bytes bytes (w + 3),
    word_of_bytes bytes (w + 4),
    h w,
    h (w + 1),
    h (w + 2),
    h (w + 3),
    h (w + 4),
    h (w + 5),
    h (w + 6),
    h (w + 7),
  )

module _ (bytes : ℕ → ℕ) (reg va a : ℕ) where
  at_shifts :
      (s t w w' : ℕ)
      → shift_of va ≡ s
      → shift_of (va + 3) ≡ t
      → a / 4 * 4 ≡ w
      → (a + 3) / 4 * 4 ≡ w'
      → lwr_word s (u32 (lwl_word t reg (bytes_at bytes 4 w'))) (bytes_at bytes 4 w)
        ≡ bytes_at bytes 4 a
      → lwr_word
          (shift_of va)
          (u32 (lwl_word (shift_of (va + 3)) reg (bytes_at bytes 4 ((a + 3) / 4 * 4))))
          (bytes_at bytes 4 (a / 4 * 4))
        ≡ bytes_at bytes 4 a
  at_shifts s t w w' p q u v h = rw (p, q, u, v) h

-- LWL at the last byte of an unaligned word, then LWR at its first: what both leave in the register
-- is the word, whatever was there.
pub lwr_word-lwl_word :
    (bytes : ℕ → ℕ) (reg va a : ℕ)
    → IsBytes bytes
    → a % 4 ≡ va % 4
    → lwr_word
        (shift_of va)
        (u32 (lwl_word (shift_of (va + 3)) reg (bytes_at bytes 4 ((a + 3) / 4 * 4))))
        (bytes_at bytes 4 (a / 4 * 4))
      ≡ bytes_at bytes 4 a
lwr_word-lwl_word bytes reg va a h same = elim (mod4 va) [
  | inl e ↦
      let ok = bytes_at-lt bytes 4 a h in
      at_shifts bytes reg va a 0 24 a a (omega (arith, shift_of_lem va))
        (omega (arith, shift_of_lem (va + 3))) (omega arith) (omega arith)
        (rw (lwl_3 reg (bytes_at bytes 4 a) ok) (lwr_0 _ _ ok))
  | inr (inl e) ↦ shifted 1 0 (omega arith) (spliced_1 bytes h reg (a - 1))
  | inr (inr (inl e)) ↦ shifted 2 8 (omega arith) (spliced_2 bytes h reg (a - 2))
  | inr (inr (inr e)) ↦ shifted 3 16 (omega arith) (spliced_3 bytes h reg (a - 3))
]
  where
    shifted :
        (j t : ℕ)
        → (va % 4 ≡ j) × (0 < j) × (t ≡ j * 8 - 8)
        → lwr_word
            (j * 8)
            (u32 (lwl_word t reg (bytes_at bytes 4 (a - j + 4))))
            (bytes_at bytes 4 (a - j))
          ≡ bytes_at bytes 4 (a - j + j)
        → lwr_word
            (shift_of va)
            (u32 (lwl_word (shift_of (va + 3)) reg (bytes_at bytes 4 ((a + 3) / 4 * 4))))
            (bytes_at bytes 4 (a / 4 * 4))
          ≡ bytes_at bytes 4 a
    shifted j t e k =
        let whole : a - j + j ≡ a = omega arith in
        at_shifts bytes reg va a (j * 8) t (a - j) (a - j + 4) (omega (arith, shift_of_lem va))
          (omega (arith, shift_of_lem (va + 3))) (omega arith) (omega arith) (rw whole at k)
