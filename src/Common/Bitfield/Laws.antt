-- ===== src/Common/Bitfield/Laws.antt =====
-- What extraction and insertion compute, as arithmetic, for every field that lies in a word.
use native.Mathlib.Nat.{
  div-add-mod', mod-lt, mod-mod, mod-eq_of_lt, mul-div_cancel, pow-le-pow_right, div-lt_iff_lt-mul,
}
use orbum.Base.{
  ℕ, zero, suc, ◌+◌, ◌-◌, ◌*◌, ◌/◌, ◌%◌, ◌^◌, ◌<◌, ◌≤◌, ◌≡◌, ◌↔◌, ap, sym, ◌∙◌, arith, bit_and,
  bit_or, not32,
}
use orbum.Base.Bits.{
  two-pow-add, two-pow-pos, bit_and_split, bit_or_split, bit_and-ones, bit_and-zero, bit_or-zero,
  zero-bit_or, bit_and_field,
}
use orbum.Common.Bitfield.{Bitfield, unshifted_mask, shifted_mask, extract_from, insert_into}

-- The field lies inside a word, and is not all of it.
pub record Fits (b : Bitfield) : Type 0 where
  pub inside : b.start + b.length ≤ 32
  pub proper : b.length < 32

field_bound : (s l : ℕ) → s + l ≤ 32 → 2 ^ (32 - s - l) * (2 ^ l * 2 ^ s) ≡ 2 ^ 32
field_bound s l h = rw (← two-pow-add l s, ← two-pow-add (32 - s - l) (l + s), whole)
  where
    whole : 32 - s - l + (l + s) ≡ 32
    whole = omega arith

-- the same facts over the three powers, as numbers that are not 0
mask_fits : (a b c : ℕ) → 1 ≤ a → 1 ≤ b → 1 ≤ c → c * (b * a) ≡ 2 ^ 32 → (b - 1) * a < 2 ^ 32
mask_fits zero b c ha hb hc h = absurd (omega arith)
mask_fits (suc a) zero c ha hb hc h = absurd (omega arith)
mask_fits (suc a) (suc b) zero ha hb hc h = absurd (omega arith)
mask_fits (suc a) (suc b) (suc c) ha hb hc h = grind arith

field_fits : (a b c x : ℕ) → 1 ≤ a → 1 ≤ c → x < b → c * (b * a) ≡ 2 ^ 32 → x * a < 2 ^ 32
field_fits zero b c x ha hc hx h = absurd (omega arith)
field_fits (suc a) b zero x ha hc hx h = absurd (omega arith)
field_fits (suc a) b (suc c) x ha hc hx h = grind arith

not_mask_suc :
    (a b c w : ℕ) → suc c * (suc b * suc a) ≡ w → w - 1 - b * suc a ≡ c * suc b * suc a + a
not_mask_suc a b c w h = omega arith

pred_suc : (n : ℕ) → suc n - 1 ≡ n
pred_suc n = omega arith

not_mask :
    (a b c : ℕ)
    → 1 ≤ a
    → 1 ≤ b
    → 1 ≤ c
    → c * (b * a) ≡ 2 ^ 32
    → not32 ((b - 1) * a) ≡ (c - 1) * b * a + (a - 1)
not_mask zero b c ha hb hc h = absurd (omega arith)
not_mask (suc a) zero c ha hb hc h = absurd (omega arith)
not_mask (suc a) (suc b) zero ha hb hc h = absurd (omega arith)
not_mask (suc a) (suc b) (suc c) ha hb hc h =
    rw (pred_suc b, pred_suc c, pred_suc a) (not_mask_suc a b c (2 ^ 32) h)

pub unshifted_mask_lem : (b : Bitfield) → b.length < 32 → unshifted_mask b ≡ 2 ^ b.length - 1
unfolding unshifted_mask
unshifted_mask_lem b h = omega (
  arith,
  two-pow-pos b.length,
  pow-le-pow_right {n = 2} (omega arith) {i = b.length} {j = 31} (omega arith),
)

pub shifted_mask_lem : (b : Bitfield) → Fits b → shifted_mask b ≡ (2 ^ b.length - 1) * 2 ^ b.start
unfolding shifted_mask
shifted_mask_lem b f = rw (unshifted_mask_lem b f.proper) (
    mod-eq_of_lt (
      mask_fits (2 ^ b.start) (2 ^ b.length) (2 ^ (32 - b.start - b.length)) (two-pow-pos b.start)
        (two-pow-pos b.length) (two-pow-pos _) (field_bound b.start b.length f.inside)))

-- Extraction is division and remainder.
pub extract_from_lem :
    (b : Bitfield) (v : ℕ) → Fits b → extract_from b v ≡ v / 2 ^ b.start % 2 ^ b.length
unfolding extract_from
extract_from_lem b v f =
    rw (shifted_mask_lem b f, bit_and_field b.start b.length v)
      (mul-div_cancel (v / 2 ^ b.start % 2 ^ b.length) (two-pow-pos b.start))

bit_and_parts :
    (k v m t : ℕ)
    → t < 2 ^ k
    → bit_and v (m * 2 ^ k + t) ≡ bit_and (v / 2 ^ k) m * 2 ^ k + bit_and (v % 2 ^ k) t
bit_and_parts k v m t ht =
    ap (λ w. bit_and w (m * 2 ^ k + t)) (sym (div-add-mod' v (2 ^ k)))
    ∙ bit_and_split k (v / 2 ^ k) (v % 2 ^ k) m t (mod-lt v (two-pow-pos k)) ht

module _ (b : Bitfield) (f : Fits b) where
  abbrev pub unit : ℕ
  unit = 2 ^ b.start

  abbrev pub size : ℕ
  size = 2 ^ b.length

  abbrev pub above : ℕ
  above = 2 ^ (32 - b.start - b.length)

  whole_word : above * (size * unit) ≡ 2 ^ 32
  whole_word = field_bound b.start b.length f.inside

  -- a number is a word when what lies above the field is in range
  pub word_iff : (y : ℕ) → (y < 2 ^ 32) ↔ (y / unit / size < above)
  word_iff y = (
    λ h.
        (div-lt_iff_lt-mul {k = size} (two-pow-pos b.length)).1
          ((div-lt_iff_lt-mul {k = unit} (two-pow-pos b.start)).1 (omega (arith, whole_word))),
    λ h. omega (
      arith,
      whole_word,
      (div-lt_iff_lt-mul {k = unit} (two-pow-pos b.start)).0
          ((div-lt_iff_lt-mul {k = size} (two-pow-pos b.length)).0 h),
    ),
  )

  -- the word with the field cleared
  cleaned_lem :
      (v : ℕ)
      → v < 2 ^ 32
      → bit_and v (not32 (shifted_mask b)) ≡ v / unit / size * size * unit + v % unit
  cleaned_lem v hv = rw (
    shifted_mask_lem b f,
    not_mask unit size above (two-pow-pos b.start) (two-pow-pos b.length) (two-pow-pos _)
        whole_word,
    bit_and_parts b.start v ((above - 1) * size) (unit - 1) (omega (arith, two-pow-pos b.start)),
    bit_and-ones b.start (v % unit),
    mod-mod v unit,
    kept,
  )
    where
      top : v / unit / size < above
      top = (word_iff v).0 hv

      kept : bit_and (v / unit) ((above - 1) * size) ≡ v / unit / size * size
      kept = ground (
        arith,
        two-pow-pos b.length,
        bit_and_parts b.length (v / unit) (above - 1) 0,
        bit_and-ones (32 - b.start - b.length) (v / unit / size),
        mod-eq_of_lt top,
        bit_and-zero (v / unit % size),
      )

  -- the new value moved to the field
  cleaned_field_lem : (x : ℕ) → bit_and x (unshifted_mask b) * unit % 2 ^ 32 ≡ x % size * unit
  cleaned_field_lem x =
      rw (unshifted_mask_lem b f.proper, bit_and-ones b.length x)
        (mod-eq_of_lt (
          field_fits unit size above (x % size) (two-pow-pos b.start) (two-pow-pos _)
            (mod-lt x (two-pow-pos b.length)) whole_word))

  joined :
      (q x r : ℕ)
      → r < unit
      → x < size
      → bit_or (q * size * unit + r) (x * unit) ≡ (q * size + x) * unit + r
  joined q x r hr hx = ground (
    arith,
    two-pow-pos b.start,
    bit_or_split b.start (q * size) r x 0,
    bit_or_split b.length q 0 0 x,
    bit_or-zero r,
    bit_or-zero q,
    zero-bit_or x,
  )

-- Insertion replaces the field, by the low digits of the new value.
pub insert_into_lem :
    (b : Bitfield) (v x : ℕ)
    → Fits b
    → v < 2 ^ 32
    → insert_into b v x
      ≡ (v / 2 ^ b.start / 2 ^ b.length * 2 ^ b.length + x % 2 ^ b.length) * 2 ^ b.start
        + v % 2 ^ b.start
unfolding insert_into
insert_into_lem b v x f hv =
    rw (cleaned_lem b f v hv, cleaned_field_lem b f x)
      (joined b f (v / 2 ^ b.start / 2 ^ b.length) (x % 2 ^ b.length) (v % 2 ^ b.start)
        (mod-lt v (two-pow-pos b.start)) (mod-lt x (two-pow-pos b.length)))
