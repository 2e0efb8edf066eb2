-- ===== src/Common/Bitfield/Fields.antt =====
-- How extraction and insertion meet: a field reads back what was inserted, and no other field moves.
use native.Mathlib.Nat.{
  div-add-mod', mod-lt, mod-eq_of_lt, mod-mod, add-mul-mod_self_right, div-div-eq-div-mul,
  add-mul-div_right, div-eq_of_lt, add_comm,
}
use orbum.Base.{ℕ, ◌+◌, ◌-◌, ◌*◌, ◌/◌, ◌%◌, ◌^◌, ◌<◌, ◌≤◌, ◌≡◌, ap, sym, ◌∙◌, ◌⊎◌, inl, inr, arith}
use orbum.Base.Bits.{two-pow-add, two-pow-pos}
use orbum.Common.Bitfield.{Bitfield, extract_from, insert_into}
use orbum.Common.Bitfield.Laws.{Fits, word_iff, extract_from_lem, insert_into_lem}

abbrev pub IsDisjoint : Bitfield → Bitfield → Type 0
IsDisjoint b c = (c.start + c.length ≤ b.start) ⊎ (b.start + b.length ≤ c.start)

div_parts : (q r a : ℕ) → r < a → (q * a + r) / a ≡ q
div_parts q r a h =
    ap (λ t. t / a) (add_comm (q * a) r)
    ∙ add-mul-div_right r q {z = a} (omega arith)
    ∙ omega (arith, div-eq_of_lt h)

mod_parts : (q r a : ℕ) → r < a → (q * a + r) % a ≡ r
mod_parts q r a h =
    ap (λ t. t % a) (add_comm (q * a) r) ∙ add-mul-mod_self_right r q a ∙ mod-eq_of_lt h

-- A field that ends below digit `s` depends on the digits below `s` only.
low_field_parts : (q r c l d : ℕ) → 1 ≤ c → (q * (d * l * c) + r) / c % l ≡ r / c % l
low_field_parts q r c l d h =
    ap (λ t. t / c % l) regroup
    ∙ ap (λ t. t % l) (add-mul-div_right r (q * d * l) {z = c} h)
    ∙ add-mul-mod_self_right (r / c) (q * d) l
  where
    regroup : q * (d * l * c) + r ≡ r + q * d * l * c
    regroup = omega arith

low_field : (x c l s : ℕ) → c + l ≤ s → x / 2 ^ c % 2 ^ l ≡ x % 2 ^ s / 2 ^ c % 2 ^ l
low_field x c l s h =
    ap (λ t. t / 2 ^ c % 2 ^ l) parts
    ∙ low_field_parts (x / 2 ^ s) (x % 2 ^ s) (2 ^ c) (2 ^ l) (2 ^ (s - c - l)) (two-pow-pos c)
  where
    power : 2 ^ s ≡ 2 ^ (s - c - l) * 2 ^ l * 2 ^ c
    power =
        ap (λ t. 2 ^ t) (total)
        ∙ two-pow-add (s - c - l + l) c
        ∙ ap (λ t. t * 2 ^ c) (two-pow-add (s - c - l) l)
      where
        total : s ≡ s - c - l + l + c
        total = omega arith

    parts : x ≡ x / 2 ^ s * (2 ^ (s - c - l) * 2 ^ l * 2 ^ c) + x % 2 ^ s
    parts = sym (div-add-mod' x (2 ^ s)) ∙ ap (λ t. x / 2 ^ s * t + x % 2 ^ s) power

module _ (b : Bitfield) (f : Fits b) (v x : ℕ) (word : v < 2 ^ 32) where
  abbrev kept_below : ℕ
  kept_below = v % 2 ^ b.start

  abbrev kept_above : ℕ
  kept_above = v / 2 ^ b.start / 2 ^ b.length

  inserted :
      insert_into b v x ≡ (kept_above * 2 ^ b.length + x % 2 ^ b.length) * 2 ^ b.start + kept_below
  inserted = insert_into_lem b v x f word

  over : insert_into b v x / 2 ^ b.start ≡ kept_above * 2 ^ b.length + x % 2 ^ b.length
  over = rw inserted (div_parts _ kept_below (2 ^ b.start) (mod-lt v (two-pow-pos b.start)))

  under : insert_into b v x % 2 ^ b.start ≡ v % 2 ^ b.start
  under = rw inserted (mod_parts _ kept_below (2 ^ b.start) (mod-lt v (two-pow-pos b.start)))

  further : insert_into b v x / 2 ^ b.start / 2 ^ b.length ≡ v / 2 ^ b.start / 2 ^ b.length
  further = rw over (div_parts kept_above _ (2 ^ b.length) (mod-lt x (two-pow-pos b.length)))

  -- A field reads back the low digits of what was inserted.
  pub extract_from-insert_into_self : extract_from b (insert_into b v x) ≡ x % 2 ^ b.length
  extract_from-insert_into_self =
      extract_from_lem b (insert_into b v x) f
      ∙ ap (λ t. t % 2 ^ b.length) over
      ∙ mod_parts kept_above _ (2 ^ b.length) (mod-lt x (two-pow-pos b.length))

  -- A field that does not overlap is not changed.
  pub extract_from-insert_into_disjoint :
      (c : Bitfield)
      → Fits c
      → IsDisjoint b c
      → extract_from c (insert_into b v x) ≡ extract_from c v
  extract_from-insert_into_disjoint c g (inl below) =
      extract_from_lem c (insert_into b v x) g
      ∙ low_field (insert_into b v x) c.start c.length b.start below
      ∙ ap (λ t. t / 2 ^ c.start % 2 ^ c.length) under
      ∙ sym (low_field v c.start c.length b.start below)
      ∙ sym (extract_from_lem c v g)
  extract_from-insert_into_disjoint c g (inr above) =
      extract_from_lem c (insert_into b v x) g
      ∙ ap (λ t. t % 2 ^ c.length) shifted
      ∙ sym (extract_from_lem c v g)
    where
      split :
          (y : ℕ)
          → y / 2 ^ c.start ≡ y / 2 ^ b.start / 2 ^ b.length / 2 ^ (c.start - (b.start + b.length))
      split y =
          ap (λ t. y / 2 ^ t) total
          ∙ ap (λ t. y / t) (two-pow-add (b.start + b.length) (c.start - (b.start + b.length)))
          ∙ ap (λ t. y / (t * 2 ^ (c.start - (b.start + b.length)))) (two-pow-add b.start b.length)
          ∙ sym (div-div-eq-div-mul y (2 ^ b.start * 2 ^ b.length) _)
          ∙ ap (λ t. t / 2 ^ (c.start - (b.start + b.length)))
              (sym (div-div-eq-div-mul y (2 ^ b.start) (2 ^ b.length)))
        where
          total : c.start ≡ b.start + b.length + (c.start - (b.start + b.length))
          total = omega arith

      shifted : insert_into b v x / 2 ^ c.start ≡ v / 2 ^ c.start
      shifted =
          split (insert_into b v x)
          ∙ ap (λ t. t / 2 ^ (c.start - (b.start + b.length))) further
          ∙ sym (split v)

  -- The result is a word.
  pub insert_into-lt : insert_into b v x < 2 ^ 32
  insert_into-lt = (word_iff b f (insert_into b v x)).1 (rw further ((word_iff b f v).0 word))

-- Writing back what a field holds changes nothing.
insert_into-extract_from :
    (b : Bitfield) (v : ℕ) → Fits b → v < 2 ^ 32 → insert_into b v (extract_from b v) ≡ v
insert_into-extract_from b v f h =
    insert_into_lem b v (extract_from b v) f h
    ∙ ap (λ t. (v / 2 ^ b.start / 2 ^ b.length * 2 ^ b.length + t) * 2 ^ b.start + v % 2 ^ b.start)
        (ap (λ t. t % 2 ^ b.length) (extract_from_lem b v f)
          ∙ mod-mod (v / 2 ^ b.start) (2 ^ b.length))
    ∙ ap (λ t. t * 2 ^ b.start + v % 2 ^ b.start) (div-add-mod' (v / 2 ^ b.start) (2 ^ b.length))
    ∙ div-add-mod' v (2 ^ b.start)

-- The extracted value has no more digits than the field.
pub extract_from-lt : (b : Bitfield) (v : ℕ) → Fits b → extract_from b v < 2 ^ b.length
extract_from-lt b v f =
    rw (extract_from_lem b v f) (mod-lt (v / 2 ^ b.start) (two-pow-pos b.length))
