-- ===== src/Iop/Timers/Tick/Digits.antt =====
-- Binary digits of a register, before and after a store to a field of one digit.
use orbum.Base.{
  ℕ, ◌/◌, ◌%◌, ◌^◌, ◌<◌, ◌≡◌, ◌∙◌, sym, false, ◌==◌, if◌then◌else◌, Bool-cases, inl, inr, arith,
  lt-or-ge,
}
use orbum.Common.Bitfield.{bits, insert_into}
use orbum.Common.Bitfield.Laws.{extract_from_lem}
use orbum.Common.Bitfield.Fields.{
  IsDisjoint, extract_from-insert_into_self, extract_from-insert_into_disjoint, insert_into-lt,
}
use orbum.Common.Register.{SizedWordRegister, write_uword, extract_field, insert_field}
use orbum.Common.Register.Laws.{IsOpen}

abbrev pub digit : ℕ → ℕ → ℕ
digit i w = w / 2 ^ i % 2

-- A field of one digit reads that digit.
pub extract_field-digit :
    (r : SizedWordRegister) (i : ℕ) → i < 32 → extract_field r (bits i 1) ≡ digit i r.w
unfolding extract_field
extract_field-digit r i h = extract_from_lem (bits i 1) r.w (omega arith)

insert_field-word :
    (r : SizedWordRegister) (k v : ℕ)
    → IsOpen r
    → k < 32
    → (insert_field r (bits k 1) v).w ≡ insert_into (bits k 1) r.w v
unfolding insert_field write_uword
insert_field-word r k v h range = ground (arith, insert_into-lt (bits k 1) (omega arith) r.w v h.0)

pub insert_field-IsOpen :
    (r : SizedWordRegister) (k v : ℕ) → IsOpen r → k < 32 → IsOpen (insert_field r (bits k 1) v)
unfolding insert_field write_uword
insert_field-IsOpen r k v h range =
    ground (arith, insert_into-lt (bits k 1) (omega arith) r.w v h.0)

apart : (i k : ℕ) → (i == k) ≡ false → IsDisjoint (bits k 1) (bits i 1)
apart i k other = elim (lt-or-ge i k) [
  | inl below ↦ inl (omega arith)
  | inr above ↦ inr (ground (arith, other, above))
]

-- A store to a field of one digit puts the last digit of the value there and keeps the others.
pub insert_field-digit :
    (r : SizedWordRegister) (k v i : ℕ)
    → IsOpen r
    → k < 32
    → i < 32
    → digit i (insert_field r (bits k 1) v).w ≡ (if i == k then v % 2 else digit i r.w)
insert_field-digit r k v i h hk hi = elim (Bool-cases (i == k)) [
  | inl same ↦
      let e : i ≡ k = ground (arith, same) in
      rw (same, e, insert_field-word r k v h hk)
        (sym (extract_from_lem (bits k 1) (insert_into (bits k 1) r.w v) (omega arith))
          ∙ extract_from-insert_into_self (bits k 1) (omega arith) r.w v h.0)
  | inr other ↦
      rw (other, insert_field-word r k v h hk)
        (sym (extract_from_lem (bits i 1) (insert_into (bits k 1) r.w v) (omega arith))
          ∙ extract_from-insert_into_disjoint (bits k 1) (omega arith) r.w v h.0 (bits i 1)
              (omega arith) (apart i k other)
          ∙ extract_from_lem (bits i 1) r.w (omega arith))
]
