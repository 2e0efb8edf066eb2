-- ===== src/Common/Register/Laws.antt =====
-- The sized word register: what a store leaves to be read, at every access size.
use orbum.Base.{
  Bool-cases, inl, inr, ◌==◌, false, if◌then◌else◌, ℕ, ◌*◌, ◌%◌, ◌^◌, ◌<◌, ◌≡◌, ◌≢◌, sym, ◌∙◌, ap,
  some, arith, u32,
}
use orbum.Common.Bitfield.{Bitfield, bits, insert_into}
use orbum.Common.Bitfield.Laws.{Fits, extract_from_lem, insert_into_lem}
use orbum.Common.Bitfield.Fields.{
  IsDisjoint, extract_from-insert_into_self, extract_from-insert_into_disjoint, insert_into-lt,
}
use orbum.Common.Register.{
  SizedWordRegister, write_uword, insert_field, read_ubyte, write_ubyte, byte_at, put_byte,
}

-- A register that holds a word.
abbrev pub IsWord : SizedWordRegister → Type 0
IsWord r = r.w < 2 ^ 32

pub write_uword-IsWord : (r : SizedWordRegister) (v : ℕ) → IsWord r → IsWord (write_uword r v)
unfolding write_uword
write_uword-IsWord r v h = ground arith

pub insert_field-IsWord :
    (r : SizedWordRegister) (b : Bitfield) (v : ℕ) → IsWord r → IsWord (insert_field r b v)
unfolding insert_field
insert_field-IsWord r b v h = ground arith

-- The bytes of a word are the fields of 8 digits.
abbrev byte_field : ℕ → Bitfield
byte_field i = bits (8 * i) 8

byte_field-Fits : (i : ℕ) → i < 4 → Fits (byte_field i)
byte_field-Fits i h = omega arith

byte_field-IsDisjoint : (i j : ℕ) → i ≢ j → IsDisjoint (byte_field i) (byte_field j)
byte_field-IsDisjoint i j h = omega arith

module _ (i w v : ℕ) (range : i < 4) (word : w < 2 ^ 32) where
  put_byte_lem : put_byte w i v ≡ insert_into (byte_field i) w v
  put_byte_lem = sym (insert_into_lem (byte_field i) w v (byte_field-Fits i range) word)

  byte_at-put_byte_self : byte_at (put_byte w i v) i ≡ v % 2 ^ 8
  byte_at-put_byte_self =
      ap (λ t. byte_at t i) put_byte_lem
      ∙ sym (extract_from_lem (byte_field i) _ (byte_field-Fits i range))
      ∙ extract_from-insert_into_self (byte_field i) (byte_field-Fits i range) w v word

  byte_at-put_byte_ne : (j : ℕ) → j < 4 → i ≢ j → byte_at (put_byte w i v) j ≡ byte_at w j
  byte_at-put_byte_ne j hj ne =
      ap (λ t. byte_at t j) put_byte_lem
      ∙ sym (extract_from_lem (byte_field j) _ (byte_field-Fits j hj))
      ∙ extract_from-insert_into_disjoint (byte_field i) (byte_field-Fits i range) w v word
          (byte_field j) (byte_field-Fits j hj) (byte_field-IsDisjoint i j ne)
      ∙ extract_from_lem (byte_field j) w (byte_field-Fits j hj)

  put_byte-lt : put_byte w i v < 2 ^ 32
  put_byte-lt = rw put_byte_lem (insert_into-lt (byte_field i) (byte_field-Fits i range) w v word)

-- A byte store at an offset in range to a writable register succeeds: the byte is read back there,
-- the other three bytes read as before, and the register still holds a word.
write_ubyte_lem :
    (r : SizedWordRegister) (i j v : ℕ)
    → IsWord r
    → r.read_only ≡ false
    → i < 4
    → j < 4
    → (s : SizedWordRegister) × (write_ubyte r i v ≡ some s)
      × IsWord s
      × (read_ubyte s i ≡ some (v % 2 ^ 8))
      × (read_ubyte s j ≡ (if i == j then some (v % 2 ^ 8) else read_ubyte r j))
unfolding read_ubyte write_ubyte
write_ubyte_lem r i j v word ro hi hj = (
  record r { w = put_byte r.w i v },
  ground arith,
  put_byte-lt i r.w v hi word,
  ground (arith, byte_at-put_byte_self i r.w v hi word),
  elim (Bool-cases (i == j)) [
    | inl same ↦ ground (arith, same, byte_at-put_byte_self i r.w v hi word)
    | inr other ↦
        ground
          (arith, other, byte_at-put_byte_ne i r.w v hi word j hj (λ e. ground (arith, other, e)))
  ],
)

-- a register that holds a word and can be written
abbrev pub IsOpen : SizedWordRegister → Type 0
IsOpen r = (r.w < 2 ^ 32) × (r.read_only ≡ false)

pub write_uword-IsOpen : (r : SizedWordRegister) (v : ℕ) → IsOpen r → IsOpen (write_uword r v)
unfolding write_uword
write_uword-IsOpen r v h = ground arith

pub write_uword-eq : (r : SizedWordRegister) (v : ℕ) → IsOpen r → (write_uword r v).w ≡ u32 v
unfolding write_uword
write_uword-eq r v h = ground arith
