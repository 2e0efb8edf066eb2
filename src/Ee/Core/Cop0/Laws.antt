-- ===== src/Ee/Core/Cop0/Laws.antt =====
-- A write to Status: when it throws, and the flags that it caches.
use orbum.Base.{
  ℕ, ◌+◌, ◌*◌, ◌/◌, ◌%◌, ◌^◌, ◌<◌, ◌≡◌, refl, Bool, false, not, none, some, ◌==◌, ◌&&◌,
  if◌then◌else◌, u32, arith,
}
use orbum.Base.Bits.{bit_and_field}
use orbum.Common.Bitfield.{extract_from, insert_into}
use orbum.Common.Bitfield.Laws.{extract_from_lem, insert_into_lem}
use orbum.Common.Register.{extract_field}
use orbum.Common.Mips.{OperatingContext, kernel, supervisor, user}
use orbum.Ee.Core.Cop0.{
  Status, initial_status, status_ie, status_exl, status_erl, status_ksu, status_eie, write_status,
  insert_status,
}

-- no exception level is set, and the context is the one that does not exist
abbrev pub is_illegal : ℕ → Bool
is_illegal w = (w / 8 % 4 == 3) && ((w / 4 % 2 == 0) && (w / 2 % 2 == 0))

-- the flags that a Status word stands for
abbrev pub masked_of : ℕ → Bool
masked_of w =
    not (((w / 4 % 2 == 0) && (w / 2 % 2 == 0)) && ((w % 2 == 1) && (w / 2 ^ 16 % 2 == 1)))

abbrev pub context_of : ℕ → OperatingContext
context_of w =
    if (w / 4 % 2 == 0) && (w / 2 % 2 == 0)
    then if w / 8 % 4 == 2 then user else if w / 8 % 4 == 0 then kernel else supervisor
    else kernel

abbrev pub counting_of : ℕ → Bool
counting_of w = not (masked_of w) && (w / 2 ^ 15 % 2 == 1)

-- the register with a word and its flags
abbrev pub status_of : Status → ℕ → Status
status_of s w = record {
  reg = record s.reg { w = w };
  interrupts_masked = masked_of w;
  operating_context = context_of w;
  count_interrupts_enabled = counting_of w;
}

module _ (v : ℕ) where
  ie_digit : extract_from status_ie v ≡ v / 2 ^ 0 % 2 ^ 1
  ie_digit = extract_from_lem status_ie v (omega arith)

  pub exl_digit : extract_from status_exl v ≡ v / 2 ^ 1 % 2 ^ 1
  exl_digit = extract_from_lem status_exl v (omega arith)

  pub erl_digit : extract_from status_erl v ≡ v / 2 ^ 2 % 2 ^ 1
  erl_digit = extract_from_lem status_erl v (omega arith)

  ksu_digits : extract_from status_ksu v ≡ v / 2 ^ 3 % 2 ^ 2
  ksu_digits = extract_from_lem status_ksu v (omega arith)

  eie_digit : extract_from status_eie v ≡ v / 2 ^ 16 % 2 ^ 1
  eie_digit = extract_from_lem status_eie v (omega arith)

-- A write to a Status register that can be written throws exactly when it sets no exception level and
-- a context of 3; else it stores the word, and the cached mask, context and counter flag become those
-- of the word.
pub write_status-status_of :
    (s : Status) (v : ℕ)
    → s.reg.read_only ≡ false
    → write_status s v ≡ (if is_illegal (u32 v) then none else some (status_of s (u32 v)))
unfolding write_status extract_field
write_status-status_of s v h = ground (
  arith,
  ie_digit (u32 v),
  exl_digit (u32 v),
  erl_digit (u32 v),
  ksu_digits (u32 v),
  eie_digit (u32 v),
  bit_and_field 15 1 (u32 v),
)

-- The register holds a writable word with a context below 3, and the flags are those of the word.
pub record IsStatus (s : Status) : Type 0 where
  pub word : s.reg.w < 2 ^ 32
  pub writable : s.reg.read_only ≡ false
  pub legal : s.reg.w / 8 % 4 < 3
  pub masked : s.interrupts_masked ≡ masked_of s.reg.w
  pub context : s.operating_context ≡ context_of s.reg.w
  pub counting : s.count_interrupts_enabled ≡ counting_of s.reg.w

-- The constructor leaves flags that fit the initial word.
pub initial_status-IsStatus : IsStatus initial_status
unfolding initial_status
initial_status-IsStatus = ground arith

pub status_of-IsStatus :
    (s : Status) (w : ℕ)
    → s.reg.read_only ≡ false
    → w < 2 ^ 32
    → w / 8 % 4 < 3
    → IsStatus (status_of s w)
status_of-IsStatus s w h b l = record {
  word = b;
  writable = h;
  legal = l;
  masked = refl;
  context = refl;
  counting = refl;
}

-- The words after a store to the bits EXL and ERL; neither store throws.
abbrev pub with_exl : ℕ → ℕ → ℕ
with_exl b w = w / 4 * 4 + b * 2 + w % 2

abbrev pub with_erl : ℕ → ℕ → ℕ
with_erl b w = w / 8 * 8 + b * 4 + w % 4

pub insert_status_exl :
    (s : Status) (b : ℕ)
    → IsStatus s
    → b < 2
    → insert_status s status_exl b ≡ some (status_of s (with_exl b s.reg.w))
unfolding insert_status
insert_status_exl s b h l =
    let word : insert_into status_exl s.reg.w b ≡ with_exl b s.reg.w =
      omega (arith, insert_into_lem status_exl s.reg.w b (omega arith) h.word) in
    let cut : u32 (with_exl b s.reg.w) ≡ with_exl b s.reg.w = ground (arith, h.word) in
    let legal : is_illegal (with_exl b s.reg.w) ≡ false = ground (arith, h.legal) in
    rw (word, write_status-status_of s (with_exl b s.reg.w) h.writable, cut, legal) refl

pub insert_status_erl :
    (s : Status) (b : ℕ)
    → IsStatus s
    → b < 2
    → insert_status s status_erl b ≡ some (status_of s (with_erl b s.reg.w))
unfolding insert_status
insert_status_erl s b h l =
    let word : insert_into status_erl s.reg.w b ≡ with_erl b s.reg.w =
      omega (arith, insert_into_lem status_erl s.reg.w b (omega arith) h.word) in
    let cut : u32 (with_erl b s.reg.w) ≡ with_erl b s.reg.w = ground (arith, h.word) in
    let legal : is_illegal (with_erl b s.reg.w) ≡ false = ground (arith, h.legal) in
    rw (word, write_status-status_of s (with_erl b s.reg.w) h.writable, cut, legal) refl

module _ (s : Status) (b : ℕ) (h : IsStatus s) (l : b < 2) where
  pub exl-IsStatus : IsStatus (status_of s (with_exl b s.reg.w))
  exl-IsStatus =
      status_of-IsStatus s (with_exl b s.reg.w) h.writable (ground (arith, h.word))
        (ground (arith, h.legal))

  pub erl-IsStatus : IsStatus (status_of s (with_erl b s.reg.w))
  erl-IsStatus =
      status_of-IsStatus s (with_erl b s.reg.w) h.writable (ground (arith, h.word))
        (ground (arith, h.legal))
