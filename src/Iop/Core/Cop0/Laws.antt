-- ===== src/Iop/Core/Cop0/Laws.antt =====
-- The Status register keeps its cached flags in step with its word, and its exception stack is a
-- stack of two levels.
use orbum.Base.{
  ℕ, ◌+◌, ◌*◌, ◌/◌, ◌%◌, ◌^◌, ◌<◌, ◌≡◌, sym, ◌∙◌, true, false, some, ◌==◌, if◌then◌else◌, bit_and,
  bit_or, not32, u32, ◌<<<◌, ◌>>>◌, arith,
}
use orbum.Base.Bits.{bit_and_field, bit_and-ones, bit_or_split, bit_or-zero, zero-bit_or}
use orbum.Common.Bitfield.{extract_from}
use orbum.Common.Bitfield.Laws.{extract_from_lem}
use orbum.Common.Register.{extract_field}
use orbum.Common.Mips.{OperatingContext, kernel, user}
use orbum.Iop.Core.Cop0.{
  Status, initial_status, status_iec, status_kuc, write_status, push_exception_stack,
  pop_exception_stack,
}

-- the operating context that a Status word stands for
abbrev pub context_of : ℕ → OperatingContext
context_of w = if w / 2 % 2 == 1 then user else kernel

-- The register holds a writable word, and the flags are those of the word.
pub record IsStatus (s : Status) : Type 0 where
  pub word : s.reg.w < 2 ^ 32
  pub writable : s.reg.read_only ≡ false
  pub masked : s.interrupts_masked ≡ (s.reg.w % 2 == 0)
  pub context : s.operating_context ≡ context_of s.reg.w

iec_digit : (v : ℕ) → extract_from status_iec v ≡ v / 2 ^ 0 % 2 ^ 1
iec_digit v = extract_from_lem status_iec v (omega arith)

kuc_digit : (v : ℕ) → extract_from status_kuc v ≡ v / 2 ^ 1 % 2 ^ 1
kuc_digit v = extract_from_lem status_kuc v (omega arith)

-- The constructor leaves flags that fit the initial word.
pub initial_status-IsStatus : IsStatus initial_status
unfolding initial_status
initial_status-IsStatus = ground arith

-- A write to Status never throws; it stores the word, and the flags become those of the word.
pub write_status_lem :
    (s : Status) (v : ℕ)
    → IsStatus s
    → (t : Status) × (write_status s v ≡ some t) × (t.reg.w ≡ u32 v) × IsStatus t
unfolding write_status extract_field
write_status_lem s v h = (
  record {
    reg = record s.reg { w = u32 v };
    interrupts_masked = u32 v % 2 == 0;
    operating_context = context_of (u32 v);
  },
  ground (arith, iec_digit (u32 v), kuc_digit (u32 v)),
  ground arith,
  ground arith,
)

pushed_word :
    (w : ℕ)
    → w < 2 ^ 32
    → bit_or (bit_and w (not32 0x3F)) (u32 (bit_and w 0xF <<< 2)) ≡ w / 64 * 64 + w % 16 * 4
pushed_word w h = ground (
  arith,
  bit_and_field 6 26 w,
  bit_and-ones 4 w,
  bit_or_split 6 (w / 64) 0 0 (w % 16 * 4),
  bit_or-zero (w / 64),
  zero-bit_or (w % 16 * 4),
)

popped_word :
    (w : ℕ)
    → w < 2 ^ 32
    → bit_or (bit_and w (not32 0xF)) (bit_and w 0x3C >>> 2) ≡ w / 16 * 16 + w / 4 % 16
popped_word w h = ground (
  arith,
  bit_and_field 4 28 w,
  bit_and_field 2 4 w,
  bit_or_split 4 (w / 16) 0 0 (w / 4 % 16),
  bit_or-zero (w / 16),
  zero-bit_or (w / 4 % 16),
)

-- Entering an exception never throws: the two lower pairs of (KU, IE) bits move up, the current
-- pair is cleared, so that interrupts are masked in kernel context, and the other bits stay.
pub push_exception_stack_lem :
    (s : Status)
    → IsStatus s
    → (t : Status) × (push_exception_stack s ≡ some t)
      × (t.reg.w ≡ s.reg.w / 64 * 64 + s.reg.w % 16 * 4)
      × (t.interrupts_masked ≡ true)
      × (t.operating_context ≡ kernel)
      × IsStatus t
unfolding push_exception_stack
push_exception_stack_lem s h =
    let (t, e, w, k) = write_status_lem s (s.reg.w / 64 * 64 + s.reg.w % 16 * 4) h in
    (t, rw (pushed_word s.reg.w h.word) e, ground arith, ground arith, ground arith, k)

-- Leaving it never throws: the two upper pairs move down.
pub pop_exception_stack_lem :
    (s : Status)
    → IsStatus s
    → (t : Status) × (pop_exception_stack s ≡ some t)
      × (t.reg.w ≡ s.reg.w / 16 * 16 + s.reg.w / 4 % 16)
      × IsStatus t
unfolding pop_exception_stack
pop_exception_stack_lem s h =
    let (t, e, w, k) = write_status_lem s (s.reg.w / 16 * 16 + s.reg.w / 4 % 16) h in
    (t, rw (popped_word s.reg.w h.word) e, ground arith, k)

context_of_low : (v w : ℕ) → v % 16 ≡ w % 16 → context_of v ≡ context_of w
context_of_low v w h = ground arith

masked_low : (v w : ℕ) → v % 16 ≡ w % 16 → (v % 2 == 0) ≡ (w % 2 == 0)
masked_low v w h = ground arith

-- A return from an exception just entered restores the current and the previous pair of (KU, IE)
-- bits, the operating context, the interrupt mask and all bits above the stack; the oldest pair is
-- left equal to the previous one.
pub pop-push :
    (s : Status)
    → IsStatus s
    → (t u : Status) × (push_exception_stack s ≡ some t)
      × (pop_exception_stack t ≡ some u)
      × (u.reg.w % 16 ≡ s.reg.w % 16)
      × (u.reg.w / 16 % 4 ≡ s.reg.w / 4 % 4)
      × (u.reg.w / 64 ≡ s.reg.w / 64)
      × (u.operating_context ≡ s.operating_context)
      × (u.interrupts_masked ≡ s.interrupts_masked)
pop-push s h =
    let (t, e, w, m, c, k) = push_exception_stack_lem s h in
    let (u, e', w', k') = pop_exception_stack_lem t k in
    let low : u.reg.w % 16 ≡ s.reg.w % 16 = omega arith in
    (
      t,
      u,
      e,
      e',
      low,
      omega arith,
      omega arith,
      k'.context ∙ context_of_low u.reg.w s.reg.w low ∙ sym h.context,
      k'.masked ∙ masked_low u.reg.w s.reg.w low ∙ sym h.masked,
    )
