-- ===== src/Iop/Core/LoadStore/Laws.antt =====
-- The loads and stores in kernel context, at addresses that the kernel maps.
use orbum.Base.{
  ℕ, ◌+◌, ◌*◌, ◌/◌, ◌%◌, ◌^◌, ◌<◌, ◌≡◌, ◌≢◌, ap, Option, none, some, ◌>>=◌, ltb, u32, arith,
}
use orbum.Base.Int.{pos, ◌+ℤ◌, to_u32, to_u32-lt}
use orbum.Utilities.Caches.Timestamp.{TimestampLruCache}
use orbum.Common.Register.{extract_field}
use orbum.Common.Memory.{bytes_at}
use orbum.Common.Memory.Laws.{IsBytes, bytes_at-lt}
use orbum.Common.Bus.{ByteBus, iop, read_uword}
use orbum.Common.Mips.{kernel}
use orbum.Common.Mips.Instruction.{rs, rt, s_imm}
use orbum.Common.TranslationCache.{MmuRwAccess, read}
use orbum.Iop.Core.Cop0.{status_isc}
use orbum.Iop.Core.State.{IopCore, write_gpr}
use orbum.Iop.Core.Valid.{IsCore, write_gpr-IsCore, write_gpr_lem}
use orbum.Iop.Core.Mmu.Laws.{kernel_map, IsCached, access_result, translate_address_data_lem}
use orbum.Iop.Core.Alu.{uword_of}
use orbum.Iop.Core.LoadStore.{
  virtual_address, shift_of, word_address, lwl_word, lwr_word, at_address, load_body, lwl, lwr,
}
use orbum.Iop.Core.LoadStore.Unaligned.{word_address_lem, lwr_word-lwl_word}

abbrev pub with_data : IopCore → TimestampLruCache → IopCore
with_data s c = record s { translation_cache_data = c }

pub with_data-IsCore : (s : IopCore) (c : TimestampLruCache) → IsCore s → IsCore (with_data s c)
with_data-IsCore s c h = record {
  gprs = h.gprs;
  pc = h.pc;
  hi = h.hi;
  lo = h.lo;
  status = h.status;
  cause = h.cause;
  epc = h.epc;
}

-- what an access needs of the core: the kernel context, and pages that agree with the map
pub record IsReady (s : IopCore) : Type 0 where
  pub context : s.cop0.status.operating_context ≡ kernel
  pub cached : IsCached s.translation_cache_data

pub write_gpr-IsReady : (s : IopCore) (i v : ℕ) → IsReady s → IsReady (write_gpr s i v)
unfolding write_gpr
write_gpr-IsReady s i v h = record { context = h.context; cached = h.cached }

pub word_kernel_map :
    (va p : ℕ)
    → va < 2 ^ 32
    → kernel_map va ≡ some p
    → (kernel_map (word_address va) ≡ some (p / 4 * 4)) × (p % 4 ≡ va % 4)
word_kernel_map va p h m = ground (arith, word_address_lem va h)

pub word_address-lt : (va : ℕ) → va < 2 ^ 32 → word_address va < 2 ^ 32
word_address-lt va h = omega (arith, word_address_lem va h)

module _ {S : Type 0} (bus : ByteBus S) where
  -- A read is made at the address that the kernel's map gives.
  pub at_address-read :
      (va p : ℕ) (body : ℕ → IopCore × S → Option (IopCore × S)) (s : IopCore) (d : S)
      → va < 2 ^ 32
      → IsReady s
      → kernel_map va ≡ some p
      → (c : TimestampLruCache) × (at_address bus va read body (s, d) ≡ body p (with_data s c, d))
        × IsReady (with_data s c)
  unfolding at_address
  at_address-read va p body s d h ready m =
      let (c, plain, e, k) =
        translate_address_data_lem va p read s h ready.context m ready.cached in
      (c, rw (e, ◌>>=◌), record { context = ready.context; cached = k })

  -- An access is made at the address that the kernel's map gives, but for a write below 2 MB with
  -- the cache isolated, which is dropped.
  pub at_address_lem :
      (va p : ℕ) (rw_access : MmuRwAccess) (body : ℕ → IopCore × S → Option (IopCore × S))
      (s : IopCore) (d : S)
      → va < 2 ^ 32
      → IsReady s
      → kernel_map va ≡ some p
      → (c : TimestampLruCache) × (at_address bus va rw_access body (s, d)
          ≡ elim (access_result va p rw_access
              (ltb 0 (extract_field s.cop0.status.reg status_isc))) [
                | none ↦ some (with_data s c, d)
                | some q ↦ body q (with_data s c, d)
              ])
        × IsReady (with_data s c)
  unfolding at_address
  at_address_lem va p rw_access body s d h ready m =
      let (c, plain, e, k) =
        translate_address_data_lem va p rw_access s h ready.context m ready.cached in
      (c, rw (e, ◌>>=◌), record { context = ready.context; cached = k })

  -- a load of any width
  load_result :
      (read_bus : ℕ → S → Option (ℕ × S)) (inst : ℕ) (f : ℕ → ℕ → ℕ) (va p value : ℕ) (s : IopCore)
      (d d' : S)
      → va < 2 ^ 32
      → IsReady s
      → kernel_map va ≡ some p
      → read_bus p d ≡ some (value, d')
      → (c : TimestampLruCache) × (at_address bus va read (load_body bus read_bus inst f) (s, d)
          ≡ some (write_gpr (with_data s c) (rt inst) (f (uword_of s (rt inst)) value), d'))
        × IsReady (with_data s c)
  load_result read_bus inst f va p value s d d' h ready m r =
      let (c, e, k) = at_address-read va p (load_body bus read_bus inst f) s d h ready m in
      (c, rw (e, r, ◌>>=◌), k)

  lwl_result :
      (inst : ℕ) (s : IopCore) (d : S) (p value : ℕ)
      → IsReady s
      → kernel_map (virtual_address inst s) ≡ some p
      → read_uword bus iop (p / 4 * 4) d ≡ some (value, d)
      → (c : TimestampLruCache) × (lwl bus inst (s, d)
          ≡ some (
            write_gpr
                (with_data s c)
                (rt inst)
                (lwl_word (shift_of (virtual_address inst s)) (uword_of s (rt inst)) value),
            d,
          ))
        × IsReady (with_data s c)
  unfolding lwl
  lwl_result inst s d p value ready m r =
      let va = virtual_address inst s in
      let range : va < 2 ^ 32 = to_u32-lt _ in
      load_result (read_uword bus iop) inst (lwl_word (shift_of va)) (word_address va) (p / 4 * 4)
        value s d d (word_address-lt va range) ready (word_kernel_map va p range m).0 r

  lwr_result :
      (inst : ℕ) (s : IopCore) (d : S) (p value : ℕ)
      → IsReady s
      → kernel_map (virtual_address inst s) ≡ some p
      → read_uword bus iop (p / 4 * 4) d ≡ some (value, d)
      → (c : TimestampLruCache) × (lwr bus inst (s, d)
          ≡ some (
            write_gpr
                (with_data s c)
                (rt inst)
                (lwr_word (shift_of (virtual_address inst s)) (uword_of s (rt inst)) value),
            d,
          ))
        × IsReady (with_data s c)
  unfolding lwr
  lwr_result inst s d p value ready m r =
      let va = virtual_address inst s in
      let range : va < 2 ^ 32 = to_u32-lt _ in
      load_result (read_uword bus iop) inst (lwr_word (shift_of va)) (word_address va) (p / 4 * 4)
        value s d d (word_address-lt va range) ready (word_kernel_map va p range m).0 r

  -- LWL and LWR of one register, LWL first, load the word of a memory at any address: what the bus
  -- reads at the two aligned addresses is in the memory, and the base register is another one.
  pub lwl-lwr :
      (inst_l inst_r : ℕ) (s : IopCore) (d : S) (bytes : ℕ → ℕ) (p : ℕ)
      → IsCore s
      → IsReady s
      → IsBytes bytes
      → virtual_address inst_l s ≡ virtual_address inst_r s + 3
      → kernel_map (virtual_address inst_r s) ≡ some p
      → kernel_map (virtual_address inst_l s) ≡ some (p + 3)
      → rt inst_l ≡ rt inst_r
      → rs inst_r ≢ rt inst_r
      → rt inst_r ≢ 0
      → read_uword bus iop (p / 4 * 4) d ≡ some (bytes_at bytes 4 (p / 4 * 4), d)
      → read_uword bus iop ((p + 3) / 4 * 4) d ≡ some (bytes_at bytes 4 ((p + 3) / 4 * 4), d)
      → (t : IopCore) × ((lwl bus inst_l (s, d) >>= lwr bus inst_r) ≡ some (t, d))
        × (uword_of t (rt inst_r) ≡ bytes_at bytes 4 p)
        × IsCore t
  lwl-lwr inst_l inst_r s d bytes p h ready hb three m m' same base target r1 r2 =
      let va = virtual_address inst_r s in
      let y = bytes_at bytes 4 ((p + 3) / 4 * 4) in
      let x = bytes_at bytes 4 (p / 4 * 4) in
      let (c1, e1, k1) = lwl_result inst_l s d (p + 3) y ready m' r2 in
      let left = lwl_word (shift_of (virtual_address inst_l s)) (uword_of s (rt inst_l)) y in
      let s0 = with_data s c1 in
      let s1 = write_gpr s0 (rt inst_l) left in
      let h0 = with_data-IsCore s c1 h in
      let same_base : uword_of s1 (rs inst_r) ≡ uword_of s (rs inst_r) =
        ground (arith, write_gpr_lem s0 (rt inst_l) left (rs inst_r) (h0.gprs (rt inst_l))) in
      let same_va : virtual_address inst_r s1 ≡ va =
        ap (λ u. to_u32 (pos u +ℤ s_imm inst_r)) same_base in
      let (c2, e2, k2) =
        lwr_result inst_r s1 d p x (write_gpr-IsReady s0 (rt inst_l) left k1) (rw same_va m) r1 in
      let s2 = with_data s1 c2 in
      let h2 = with_data-IsCore s1 c2 (write_gpr-IsCore s0 (rt inst_l) left h0) in
      let word = lwr_word (shift_of (virtual_address inst_r s1)) (uword_of s1 (rt inst_r)) x in
      let loaded : uword_of s1 (rt inst_r) ≡ u32 left =
        ground (arith, write_gpr_lem s0 (rt inst_l) left (rt inst_r) (h0.gprs (rt inst_l))) in
      let whole : word ≡ bytes_at bytes 4 p =
        rw (same_va, loaded, three)
          (lwr_word-lwl_word bytes (uword_of s (rt inst_l)) va p hb
            (word_kernel_map va p (to_u32-lt _) m).1) in
      (
        write_gpr s2 (rt inst_r) word,
        rw (e1, ◌>>=◌) e2,
        ground (
          arith,
          write_gpr_lem s2 (rt inst_r) word (rt inst_r) (h2.gprs (rt inst_r)),
          whole,
          bytes_at-lt bytes 4 p hb,
        ),
        write_gpr-IsCore s2 (rt inst_r) word h2,
      )
