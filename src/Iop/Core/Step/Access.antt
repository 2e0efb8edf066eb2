-- ===== src/Iop/Core/Step/Access.antt =====
-- The instructions of the IOP core, those that access the bus among them, never throw where the
-- kernel maps the address and an object is there.
use orbum.Base.{
  ℕ, ◌^◌, ◌<◌, ◌≤◌, ◌≡◌, refl, ◌∙◌, ◌⊎◌, inl, inr, Bool, ltb, Option, none, some, ◌>>=◌,
  Option-cases, arith,
}
use orbum.Base.Int.{to_u32, to_u32-lt, signed8, signed16}
use orbum.Common.Bus.{
  ByteBus, iop, read_ubyte, write_ubyte, read_uhword, write_uhword, read_uword, write_uword,
}
use orbum.Common.Register.{extract_field, byte_at, hword_at}
use orbum.Iop.Core.Cop0.{status_isc}
use orbum.Common.TranslationCache.{MmuRwAccess, read, write}
use orbum.Common.Mips.Instruction.{rt}
use orbum.Iop.Core.State.{IopCore, write_gpr}
use orbum.Iop.Core.Valid.{IsCore, write_gpr-IsCore}
use orbum.Iop.Core.Mmu.Laws.{kernel_map, access_result}
use orbum.Iop.Core.Alu.{uword_of}
use orbum.Iop.Core.LoadStore
use orbum.Iop.Core.LoadStore.{
  virtual_address, word_address, shift_of, lwl_word, lwr_word, swl_word, swr_word, at_address,
  load_body, store_body, merge_body,
}
use orbum.Iop.Core.LoadStore.Laws.{
  IsReady, with_data, with_data-IsCore, at_address-read, at_address_lem, word_address-lt,
}
use orbum.Iop.Core.Decode.{Method, lb, lh, lwl, lw, lbu, lhu, lwr, sb, sh, swl, sw, swr}
use orbum.Iop.Core.Execute.{register_method}
use orbum.Iop.Core.Execute.Laws.{register_method-IsCore, system_register}
use orbum.Iop.Core.Step.{bus_method, execute}

access_result-cases :
    (va p : ℕ) (rw_access : MmuRwAccess) (isolated : Bool)
    → (access_result va p rw_access isolated ≡ none)
      ⊎ (access_result va p rw_access isolated ≡ some p)
access_result-cases va p rw_access isolated = ground arith

-- the address that a method accesses, from the virtual address of its operands
abbrev pub access_of : Method → Option (ℕ → ℕ)
access_of lb = some (λ va. va)
access_of lh = some (λ va. va)
access_of lw = some (λ va. va)
access_of lbu = some (λ va. va)
access_of lhu = some (λ va. va)
access_of sb = some (λ va. va)
access_of sh = some (λ va. va)
access_of sw = some (λ va. va)
access_of lwl = some word_address
access_of lwr = some word_address
access_of swl = some word_address
access_of swr = some word_address
access_of _ = none

module _ {S : Type 0} (bus : ByteBus S) (Ok : S → Type 0) where
  -- an object answers every access at the physical address, and keeps the objects' invariant
  pub record IsBacked (p : ℕ) : Type 0 where
    pub reads_ubyte :
        (d : S) → Ok d → (v : ℕ) × (d' : S) × (read_ubyte bus iop p d ≡ some (v, d')) × Ok d'
    pub reads_uhword :
        (d : S) → Ok d → (v : ℕ) × (d' : S) × (read_uhword bus iop p d ≡ some (v, d')) × Ok d'
    pub reads_uword :
        (d : S) → Ok d → (v : ℕ) × (d' : S) × (read_uword bus iop p d ≡ some (v, d')) × Ok d'
    pub writes_ubyte :
        (v : ℕ) (d : S) → Ok d → (d' : S) × (write_ubyte bus iop p v d ≡ some d') × Ok d'
    pub writes_uhword :
        (v : ℕ) (d : S) → Ok d → (d' : S) × (write_uhword bus iop p v d ≡ some d') × Ok d'
    pub writes_uword :
        (v : ℕ) (d : S) → Ok d → (d' : S) × (write_uword bus iop p v d ≡ some d') × Ok d'

  abbrev pub KeptOn : Option (IopCore × S) → Type 0
  KeptOn result = (t : IopCore) × (d : S) × (result ≡ some (t, d)) × IsCore t × Ok d

  module _ (s : IopCore) (d : S) (h : IsCore s) (good : Ok d) (ready : IsReady s) (va p : ℕ)
      (range : va < 2 ^ 32) (m : kernel_map va ≡ some p) where
    load-Kept :
        (read_bus : ℕ → S → Option (ℕ × S)) (inst : ℕ) (f : ℕ → ℕ → ℕ)
        → (v : ℕ) × (d' : S) × (read_bus p d ≡ some (v, d')) × Ok d'
        → KeptOn (at_address bus va read (load_body bus read_bus inst f) (s, d))
    load-Kept read_bus inst f (v, d', r, good') =
        let (c, e, k) =
          at_address-read bus va p (load_body bus read_bus inst f) s d range ready m in
        let t = with_data s c in
        (
          write_gpr t (rt inst) (f (uword_of t (rt inst)) v),
          d',
          rw (e, r, ◌>>=◌) refl,
          write_gpr-IsCore t (rt inst) _ (with_data-IsCore s c h),
          good',
        )

    store-Kept :
        (write_bus : ℕ → ℕ → S → Option S) (inst : ℕ) (f : ℕ → ℕ)
        → ((v : ℕ) → (d' : S) × (write_bus p v d ≡ some d') × Ok d')
        → KeptOn (at_address bus va write (store_body bus write_bus inst f) (s, d))
    store-Kept write_bus inst f w =
        let (c, e, k) =
          at_address_lem bus va p write (store_body bus write_bus inst f) s d range ready m in
        elim (access_result-cases va p write (ltb 0 (extract_field s.cop0.status.reg status_isc))) [
          | inl dropped ↦ (with_data s c, d, rw dropped at e, with_data-IsCore s c h, good)
          | inr made ↦
              let (d', stored, good') = w (f (uword_of s (rt inst))) in
              (
                with_data s c,
                d',
                rw made at e ∙ rw (stored, ◌>>=◌) refl,
                with_data-IsCore s c h,
                good',
              )
        ]

  merge-Kept :
      (s : IopCore) (d : S) (va p inst : ℕ) (f : ℕ → ℕ → ℕ)
      → IsCore s
      → Ok d
      → IsReady s
      → va < 2 ^ 32
      → kernel_map va ≡ some p
      → IsBacked p
      → KeptOn (at_address bus va read (merge_body bus inst va f) (s, d))
  merge-Kept s d va p inst f h good ready range m b =
      let (c, e, k) = at_address-read bus va p (merge_body bus inst va f) s d range ready m in
      let (v, d', r, good') = b.reads_uword d good in
      let (t, d'', stored, kept, good'') =
        store-Kept (with_data s c) d' (with_data-IsCore s c h) good' k va p range m
          (write_uword bus iop) inst (λ reg. f reg v) (λ x. b.writes_uword x d' good') in
      (t, d'', rw (e, r, ◌>>=◌) stored, kept, good'')

  -- What an instruction needs of the address that it accesses: the kernel maps it, and an object is
  -- there. The unaligned accesses need it of the aligned address.
  abbrev pub IsAccess : Method → ℕ → IopCore → Type 0
  IsAccess m inst s = elim (access_of m) [
    | none ↦ Unit
    | some f ↦ (p : ℕ) × (kernel_map (f (virtual_address inst s)) ≡ some p) × IsBacked p
  ]

  bus_method-Kept :
      (m : Method) (inst : ℕ) (s : IopCore) (d : S)
      → IsCore s
      → Ok d
      → IsReady s
      → IsAccess m inst s
      → KeptOn (bus_method bus m inst (s, d))
  unfolding bus_method LoadStore.lb LoadStore.lbu LoadStore.lh LoadStore.lhu LoadStore.lw
      LoadStore.lwl LoadStore.lwr LoadStore.sb LoadStore.sh LoadStore.sw LoadStore.swl LoadStore.swr
  bus_method-Kept lb inst s d h good ready (p, m, b) =
      load-Kept s d h good ready (virtual_address inst s) p (to_u32-lt _) m (read_ubyte bus iop)
        inst (λ old value. to_u32 (signed8 value)) (b.reads_ubyte d good)
  bus_method-Kept lbu inst s d h good ready (p, m, b) =
      load-Kept s d h good ready (virtual_address inst s) p (to_u32-lt _) m (read_ubyte bus iop)
        inst (λ old value. value) (b.reads_ubyte d good)
  bus_method-Kept lh inst s d h good ready (p, m, b) =
      load-Kept s d h good ready (virtual_address inst s) p (to_u32-lt _) m (read_uhword bus iop)
        inst (λ old value. to_u32 (signed16 value)) (b.reads_uhword d good)
  bus_method-Kept lhu inst s d h good ready (p, m, b) =
      load-Kept s d h good ready (virtual_address inst s) p (to_u32-lt _) m (read_uhword bus iop)
        inst (λ old value. value) (b.reads_uhword d good)
  bus_method-Kept lw inst s d h good ready (p, m, b) =
      load-Kept s d h good ready (virtual_address inst s) p (to_u32-lt _) m (read_uword bus iop)
        inst (λ old value. value) (b.reads_uword d good)
  bus_method-Kept lwl inst s d h good ready (p, m, b) =
      let va = virtual_address inst s in
      load-Kept s d h good ready (word_address va) p (word_address-lt va (to_u32-lt _)) m
        (read_uword bus iop) inst (lwl_word (shift_of va)) (b.reads_uword d good)
  bus_method-Kept lwr inst s d h good ready (p, m, b) =
      let va = virtual_address inst s in
      load-Kept s d h good ready (word_address va) p (word_address-lt va (to_u32-lt _)) m
        (read_uword bus iop) inst (lwr_word (shift_of va)) (b.reads_uword d good)
  bus_method-Kept sb inst s d h good ready (p, m, b) =
      store-Kept s d h good ready (virtual_address inst s) p (to_u32-lt _) m (write_ubyte bus iop)
        inst (λ reg. byte_at reg 0) (λ x. b.writes_ubyte x d good)
  bus_method-Kept sh inst s d h good ready (p, m, b) =
      store-Kept s d h good ready (virtual_address inst s) p (to_u32-lt _) m (write_uhword bus iop)
        inst (λ reg. hword_at reg 0) (λ x. b.writes_uhword x d good)
  bus_method-Kept sw inst s d h good ready (p, m, b) =
      store-Kept s d h good ready (virtual_address inst s) p (to_u32-lt _) m (write_uword bus iop)
        inst (λ reg. reg) (λ x. b.writes_uword x d good)
  bus_method-Kept swl inst s d h good ready (p, m, b) =
      let va = virtual_address inst s in
      merge-Kept s d (word_address va) p inst (swl_word (shift_of va)) h good ready
        (word_address-lt va (to_u32-lt _)) m b
  bus_method-Kept swr inst s d h good ready (p, m, b) =
      let va = virtual_address inst s in
      merge-Kept s d (word_address va) p inst (swr_word (shift_of va)) h good ready
        (word_address-lt va (to_u32-lt _)) m b
  bus_method-Kept _ inst s d h good ready a = (s, d, refl, h, good)

  -- An instruction of either kind is executed without a throw, and keeps the invariant.
  pub execute-Kept :
      (m : Method) (inst : ℕ) (s : IopCore) (d : S)
      → IsCore s
      → Ok d
      → IsReady s
      → system_register m inst ≤ 16
      → IsAccess m inst s
      → KeptOn (execute bus m inst (s, d))
  unfolding execute
  execute-Kept m inst s d h good ready r a = elim (Option-cases (register_method m)) [
    | inl none_there ↦ rw (execute, none_there) (bus_method-Kept m inst s d h good ready a)
    | inr (f, there) ↦
        let (t, e, k) = register_method-IsCore m f inst s there h r in
        (t, d, rw (execute, there, e, ◌>>=◌) refl, k, good)
  ]
