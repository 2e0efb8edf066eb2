-- ===== src/Tests/IopSystem.antt =====
-- The theorems on memories, the bus and whole instructions at concrete inputs. The bus has one page
-- per directory, each a part of one memory of 2 MB at address 0.
use orbum.Base.{if◌then◌else◌, ℕ, ◌^◌, ◌≡◌, refl, false, inr, some, ◌>>=◌, arith}
use orbum.Utilities.Caches.Timestamp.{TimestampLruCache}
use orbum.Common.Bitfield.{bits}
use orbum.Common.Register.{sized_word}
use orbum.Common.Memory.{
  ArrayByteMemory, array_memory, bytes_at, put_bytes, read_bytes, write_bytes,
}
use orbum.Common.Memory.Laws.{IsBytes, put_bytes-IsBytes, read_bytes-write_bytes}
use orbum.Common.Bus.{
  ByteBus, iop, read_ubyte, write_ubyte, read_uhword, write_uhword, read_uword, write_uword,
}
use orbum.Common.Bus.Objects.{MemoryIn, memory_object}
use orbum.Common.Bus.Map.{new_bus, map}
use orbum.Common.Bus.Map.Directories.{IsByteBus, page_of, mapped_page, new_bus-IsByteBus}
use orbum.Common.Bus.Map.Laws.{map_lem}
use orbum.Common.Mips.Instruction.{rs, rt}
use orbum.Iop.Core.State.{IopCore, initial, write_gpr}
use orbum.Iop.Core.Valid.{IsCore, initial-IsCore, write_gpr-IsCore}
use orbum.Iop.Core.Alu.{uword_of}
use orbum.Iop.Core.Exceptions.{handle_interrupt_check}
use orbum.Iop.Core.Decode
use orbum.Iop.Core.Decode.{decode}
use orbum.Iop.Core.Step.{execute, advance, time_step}
use orbum.Iop.Core.Step.Access.{IsBacked}
use orbum.Iop.Core.Step.Laws.{CanStep, time_step-IsCore}
use orbum.Iop.Core.LoadStore.{lwl, lwr}
use orbum.Iop.Core.LoadStore.Laws.{IsReady, lwl-lwr}

-- the memory as the whole state of the objects
abbrev whole : MemoryIn ArrayByteMemory
whole = record { memory_of = λ d. d; with_memory = λ m d. m; read_back = λ m d. refl }

abbrev bus : ByteBus ArrayByteMemory
bus = record {
  directory_mask = bits 16 16;
  table_size = 2 ^ 16;
  table = λ i. record {
    page_mask = bits 16 0;
    optimal_alignment = 16;
    page_count = 1;
    page_table = λ j. record { base_address = 0; object = some (memory_object whole (2 ^ 21)) };
  };
}

-- two words from 0x210 on
abbrev contents : ℕ → ℕ
contents = put_bytes (put_bytes (λ i. 0) 4 0x210 0x12345678) 4 0x214 0x9ABCDEF0

contents-IsBytes : IsBytes contents
contents-IsBytes =
    put_bytes-IsBytes _ 4 0x214 _ (put_bytes-IsBytes (λ i. 0) 4 0x210 _ (λ i. omega arith))

abbrev memory : ArrayByteMemory
memory = record (array_memory (2 ^ 21) 0 false) { memory = contents }

abbrev core : IopCore
core = write_gpr initial 4 0x200

core-IsCore : IsCore core
core-IsCore = write_gpr-IsCore initial 4 0x200 initial-IsCore

core-IsReady : IsReady core
unfolding initial write_gpr
core-IsReady = record { context = refl; cached = ground arith }

read_bytes-write_bytes_example :
    (m' : ArrayByteMemory) × (write_bytes 2 memory 0x100 0x1BEEF ≡ some m')
    × (m'.size ≡ 2 ^ 21)
    × IsBytes m'.memory
    × (read_bytes 2 m' 0x100 ≡ some 0xBEEF)
    × (read_bytes 4 m' 0x210 ≡ read_bytes 4 memory 0x210)
read_bytes-write_bytes_example =
    read_bytes-write_bytes memory 2 4 0x100 0x210 0x1BEEF refl contents-IsBytes (omega arith)
      (inr (omega arith))

map_lem_example :
    (r : ByteBus ArrayByteMemory) × (map 0x1C000000 (memory_object whole (2 ^ 21)) (new_bus 16)
      ≡ some r)
    × IsByteBus r
    × (page_of r 0x1C012345 ≡ mapped_page 0x1C000000 (memory_object whole (2 ^ 21)))
unfolding new_bus memory_object
map_lem_example =
    map_lem 0x1C000000 (memory_object whole (2 ^ 21)) (new_bus 16) 0x1C012345 new_bus-IsByteBus
      (omega arith) (omega arith) (λ a lo hi. ground arith)

-- LWL r5, 0x14(r4) and LWR r5, 0x11(r4): the word at 0x211
lwl-lwr_example :
    (t : IopCore) × ((lwl bus 0x88850014 (core, memory) >>= lwr bus 0x98850011) ≡ some (t, memory))
    × (uword_of t 5 ≡ 0xF0123456)
    × IsCore t
unfolding initial write_gpr orbum.Common.Mips.Instruction.s_imm orbum.Common.Mips.Instruction.u_imm
    orbum.Common.Bitfield.extract_from orbum.Common.Bitfield.shifted_mask
    orbum.Common.Bitfield.unshifted_mask rs rt read_uword memory_object read_bytes put_bytes
lwl-lwr_example =
    lwl-lwr bus 0x88850014 0x98850011 core memory contents 0x211 core-IsCore core-IsReady
      contents-IsBytes refl refl refl refl (omega arith) (omega arith) refl refl

-- LW r5, 0x10(r4) at the PC
abbrev program : ArrayByteMemory
program = record memory { memory = put_bytes contents 4 0x100 0x8C850010 }

abbrev at_program : IopCore
at_program = record core { pc = sized_word 0x80000100 false }

abbrev IsMain : ArrayByteMemory → Type 0
IsMain m = m.size ≡ 2 ^ 21

data_IsBacked : IsBacked bus IsMain 0x210
unfolding read_ubyte write_ubyte read_uhword write_uhword read_uword write_uword memory_object
    read_bytes write_bytes orbum.Common.Bitfield.extract_from orbum.Common.Bitfield.shifted_mask
    orbum.Common.Bitfield.unshifted_mask
data_IsBacked = record {
  reads_ubyte = λ d m. (bytes_at d.memory 1 0x210, d, ground arith, m);
  reads_uhword = λ d m. (bytes_at d.memory 2 0x210, d, ground arith, m);
  reads_uword = λ d m. (bytes_at d.memory 4 0x210, d, ground arith, m);
  writes_ubyte = λ v d m. (
    if d.read_only then d else record d { memory = put_bytes d.memory 1 0x210 v },
    ground arith,
    ground arith,
  );
  writes_uhword = λ v d m. (
    if d.read_only then d else record d { memory = put_bytes d.memory 2 0x210 v },
    ground arith,
    ground arith,
  );
  writes_uword = λ v d m. (
    if d.read_only then d else record d { memory = put_bytes d.memory 4 0x210 v },
    ground arith,
    ground arith,
  );
}

at_program-IsCore : IsCore at_program
unfolding initial write_gpr
at_program-IsCore = record {
  gprs = core-IsCore.gprs;
  pc = ground arith;
  hi = core-IsCore.hi;
  lo = core-IsCore.lo;
  status = core-IsCore.status;
  cause = core-IsCore.cause;
  epc = core-IsCore.epc;
}

decoded : decode 0x8C850010 ≡ some Decode.lw
unfolding decode orbum.Common.Mips.Instruction.opcode orbum.Common.Bitfield.extract_from
    orbum.Common.Bitfield.shifted_mask orbum.Common.Bitfield.unshifted_mask
decoded = refl

fetched : read_uword bus iop 0x100 program ≡ some (0x8C850010, program)
unfolding read_uword memory_object read_bytes put_bytes orbum.Common.Bitfield.extract_from
    orbum.Common.Bitfield.shifted_mask orbum.Common.Bitfield.unshifted_mask
fetched = refl

at_program-CanStep : CanStep bus IsMain at_program program program Decode.lw 0x8C850010
unfolding initial write_gpr rs orbum.Common.Mips.Instruction.s_imm
    orbum.Common.Mips.Instruction.u_imm orbum.Common.Bitfield.extract_from
    orbum.Common.Bitfield.shifted_mask orbum.Common.Bitfield.unshifted_mask
at_program-CanStep = record {
  ready = record { context = refl; cached = ground arith };
  inst_cached = ground arith;
  physical = 0x100;
  mapped = refl;
  fetched = fetched;
  good = refl;
  decoded = decoded;
  system = omega arith;
  access = (0x210, refl, data_IsBacked);
}

time_step-IsCore_example :
    (t : IopCore) × (d' : ArrayByteMemory) × (i : TimestampLruCache) × (execute bus Decode.lw
        0x8C850010
        (record at_program { translation_cache_inst = i }, program)
      ≡ some (t, d'))
    × (time_step bus (at_program, program) ≡ some (3, (advance t, d')))
    × IsCore (advance t)
    × IsMain d'
unfolding initial write_gpr handle_interrupt_check
time_step-IsCore_example =
    time_step-IsCore bus IsMain at_program at_program program program Decode.lw 0x8C850010
      at_program-IsCore refl at_program-CanStep
