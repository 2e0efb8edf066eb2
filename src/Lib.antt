-- ===== src/Lib.antt =====
-- A model of orbum, an emulator of the PlayStation 2, and theorems on it.
--
-- The emulator is a set of resources (registers, memories, buses: liborbum/src/Resources) that
-- controllers (liborbum/src/Controller) advance in turns; liborbum/src/Core.cpp hands each of them
-- slices of time. A controller keeps next to no state of its own: it reads and writes registers, and
-- raises interrupts by bits of other registers. This library models the IOP core, the MIPS R3000 that
-- runs the console's input and output, with the parts that it stands on, and the EE core, the R5900
-- that runs the games, without its floating-point unit and VU0.
--
-- Base, Base/*: words of 8 to 64 bits as natural numbers with the wrap-around written out, signed
--   integers with the conversions of C++, bit operations, indexed lists.
-- Common/Bitfield: Common/Types/Bitfield.hpp; extraction and insertion of a field of a uword.
-- Common/Register: Common/Types/Register/SizedWordRegister.hpp and WordRegister.hpp; a union of bytes,
--   halfwords and a word is the word, in little-endian order.
-- Common/Memory: Common/Types/Memory/ArrayByteMemory.hpp; an access of n bytes for every width.
-- Common/Bus: Common/Types/Bus; the lookup and the accesses of ByteBus.hpp, whose objects are records of
--   operations on a state that is a parameter. Bus/Map: the mapping of an object. Bus/Objects: a memory
--   as an object (ByteMemory.hpp).
-- Common/Mips: Common/Types/Mips; the fields of an instruction word, the branch delay slot with its
--   number of slots as a parameter, and the interrupt lines that Cause reads into its IP field.
-- Common/TranslationCache: Common/Types/TranslationCache/TranslationCache.hpp; the fallback, a
--   std::function in the source, is a parameter that may throw and may change the state.
-- Utilities/Caches: TimestampLruCache of utilities/src/Caches.hpp; the array's used entries are a
--   list. Utilities/Numbers: overflow tests, saturation and bit counts of Utilities/Utilities.cpp.
-- Iop/Core/Cop0, State: the system control registers, with the flags that Status caches, and the
--   core's state, a record that each operation takes and returns.
-- Iop/Core/Exceptions: handle_exception, handle_interrupt_check and the checks that raise exceptions,
--   of Controller/Iop/Core/CIopCore.cpp. Iop/Core/Mmu: its address translation.
-- Iop/Core/Decode: the tables and switches of Resources/Iop/Core/IopCoreInstruction.cpp and
--   CIopCoreInterpreter.hpp, entry by entry.
-- Iop/Core/Alu, Branch, Transfer: one function per method of CIopCoreInterpreter_*.cpp, and
--   Iop/Core/Execute: the methods by their names. Iop/Core/Valid: the invariant that they keep.
-- Iop/Core/LoadStore: the loads and stores, over a bus that is a parameter. Iop/Core/Step: a whole step
--   of CIopCoreInterpreter.cpp, from the interrupt check to the advance of the PC.
-- Iop/Intc: Controller/Iop/Intc/CIopIntc.cpp with its registers; it drives line 2 of the core's Cause.
-- Iop/Timers: the count register of Resources/Iop/Timers/IopTimersUnitRegisters.cpp, and Iop/Timers/Tick
--   a tick of Controller/Iop/Timers/CIopTimers.cpp, which raises bits of the interrupt controller's STAT.
-- Common/Qword: Common/Types/Register/SizedQwordRegister.hpp; the union is the 128-bit number, and its
--   arrays of bytes to dwords are read and written as lanes of 8 to 64 digits.
-- Ee/Core/State: the registers of the R5900 (Resources/Ee/Core/EeCoreR5900.hpp). Ee/Core/Reorder and
--   Ee/Core/Parallel: the instructions of Controller/Ee/Core/Interpreter/CEeCoreInterpreter_*.cpp on 128
--   bits, one definition per method, over the few shapes of their loops. Ee/Core/Transfer: the moves
--   to and from HI and LO. Ee/Core/Scalar: the scalar instructions that raise no exception.
--   Ee/Core/Multiply, MultiplyAdd: multiplication and division, also with an addition to HI and LO.
-- Common/Mips/Cause: a Cause register, its fields and the interrupt lines that its IP field reads, which
--   the two cores declare alike.
-- Ee/Core/Cop0, Tlb, Resources: the system control registers (Resources/Ee/Core/EeCoreCop0*.cpp), the
--   48 entries of the TLB (EeCoreTlb.cpp) and the core's state with both translation caches.
-- Ee/Core/Exceptions: handle_exception of both levels, the interrupt check, the count register and the
--   checks that raise exceptions, of Controller/Ee/Core/CEeCore.cpp. Ee/Core/Mmu: its address
--   translation, by operating context, scratchpad and TLB.
-- Ee/Core/Trap, Branch, Checked, Control, SystemTransfer, LoadStore: traps and ERET, branches and jumps,
--   additions and subtractions with an overflow check, interrupts and the TLB instructions, the moves of
--   the system registers, loads and stores, one function per method of CEeCoreInterpreter_*.cpp. The bus
--   of LoadStore is an interface, BusPort, of reads and writes of 8 to 128 digits on a state of its own.
-- Ee/Core/Decode: the switches and the table of Resources/Ee/Core/EeCoreInstruction.cpp and the table of
--   CEeCoreInterpreter.hpp, entry by entry; Decode/Encodings is the independent list that the theorem
--   compares them with.
-- Ee/Core/Execute: the methods by their names. Ee/Core/Step: a step of CEeCoreInterpreter.cpp, whose
--   methods of the floating-point unit, VU0 and CEeCoreInterpreter_DFC.cpp are a parameter.
-- Ee/Intc, Ee/Timers: the interrupt controller (Controller/Ee/Intc/CEeIntc.cpp), which drives line 2 of
--   the core's Cause, and a tick of the timers (Controller/Ee/Timers/CEeTimers.cpp), which raises its STAT.
-- Wiring: the objects that initialise_iop of Resources/RResources.cpp maps on the bus of the IOP, by
--   their names, addresses and sizes; the voices of SPU2, written out there, are counted.
-- Tests: the theorems at concrete inputs.
--
-- Paths without a root are below liborbum/src. An exception thrown by the program is `none`, as is an
-- access through a null pointer. A `sword` that overflows is taken to wrap. Loops run over a fixed
-- number of digits or over a list, and so by recursion on that. Two loops run on fuel: the timers'
-- prescaler takes its count, since each round takes off at least 1, and the mapping of an object takes
-- one more than there are directories, since each round goes on to the next directory.
--
-- Not modelled: the culling of a bus's page tables; the other IOP controllers (DMA, SIO0, SIO2), the EE
-- side but for its core, timers and interrupt controller (DMA, GIF, IPU), the vector units, GS, CDVD and
-- SPU2; of the EE core the floating-point instructions, which compute with the host's floats, VU0 with
-- LQC2 and SQC2, the packed pixels, the cache instruction's prints and the byte bus's accesses of 64 and
-- 128 digits; threads, locks, logging, serialization and the front end. The debug prints of the modelled
-- functions are left out, and a debug build's range checks are kept where they throw.
pub mod Base
pub mod Utilities
pub mod Common
pub mod Iop
pub mod Ee
pub mod Tests
pub mod Wiring
