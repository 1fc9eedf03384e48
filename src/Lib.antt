-- ===== src/Lib.antt =====
-- MicroTBX: the critical sections, the heap, the memory pools and what stands on them.
--
-- The parts and how they interact. Every module guards its state by the nested critical section
-- of source/tbx_critsect.c, which a port (source/port) implements on the status register of a CPU.
-- source/tbx_heap.c hands out memory from one static buffer and never takes it back.
-- source/tbx_mempool.c takes its structs and its blocks from that heap: a list of pools in the order
-- of their block sizes, each with a list of free and a list of used blocks. source/tbx_list.c takes its
-- lists and nodes from the memory pools, and source/extra/freertos/tbx_freertos.c gives the pools to
-- FreeRTOS. source/tbx_checksum.c, source/tbx_random.c and source/tbx_crypto.c stand for themselves.
--
-- The files.
--   Base          names of the libraries, tests into Bool, lists over native numbers, laws of the
--                 bitwise operations (Base/Bits, Base/Joins).
--   Target        the widths of the targets, a configuration (TBX_CONF_HEAP_SIZE, the address of the
--                 buffer), a port as an interface.
--   CritSect      TbxCriticalSectionEnter and TbxCriticalSectionExit as functions on the nesting
--                 counter, the saved and the current status register; CritSect/Nested what paired calls do.
--   Heap          TbxHeapAllocate and TbxHeapGetFree; Heap/Bounds one call, Heap/Requests many.
--   MemPool       MemPool/Store the structs in maps from addresses, and commands over them that end
--                 with a result, fault (NULL or nothing written there), or run out of fuel;
--                 MemPool/Block, MemPool/PoolList and MemPool/Api the functions. MemPool/View says
--                 what pools a state holds: the invariant IsPools. The other files prove what each
--                 function does to them, from the lists (Lists, Search, Replace, Frame) over single
--                 steps (Take, Given, InsertStep, InsertLoop, Insert, AddPool, AddBlock) to the API
--                 (Allocate, Give, Release, NewPool, NewBlock, Fill, Create, Exact, Refill, Auto);
--                 Disjoint and Fresh are about the bytes of the blocks, Holds about those of clients.
--                 MemPool/Client is a client that makes any series of calls.
--   LinkedList    source/tbx_list.c over the memory pools as an interface: the functions in Store, Read,
--                 Insert, Remove and Sort. Laws says what the interface has to keep; OnMemPool fills it
--                 with the memory pools and the critical sections. Chain says when the memory holds a
--                 chain of nodes, Open takes it apart at one, and Link, LinkEnds, LinkMiddle and Unlink
--                 put it together again; Returns is total correctness of a command; Sequence is the view
--                 of a list as the sequence of its items, Find the search, Ready the state that every
--                 function keeps. CreateItems, InsertItems (over Attempt and Insertions), RemoveItems,
--                 ReadItems, ClearItems, SwapItems (over SwapCells) and Sorted (over Exchange and
--                 SortItems) are about the functions.
--   Checksum      both checksums as one computation at two widths; Steps, Residue, Errors.
--   Random        the registers and the seeding; Shift, Numbers, Cycle.
--   Crypto        encryption and decryption in blocks over a cipher; RoundTrip.
--   FreeRtos      pvPortMalloc and vPortFree; the functions of FreeRTOS, traceMALLOC and the hook for a
--                 failed allocation are a parameter that sees the memory at each call; Malloc.
--   Cplusplus     source/extra/cplusplus/tbxcxx.cpp, the operators new and delete; Operators.
--   Assert        source/tbx_assert.c with assertions on; Handlers.
--   Platform      source/tbx_platform.c over the byte order of the hardware.
--   Ports         the AVR port. Ports/LinuxThreads is the Linux port with any number of threads and
--                 Ports/Rp2040 the RP2040 port on two cores, as steps of which each is one access to a
--                 shared variable, over a lock (Ports/Lock) that is a parameter.
--   Tests         runs at concrete inputs, and the properties at inputs that meet their hypotheses.
--
-- Bounds and fuel. A size_t is a native number with its wrap written out (% size_mod); an address is a
-- number. The loops over the list of pools run on heap_size + 1 rounds of fuel, which are enough since
-- every pool takes a byte of the heap at least: the invariant bounds their number by the bytes
-- allocated. The loops over a linked list run one round more than its node count.
--
-- What is not modelled. Outside of Assert, assertions are off, as by default, so TBX_ASSERT does nothing.
-- AES-256 (source/tbx_aes256.c) is a copy of another project and a parameter. The Cortex-M port is
-- assembly. In the Linux port each thread calls the two functions in turn, without nested calls.
-- In Ports/Rp2040 the status register that a spin lock saves is left out. The nodes of a list are kept
-- beside the structs of the memory pools, not in the same bytes.
pub mod Assert
pub mod Base
pub mod Target
pub mod Cplusplus
pub mod CritSect
pub mod Heap
pub mod MemPool
pub mod Checksum
pub mod Random
pub mod Crypto
pub mod LinkedList
pub mod FreeRtos
pub mod Platform
pub mod Ports
pub mod Tests
