-- ===== src/Lib.antt =====
-- A verification library for SimpleSSD, a simulator of a solid state drive.
--
-- The program is a stack of layers. A host interface (hil/) takes commands from queues in host
-- memory, a cache (icl/) keeps lines, the flash translation layer (ftl/) maps logical pages to pages
-- of flash blocks, and the parallelism layer (pal/) times the flash chips; dram/ and cpu/ time the
-- memory and the firmware. Each call moves a tick, the simulated time.
--
-- Files and the code that they model:
--   Base         numbers, lists, bits of a byte, maps, and runs that may panic (`panic` of
--                sim/log.hh, or an exception of `vector::at`)
--   Util/Bitset  util/bitset.cc: `Bitset`, with each loop over bytes as a function on a list. Byte
--                has the operations on one byte and `popcount` of util/algorithm.hh
--   Ftl/Block    ftl/common/block.cc: `Block`, in its two representations: one unit in a page, or
--                several. Create, Write, Clear and Count are about groups of its methods, and View
--                says what a block holds, whichever representation it has, with the invariant
--   Ftl/PageMapping  ftl/page_mapping.cc. State has the class and the requests of util/def.hh; Alloc
--                getFreeBlock() and getLastFreeBlock(); Access readInternal(), trimInternal() and
--                writeInternal() up to the call of the garbage collector (`write_pages`); Create the
--                constructor; Recycle eraseInternal(); Victim selectVictimBlock(); Collect
--                doGarbageCollection() and the whole writeInternal(); Upkeep write(), format(),
--                getStatus() and initialize(); Handlers read() and trim(). The other files have the theorems: Consistent
--                says how the table and the blocks agree, Open how the free and the open blocks are
--                kept, and Write joins the two in the invariant
--   Ftl/Front    ftl/ftl.cc: the sizes of the FTL, and its calls of the mapping
--   Pal          pal/pal.cc and pal/pal_old.cc: Address has the sizes of super blocks and
--                convertCPDPBP(), and InRange the theorem on the pages that it lists
--   Icl/Cache    icl/generic_cache.cc. State has the class and its constructor, Ways the searches of a
--                set and the policies, Evict evictCache(), Fetch read() with the read ahead, Store
--                write(), and Ranges flush(), trim() and format(). The other files have the theorems:
--                Coherent is the invariant, Evictions and Chosen say what an eviction does and which
--                victims write() chooses, Cleared and Flushes are about ranges, and Clean and Misses
--                about the read that drops a dirty line
--   Icl/Front    icl/icl.cc: the layer above the cache. Split and Keeps have the theorems
--   Icl/Stack    how ICL::ICL() puts the cache on the FTL: the `Lower` that Ftl/Front makes
--   Hil/Nvme/Queue  hil/nvme/queue.cc: the rings of the submission and completion queues
--
-- How code becomes definitions. A method takes the object and returns the new one; a method that can
-- panic returns a Result. The names are those of the source in snake case. The unordered maps are
-- association lists, and an iterator is a key. A uint32_t or uint16_t that the code computes is
-- reduced modulo its range, and the theorems ask for sizes below it; ticks and LPNs are plain
-- numbers. Loops run over the indices that are left, a count that each caller gives in full, so there
-- is no fuel. Calls of the PAL, the DRAM and the CPU model are functions of a record `Hardware`; they
-- get the request and the clock, and can change no part of the mapping. The cache calls the FTL, the
-- DRAM and the CPU model by a record `Lower` in the same way. A call of the FTL can panic, which stops
-- the program: the device then records the panic (`stopped`), no later call of the FTL runs, and the
-- operation ends in that panic, as Icl/Stack spells out: write() of the cache itself, while read(),
-- flush(), trim() and format() hand the device to Icl/Front, which looks at it. A pointer to a line of
-- the cache is its set and way.
--
-- Not modelled: copies and destructors, which are values here; debug output; the statistics; the
-- policies that draw random numbers; the other layers. Floats are parameters: the ratios that the
-- collector compares with are functions of the numbers of blocks, and weights have an abstract order.
-- doGarbageCollection() passes an uninitialized tick to the blocks, which is a parameter as well.
pub mod Base
pub mod Util
pub mod Ftl
pub mod Pal
pub mod Icl
pub mod Hil
