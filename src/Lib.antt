-- ===== src/Lib.antt =====
-- The low-level runtime of ElySquare: how it takes memory from the operating system, hands it out,
-- and packs values into words.
--
-- The parts, from the bottom up, and the files that model them. Paths are from the repository's root.
--   OsMem        lowcode/include/platform/os_mem.h, lowcode/source/platform/os_mem.cpp: reserving,
--                committing and releasing pages. The kernel is a parameter, a record of its answers;
--                the requests that are made of it are kept as a list of events.
--   PageBitmap   the loops over a segment's bitmap in lowcode/source/allocators/page_mgr.cpp.
--   PageManager  lowcode/include/allocators/page_mgr.h and page_mgr.cpp: PageManager with its list of
--                segments; requestPageChunk, releasePageChunk, constructor and destructor.
--                PageManager.History has what clients do with it.
--   PageSource   the interface through which the allocators use ESPageManager, as long as that grants
--                what it is asked for. PageSource.Counter is an instance for tests.
--   Arena        lowcode/include/allocators/arena.h, lowcode/source/allocators/arena.cpp.
--   FreeList     chains of free blocks, whose pointers lie in the blocks; Block and MetaArena use it.
--   Block        lowcode/include/allocators/block.h, lowcode/source/allocators/block.cpp.
--   MetaArena    lowcode/include/meta/meta_arena.h, lowcode/source/meta/meta_arena.cpp: recycling
--                above an Arena.
--   Buddy        lowcode/include/allocators/buddy.h, lowcode/source/allocators/buddy.cpp. Buddy.Blocks
--                has the abstract view, which blocks start where; Buddy.Heap ties it to the headers
--                and the bins, and Buddy.History to what a client does.
--   Tlab         lowcode/include/allocators/tlab.h, lowcode/source/allocators/tlab.cpp: forwards to it.
--   ShapeMap     lowcode/include/meta/shape_map.h: properties, transitions and flags of shapes, and
--                makePropertyInShape of lowcode/source/meta/shape_map.cpp. ShapeMap.Heap has the shapes
--                of one arena and how they are made, ShapeMap.Heap.Sweep how they are killed.
--   ExBox        lowcode/include/meta/exbox_core.h: tagged 64-bit values.
--   Atoms        lowcode/include/meta/starid.h, lowcode/source/meta/starid.cpp: atoms as texts.
--                Atoms.Table has ALAR, the table of the strings with a star atom.
--   InlineCache  lowcode/include/meta/inline_cache_gc.h: the caches at a place in compiled code.
--   Panics       lowcode/include/errors/panic.h, lowcode/source/errors/panic.cpp: what a panic and a
--                warning write. The system's stack trace is a parameter.
--   Atomics      lowcode/include/platform/atomics.h, with the compilers' intrinsics as a parameter.
--   Base         Boolean tests, lists by native index, searching loops, machine words, digits of
--                numbers, and the outcome of code that may panic or be undefined.
--
-- Functions keep the source's names in snake case; constructors are named after their class, and
-- destructors are release_segments, destroy, destroy_meta and destroy_tlab. A loop's body is often a
-- function of its own. Unsigned arithmetic is on natural numbers with the wrap-around written out. A
-- pointer is its address, a null pointer `none`; a function that only passes on a null pointer is
-- modelled for the others, as its comment says. Memory that an allocator writes itself (the next
-- pointers of free blocks, the buddy headers) is a function of the address, arbitrary at first.
--
-- Bounds. Searching a word of the bitmap takes 65 rounds at most, since each round passes one digit
-- at least and one more sees the end: scan_words never runs out. request_page_chunk counts the calls
-- of requestPageChunk, and one is enough: the first call grants, panics or faults. The merging of buddies counts the
-- orders below the largest. The sweep of shapes and the depth of a shape take fuel: one
-- round for each shape of the list is enough for the sweep.
--
-- Assumptions. The heap of shapes is apart from the arrays of properties and transitions, and what is
-- left at a killed shape is arbitrary. The links of a free buddy block lie at its bytes 16 to 23, so from
-- blocks of 32 bytes on no two headers share a byte; for blocks of 16 bytes the shared byte is modelled,
-- but clients in Buddy.History ask for more than 16 bytes. They write only to the 2 ^ order - 16 bytes
-- behind a header, which may be fewer than they asked for, since sizeToOrder leaves out the header. A
-- text is the bytes that can be read from its start on, and the texts in an arena do not overlap. Memory
-- that is reserved and not committed faults when it is written, so a page manager cannot make a segment;
-- what PageManager shows of requests and releases starts from a manager with given segments.
--
-- Not modelled: the Windows branches of OsMem and DEBUG builds; the kernel, the system's stack trace
-- and compiler intrinsics, which are not this program's code; objects and their lookups, which the inline
-- caches call and no file declares; and the parts whose files are still empty (the thread's context,
-- collector, serializer, mailboxes, type registry, safepoints, handles).
pub mod Base
pub mod OsMem
pub mod PageBitmap
pub mod PageManager
pub mod PageSource
pub mod FreeList
pub mod Arena
pub mod Block
pub mod MetaArena
pub mod Buddy
pub mod Tlab
pub mod ShapeMap
pub mod ExBox
pub mod Atoms
pub mod InlineCache
pub mod Panics
pub mod Atomics
