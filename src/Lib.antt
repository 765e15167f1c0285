-- ===== src/Lib.antt =====
-- UniAlloc, a memory allocator (directory unialloc of the repository): a verification library.
--
-- The parts of the program and how they interact. A request enters a thread cache (cache/), which
-- rounds it to a size class (size_class/) and serves it from a free list (mm/linklist.rs). The
-- cache takes batches of chunks from the slab allocator of that class (sc/efficient_sc.rs, one for
-- each class in zone.rs), which keeps its slabs in page lists; each slab has a header with a free
-- list (page/efficient_page.rs). Slabs come from the page backend (freelist/), headers and other
-- metadata from bump allocators (sc/mod.rs, page/mod.rs), and a radix tree (collections/) finds the
-- header of an address. All paths below are in unialloc/src.
--
-- The files, and the code that each models:
--   Base, and below it: numbers, tests, arrays, 64-bit words, and `Run`, the way a call ends.
--   SizeClass: size_class/mod.rs and tc_size_class.rs. Tables holds the constant tables. Fit and
--     Rounding are about `get_sizeclass_tuple2` and its users, Deprecated about
--     `get_size_class_index`, Search about `binary_search_size`. Small is small_size_class.rs, Mi
--     mi_size_class.rs.
--   Memory: the words that free chunks hold. Chain: chains of chunks, and facts on lists of addresses.
--   Linklist: mm/linklist.rs. Laws has its theorems.
--   Page: page/efficient_page.rs. Backing is `allocate_page` and `destroy_page`, Chunks the free list.
--   Bitfield: bits of words and arrays of words. Laws: setting and clearing a bit.
--   SeparatePage: page/separate_page.rs. Fit: what `first_fit` finds. Trips: a chunk that is
--     allocated and given back.
--   Buddy: buddy_system/buddy.rs. Space: the abstract view, and taking and giving back in it. Nodes:
--     the array as a tree. Taking, Giving: `allocate` and `deallocate` implement that. Trips: one
--     after the other. Fresh: the table of `new`.
--   Ring: circular doubly linked lists in general. Edit: insertion and removal.
--   Radix: collections/radix_tree.rs. Bottom and Head: the two levels. Lookup: the tree as a map of
--     pages. Slabs: `align_12k` and the tree entries of a slab, from sc/efficient_sc.rs. Wide:
--     collections/radix_tree_128.rs. Leaves: the arrays that its keys lead to. Keys: the tree of five
--     head levels as a map of keys.
--   ArrayList: collections/linklist.rs. Links: its invariant and the operations.
--   Queue: mpmc.rs, one thread at a time. Fifo: the queue as a bounded list. Threads: any number of
--     threads, as a step relation with one shared access a step. In it Invariant, and Claims, Cells and
--     Steps, which keep it, Safety, what follows from it, Calls, the moves of a thread that runs alone,
--     Admission, what it finds in a reachable state, Progress, its theorems, and Serial, which relates the
--     two models.
--   Bump: the bump allocators. Backend: freelist/bump.rs. Meta: sc/mod.rs. Pages: page/mod.rs. Ranges:
--     what is given out, and mmap and munmap, which are arguments. Fresh and Headers: the theorems.
--   FreeList: freelist/mod.rs, the page backend. Blocks: its abstract view, the free blocks of each
--     list. Marks: their entries in the tree. Moves, Joining: a block that leaves or joins a list.
--     Requests: the list for a size. Serving, Allocating: `alloc`. Freeing: `free`. Trips: one after the other. Global:
--     `BuddySystemAllocator`.
--   Slab: sc/efficient_sc.rs. Defs and Geometry: `SCAllocator::new`. Lists: the operations on the
--     page lists; Lists.Links: the theorems about them. World: what the slab allocators share. Batches:
--     the operations between the lists, the tree and the backend, and the two batch operations;
--     Moves, Reused, Renewed, Returned and Released have their theorems.
--   SeparateSc: sc/separate_sc.rs. Lists: its four lists by index. Chunks and Batches: the operations
--     on single chunks and on batches. Geometry: its constructor against that of the other variant.
--     Rings, Joining and Moves: the lists as rings, and a header that changes its list. Relisting: the
--     four lists after chunks came back.
--   Zone: zone.rs, a slab allocator for each class, and `ZoneCalls`, what a thread cache sees of it.
--     Slots: what its constructor builds.
--   Cache: cache/thread_cache.rs over any `ZoneCalls`. Units: the loops over the range of a unit, and
--     `IsStore`, by which the words of chunks are a part of the zone. Reuse, Refill: `allocate` with
--     and without a fitting chunk. Cleanup: `clean_up`. Trips: a chunk that comes back and goes out.
--     Joined: the cache on the zone of zone.rs.
--   Allocator: cache/mod.rs, what a program calls. Realloc: `realloc` in place and with a move.
--
-- Conventions. A function that mutates takes the state and returns the new one. A call returns
-- `ok`, or `panic` (a failed assertion, an index out of bounds, `expect` on nothing), or the fuel of
-- the model runs out. `usize` is 64 bits and wraps, as the build has overflow checks off. A debug
-- assertion counts as an assertion. Loops over a list in memory take fuel; the theorems on them say
-- that the fuel is enough: `scan` gets the length of its list, `walk` the number of chunks that are
-- out, `search_loop` one round more than its range has entries. `deallocate_batch` takes its rounds
-- as an argument: one more than the batch has chunks, since each takes back at least one. The same
-- holds for the loops of SeparateSc.Batches; `search_partial` gets the length of its list, and the
-- loops of the cache one round more than a range has chunks, `split_larger` the number of lists left.
-- A run of many threads on the queue has fewer than 2^64 - n steps, n the number of cells, so that no
-- position wraps. PAGE_SIZE is written by build.rs and is a parameter.
--
-- The page backend marks its free blocks in the same radix tree that the slab allocators enter their
-- slabs in. Both slab allocators take the calls of the backend as arguments, which get that tree and may
-- change it: what is said of the tree after such a call is said of the tree that the call returned.
-- The links that the backend writes into its free blocks are a state of FreeList apart from the words of
-- chunks, since a free block holds no chunk.
--
-- The feature fixed_heap is off, except where a name or a comment says so.
--
-- Not modelled: threads, atomics and locks but for the queue, so each other operation runs alone, and
-- the weak order of the accesses of the queue; the operating system interface (pal/), benchmarks, the
-- kernel module, and the parts that the manifest lists.
pub mod Base
pub mod SizeClass
pub mod Radix
pub mod ArrayList
pub mod Bump
pub mod Allocator
pub mod Queue
pub mod Slab
pub mod Zone
pub mod Cache
pub mod Bitfield
pub mod SeparatePage
pub mod SeparateSc
pub mod Buddy
pub mod Memory
pub mod FreeList
pub mod Linklist
pub mod Page
pub mod Ring
