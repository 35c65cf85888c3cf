-- ===== src/Lib.antt =====
-- A verification of Boxroot: roots for the OCaml GC that foreign code can create, delete and
-- modify (boxroot/boxroot.c and boxroot/boxroot.h), and of three other implementations of the same
-- interface (boxroot/dll_boxroot.c, boxroot/bitmap_boxroot.c and boxroot/rem_boxroot.c).
--
-- A boxroot is a slot in a pool, an aligned block of BXR_POOL_SIZE bytes. A slot holds a value, or
-- is in one of the pool's two free lists, linked through the slots: the free list of the owning
-- domain, and the delayed free list of remote deallocations. The pools of a domain stand in four
-- rings by class (old, young, current, free); those of terminated domains are orphans. The GC
-- scans the rings, and before it does so carries out the delayed deallocations.
--
-- Files:
--   Prelude, Prelude/*   names of the libraries, tests on numbers, lists, memories
--   Words, Words/*       address arithmetic, int counters, the parameters of the platform
--   Ring, Ring/*         the cyclic lists of pools: ring_link, ring_push_back, ring_pop, loops
--   Pool                 one pool: create and delete at the fast path, free_slot_atomic, gc_pool,
--                        get_empty_pool, scan_pool_gen, scan_pool_young, validate_pool
--   Pool/Invariant       well-formed pools, and a pool as a map from boxroots to values
--   Pool/*               the theorems on these operations
--   Boxroot/State        the globals, and `pool **` as places
--   Boxroot/Classes      reclassify_pool, try_demote_pool, find_and_set_available_pool, ...
--   Boxroot/Collect      gc_ring, orphan_pools, adopt_orphaned_pools, scan_roots, ...
--   Boxroot/Api          boxroot_create, boxroot_delete, boxroot_modify, setup, boxroot_teardown
--   Boxroot/Rings        the rings of all domains and of the orphans as lists, at once
--   Boxroot/Reclassify, Boxroot/Rounds, Boxroot/Moves, Boxroot/Release
--                        the class changes of pools, seen on these lists
--   Boxroot/Heap         the well-formed states of the whole allocator: rings, pools, current free
--                        lists, the static variable empty_fl, the memory to come
--   Boxroot/Heap/*       the operations on these states, up to `boxroot_create` (Boxroot/Heap/Call),
--                        `boxroot_delete`, `boxroot_modify` and `scan_roots` (Boxroot/Heap/ScanRoots)
--   Boxroot/Heap/Tags    the class and the domain that each pool bears, by the ring that it is in
--   Boxroot/Heap/Gc*     gc_ring: the rounds, the two loops, and both rings of a domain
--   Boxroot/Heap/First   the first call of `boxroot_create`, from the static initialisers
--   Boxroot/Orphans      ring_push_back of boxroot.c with its assertions, and orphan_pools
--   Hooks, Hooks/*       boxroot/ocaml_hooks.c: installation, and the count of minor collections
--   Dll, Dll/*           boxroot/dll_boxroot.c: each root is an element of a ring of its own
--   Bitmap, Bitmap/*     boxroot/bitmap_boxroot.c: chunks of 64 roots with a bitmap of the free ones
--   Boxroot/Validate     validate_ring and validate_all_pools
--   Rem, Rem/*           boxroot/rem_boxroot.c: young roots are in the remembered set; a pool with its
--                        two free lists is Rem/Invariant
--
-- An address or value is a natural number, memory is a function of an address, an int is its
-- 32-bit pattern with wrap-around written out, and masks by the pool size are divisions. A C
-- function is a function of the state with the same name; `none` is a loop that has run out of
-- fuel, a failed assertion, a read past a pool, or a write through a NULL that an allocation has
-- returned. There is one exception: where pools[dom_id] of boxroot.c is NULL, a read of its rings
-- gives empty rings and a write makes them. The operations test it first or come behind a test; a
-- theorem asks for a domain with rings, or for domain 0, of which only the free list is set before
-- its rings are. Loops over the slots of a pool run on the slots that are left, loops over rings
-- on fuel: as much as there are nodes is enough (Ring/Walk, Boxroot/Rounds, Boxroot/Release),
-- twice that for gc_ring, which goes over the ring again if its last pool comes to the front
-- (Boxroot/Heap/GcRing), and one round more than there are young pools for `boxroot_create`, which
-- needs three levels of its calls of itself (Boxroot/Heap/Call).
--
-- Parameters of the model (Words: Runtime, IsRuntime): sizeof(pool), which contains a pthread
-- mutex; OCAML_MULTICORE; the bounds of the minor heap; Is_block and Is_young. The answers of
-- posix_memalign are a list in the state.
--
-- Not modelled: mutexes and memory orders (each operation is one step), statistics and their
-- printing, the debug assertions of boxroot.c and rem_boxroot.c outside their validation, but for
-- those of gc_pool_rings, of domain_termination_callback, and of ring_push_back where orphan_pools
-- calls it (Boxroot/Orphans), the scanning callback of rem_boxroot.c, boxroot/arena.h, the
-- benchmarks and the Rust bindings.
pub mod Prelude
pub mod Words
pub mod Ring
pub mod Pool
pub mod Boxroot
pub mod Dll
pub mod Hooks
pub mod Bitmap
pub mod Rem
