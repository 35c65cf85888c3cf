-- ===== src/Boxroot.antt =====
-- The allocator of boxroot/boxroot.c as a whole: its globals, the pool rings of the domains, the
-- classes of pools, the API and the GC hooks.
-- `pool **` arguments are places: a field of a domain's rings, a field of `orphan`, or a local
-- variable. Loops over rings take fuel, and `none` is a loop that has run out of it or a failed
-- assertion. Statistics and mutexes are left out, and so are debugging checks but for those of Validate.
pub mod State
pub mod Classes
pub mod Collect
pub mod Api
pub mod Validate
pub mod Rings
pub mod Reclassify
pub mod Rounds
pub mod Moves
pub mod Release
pub mod Heap
mod Tests
mod RingTests
mod HeapTests
mod RootTests
pub mod Orphans
mod ScanTests
mod GcTests
