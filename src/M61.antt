-- ===== src/M61.antt =====
-- Assign1/m61.c: the debugging allocator.
pub mod State
pub mod Hitters
pub mod Malloc
pub mod Free
pub mod Chain
pub mod Linked
pub mod Unlinked
pub mod Frees
pub mod Sizes
pub mod Sorting
mod Accepted
mod Report
mod Tests
