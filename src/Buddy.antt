-- ===== src/Buddy.antt =====
-- kernel/buddy.c: the buddy allocator, and kernel/kalloc.c, its page interface.
pub mod Bits
pub mod Blocks
pub mod Heap
pub mod View
pub mod Lists
pub mod Whole
pub mod Paired
pub mod Invariant
pub mod Malloc
pub mod Free
pub mod Init
mod Tests
