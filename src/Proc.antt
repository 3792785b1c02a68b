-- ===== src/Proc.antt =====
-- kernel/proc.c and kernel/proc.h: the process table. A pointer into the table is an index. Each
-- function runs from the first lock that it takes to the last that it gives up, as one step; the
-- locks themselves are those of `Spinlock` and are not part of this state.
pub mod Table
pub mod Sleep
pub mod Life
pub mod Tree
pub mod Exit
pub mod Born
pub mod Fork
pub mod Wait
pub mod Steps
pub mod Killed
mod Tests
