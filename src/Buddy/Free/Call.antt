-- ===== src/Buddy/Free/Call.antt =====
-- A whole call of `bd_free` of kernel/buddy.c under the lock.
use oshard.Common.{ℕ, ◌-◌, ◌<◌, ◌≡◌, refl, ok, arith}
use oshard.Spinlock.Nesting.{acquire-free, release-acquire}
use oshard.Buddy.Heap.{Heap, Kernel, max_size}
use oshard.Buddy.View.{at}
use oshard.Buddy.Lists.{FreeLists}
use oshard.Buddy.Invariant.{Invariant, IsHeld}
use oshard.Buddy.Malloc.Call.{IsIdle, after}
use oshard.Buddy.Free.{free_block, bd_free}
use oshard.Buddy.Free.Size.{size-level, held_level}
use oshard.Buddy.Free.Merge.{Freed, merge-Freed}

pub free_block-Freed :
    {lo : ℕ} {s : Heap} {fl : FreeLists} (k i : ℕ)
    → 0 < lo
    → Invariant lo s fl
    → IsHeld lo s fl k i
    → Freed lo s fl k i (free_block s (at s.base k i))
unfolding free_block
free_block-Freed {s} k i pos w held = rw (size-level pos w held) (
    merge-Freed (max_size s - k) k i (at s.base k i) (let lt = held_level pos held in omega arith)
      refl w held)

-- From the invariant, with the lock free, and when the managed memory does not begin at leaf 0,
-- bd_free of the address of a held block returns without a panic, frees the lock and restores
-- interrupts and the invariant. The leaves that free blocks cover are then those from before and
-- those of the freed block, no others; the freed block lies in one free block, of its own level or
-- higher, whose buddy is not free unless it is of the top level; every other held block that does
-- not overlap the freed one stays held.
pub bd_free-Freed :
    {lo : ℕ} {s : Kernel} {fl : FreeLists} (k i : ℕ)
    → 0 < lo
    → IsIdle s
    → Invariant lo s.heap fl
    → IsHeld lo s.heap fl k i
    → (bd_free s (at s.heap.base k i) ≡ ok (after s (free_block s.heap (at s.heap.base k i))))
      × Freed lo s.heap fl k i (free_block s.heap (at s.heap.base k i))
unfolding bd_free
bd_free-Freed {s} k i pos idle w held = (
  rw (acquire-free s.cpu s.lock idle.free_lock, release-acquire s.cpu idle.nested),
  free_block-Freed k i pos w held,
)
