-- ===== src/Buddy/Malloc/Call.antt =====
-- A whole call of `bd_malloc` of kernel/buddy.c, and of `kalloc` of kernel/kalloc.c, under the lock.
use oshard.Common.{ℕ, ◌^◌, ◌≤◌, ◌≡◌, refl, false, some, Result, ok}
use oshard.Spinlock.Nesting.{IsNested, saved, unlocked, acquire-free, release-acquire}
use oshard.Buddy.Blocks.{firstk}
use oshard.Buddy.Blocks.Sizes.{IsFirst, firstk-IsFirst}
use oshard.Buddy.Heap.{Heap, Kernel}
use oshard.Buddy.Lists.{FreeLists}
use oshard.Buddy.Invariant.{Invariant}
use oshard.Buddy.Malloc.{take_level, take_block, bd_malloc}
use oshard.Buddy.Malloc.Serve.{Outcome, exhausted, allocated, take_level-Outcome}

-- The kernel outside of a call: the lock is free and interrupts nest.
pub record IsIdle (s : Kernel) : Type 0 where
  pub nested : IsNested s.cpu
  pub free_lock : s.lock.locked ≡ false

-- The kernel after a call that leaves the allocator's state as `heap`.
abbrev pub after : Kernel → Heap → Kernel
after s heap = record { cpu = saved s.cpu; lock = unlocked; heap = heap }

Outcome-result :
    {lo : ℕ} {s : Heap} {fl : FreeLists} {fk : ℕ} {r : Result (ℕ × Heap)}
    → Outcome lo s fl fk r
    → (p : ℕ) × (s' : Heap) × (r ≡ ok (p, s')) × Outcome lo s fl fk (ok (p, s'))
Outcome-result {s} (exhausted none_free) = (0, s, refl, exhausted none_free)
Outcome-result (allocated {p} {s'} a) = (p, s', refl, allocated a)

take_block_lem : (s : Heap) (n fk : ℕ) → firstk n ≡ some fk → take_block s n ≡ take_level s fk
unfolding take_block
take_block_lem s n fk e = rw (e, take_block)

-- From the invariant, with the lock free, bd_malloc of up to 2 ^ 63 bytes returns without a panic,
-- frees the lock and restores interrupts; it returns 0 and leaves the state alone when no level
-- from the first large enough on has a free block, and else a block of that level that overlaps no
-- held block, all of which stay held, with the invariant again.
pub bd_malloc-Outcome :
    {lo : ℕ} {s : Kernel} {fl : FreeLists} (n : ℕ)
    → IsIdle s
    → Invariant lo s.heap fl
    → n ≤ 2 ^ 63
    → (fk p : ℕ) × (heap : Heap) × IsFirst n fk
      × (bd_malloc s n ≡ ok (p, after s heap))
      × Outcome lo s.heap fl fk (ok (p, heap))
unfolding bd_malloc
bd_malloc-Outcome {s} n idle w small =
    let (fk, found, first) = firstk-IsFirst n small in
    let (p, heap, run, out) = Outcome-result (take_level-Outcome fk w) in
    (
      fk,
      p,
      heap,
      first,
      rw (
        acquire-free s.cpu s.lock idle.free_lock,
        take_block_lem s.heap n fk found,
        run,
        release-acquire s.cpu idle.nested,
      ),
      out,
    )
