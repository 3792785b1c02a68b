-- ===== src/Buddy/Free.antt =====
-- kernel/buddy.c, `size` and `bd_free`, and kernel/kalloc.c, `kfree`.
pub mod Size
pub mod Leaves
pub mod Merge
pub mod Call
use oshard.Common.{
  ℕ, zero, suc, ◌+◌, ◌-◌, ◌*◌, ◌/◌, ◌%◌, ◌^◌, Bool, not, Option, none, some, Result, ok, panic,
  loops, ◌>>=◌, ◌==◌, ltb, if◌then◌else◌,
}
use oshard.LinkedList.{lst_remove, lst_push}
use oshard.Spinlock.{acquire, release}
use oshard.Buddy.Bits.{bit_isset, bit_clear, bit_invert}
use oshard.Buddy.Blocks.{blk_size, blk_index, addr, buddy_of}
use oshard.Buddy.Heap.{
  Heap, Kernel, max_size, free_list, size_info, set_alloc, set_split, set_links,
}

-- `for (int k = 0; k < nsizes; k++) if (bit_isset(bd_sizes[k + 1].split, ...)) return k;`
unfoldable pub size_loop : ℕ → Heap → ℕ → ℕ → ℕ
size_loop zero s k p = 0
size_loop (suc rounds) s k p =
    let rest = size_loop rounds s (k + 1) p in
    if bit_isset (size_info s (k + 1)).split (blk_index s.base (k + 1) p) then k else rest

-- The last round reads past the end of `bd_sizes`, where there is no bit here.
unfoldable pub size : Heap → ℕ → ℕ
unfolding size_loop
size s p = size_loop s.nsizes s 0 p

-- The rounds left of `for (k = size(p); k < MAXSIZE; k++)`, and the `lst_push` behind it.
unfoldable pub merge : ℕ → Heap → ℕ → ℕ → Heap
merge zero s k p = set_links s (lst_push s.links (free_list s k) p)
merge (suc rounds) s k p =
    let bi = blk_index s.base k p in
    let buddy = buddy_of bi in
    let s1 = set_alloc s k (bit_invert (size_info s k).alloc (buddy / 2)) in
    let q = addr s.base k buddy in
    let p' = if buddy % 2 == 0 then q else p in
    let s2 = set_links s1 (lst_remove s1.links q) in
    let s3 =
      set_split s2 (k + 1) (bit_clear (size_info s2 (k + 1)).split (blk_index s.base (k + 1) p')) in
    let rest = merge rounds s3 (k + 1) p' in
    if bit_isset (size_info s1 k).alloc (buddy / 2)
    then set_links s1 (lst_push s1.links (free_list s1 k) p)
    else rest

-- the code between `acquire` and `release`
unfoldable pub free_block : Heap → ℕ → Heap
unfolding size merge
free_block s p = let k = size s p in merge (max_size s - k) s k p

unfoldable pub bd_free : Kernel → ℕ → Result Kernel
unfolding free_block
bd_free s p = do
  (cpu, lock) ← acquire s.cpu s.lock
  let heap = free_block s.heap p
  (cpu', lock') ← release cpu lock
  ok (record s { cpu = cpu'; lock = lock'; heap = heap })

-- kernel/kalloc.c
unfoldable pub kfree : Kernel → ℕ → Result Kernel
unfolding bd_free
kfree = bd_free
