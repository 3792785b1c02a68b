-- ===== src/Buddy/Malloc.antt =====
-- kernel/buddy.c, `bd_malloc`, and kernel/kalloc.c, `kalloc`.
pub mod Serve
pub mod Call
use oshard.Common.{
  ℕ, zero, suc, ◌+◌, ◌-◌, ◌*◌, ◌/◌, ◌%◌, ◌^◌, Bool, not, Option, none, some, Result, ok, panic,
  loops, ◌>>=◌, ◌==◌, ltb, if◌then◌else◌,
}
use oshard.LinkedList.{lst_empty, lst_pop, lst_push}
use oshard.Spinlock.{acquire, release}
use oshard.Buddy.Bits.{bit_set, bit_invert}
use oshard.Buddy.Blocks.{blk_size, blk_index, firstk}
use oshard.Buddy.Heap.{Heap, Kernel, free_list, size_info, set_alloc, set_split, set_links}

-- `for (k = fk; k < nsizes; k++) if (!lst_empty(&bd_sizes[k].free)) break;` with the rounds left
unfoldable pub find_free : ℕ → Heap → ℕ → ℕ
find_free zero s k = k
find_free (suc rounds) s k =
    let rest = find_free rounds s (k + 1) in if lst_empty s.links (free_list s k) then rest else k

-- one round of `for (; k > fk; k--)`: split `p` of level k + 1, put its upper half on level k
unfoldable pub split_block : Heap → ℕ → ℕ → Heap
split_block s k p =
    let q = (p + blk_size k) % 2 ^ 64 in
    let s1 =
      set_split s (k + 1) (bit_set (size_info s (k + 1)).split (blk_index s.base (k + 1) p)) in
    let s2 = set_alloc s1 k (bit_invert (size_info s1 k).alloc (blk_index s.base k p / 2)) in
    set_links s2 (lst_push s2.links (free_list s2 k) q)

-- the loop itself, from level fk + d down to fk
unfoldable pub split_down : ℕ → Heap → ℕ → ℕ → Heap
split_down zero s fk p = s
split_down (suc d) s fk p = split_down d (split_block s (fk + d) p) fk p

-- from the search for a free block on, with the level `fk` that `firstk` gives
unfoldable pub take_level : Heap → ℕ → Result (ℕ × Heap)
unfolding find_free split_block split_down
take_level s fk =
    let k = find_free (s.nsizes - fk) s fk in
    if ltb k s.nsizes
    then (do
      (p, links) ← lst_pop s.links (free_list s k)
      let s1 = set_links s links
      let s2 = set_alloc s1 k (bit_invert (size_info s1 k).alloc (blk_index s1.base k p / 2))
      ok (p, split_down (k - fk) s2 fk p))
    else ok (0, s)

-- the code between `acquire` and the two `release`s; with `firstk` it never ends
unfoldable pub take_block : Heap → ℕ → Result (ℕ × Heap)
unfolding take_level
take_block s nbytes = elim (firstk nbytes) [ none ↦ loops | some fk ↦ take_level s fk ]

unfoldable pub bd_malloc : Kernel → ℕ → Result (ℕ × Kernel)
unfolding take_block
bd_malloc s nbytes = do
  (cpu, lock) ← acquire s.cpu s.lock
  (p, heap) ← take_block s.heap nbytes
  (cpu', lock') ← release cpu lock
  ok (p, record s { cpu = cpu'; lock = lock'; heap = heap })

-- kernel/kalloc.c
unfoldable pub kalloc : Kernel → Result (ℕ × Kernel)
unfolding bd_malloc
kalloc s = bd_malloc s 4096
