-- ===== src/Buddy/Init.antt =====
-- kernel/buddy.c, the start of the allocator: `bd_mark`, `bd_initfree_pair`, `bd_initfree`,
-- `bd_mark_data_structures`, `bd_mark_unavailable` and `bd_init`. Block numbers and byte counts are
-- below 2 ^ 31, so that an `int` is its number.
mod Mark
pub mod Levels
pub mod InUse
mod Tests
use oshard.Common.{
  ℕ, zero, suc, ◌+◌, ◌-◌, ◌*◌, ◌/◌, ◌%◌, ◌^◌, Bool, true, false, not, ◌&&◌, ◌||◌, List, [], ◌∷◌,
  ◌++◌, Option, none, some, Result, ok, panic, loops, ◌>>=◌, ◌==◌, ltb, leb, if◌then◌else◌,
  replicate,
}
use oshard.LinkedList.{Links, lst_init, lst_push}
use oshard.Buddy.Bits.{bit_isset, bit_set, bit_invert}
use oshard.Buddy.Blocks.{
  leaf_size, blk_size, roundup, log2, to_int, blk_index, addr, blk_index_next, buddy_of,
}
use oshard.Buddy.Heap.{
  SzInfo, Heap, max_size, free_list, size_info, set_alloc, set_split, set_links,
}

-- one round of the inner loop of `bd_mark`
unfoldable pub mark_block : Heap → ℕ → ℕ → Heap
mark_block s k bi =
    let s1 = if ltb 0 k then set_split s k (bit_set (size_info s k).split bi) else s in
    set_alloc s1 k (bit_invert (size_info s1 k).alloc (bi / 2))

-- `for (; bi < bj; bi++)` with the rounds left
unfoldable pub mark_level : ℕ → Heap → ℕ → ℕ → Heap
unfolding mark_block
mark_level zero s k bi = s
mark_level (suc rounds) s k bi = mark_level rounds (mark_block s k bi) k (bi + 1)

-- `for (int k = 0; k < nsizes; k++)` with the rounds left
unfoldable pub mark_sizes : ℕ → Heap → ℕ → ℕ → ℕ → Heap
unfolding mark_level
mark_sizes zero s k start stop = s
mark_sizes (suc rounds) s k start stop =
    let bi = blk_index s.base k start in
    let bj = blk_index_next s.base k stop in
    mark_sizes rounds (mark_level (bj - bi) s k bi) (k + 1) start stop

unfoldable pub bd_mark : Heap → ℕ → ℕ → Result Heap
unfolding mark_sizes
bd_mark s start stop =
    if not (start % leaf_size == 0) || not (stop % leaf_size == 0)
    then panic "bd_mark"
    else ok (mark_sizes s.nsizes s 0 start stop)

-- the bytes put on the free list, and the state
unfoldable pub bd_initfree_pair : Heap → ℕ → ℕ → Bool → ℕ × Heap
bd_initfree_pair s k bi is_right =
    let block = if is_right then buddy_of bi else bi in
    if bit_isset (size_info s k).alloc (bi / 2)
    then (to_int (blk_size k), set_links s (lst_push s.links (free_list s k) (addr s.base k block)))
    else (0, s)

-- `for (int k = 0; k < MAXSIZE; k++)` with the rounds left, and the bytes counted so far
unfoldable pub initfree_loop : ℕ → Heap → ℕ → ℕ → ℕ → ℕ → ℕ × Heap
unfolding bd_initfree_pair
initfree_loop zero s k free bd_left bd_right = (free, s)
initfree_loop (suc rounds) s k free bd_left bd_right =
    let left = blk_index_next s.base k bd_left in
    let right = blk_index s.base k bd_right in
    let l = bd_initfree_pair s k left false in
    let r = if leb right left then (0, l.1) else bd_initfree_pair l.1 k right true in
    initfree_loop rounds r.1 (k + 1) (to_int (free + l.0 + r.0)) bd_left bd_right

unfoldable pub bd_initfree : Heap → ℕ → ℕ → ℕ × Heap
unfolding initfree_loop
bd_initfree s bd_left bd_right = initfree_loop (max_size s) s 0 0 bd_left bd_right

unfoldable pub bd_mark_data_structures : Heap → ℕ → Result (ℕ × Heap)
unfolding bd_mark
bd_mark_data_structures s p = do
  s1 ← bd_mark s s.base p
  ok (to_int ((p + 2 ^ 64 - s.base) % 2 ^ 64), s1)

-- `BLK_SIZE(MAXSIZE) - (end - bd_base)` is not negative: `bd_init` takes a size above `end - bd_base`.
unfoldable pub bd_mark_unavailable : Heap → ℕ → Result (ℕ × Heap)
unfolding bd_mark
bd_mark_unavailable s end =
    let whole = blk_size (max_size s) in
    let over = to_int ((whole + (2 ^ 64 - (end + 2 ^ 64 - s.base) % 2 ^ 64)) % 2 ^ 64) in
    let unavailable = if ltb 0 over then roundup over leaf_size else over in
    (do
      s1 ← bd_mark s ((s.base + whole + 2 ^ 64 - unavailable) % 2 ^ 64) ((s.base + whole) % 2 ^ 64)
      ok (unavailable, s1))

-- `NBLK(k)`
abbrev pub nblk : ℕ → ℕ → ℕ
nblk max k = 2 ^ (max - k)

-- the bytes of the alloc array and of the split array of level `k`
abbrev pub alloc_array_bytes : ℕ → ℕ → ℕ
alloc_array_bytes max k = roundup (nblk max k) 16 / 16

abbrev pub split_array_bytes : ℕ → ℕ → ℕ
split_array_bytes max k = if k == 0 then 0 else roundup (nblk max k) 8 / 8

-- The levels from `k` on, with the empty lists and cleared arrays that `bd_init` gives them, and the
-- bytes of their arrays; level 0 has no split array.
unfoldable pub make_sizes : ℕ → ℕ → ℕ → List SzInfo × ℕ
make_sizes zero max k = ([], 0)
make_sizes (suc rounds) max k =
    let rest = make_sizes rounds max (k + 1) in
    (
      record {
        alloc = replicate (alloc_array_bytes max k) 0;
        split = replicate (split_array_bytes max k) 0;
      }
          ∷ rest.0,
      alloc_array_bytes max k + split_array_bytes max k + rest.1,
    )

-- `lst_init(&bd_sizes[k].free)` for each size
unfoldable pub init_lists : ℕ → ℕ → Links → Links
init_lists zero head m = m
init_lists (suc rounds) head m = init_lists rounds (head + 32) (lst_init m head)

-- `nsizes`, for a memory of `n` bytes
unfoldable pub count_sizes : ℕ → Option ℕ
count_sizes n = elim (log2 (n / leaf_size)) [
  | none ↦ none
  | some k ↦ some (if ltb (blk_size k) n then k + 2 else k + 1)
]

-- the heap with its arrays laid out from `p` on, and the first address after them
unfoldable pub lay_out : Links → ℕ → ℕ → Heap × ℕ
unfolding make_sizes init_lists
lay_out m p nsizes =
    let made = make_sizes nsizes (nsizes - 1) 0 in
    (
      record {
        nsizes = nsizes;
        base = p;
        sizes_at = p;
        sizes = made.0;
        links = init_lists nsizes p m;
      },
      roundup ((p + 32 * nsizes + made.1) % 2 ^ 64) leaf_size,
    )

-- from the arrays on
unfoldable pub fill : Heap → ℕ → ℕ → Result Heap
unfolding bd_mark_data_structures bd_mark_unavailable bd_initfree
fill s p end = do
  (meta, s1) ← bd_mark_data_structures s p
  (unavailable, s2) ← bd_mark_unavailable s1 end
  let whole = blk_size (max_size s2)
  let filled = bd_initfree s2 p ((s2.base + whole + 2 ^ 64 - unavailable) % 2 ^ 64)
  if filled.0 == (whole + (2 ^ 64 - meta) + (2 ^ 64 - unavailable)) % 2 ^ 64
      then ok filled.1
      else panic "bd_init: free mem"

-- `initlock` names the lock and frees it; the lock stands beside this state.
unfoldable pub bd_init : Links → ℕ → ℕ → Result Heap
unfolding count_sizes lay_out fill
bd_init m base end =
    let p = roundup base leaf_size in
    elim (count_sizes ((end + 2 ^ 64 - p) % 2 ^ 64)) [
      | none ↦ loops
      | some nsizes ↦ (let made = lay_out m p nsizes in fill made.0 made.1 end)
    ]
