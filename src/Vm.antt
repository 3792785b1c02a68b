-- ===== src/Vm.antt =====
-- kernel/vm.c, with the page table entries of kernel/constants.h: Sv39 page tables in memory.
-- Memory is seen by words, as page tables are, and by bytes, as the pages of a process are; a page
-- of memory is used in one of the two ways. `kalloc` and `kfree` of kernel/kalloc.c are arguments.
-- The bits of `perm` are below those of a page's number, so `|` of the two is `+`.
pub mod User
pub mod Copy
pub mod Kernel
pub mod Path
pub mod Grow
pub mod Walk
pub mod Leaf
pub mod Bits
pub mod Map
pub mod Unmap
pub mod Chunk
pub mod Read
mod Tests
use Prim.Native.Nat.{bit_or}
use oshard.Common.{
  ℕ, zero, suc, ◌+◌, ◌-◌, ◌*◌, ◌/◌, ◌%◌, ◌^◌, Bool, true, false, not, ◌&&◌, Result, ok, panic,
  ◌>>=◌, ◌==◌, ltb, leb, if◌then◌else◌,
}
use oshard.Strings.{Memory}

abbrev pub pgsize : ℕ
pgsize = 4096

abbrev pub maxva : ℕ
maxva = 2 ^ 38

-- `PTE_V`, `PTE_R`, `PTE_W`, `PTE_X`, `PTE_U`
abbrev pub pte_v : ℕ
pte_v = 1

abbrev pub pte_r : ℕ
pte_r = 2

abbrev pub pte_w : ℕ
pte_w = 4

abbrev pub pte_x : ℕ
pte_x = 8

abbrev pub pte_u : ℕ
pte_u = 16

-- `*pte & bit`, of one bit
abbrev pub has_bit : ℕ → ℕ → Bool
has_bit pte bit = not (pte / bit % 2 == 0)

-- `PTE2PA`, `PA2PTE`, `PTE_FLAGS`
abbrev pub pte2pa : ℕ → ℕ
pte2pa pte = pte / 2 ^ 10 * 2 ^ 12 % 2 ^ 64

abbrev pub pa2pte : ℕ → ℕ
pa2pte pa = pa / 2 ^ 12 * 2 ^ 10

abbrev pub pte_flags : ℕ → ℕ
pte_flags pte = pte % 2 ^ 10

-- `PA2PTE(pa) | perm | PTE_V`; `perm` is an `int` that is not below 0.
abbrev pub leaf_pte : ℕ → ℕ → ℕ
leaf_pte pa perm = bit_or (bit_or (pa2pte pa) perm) pte_v

-- `PX(level, va)`
abbrev pub px : ℕ → ℕ → ℕ
px level va = va / 2 ^ (12 + 9 * level) % 512

-- `PGROUNDUP`, `PGROUNDDOWN`
abbrev pub pgroundup : ℕ → ℕ
pgroundup sz = (sz + pgsize - 1) % 2 ^ 64 / pgsize * pgsize

abbrev pub pgrounddown : ℕ → ℕ
pgrounddown a = a / pgsize * pgsize

-- `A` is the state of the allocator.
pub record Allocator (A : Type 0) : Type 0 where
  pub kalloc : A → ℕ × A
  pub kfree : A → ℕ → A

pub record Vm (A : Type 0) : Type 0 where
  pub word : ℕ → ℕ
  pub byte : Memory
  pub heap : A

-- `*pte = v`
abbrev pub put_word : {A : Type 0} → Vm A → ℕ → ℕ → Vm A
put_word s p v = record s { word = λ a. if a == p then v else s.word a }

abbrev pub in_page : ℕ → ℕ → Bool
in_page page a = leb page a && ltb a (page + pgsize)

-- `memset(page, 0, PGSIZE)`; there is no memory at 0
abbrev pub zero_page : {A : Type 0} → Vm A → ℕ → Vm A
zero_page s page = record s {
  word = λ a. if in_page page a then 0 else s.word a;
  byte = λ a. if in_page page a then 0 else s.byte a;
}

-- `&pagetable[PX(level, va)]`
abbrev pub entry : ℕ → ℕ → ℕ → ℕ
entry table level va = table + 8 * px level va

module _ {A : Type 0} (heap : Allocator A) where
  -- `kalloc` and `kfree` on the whole state
  abbrev pub get_page : Vm A → ℕ × Vm A
  get_page s = ((heap.kalloc s.heap).0, record s { heap = (heap.kalloc s.heap).1 })

  abbrev pub free_page : Vm A → ℕ → Vm A
  free_page s page = record s { heap = heap.kfree s.heap page }

  -- a new page of the table for the entry at `pte`
  abbrev pub add_table : Vm A → ℕ → ℕ → Vm A
  add_table s pte page = put_word (zero_page s page) pte (pa2pte page + 1)

  -- The loop of `walk` with the levels left: the address of the entry, or 0.
  unfoldable pub walk_loop : ℕ → Vm A → ℕ → ℕ → Bool → ℕ × Vm A
  walk_loop zero s table va alloc = (entry table 0 va, s)
  walk_loop (suc level) s table va alloc =
      let pte = entry table (suc level) va in
      let (page, s1) = get_page s in
      let down = walk_loop level s (pte2pa (s.word pte)) va alloc in
      let added = walk_loop level (add_table s1 pte page) page va alloc in
      if has_bit (s.word pte) pte_v
      then down
      else if not alloc
      then (0, s)
      else if page == 0
      then (0, s1)
      else added

  unfoldable pub walk : Vm A → ℕ → ℕ → Bool → Result (ℕ × Vm A)
  unfolding walk_loop
  walk s table va alloc = if leb maxva va then panic "walk" else ok (walk_loop 2 s table va alloc)

  -- the page behind an entry that `walk` gave, or 0 when it is not mapped for the user
  abbrev pub user_pa : Vm A → ℕ → ℕ
  user_pa s pte =
      if pte == 0
      then 0
      else if not (has_bit (s.word pte) pte_v)
      then 0
      else if not (has_bit (s.word pte) pte_u)
      then 0
      else pte2pa (s.word pte)

  unfoldable pub walkaddr : Vm A → ℕ → ℕ → ℕ
  unfolding walk_loop
  walkaddr s table va = if leb maxva va then 0 else user_pa s (walk_loop 2 s table va false).0

  -- The body of the loop of `mappages`, at the entry that `walk` gave if it gave one.
  abbrev pub put_leaf : ℕ × Vm A → ℕ → ℕ → Result (Bool × Vm A)
  put_leaf (pte, s) pa perm =
      if pte == 0
      then ok (false, s)
      else if has_bit (s.word pte) pte_v
      then panic "mappages: remap"
      else ok (true, put_word s pte (leaf_pte pa perm))

  unfoldable pub map_page : Vm A → ℕ → ℕ → ℕ → ℕ → Result (Bool × Vm A)
  unfolding walk
  map_page s table a pa perm = walk s table a true >>= λ r. put_leaf r pa perm

  -- The loop of `mappages` over the pages left.
  unfoldable pub map_loop : ℕ → Vm A → ℕ → ℕ → ℕ → ℕ → Result (Bool × Vm A)
  unfolding map_page
  map_loop zero s table a pa perm = ok (true, s)
  map_loop (suc pages) s table a pa perm = do
    (mapped, s1) ← map_page s table a pa perm
    if mapped
        then map_loop pages s1 table (a + pgsize) ((pa + pgsize) % 2 ^ 64) perm
        else ok (false, s1)

  -- true for 0, false for -1
  unfoldable pub mappages : Vm A → ℕ → ℕ → ℕ → ℕ → ℕ → Result (Bool × Vm A)
  unfolding map_loop
  mappages s table va size pa perm =
      if not (va % pgsize == 0)
      then panic "mappages: va not aligned"
      else if not (size % pgsize == 0)
      then panic "mappages: size not aligned"
      else if size == 0
      then panic "mappages: size"
      else map_loop (size / pgsize) s table va pa perm

  -- The body of the loop of `uvmunmap`, at the entry that `walk` gave.
  abbrev pub clear_leaf : ℕ × Vm A → Bool → Result (Vm A)
  clear_leaf (pte, s) do_free =
      let v = s.word pte in
      if pte == 0
      then panic "uvmunmap: walk"
      else if not (has_bit v pte_v)
      then panic "uvmunmap: not mapped"
      else if pte_flags v == pte_v
      then panic "uvmunmap: not a leaf"
      else ok (put_word (if do_free then free_page s (pte2pa v) else s) pte 0)

  unfoldable pub unmap_page : Vm A → ℕ → ℕ → Bool → Result (Vm A)
  unfolding walk
  unmap_page s table a do_free = walk s table a false >>= λ r. clear_leaf r do_free

  -- The loop over the pages left.
  unfoldable pub unmap_loop : ℕ → Vm A → ℕ → ℕ → Bool → Result (Vm A)
  unfolding unmap_page
  unmap_loop zero s table a do_free = ok s
  unmap_loop (suc npages) s table a do_free = do
    s1 ← unmap_page s table a do_free
    unmap_loop npages s1 table (a + pgsize) do_free

  unfoldable pub uvmunmap : Vm A → ℕ → ℕ → ℕ → Bool → Result (Vm A)
  unfolding unmap_loop
  uvmunmap s table va npages do_free =
      if not (va % pgsize == 0)
      then panic "uvmunmap: not aligned"
      else unmap_loop npages s table va do_free
