-- ===== src/Vm/User.antt =====
-- kernel/vm.c: the memory of a process, and the freeing of page tables. A count of pages fits an
-- `int`. A `pagetable_t` or a `char *` is an address.
use oshard.Common.{
  ℕ, zero, suc, ◌+◌, ◌-◌, ◌*◌, ◌/◌, ◌%◌, Bool, true, false, not, Result, ok, panic, loops, ◌>>=◌,
  ◌==◌, ltb, leb, if◌then◌else◌,
}
use oshard.Strings.{memmove}
use oshard.Vm.{
  pgsize, pte_v, pte_r, pte_w, pte_x, pte_u, has_bit, pte2pa, pte_flags, pgroundup, Allocator, Vm,
  put_word, zero_page, get_page, free_page, walk, mappages, uvmunmap,
}

-- `memmove` on the bytes
abbrev pub move : {A : Type 0} → Vm A → ℕ → ℕ → ℕ → Vm A
move s dst src n = record s { byte = memmove s.byte dst src n }

module _ {A : Type 0} (heap : Allocator A) where
  unfoldable pub uvmcreate : Vm A → ℕ × Vm A
  uvmcreate s =
      let (page, s1) = get_page heap s in if page == 0 then (0, s1) else (page, zero_page s1 page)

  unfoldable pub uvmfirst : Vm A → ℕ → ℕ → ℕ → Result (Vm A)
  unfolding mappages
  uvmfirst s table src sz =
      let (mem, s1) = get_page heap s in
      if leb pgsize sz
      then panic "uvmfirst: more than a page"
      else if mem == 0
      then panic "kerneltrap"
      else (do
        (mapped, s2) ←
            mappages heap (zero_page s1 mem) table 0 pgsize mem (pte_w + pte_r + pte_x + pte_u)
        ok (move s2 mem src sz))

  unfoldable pub uvmdealloc : Vm A → ℕ → ℕ → ℕ → Result (ℕ × Vm A)
  unfolding uvmunmap
  uvmdealloc s table oldsz newsz =
      let npages = (pgroundup oldsz - pgroundup newsz) / pgsize in
      if leb oldsz newsz
      then ok (oldsz, s)
      else if ltb (pgroundup newsz) (pgroundup oldsz)
      then (uvmunmap heap s table (pgroundup newsz) npages true >>= λ s1. ok (newsz, s1))
      else ok (newsz, s)

  -- The body of the loop of `uvmalloc`: whether the page at `a` is there now.
  unfoldable pub grow_page : Vm A → ℕ → ℕ → ℕ → Result (Bool × Vm A)
  unfolding mappages
  grow_page s table a xperm =
      let (mem, s1) = get_page heap s in
      if mem == 0
      then ok (false, s1)
      else (mappages heap (zero_page s1 mem) table a pgsize mem (pte_r + pte_u + xperm) >>= λ r.
          ok (if r.0 then r else (false, free_page heap r.1 mem)))

  -- The loop from `a` on, with the rounds left; it undoes what it did when a page is missing.
  unfoldable pub uvmalloc_loop : ℕ → Vm A → ℕ → ℕ → ℕ → ℕ → ℕ → Result (ℕ × Vm A)
  unfolding grow_page uvmdealloc
  uvmalloc_loop zero s table oldsz newsz xperm a = if ltb a newsz then loops else ok (newsz, s)
  uvmalloc_loop (suc rounds) s table oldsz newsz xperm a =
      if not (ltb a newsz) then ok (newsz, s) else (do
        (grown, s1) ← grow_page s table a xperm
        if grown
            then uvmalloc_loop rounds s1 table oldsz newsz xperm (a + pgsize)
            else (uvmdealloc s1 table a oldsz >>= λ r. ok (0, r.1)))

  unfoldable pub uvmalloc : Vm A → ℕ → ℕ → ℕ → ℕ → Result (ℕ × Vm A)
  unfolding uvmalloc_loop
  uvmalloc s table oldsz newsz xperm =
      if ltb newsz oldsz
      then ok (oldsz, s)
      else uvmalloc_loop (newsz / pgsize + 1) s table (pgroundup oldsz) newsz xperm
          (pgroundup oldsz)

  -- The loop of `freewalk` from entry `i` on with the entries left; `child` frees a lower table.
  unfoldable pub free_children : (Vm A → ℕ → Result (Vm A)) → ℕ → Vm A → ℕ → ℕ → Result (Vm A)
  free_children child zero s table i = ok s
  free_children child (suc entries) s table i = do
    let v = s.word (table + 8 * i)
    s1 ←
        if has_bit v pte_v
        then (if v / 2 % 8 == 0
            then (child s (pte2pa v) >>= λ t. ok (put_word t (table + 8 * i) 0))
            else panic "freewalk: leaf")
        else ok s
    free_children child entries s1 table (i + 1)

  -- `freewalk` of a table with at most so many levels
  unfoldable pub freewalk : ℕ → Vm A → ℕ → Result (Vm A)
  unfolding free_children
  freewalk zero s table = loops
  freewalk (suc levels) s table =
      free_children (freewalk levels) 512 s table 0 >>= λ s1. ok (free_page heap s1 table)

  unfoldable pub uvmfree : Vm A → ℕ → ℕ → Result (Vm A)
  unfolding uvmunmap freewalk
  uvmfree s table sz = do
    s1 ← if sz == 0 then ok s else uvmunmap heap s table 0 (pgroundup sz / pgsize) true
    freewalk 3 s1 table

  -- The body of the loop of `uvmcopy`: whether the page at `i` is copied.
  unfoldable pub copy_page : Vm A → ℕ → ℕ → ℕ → Result (Bool × Vm A)
  unfolding walk mappages
  copy_page s old new i = do
    (pte, s1) ← walk heap s old i false
    let v = s1.word pte
    let mem = get_page heap s1
    if pte == 0
        then panic "uvmcopy: pte should exist"
        else if not (has_bit v pte_v)
        then panic "uvmcopy: page not present"
        else if mem.0 == 0
        then ok (false, mem.1)
        else (mappages heap (move mem.1 mem.0 (pte2pa v) pgsize) new i pgsize mem.0 (pte_flags v)
            >>= λ r. ok (if r.0 then r else (false, free_page heap r.1 mem.0)))

  -- The loop from `i` on, with the rounds left; true for 0, false for -1.
  unfoldable pub uvmcopy_loop : ℕ → Vm A → ℕ → ℕ → ℕ → ℕ → Result (Bool × Vm A)
  unfolding copy_page uvmunmap
  uvmcopy_loop zero s old new sz i = if ltb i sz then loops else ok (true, s)
  uvmcopy_loop (suc rounds) s old new sz i = if not (ltb i sz) then ok (true, s) else (do
    (copied, s1) ← copy_page s old new i
    if copied
        then uvmcopy_loop rounds s1 old new sz (i + pgsize)
        else (uvmunmap heap s1 new 0 (i / pgsize) true >>= λ s2. ok (false, s2)))

  unfoldable pub uvmcopy : Vm A → ℕ → ℕ → ℕ → Result (Bool × Vm A)
  unfolding uvmcopy_loop
  uvmcopy s old new sz = uvmcopy_loop (sz / pgsize + 1) s old new sz 0

  unfoldable pub uvmclear : Vm A → ℕ → ℕ → Result (Vm A)
  unfolding walk
  uvmclear s table va = do
    (pte, s1) ← walk heap s table va false
    let v = s1.word pte
    if pte == 0
        then panic "uvmclear"
        else ok (put_word s1 pte (if has_bit v pte_u then v - pte_u else v))
