-- ===== src/Vm/Tests.antt =====
-- Runs of kernel/vm.c, and its theorems on a page table with one page of a process.
use oshard.Common.{
  ℕ, ◌*◌, ◌%◌, ◌<◌, ◌≤◌, ◌≡◌, ◌≢◌, ◌⊎◌, refl, ap, ◌∙◌, ◌+◌, leb, false, none, some, ok, ◌>>=◌, ◌==◌,
  ltb, if◌then◌else◌, arith, Bool-cases, inl, inr,
}
use oshard.Strings.Copy.{within}
use oshard.Vm.{maxva, Allocator, Vm, walk, walk_loop, map_page, map_loop, mappages, walkaddr}
use oshard.Vm.Path.{Places, IsTable, leaf_from, mapping}
use oshard.Vm.Map.{if_true, if_false}
use oshard.Vm.Copy.{copyin}
use oshard.Vm.Chunk.{user_page, page_at}
use oshard.Vm.Read.{CopiesIn, copyin-CopiesIn}

-- an allocator that hands out the pages in order, the next one after `k` others
abbrev pages : Allocator ℕ
pages = record {
  kalloc = λ k. if ltb k 1000 then (4096 * (k + 1), k + 1) else (0, k);
  kfree = λ k p. k;
}

abbrev Later : ℕ → ℕ → Type 0
Later k r = (4096 * (k + 1) ≤ r) × (r % 4096 ≡ 0)

-- an empty table at 4096
abbrev empty : Vm ℕ
empty = record { word = λ a. 0; byte = λ a. a % 256; heap = 1 }

abbrev empty_places : Places
empty_places r = if r == 4096 then some (2, 0) else none

maps :
    (mappages pages empty 4096 262144 8192 2149580800 22 >>= λ r.
    ok (walkaddr pages r.1 4096 266240))
    ≡ ok 2149584896
unfolding mappages map_loop map_page walk walk_loop walkaddr
maps = refl

-- the page at 0 mapped to 0x80200000 for the user, by the tables at 4096, 8192 and 12288
abbrev one_page : Vm ℕ
one_page = record {
  word = λ a.
      if a == 4096 then 2049 else if a == 8192 then 3073 else if a == 12288 then 537395223 else 0;
  byte = λ a. a % 256;
  heap = 3;
}

abbrev one_page_places : Places
one_page_places r =
    if r == 4096
    then some (2, 0)
    else if r == 8192
    then some (1, 0)
    else if r == 12288
    then some (0, 0)
    else none

one_page-IsTable : IsTable Later one_page 4096 one_page_places
one_page-IsTable = record {
  root_place = refl;
  child_place = λ p l x i e h v. ground arith;
  page = λ p l x e. ground arith;
  taken = λ p l x e free. ground arith;
}

there : mapping one_page.word 4096 77 ≡ 537395223
unfolding leaf_from
there = refl

only_leaf :
    (va : ℕ) → (mapping one_page.word 4096 va ≡ 537395223) ⊎ (mapping one_page.word 4096 va ≡ 0)
unfolding leaf_from
only_leaf va = ground arith

one_page-Apart :
    (va i : ℕ)
    → page_at one_page.word 4096 va ≢ 0
    → i < 4096
    → within 2415919104 4 (page_at one_page.word 4096 va + i) ≡ false
one_page-Apart va i p h = elim (Bool-cases (leb maxva va)) [
  | inl t ↦ absurd (p (if_true _ _ t))
  | inr f ↦ elim (only_leaf va) [
    | inl e ↦ rw (f, e) (ground arith)
    | inr e ↦ absurd (p (if_false _ _ f ∙ ap user_page e))
  ]
]

copyin-CopiesIn_example :
    CopiesIn pages Later 4096 one_page_places one_page 2415919104 5 4
      (copyin pages one_page 4096 2415919104 5 4)
copyin-CopiesIn_example =
    copyin-CopiesIn pages Later 4096 one_page_places one_page 2415919104 5 4 one_page-IsTable
      (λ a. omega arith) one_page-Apart
