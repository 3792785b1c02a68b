-- ===== src/Buddy/Tests.antt =====
-- `bd_malloc` and `bd_free` of kernel/buddy.c at a heap of eight leaves: leaf 0 is the allocator's,
-- leaves 1 and 3 are held, leaf 2 and the upper half are free.
use native.Mathlib.Decide.{dec_lt}
use oshard.Common.{
  ℕ, zero, suc, ◌+◌, ◌*◌, ◌^◌, ◌≤◌, ◌<◌, ◌≡◌, ◌≢◌, refl, true, false, not, [], ◌∷◌, none, some,
  Option, Result, ok, panic, loops, arith, sym, ◌∙◌, ◌⊎◌, inl, inr,
}
use oshard.LinkedList.{Links, lst_init, lst_empty, lst_remove, lst_pop, lst_push}
use oshard.LinkedList.Ring.{IsRing, has}
use oshard.Spinlock.{acquire, release}
use oshard.Spinlock.Nesting.{unlocked}
use oshard.Buddy.Bits.{bit_isset, bit_set, bit_clear, bit_invert}
use oshard.Buddy.Blocks.{firstk, blk_index, addr, buddy_of}
use oshard.Buddy.Blocks.Sizes.{IsFirst}
use oshard.Buddy.Blocks.Index.{Fits}
use oshard.Buddy.Init.{bd_mark}
use oshard.Buddy.Init.Levels.{IsMarked, bd_mark-IsMarked}
use oshard.Buddy.Bits.Laws.{IsBytes, capacity}
use oshard.Buddy.Heap.{Heap, Kernel, size_info}
use oshard.Buddy.View.{IsShaped, Within, alloc_bit, split_bit}
use oshard.Buddy.Lists.{FreeLists, addresses, IsPlaced, Disjoint}
use oshard.Buddy.Whole.{IsWhole}
use oshard.Buddy.Paired.{IsPaired}
use oshard.Buddy.Invariant.{geometry, Invariant, IsHeld, invert}
use oshard.Buddy.Malloc.{bd_malloc}
use oshard.Buddy.Malloc.Call.{IsIdle, after, bd_malloc-Outcome}
use oshard.Buddy.Malloc.Serve.{Outcome}
use oshard.Buddy.Free.{size, free_block, bd_free}
use oshard.Buddy.Free.Size.{size-level}
use oshard.Buddy.Free.Merge.{Freed, bit-buddy}
use oshard.Buddy.Free.Call.{bd_free-Freed}

abbrev lists : Links
lists =
    let m =
      lst_init (lst_init (lst_init (lst_init (record { next = λ a. 0; prev = λ a. 0 }) 64) 96) 128)
        160 in
    lst_push (lst_push m 64 288) 128 320

abbrev small : Heap
small = record {
  nsizes = 4;
  base = 256;
  sizes_at = 64;
  sizes =
      record { alloc = 2 ∷ []; split = [] }
      ∷ record { alloc = 0 ∷ []; split = 3 ∷ [] }
      ∷ record { alloc = 1 ∷ []; split = 1 ∷ [] }
      ∷ record { alloc = 1 ∷ []; split = 1 ∷ [] }
      ∷ [];
  links = lists;
}

abbrev free : FreeLists
free zero = 2 ∷ []
free (suc zero) = []
free (suc (suc zero)) = 1 ∷ []
free (suc (suc (suc k))) = []

alloc_room : (k j : ℕ) → k < 3 → Within 4 k (2 * j + 1) → j < capacity (size_info small k).alloc
alloc_room zero j lt i = omega arith
alloc_room (suc zero) j lt i = omega arith
alloc_room (suc (suc zero)) j lt i = omega arith
alloc_room (suc (suc (suc k))) j lt i = absurd (omega arith)

split_room : (k n : ℕ) → 0 < k → k < 4 → Within 4 k n → n < capacity (size_info small k).split
split_room zero n pos lt i = absurd (omega arith)
split_room (suc zero) n pos lt i = omega arith
split_room (suc (suc zero)) n pos lt i = omega arith
split_room (suc (suc (suc zero))) n pos lt i = omega arith
split_room (suc (suc (suc (suc k)))) n pos lt i = absurd (omega arith)

bytes : (k : ℕ) → k < 4 → IsBytes (size_info small k).alloc × IsBytes (size_info small k).split
bytes zero lt = (omega arith, tt)
bytes (suc zero) lt = (omega arith, omega arith)
bytes (suc (suc zero)) lt = (omega arith, omega arith)
bytes (suc (suc (suc zero))) lt = (omega arith, omega arith)
bytes (suc (suc (suc (suc k)))) lt = absurd (omega arith)

small-IsShaped : IsShaped small
small-IsShaped = record {
  some_size = omega arith;
  all_sizes = refl;
  alloc_room = alloc_room;
  split_room = split_room;
  alloc_bytes = λ k lt. (bytes k lt).0;
  split_bytes = λ k lt. (bytes k lt).1;
  in_space = omega arith;
  in_int = omega arith;
}

rings : (k : ℕ) → k < 4 → IsRing lists (64 + k * 32) (addresses 256 k (free k))
unfolding lst_push lst_init
rings zero lt = record { chain = (refl, refl, (refl, refl)); distinct_nodes = refl }
rings (suc zero) lt = record { chain = (refl, refl); distinct_nodes = refl }
rings (suc (suc zero)) lt = record { chain = (refl, refl, (refl, refl)); distinct_nodes = refl }
rings (suc (suc (suc zero))) lt = record { chain = (refl, refl); distinct_nodes = refl }
rings (suc (suc (suc (suc k)))) lt = absurd (omega arith)

-- the free blocks: leaf 2, and block 1 of level 2
free_cases : (k i : ℕ) → has i (free k) ≡ true → ((k ≡ 0) × (i ≡ 2)) ⊎ ((k ≡ 2) × (i ≡ 1))
free_cases zero i h = inl (refl, ground arith)
free_cases (suc zero) i h = cc
free_cases (suc (suc zero)) i h = inr (refl, ground arith)
free_cases (suc (suc (suc k))) i h = cc

placed : (k i : ℕ) → k < 4 → has i (free k) ≡ true → IsPlaced (geometry small 1) k i
placed k i lt h = elim (free_cases k i h) [
  | inl (q, e) ↦ rw (q, e) (omega arith)
  | inr (q, e) ↦ rw (q, e) (omega arith)
]

disjoint :
    (k m i j : ℕ)
    → k < 4
    → m < 4
    → k ≢ m
    → has i (free k) ≡ true
    → has j (free m) ≡ true
    → Disjoint k i m j
disjoint k m i j lt lt' ne h h' = elim (free_cases k i h) [
  | inl (q, e) ↦ elim (free_cases m j h') [
    | inl (q', e') ↦ absurd (ne (q ∙ sym q'))
    | inr (q', e') ↦ rw (q, e, q', e') (omega arith)
  ]
  | inr (q, e) ↦ elim (free_cases m j h') [
    | inl (q', e') ↦ rw (q, e, q', e') (omega arith)
    | inr (q', e') ↦ absurd (ne (q ∙ sym q'))
  ]
]

leaf-IsWhole : (i : ℕ) → (i ≡ 2) ⊎ (i ≡ 3) → IsWhole 4 (split_bit small) 0 i
unfolding bit_isset
leaf-IsWhole i c = record { inside = λ m n pos le. absurd (omega arith); around = around }
  where
    around :
        (m n : ℕ)
        → 0 < m
        → m < 4
        → n * 2 ^ m ≤ i * 2 ^ 0
        → i * 2 ^ 0 < (n + 1) * 2 ^ m
        → split_bit small m n ≡ true
    around zero n pos lt lo hi = absurd (omega arith)
    around (suc zero) n pos lt lo hi = let e : n ≡ 1 = omega arith in rw e
    around (suc (suc zero)) n pos lt lo hi = let e : n ≡ 0 = omega arith in rw e
    around (suc (suc (suc zero))) n pos lt lo hi = let e : n ≡ 0 = omega arith in rw e
    around (suc (suc (suc (suc m)))) n pos lt lo hi = absurd (omega arith)

half-IsWhole : IsWhole 4 (split_bit small) 2 1
unfolding bit_isset
half-IsWhole = record { inside = inside; around = around }
  where
    inside :
        (m n : ℕ)
        → 0 < m
        → m ≤ 2
        → 1 * 2 ^ 2 ≤ n * 2 ^ m
        → n * 2 ^ m < 2 * 2 ^ 2
        → split_bit small m n ≡ false
    inside zero n pos le lo hi = absurd (omega arith)
    inside (suc zero) n pos le lo hi = elim (dec_lt n 3) [
      | yes two ↦ let e : n ≡ 2 = omega arith in rw e
      | no three ↦ let e : n ≡ 3 = omega arith in rw e
    ]
    inside (suc (suc zero)) n pos le lo hi = let e : n ≡ 1 = omega arith in rw e
    inside (suc (suc (suc m))) n pos le lo hi = absurd (omega arith)

    around :
        (m n : ℕ)
        → 2 < m
        → m < 4
        → n * 2 ^ m ≤ 1 * 2 ^ 2
        → 1 * 2 ^ 2 < (n + 1) * 2 ^ m
        → split_bit small m n ≡ true
    around zero n pos lt lo hi = absurd (omega arith)
    around (suc zero) n pos lt lo hi = absurd (omega arith)
    around (suc (suc zero)) n pos lt lo hi = absurd (omega arith)
    around (suc (suc (suc zero))) n pos lt lo hi = let e : n ≡ 0 = omega arith in rw e
    around (suc (suc (suc (suc m)))) n pos lt lo hi = absurd (omega arith)

whole : (k i : ℕ) → k < 4 → has i (free k) ≡ true → IsWhole 4 (split_bit small) k i
whole k i lt h = elim (free_cases k i h) [
  | inl (q, e) ↦ rw q (leaf-IsWhole i (inl e))
  | inr (q, e) ↦ rw (q, e) half-IsWhole
]

paired : IsPaired 4 (alloc_bit small) free
unfolding bit_isset
paired zero zero lt i = refl
paired zero (suc zero) lt i = refl
paired zero (suc (suc zero)) lt i = refl
paired zero (suc (suc (suc zero))) lt i = refl
paired zero (suc (suc (suc (suc j)))) lt i = absurd (omega arith)
paired (suc zero) zero lt i = refl
paired (suc zero) (suc zero) lt i = refl
paired (suc zero) (suc (suc j)) lt i = absurd (omega arith)
paired (suc (suc zero)) zero lt i = refl
paired (suc (suc zero)) (suc j) lt i = absurd (omega arith)
paired (suc (suc (suc k))) j lt i = absurd (omega arith)

small-Invariant : Invariant 1 small free
small-Invariant = record {
  shaped = small-IsShaped;
  lists = record { heads_low = omega arith; rings = rings; placed = placed; disjoint = disjoint };
  whole = whole;
  paired = paired;
}

leaf-IsHeld : IsHeld 1 small free 0 3
leaf-IsHeld = record {
  level = omega arith;
  placed = omega arith;
  whole = leaf-IsWhole 3 (inr refl);
  separate = λ m j lt h. elim (free_cases m j h) [
    | inl (q, e) ↦ rw (q, e) (omega arith)
    | inr (q, e) ↦ rw (q, e) (omega arith)
  ];
}

abbrev kernel : Kernel
kernel = record {
  cpu = record { id = 0; noff = 0; intena = false; intr = true };
  lock = unlocked;
  heap = small;
}

kernel-IsIdle : IsIdle kernel
kernel-IsIdle = record {
  nested = record { off_inside = λ e. refl; shallow = omega arith };
  free_lock = refl;
}

-- the address that a call returns
abbrev address : Result (ℕ × Kernel) → Option ℕ
address (ok (p, s)) = some p
address (panic e) = none
address loops = none

-- 32 bytes come from the upper half, a page does not fit
served_at : (address (bd_malloc kernel 32) ≡ some 320) × (address (bd_malloc kernel 4096) ≡ some 0)
unfolding bd_malloc acquire release firstk lst_empty lst_pop lst_push lst_init blk_index bit_invert
    bit_set
served_at = (refl, refl)

-- leaf 3 merges with leaf 2, and block 1 of level 1 has no free buddy
merged_at : (free_block small 304).links.next 96 ≡ 288
unfolding free_block lst_remove lst_push lst_init blk_index addr buddy_of bit_isset bit_invert
    bit_clear
merged_at = refl

bd_malloc-Outcome_example :
    (fk p : ℕ) × (heap : Heap) × IsFirst 32 fk
    × (bd_malloc kernel 32 ≡ ok (p, after kernel heap))
    × Outcome 1 small free fk (ok (p, heap))
bd_malloc-Outcome_example = bd_malloc-Outcome 32 kernel-IsIdle small-Invariant (omega arith)

bd_free-Freed_example :
    (bd_free kernel 304 ≡ ok (after kernel (free_block small 304)))
    × Freed 1 small free 0 3 (free_block small 304)
bd_free-Freed_example = bd_free-Freed 0 3 (omega arith) kernel-IsIdle small-Invariant leaf-IsHeld

size-level_example : size small 304 ≡ 0
size-level_example = size-level (omega arith) small-Invariant leaf-IsHeld

bit-buddy_example : alloc_bit (invert small 0 1) 0 1 ≡ not (has (buddy_of 3) (2 ∷ []))
bit-buddy_example = bit-buddy small-Invariant 0 3 leaf-IsHeld (omega arith)

small-Fits : (o : ℕ) → o ≤ 128 → Fits small.base o
small-Fits o le = record { in_space = omega arith; in_int = omega arith }

bd_mark-IsMarked_example :
    (s' : Heap) × (bd_mark small (small.base + 80) (small.base + 128) ≡ ok s')
    × IsMarked small 0 80 128 s'
bd_mark-IsMarked_example =
    bd_mark-IsMarked small 80 128 small-IsShaped (small-Fits 80 (omega arith))
      (small-Fits 128 (omega arith)) (omega arith) refl refl
