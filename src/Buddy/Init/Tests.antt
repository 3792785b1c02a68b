-- ===== src/Buddy/Init/Tests.antt =====
-- Runs of the start of kernel/buddy.c on small memories.
use Prim.Native.Nat.{bit_and}
use oshard.Buddy.Bits.Laws.{IsBytes, capacity, all_hold, all_hold-entry}
use oshard.Buddy.View.{IsShaped, Within, alloc_bit, split_bit}
use oshard.Buddy.Init.InUse.{SaysInUse, mark_both, mark_both-SaysInUse}
use oshard.Common.{
  zero, suc, ◌+◌, List, [], ◌∷◌, true, false, ◌*◌, ◌/◌, ◌%◌, ◌^◌, ◌<◌, arith, not, ◌==◌, get_or, ℕ,
  ◌≡◌, refl, Result, ok, panic, loops, Option, none, some,
}
use oshard.LinkedList.{Links, lst_init, lst_push, lst_pop, lst_empty, lst_remove}
use oshard.Buddy.Bits.{bit_isset, bit_set, bit_invert}
use oshard.Buddy.Blocks.{
  log2, log2_loop, firstk, firstk_loop, blk_index, addr, blk_index_next, buddy_of,
}
use oshard.Buddy.Heap.{Heap, size_info}
use oshard.Buddy.Malloc.{take_block, take_level, find_free, split_block, split_down}
use oshard.Buddy.Init.{
  mark_block, mark_level, mark_sizes, bd_mark, bd_initfree_pair, initfree_loop, bd_initfree,
  bd_mark_data_structures, bd_mark_unavailable, make_sizes, init_lists, count_sizes, lay_out, fill,
  bd_init,
}

abbrev blank : Links
blank = record { next = λ a. 0; prev = λ a. 0 }

-- where the block is that is handed out first, for this many bytes
abbrev first_block : ℕ → ℕ → Result Heap → Option ℕ
first_block nbytes dflt (ok s) = elim (take_block s nbytes) [
  | ok r ↦ some r.0
  | panic why ↦ none
  | loops ↦ none
]
first_block nbytes dflt (panic why) = none
first_block nbytes dflt loops = none

-- 3000 bytes from 4096 on: nine levels, whose arrays end at 4448
whole_run : first_block 16 0 (bd_init blank 4090 7096) ≡ some 7072
unfolding bd_init fill lay_out count_sizes init_lists make_sizes bd_mark_unavailable
    bd_mark_data_structures bd_initfree initfree_loop bd_initfree_pair bd_mark mark_sizes mark_level
    mark_block bit_isset bit_set bit_invert log2 log2_loop firstk firstk_loop blk_index addr
    blk_index_next buddy_of take_block take_level find_free split_block split_down lst_init lst_push
    lst_pop lst_empty lst_remove
whole_run = refl

-- two leaves with all bits clear
abbrev pair_heap : Heap
pair_heap = record {
  nsizes = 2;
  base = 4096;
  sizes_at = 64;
  sizes = record { alloc = 0 ∷ []; split = [] } ∷ record { alloc = 0 ∷ []; split = 0 ∷ [] } ∷ [];
  links = blank;
}

pair_room : (k j : ℕ) → k < 1 → Within 2 k (2 * j + 1) → j < capacity (size_info pair_heap k).alloc
pair_room zero j lt h = omega arith
pair_room (suc k) j lt h = absurd (omega arith)

pair_split : (k n : ℕ) → 0 < k → k < 2 → Within 2 k n → n < capacity (size_info pair_heap k).split
pair_split zero n pos lt h = absurd (omega arith)
pair_split (suc zero) n pos lt h = omega arith
pair_split (suc (suc k)) n pos lt h = absurd (omega arith)

pair_bytes :
    (k : ℕ) → k < 2 → IsBytes (size_info pair_heap k).alloc × IsBytes (size_info pair_heap k).split
pair_bytes zero lt = (omega arith, tt)
pair_bytes (suc zero) lt = (omega arith, omega arith)
pair_bytes (suc (suc k)) lt = absurd (omega arith)

pair_heap-IsShaped : IsShaped pair_heap
pair_heap-IsShaped = record {
  some_size = omega arith;
  all_sizes = refl;
  alloc_room = pair_room;
  split_room = pair_split;
  alloc_bytes = λ k lt. (pair_bytes k lt).0;
  split_bytes = λ k lt. (pair_bytes k lt).1;
  in_space = omega arith;
  in_int = omega arith;
}

no_bit : all_hold (λ i. not (bit_and 0 (2 ^ i % 256) == 2 ^ i % 256)) 8 ≡ true
unfolding all_hold
no_bit = refl

cleared_bit : (bs : List ℕ) (i : ℕ) → get_or bs (i / 8) 0 ≡ 0 → bit_isset bs i ≡ false
unfolding bit_isset
cleared_bit bs i z =
    let h =
      all_hold-entry (λ j. not (bit_and 0 (2 ^ j % 256) == 2 ^ j % 256)) 8 (i % 8) (omega arith)
        no_bit in
    rw z (ground (arith, h))

one_byte : (n : ℕ) → ◌≡◌ {A = ℕ} (get_or (0 ∷ []) n 0) 0
one_byte zero = refl
one_byte (suc n) = refl

pair_clear : (m i : ℕ) → (split_bit pair_heap m i ≡ false) × (alloc_bit pair_heap m i ≡ false)
pair_clear zero i = (cleared_bit [] i refl, cleared_bit (0 ∷ []) i (one_byte (i / 8)))
pair_clear (suc zero) i =
    (cleared_bit (0 ∷ []) i (one_byte (i / 8)), cleared_bit (0 ∷ []) i (one_byte (i / 8)))
pair_clear (suc (suc m)) i = (cleared_bit [] i refl, cleared_bit [] i refl)

mark_both-SaysInUse_example :
    (s' : Heap) × (mark_both pair_heap 32 16 32 ≡ ok s') × SaysInUse s' 32 16 32
mark_both-SaysInUse_example =
    mark_both-SaysInUse pair_heap 16 32 pair_heap-IsShaped pair_clear
      (record { in_space = omega arith; in_int = omega arith }) refl refl refl (omega arith)
      (omega arith) (omega arith) (omega arith)
