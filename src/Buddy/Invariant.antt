-- ===== src/Buddy/Invariant.antt =====
-- The invariant of kernel/buddy.c and the blocks that its clients hold.
pub mod Steps
use oshard.Common.{ℕ, ◌+◌, ◌-◌, ◌*◌, ◌/◌, ◌^◌, ◌≤◌, ◌<◌, ◌≡◌, true, arith}
use oshard.LinkedList.Ring.{has}
use oshard.Buddy.Bits.{bit_set, bit_clear, bit_invert}
use oshard.Buddy.Heap.{Heap, size_info, set_alloc, set_split}
use oshard.Buddy.View.{alloc_bit, split_bit, IsShaped}
use oshard.Buddy.Lists.{FreeLists, Geometry, HasLists, IsPlaced, Separate, Disjoint}
use oshard.Buddy.Whole.{IsWhole}
use oshard.Buddy.Paired.{IsPaired}

-- The memory from leaf `lo` on is handed out; the allocator's own data lies below.
abbrev pub geometry : Heap → ℕ → Geometry
geometry s lo = record { nsizes = s.nsizes; base = s.base; sizes_at = s.sizes_at; lo = lo }

-- Memory threads the free lists; free blocks overlap neither one another nor the allocator's data,
-- are whole for the split bits, and are what the alloc bits say.
pub record Invariant (lo : ℕ) (s : Heap) (fl : FreeLists) : Type 0 where
  pub shaped : IsShaped s
  pub lists : HasLists (geometry s lo) s.links fl
  pub whole : (k i : ℕ) → k < s.nsizes → has i (fl k) ≡ true → IsWhole s.nsizes (split_bit s) k i
  pub paired : IsPaired s.nsizes (alloc_bit s) fl

-- Block `i` of level `k` is in use: no free block overlaps it.
pub record IsHeld (lo : ℕ) (s : Heap) (fl : FreeLists) (k i : ℕ) : Type 0 where
  pub level : k < s.nsizes
  pub placed : IsPlaced (geometry s lo) k i
  pub whole : IsWhole s.nsizes (split_bit s) k i
  pub separate : Separate (geometry s lo) fl k i

-- The blocks that are held before, and share nothing with a given one, are held after.
abbrev pub Keeps : ℕ → Heap → FreeLists → Heap → FreeLists → (ℕ → ℕ → Type 0) → Type 0
Keeps lo s fl s' fl' Apart = (m j : ℕ) → IsHeld lo s fl m j → Apart m j → IsHeld lo s' fl' m j

-- the writes of the allocator to its bit arrays
abbrev pub invert : Heap → ℕ → ℕ → Heap
invert s k x = set_alloc s k (bit_invert (size_info s k).alloc x)

abbrev pub mark_split : Heap → ℕ → ℕ → Heap
mark_split s k x = set_split s k (bit_set (size_info s k).split x)

abbrev pub clear_split : Heap → ℕ → ℕ → Heap
clear_split s k x = set_split s k (bit_clear (size_info s k).split x)
