-- ===== src/Buddy/Heap.antt =====
-- kernel/buddy.c, the allocator's state: `nsizes`, `bd_base`, `bd_sizes` and the memory of the free
-- lists. The head of the free list of level k is `&bd_sizes[k].free`, the first field of an
-- `Sz_info` of 32 bytes. The lock stands beside this state, in `Kernel`.
use oshard.Common.{ℕ, ◌+◌, ◌-◌, ◌*◌, List, [], get_or, set}
use oshard.LinkedList.{Links}
use oshard.Spinlock.{Cpu, Spinlock}

-- `struct sz_info`: the list head is in `links`, the bit arrays are lists of bytes.
pub record SzInfo : Type 0 where
  pub alloc : List ℕ
  pub split : List ℕ

pub record Heap : Type 0 where
  pub nsizes : ℕ
  pub base : ℕ
  pub sizes_at : ℕ
  pub sizes : List SzInfo
  pub links : Links

-- A cpu that runs the allocator, the allocator's lock and its state.
pub record Kernel : Type 0 where
  pub cpu : Cpu
  pub lock : Spinlock
  pub heap : Heap

abbrev pub no_size : SzInfo
no_size = record { alloc = []; split = [] }

-- `MAXSIZE`
abbrev pub max_size : Heap → ℕ
max_size s = s.nsizes - 1

-- `&bd_sizes[k].free`
abbrev pub free_list : Heap → ℕ → ℕ
free_list s k = s.sizes_at + k * 32

-- `bd_sizes[k]`; past the end of the array there is no bit.
abbrev pub size_info : Heap → ℕ → SzInfo
size_info s k = get_or s.sizes k no_size

-- `bd_sizes[k].alloc` and `bd_sizes[k].split`, written anew
abbrev pub set_alloc : Heap → ℕ → List ℕ → Heap
set_alloc s k bits = record s { sizes = set s.sizes k (record (size_info s k) { alloc = bits }) }

abbrev pub set_split : Heap → ℕ → List ℕ → Heap
set_split s k bits = record s { sizes = set s.sizes k (record (size_info s k) { split = bits }) }

abbrev pub set_links : Heap → Links → Heap
set_links s m = record s { links = m }
