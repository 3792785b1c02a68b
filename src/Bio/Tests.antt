-- ===== src/Bio/Tests.antt =====
-- Runs of kernel/bio.c, and its theorems on a cache of three buffers.
use oshard.Common.{
  ℕ, ◌≡◌, refl, true, false, [], ◌∷◌, ok, ◌+◌, ◌≢◌, ◌==◌, if◌then◌else◌, List, Bool, Result, ◌>>=◌,
  arith,
}
use oshard.LinkedList.Ring.{IsRing}
use oshard.SleepLock.{initsleeplock, acquiresleep, holdingsleep}
use oshard.Bio.{
  Bcache, link_first, binit_loop, binit, seek_next, seek_prev, find_buf, take_buf, bget, bread,
  bwrite, brelse,
}
use oshard.Bio.Correct.{GetEnds, brelse_lem, bget-GetEnds}
use oshard.Bio.Init.{binit-IsCache}

-- memory before `binit`, its head at 100, and block 9 of device 1 on the disk
abbrev zeroed : Bcache
zeroed = record {
  head = 100;
  links = record { next = λ a. 0; prev = λ a. 0 };
  buf = λ a. record {
    valid = false;
    dev = 0;
    blockno = 0;
    lock = record { locked = false; pid = 0 };
    refcnt = 0;
    bytes = [];
  };
  disk = λ d n. n ∷ d ∷ [];
}

abbrev started : Bcache
started = binit zeroed (10 ∷ 20 ∷ 30 ∷ [])

bget-GetEnds_example : GetEnds 5 started (30 ∷ 20 ∷ 10 ∷ []) 1 9 (bget 5 started 1 9)
bget-GetEnds_example =
    bget-GetEnds 5 started (30 ∷ 20 ∷ 10 ∷ []) 1 9
      (binit-IsCache zeroed (10 ∷ 20 ∷ 30 ∷ []) refl (omega arith) (λ a. refl))

-- `started` with the buffer at 10 held by process 5
abbrev busy : Bcache
busy = record started {
  buf = λ a.
      if a == 10
      then record {
        valid = true;
        dev = 1;
        blockno = 9;
        lock = record { locked = true; pid = 5 };
        refcnt = 1;
        bytes = 9 ∷ 1 ∷ [];
      }
      else zeroed.buf a;
}

brelse_lem_example :
    (c' : Bcache) × (brelse 5 busy 10 ≡ ok c')
    × IsRing c'.links c'.head (10 ∷ 30 ∷ 20 ∷ [])
    × ((c'.buf 10).refcnt + 1 ≡ 1)
    × ((c'.buf 10).lock.locked ≡ false)
    × ((a : ℕ) → a ≢ 10 → c'.buf a ≡ busy.buf a)
unfolding holdingsleep
brelse_lem_example =
    brelse_lem 5 busy 10 (30 ∷ 20 ∷ 10 ∷ [])
      (binit-IsCache zeroed (10 ∷ 20 ∷ 30 ∷ []) refl (omega arith) (λ a. refl)).ring refl refl
      (omega arith) (omega arith)

-- what a caller sees of the buffer returned
abbrev seen : ℕ → Result (ℕ × Bcache) → Result (ℕ × List ℕ × Bool)
seen pid r = r >>= λ x. ok (x.0, (x.1.buf x.0).bytes, holdingsleep pid (x.1.buf x.0).lock)

-- The least recently used buffer is read into, and its lock is the caller's.
reads : seen 5 (bread 5 started 1 9) ≡ ok (10, 9 ∷ 1 ∷ [], true)
unfolding bread bget take_buf find_buf seek_next seek_prev binit binit_loop link_first initsleeplock
    acquiresleep holdingsleep
reads = refl

-- A write by the holder reaches the disk.
writes : (bwrite 5 (record busy { disk = λ d n. [] }) 10 >>= λ c. ok (c.disk 1 9)) ≡ ok (9 ∷ 1 ∷ [])
unfolding bwrite holdingsleep
writes = refl
