-- ===== src/Bio.antt =====
-- kernel/bio.c and kernel/buf.h: the buffer cache. The `next` and `prev` fields are a memory of links
-- as in `LinkedList`, with `head` the address of `bcache.head`, and a buffer is found by its
-- address. `bcache.lock` is held through each function and is not part of the state; `pid` is that
-- of the process that calls. The disk answers with the contents of a block.
pub mod Search
pub mod Correct
pub mod Init
mod Tests
use oshard.Common.{
  ℕ, zero, suc, ◌+◌, ◌-◌, ◌%◌, ◌^◌, Bool, true, false, not, ◌&&◌, List, [], ◌∷◌, Option, none, some,
  Result, ok, panic, ◌>>=◌, ◌==◌, if◌then◌else◌,
}
use oshard.LinkedList.{Links, set_next, set_prev}
use oshard.SleepLock.{SleepLock, initsleeplock, acquiresleep, releasesleep, holdingsleep}

-- NBUF of kernel/param.h
abbrev pub nbuf : ℕ
nbuf = 30

pub record Buf : Type 0 where
  pub valid : Bool
  pub dev : ℕ
  pub blockno : ℕ
  pub lock : SleepLock
  pub refcnt : ℕ
  pub bytes : List ℕ

-- `++` and `--` of a `uint`
abbrev pub inc : ℕ → ℕ
inc n = (n + 1) % 2 ^ 32

abbrev pub dec : ℕ → ℕ
dec n = (n + 2 ^ 32 - 1) % 2 ^ 32

pub record Bcache : Type 0 where
  pub head : ℕ
  pub links : Links
  pub buf : ℕ → Buf
  pub disk : ℕ → ℕ → List ℕ

abbrev pub put_buf : Bcache → ℕ → Buf → Bcache
put_buf c b v = record c { buf = λ a. if a == b then v else c.buf a }

-- `b->next = bcache.head.next; b->prev = &bcache.head; bcache.head.next->prev = b; bcache.head.next = b;`
unfoldable pub link_first : Links → ℕ → ℕ → Links
link_first m head b =
    let m1 = set_next m b (m.next head) in
    let m2 = set_prev m1 b head in let m3 = set_prev m2 (m2.next head) b in set_next m3 head b

-- `b->next->prev = b->prev; b->prev->next = b->next;`
unfoldable pub unlink : Links → ℕ → Links
unlink m b = let m1 = set_prev m (m.next b) (m.prev b) in set_next m1 (m1.prev b) (m1.next b)

-- The body of the loop of `binit`, and the loop over the buffers.
abbrev pub init_buf : Bcache → ℕ → Bcache
init_buf c b =
    let c1 = put_buf c b (record (c.buf b) { lock = initsleeplock (c.buf b).lock }) in
    record c1 { links = link_first c1.links c1.head b }

unfoldable pub binit_loop : List ℕ → Bcache → Bcache
unfolding link_first initsleeplock
binit_loop [] c = c
binit_loop (b ∷ bs) c = binit_loop bs (init_buf c b)

unfoldable pub binit : Bcache → List ℕ → Bcache
unfolding binit_loop
binit c bufs =
    let m = set_next (set_prev c.links c.head c.head) c.head c.head in
    binit_loop bufs (record c { links = m })

-- `for (b = bcache.head.next; b != &bcache.head; b = b->next)` and the same through `prev`, each from
-- `b` on with the rounds left
unfoldable pub seek_next : ℕ → Bcache → (Buf → Bool) → ℕ → Option ℕ
seek_next zero c f b = none
seek_next (suc rounds) c f b =
    let rest = seek_next rounds c f (c.links.next b) in
    if b == c.head then none else if f (c.buf b) then some b else rest

unfoldable pub seek_prev : ℕ → Bcache → (Buf → Bool) → ℕ → Option ℕ
seek_prev zero c f b = none
seek_prev (suc rounds) c f b =
    let rest = seek_prev rounds c f (c.links.prev b) in
    if b == c.head then none else if f (c.buf b) then some b else rest

abbrev pub holds_block : ℕ → ℕ → Buf → Bool
holds_block dev blockno b = (b.dev == dev) && (b.blockno == blockno)

abbrev pub is_unused : Buf → Bool
is_unused b = b.refcnt == 0

-- what the two loops find: the block's buffer, or else one to recycle
pub data Found : Type 0 where
  cached : ℕ → Found
  recycled : ℕ → Found
  no_buffers : Found

-- The block's own buffer is taken before one to recycle.
abbrev pub choice : Option ℕ → Option ℕ → Found
choice (some b) o = cached b
choice none (some b) = recycled b
choice none none = no_buffers

unfoldable pub find_buf : Bcache → ℕ → ℕ → Found
find_buf c dev blockno =
    choice (seek_next (nbuf + 1) c (holds_block dev blockno) (c.links.next c.head))
      (seek_prev (nbuf + 1) c is_unused (c.links.prev c.head))

-- the buffer taken, and what `bget` writes to it before `acquiresleep`
unfoldable pub take_buf : Bcache → ℕ → ℕ → Found → Result (ℕ × Bcache)
take_buf c dev blockno (cached b) =
    ok (b, put_buf c b (record (c.buf b) { refcnt = inc (c.buf b).refcnt }))
take_buf c dev blockno (recycled b) =
    ok (
      b,
      put_buf c b (record (c.buf b) { dev = dev; blockno = blockno; valid = false; refcnt = 1 }),
    )
take_buf c dev blockno no_buffers = panic "bget: no buffers"

unfoldable pub bget : ℕ → Bcache → ℕ → ℕ → Result (ℕ × Bcache)
unfolding take_buf acquiresleep
bget pid c dev blockno = do
  (b, c1) ← take_buf c dev blockno (find_buf c dev blockno)
  lock ← acquiresleep pid (c1.buf b).lock
  ok (b, put_buf c1 b (record (c1.buf b) { lock = lock }))

unfoldable pub bread : ℕ → Bcache → ℕ → ℕ → Result (ℕ × Bcache)
unfolding bget
bread pid c dev blockno = do
  (b, c1) ← bget pid c dev blockno
  let v = c1.buf b
  ok (
    b,
    if v.valid
        then c1
        else put_buf c1 b (record v { valid = true; bytes = c1.disk v.dev v.blockno }),
  )

unfoldable pub bwrite : ℕ → Bcache → ℕ → Result Bcache
unfolding holdingsleep
bwrite pid c b =
    let v = c.buf b in
    if not (holdingsleep pid v.lock)
    then panic "bwrite"
    else ok (record c {
      disk = λ d n. if (d == v.dev) && (n == v.blockno) then v.bytes else c.disk d n;
    })

unfoldable pub brelse : ℕ → Bcache → ℕ → Result Bcache
unfolding holdingsleep releasesleep unlink link_first
brelse pid c b =
    let v = c.buf b in
    let c1 = put_buf c b (record v { lock = releasesleep v.lock; refcnt = dec v.refcnt }) in
    if not (holdingsleep pid v.lock)
    then panic "brelse"
    else ok (
        if dec v.refcnt == 0
        then record c1 { links = link_first (unlink c1.links b) c1.head b }
        else c1)

unfoldable pub bpin : Bcache → ℕ → Bcache
bpin c b = put_buf c b (record (c.buf b) { refcnt = inc (c.buf b).refcnt })

unfoldable pub bunpin : Bcache → ℕ → Bcache
bunpin c b = put_buf c b (record (c.buf b) { refcnt = dec (c.buf b).refcnt })
