-- ===== src/Log.antt =====
-- kernel/log.c: the log in memory, as `begin_op`, `log_write` and `end_op` keep it, each from when
-- `log.lock` is taken to when it is given up. The header's `lh.block` is the list of its first `lh.n`
-- entries. `end_op` outside of an operation, which would count to -1, leaves 0.
pub mod Reserve
pub mod Disk
mod Tests
use oshard.Common.{
  ℕ, ◌+◌, ◌-◌, ◌*◌, Bool, true, false, ◌||◌, List, [], ◌∷◌, Option, none, some, Result, ok, panic,
  ◌==◌, ltb, leb, if◌then◌else◌, length,
}

-- kernel/param.h
abbrev pub max_op_blocks : ℕ
max_op_blocks = 10

abbrev pub log_size : ℕ
log_size = max_op_blocks * 3

-- the part of `struct log` that the operations change, and the size of the log on disk
pub record Log : Type 0 where
  pub size : ℕ
  pub outstanding : ℕ
  pub committing : Bool
  pub blocks : List ℕ

-- One round of the loop of `begin_op`: `none` is a `sleep`, after which the round is run again.
unfoldable pub begin_op : Log → Option Log
begin_op l =
    if l.committing
    then none
    else if ltb log_size (length l.blocks + (l.outstanding + 1) * max_op_blocks)
    then none
    else some (record l { outstanding = l.outstanding + 1 })

-- The search for `blockno` in the header, and the entry written: the header, and whether it is new.
unfoldable pub absorb : List ℕ → ℕ → List ℕ × Bool
absorb [] blockno = (blockno ∷ [], true)
absorb (x ∷ xs) blockno =
    let (rest, new) = absorb xs blockno in
    if x == blockno then (blockno ∷ xs, false) else (x ∷ rest, new)

-- The log, and whether the buffer is pinned.
unfoldable pub log_write : Log → ℕ → Result (Log × Bool)
unfolding absorb
log_write l blockno =
    if leb log_size (length l.blocks) || leb (l.size - 1) (length l.blocks)
    then panic "too big a transaction"
    else if ltb l.outstanding 1
    then panic "log_write outside of trans"
    else ok (let (blocks, new) = absorb l.blocks blockno in (record l { blocks = blocks }, new))

-- The log, and `do_commit`; when it is false, those who wait in `begin_op` are woken.
unfoldable pub end_op : Log → Result (Log × Bool)
end_op l =
    let l' = record l { outstanding = l.outstanding - 1 } in
    if l.committing
    then panic "log.committing"
    else if l'.outstanding == 0
    then ok (record l' { committing = true }, true)
    else ok (l', false)

-- What `commit`, and the end of `end_op` behind it, leave of the log in memory.
unfoldable pub end_commit : Log → Log
end_commit l = record l { committing = false; blocks = [] }
