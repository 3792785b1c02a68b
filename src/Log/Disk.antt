-- ===== src/Log/Disk.antt =====
-- kernel/log.c on the disk: `write_log`, `write_head`, `install_trans`, `commit`, and the recovery of
-- `initlog`. `bread` and `bwrite` (kernel/bio.c) are taken as they behave on a cache that holds every
-- block: the cached bytes of a block are read and written, and `bwrite` puts them on the disk. The
-- power fails after a number of disk writes; what runs after it leaves the disk alone. The header,
-- block `start`, is written whole by one disk write.
pub mod Writes
pub mod Crash
use oshard.Common.{
  ℕ, zero, suc, ◌+◌, ◌-◌, Bool, List, [], ◌∷◌, ◌==◌, leb, if◌then◌else◌, Result, ok, panic,
}

-- the bytes of a block
abbrev pub Block : Type 0
Block = List ℕ

pub record Store : Type 0 where
  pub disk : ℕ → Block
  pub head : List ℕ
  pub cache : ℕ → Block
  pub power : ℕ

abbrev pub update : (ℕ → Block) → ℕ → Block → ℕ → Block
update f a v b = if b == a then v else f b

-- `memmove(to->data, from->data, BSIZE)`
abbrev pub copy_block : Store → ℕ → ℕ → Store
copy_block s to from = record s { cache = update s.cache to (s.cache from) }

unfoldable pub bwrite : Store → ℕ → Store
bwrite s a =
    if s.power == 0 then s else record s { disk = update s.disk a (s.cache a); power = s.power - 1 }

-- `log.lh` is `blocks`.
unfoldable pub write_head : Store → List ℕ → Store
write_head s blocks = if s.power == 0 then s else record s { head = blocks; power = s.power - 1 }

-- The rounds left of `write_log`: `j` is `log.start + tail + 1`.
unfoldable pub write_log : Store → ℕ → List ℕ → Store
unfolding bwrite
write_log s j [] = s
write_log s j (n ∷ blocks) = write_log (bwrite (copy_block s j n) j) (j + 1) blocks

-- The rounds left of `install_trans`; `bunpin` has no effect on what a cache of every block holds.
unfoldable pub install_trans : Store → ℕ → List ℕ → Store
unfolding bwrite
install_trans s j [] = s
install_trans s j (n ∷ blocks) = install_trans (bwrite (copy_block s n j) n) (j + 1) blocks

-- The store, and `log.lh`.
unfoldable pub commit : Store → ℕ → List ℕ → Store × List ℕ
unfolding write_log install_trans write_head
commit s start [] = (s, [])
commit s start (n ∷ blocks) =
    let s1 = write_log s (start + 1) (n ∷ blocks) in
    let s2 = write_head s1 (n ∷ blocks) in
    let s3 = install_trans s2 (start + 1) (n ∷ blocks) in (write_head s3 [], [])

-- A start of the machine: the cache holds what is on the disk.
abbrev pub reboot : Store → ℕ → Store
reboot s power = record s { cache = s.disk; power = power }

-- `read_head`, and the rest of `recover_from_log`
unfoldable pub recover_from_log : Store → ℕ → Store × List ℕ
unfolding install_trans write_head
recover_from_log s start =
    let blocks = s.head in let s1 = install_trans s (start + 1) blocks in (write_head s1 [], [])

-- The fields `start`, `size` and `lh` of the log, with `sizeof(struct logheader)` and `BSIZE`.
unfoldable pub initlog : Store → ℕ → ℕ → Result (Store × ℕ × ℕ × List ℕ)
unfolding recover_from_log
initlog s logstart nlog =
    if leb 1024 124
    then panic "initlog: too big logheader"
    else ok (let (s', blocks) = recover_from_log s logstart in (s', logstart, nlog, blocks))
