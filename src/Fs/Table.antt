-- ===== src/Fs/Table.antt =====
-- kernel/fs.c: the table of inodes in memory. A pointer into it is an index, or none when it is 0;
-- `itable.lock` is held where the code takes it and is not part of the state. `pid` is that of the
-- process that calls.
pub mod Unique
use oshard.Common.{
  ℕ, zero, suc, ◌+◌, ◌-◌, ◌%◌, ◌^◌, Bool, true, false, not, ◌&&◌, ◌||◌, List, [], ◌∷◌, Option, none,
  some, Result, ok, panic, ◌>>=◌, ◌==◌, ltb, if◌then◌else◌, get_or, set, replicate,
}
use oshard.SleepLock.{initsleeplock, acquiresleep, releasesleep, holdingsleep}
use oshard.Fs.{Fs, put_block}
use oshard.Fs.Bytes.{get_le}
use oshard.Fs.Inode.{Inode, ndirect, iblock, dinode_at, get_dinode, put_dinode, iupdate, itrunc}

-- NINODE of kernel/param.h
abbrev pub ninode : ℕ
ninode = 50

abbrev pub blank_inode : Inode
blank_inode = record {
  dev = 0;
  inum = 0;
  ref = 0;
  lock = record { locked = false; pid = 0 };
  valid = false;
  type = 0;
  major = 0;
  minor = 0;
  nlink = 0;
  size = 0;
  addrs = replicate (ndirect + 1) 0;
}

-- the blocks and `itable.inode`
pub record Inodes : Type 0 where
  pub fs : Fs
  pub inode : List Inode

abbrev pub inode_at : Inodes → ℕ → Inode
inode_at s i = get_or s.inode i blank_inode

abbrev pub put_inode : Inodes → ℕ → Inode → Inodes
put_inode s i ip = record s { inode = set s.inode i ip }

-- The loop of `iinit`.
unfoldable pub iinit : List Inode → List Inode
unfolding initsleeplock
iinit [] = []
iinit (ip ∷ ips) = record ip { lock = initsleeplock ip.lock } ∷ iinit ips

-- what the loop of `iget` ends with: the entry of the inode, or else the first free one
pub data Slot : Type 0 where
  present : ℕ → Slot
  vacant : ℕ → Slot
  full : Slot

abbrev pub slot_of : Option ℕ → Slot
slot_of none = full
slot_of (some i) = vacant i

abbrev pub remember : Option ℕ → ℕ → Inode → Option ℕ
remember (some e) i ip = some e
remember none i ip = if ip.ref == 0 then some i else none

-- `ip->ref > 0` for an `int`
abbrev pub is_positive : ℕ → Bool
is_positive n = not (n == 0) && ltb n (2 ^ 31)

abbrev pub is_inode : ℕ → ℕ → Inode → Bool
is_inode dev inum ip = is_positive ip.ref && (ip.dev == dev) && (ip.inum == inum)

unfoldable pub scan_itable : ℕ → ℕ → List Inode → ℕ → Option ℕ → Slot
scan_itable dev inum [] i empty = slot_of empty
scan_itable dev inum (ip ∷ ips) i empty =
    let rest = scan_itable dev inum ips (i + 1) (remember empty i ip) in
    if is_inode dev inum ip then present i else rest

abbrev pub take_slot : Inodes → ℕ → ℕ → Slot → Result (ℕ × Inodes)
take_slot s dev inum (present i) =
    ok (i, put_inode s i (record (inode_at s i) { ref = ((inode_at s i).ref + 1) % 2 ^ 32 }))
take_slot s dev inum (vacant i) =
    ok (i, put_inode s i (record (inode_at s i) { dev = dev; inum = inum; ref = 1; valid = false }))
take_slot s dev inum full = panic "iget: no inodes"

unfoldable pub iget : Inodes → ℕ → ℕ → Result (ℕ × Inodes)
unfolding scan_itable
iget s dev inum = take_slot s dev inum (scan_itable dev inum s.inode 0 none)

-- The loop of `ialloc` from `inum` on, with the rounds left.
unfoldable pub ialloc_loop : ℕ → Inodes → ℕ → ℕ → ℕ → Result (Option ℕ × Inodes)
unfolding put_dinode iget
ialloc_loop zero s dev type inum = ok (none, s)
ialloc_loop (suc rounds) s dev type inum =
    let b = iblock s.fs inum in
    let bytes = put_dinode (s.fs.block b) (dinode_at inum) (record blank_inode { type = type }) in
    elim (get_le 2 (s.fs.block b) (dinode_at inum) == 0) [
      | true ↦
          iget (record s { fs = put_block s.fs b bytes }) dev inum >>= λ r. ok (some (r.0), r.1)
      | false ↦ ialloc_loop rounds s dev type (inum + 1)
    ]

unfoldable pub ialloc : Inodes → ℕ → ℕ → Result (Option ℕ × Inodes)
unfolding ialloc_loop
ialloc s dev type = ialloc_loop (s.fs.sb.ninodes - 1) s dev type 1

unfoldable pub idup : Inodes → ℕ → Inodes
idup s i = put_inode s i (record (inode_at s i) { ref = ((inode_at s i).ref + 1) % 2 ^ 32 })

-- the fields `read` from the disk, when the inode was not `valid`
abbrev pub fill : Bool → Inode → Inode → Result Inode
fill true ip read = ok ip
fill false ip read =
    if read.type == 0 then panic "ilock: no type" else ok (record read { valid = true })

unfoldable pub load_inode : Fs → Inode → Result Inode
unfolding get_dinode
load_inode fs ip =
    fill ip.valid ip (get_dinode (fs.block (iblock fs ip.inum)) (dinode_at ip.inum) ip)

unfoldable pub ilock : ℕ → Inodes → Option ℕ → Result Inodes
unfolding acquiresleep load_inode
ilock pid s none = panic "ilock"
ilock pid s (some i) = if not (is_positive (inode_at s i).ref) then panic "ilock" else (do
  lock ← acquiresleep pid (inode_at s i).lock
  ip ← load_inode s.fs (record (inode_at s i) { lock = lock })
  ok (put_inode s i ip))

unfoldable pub iunlock : ℕ → Inodes → Option ℕ → Result Inodes
unfolding holdingsleep releasesleep
iunlock pid s none = panic "iunlock"
iunlock pid s (some i) =
    if not (holdingsleep pid (inode_at s i).lock) || not (is_positive (inode_at s i).ref)
    then panic "iunlock"
    else ok (put_inode s i (record (inode_at s i) { lock = releasesleep (inode_at s i).lock }))

-- The last holder of an inode that no directory names truncates and frees it.
unfoldable pub free_inode : ℕ → Fs → Inode → Result (Fs × Inode)
unfolding acquiresleep itrunc iupdate releasesleep
free_inode pid fs ip = do
  lock ← acquiresleep pid ip.lock
  (fs1, ip1) ← itrunc fs (record ip { lock = lock })
  let ip2 = record ip1 { type = 0 }
  ok (iupdate fs1 ip2, record ip2 { valid = false; lock = releasesleep ip2.lock })

unfoldable pub iput : ℕ → Inodes → ℕ → Result Inodes
unfolding free_inode
iput pid s i = do
  let ip = inode_at s i
  (fs1, ip1) ←
      if (ip.ref == 1) && ip.valid && (ip.nlink == 0) then free_inode pid s.fs ip else ok (s.fs, ip)
  ok (record s {
    fs = fs1;
    inode = set s.inode i (record ip1 { ref = (ip1.ref + 2 ^ 32 - 1) % 2 ^ 32 });
  })

unfoldable pub iunlockput : ℕ → Inodes → ℕ → Result Inodes
unfolding iunlock iput
iunlockput pid s i = do s1 ← iunlock pid s (some i); iput pid s1 i
