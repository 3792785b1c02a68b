-- ===== src/Fs/Inode.antt =====
-- kernel/fs.c: the content of an inode, and inodes on the disk. `struct inode` is a value here: the
-- functions return it as they leave it. A `short`, an `int` and a `uint` are patterns of bits.
pub mod Transfer
pub mod Stored
use oshard.Common.{
  ℕ, zero, suc, ◌+◌, ◌-◌, ◌*◌, ◌/◌, ◌%◌, ◌^◌, Bool, true, false, not, ◌||◌, List, [], ◌∷◌, ◌++◌,
  Option, none, some, Result, ok, panic, ◌>>=◌, ◌==◌, ltb, if◌then◌else◌, get_or, set, take, drop,
  replicate, length,
}
use oshard.SleepLock.{SleepLock}
use oshard.Fs.{bsize, Superblock, Fs, put_block, bzero, balloc, bfree}
use oshard.Fs.Bytes.{get_le, put_le}

abbrev pub ndirect : ℕ
ndirect = 12

-- `BSIZE / sizeof(uint)`
abbrev pub nindirect : ℕ
nindirect = 256

abbrev pub maxfile : ℕ
maxfile = ndirect + nindirect

-- `struct inode`
pub record Inode : Type 0 where
  pub dev : ℕ
  pub inum : ℕ
  pub ref : ℕ
  pub lock : SleepLock
  pub valid : Bool
  pub type : ℕ
  pub major : ℕ
  pub minor : ℕ
  pub nlink : ℕ
  pub size : ℕ
  pub addrs : List ℕ

-- `IBLOCK(i, sb)`, and the byte where the inode begins in that block: 16 inodes of 64 bytes fill it
abbrev pub iblock : Fs → ℕ → ℕ
iblock fs i = i / 16 + fs.sb.inodestart

abbrev pub dinode_at : ℕ → ℕ
dinode_at i = (i % 16) * 64

-- `memmove(dip->addrs, ip->addrs, sizeof(ip->addrs))`, from the entry with the number given on
unfoldable pub put_addrs : List ℕ → ℕ → List ℕ → List ℕ
put_addrs bytes at [] = bytes
put_addrs bytes at (a ∷ addrs) = put_addrs (put_le 4 bytes at a) (at + 4) addrs

unfoldable pub get_addrs : ℕ → List ℕ → ℕ → List ℕ
get_addrs zero bytes at = []
get_addrs (suc n) bytes at = get_le 4 bytes at ∷ get_addrs n bytes (at + 4)

-- The fields of a `struct dinode` that begins at `at`.
unfoldable pub put_dinode : List ℕ → ℕ → Inode → List ℕ
unfolding put_addrs
put_dinode bytes at ip =
    let b1 = put_le 2 bytes at ip.type in
    let b2 = put_le 2 b1 (at + 2) ip.major in
    let b3 = put_le 2 b2 (at + 4) ip.minor in
    let b4 = put_le 2 b3 (at + 6) ip.nlink in
    let b5 = put_le 4 b4 (at + 8) ip.size in put_addrs b5 (at + 12) ip.addrs

unfoldable pub get_dinode : List ℕ → ℕ → Inode → Inode
unfolding get_addrs
get_dinode bytes at ip = record ip {
  type = get_le 2 bytes at;
  major = get_le 2 bytes (at + 2);
  minor = get_le 2 bytes (at + 4);
  nlink = get_le 2 bytes (at + 6);
  size = get_le 4 bytes (at + 8);
  addrs = get_addrs (ndirect + 1) bytes (at + 12);
}

unfoldable pub iupdate : Fs → Inode → Fs
unfolding put_dinode
iupdate fs ip =
    let b = iblock fs ip.inum in put_block fs b (put_dinode (fs.block b) (dinode_at ip.inum) ip)

-- `ip->addrs[i]`, allocated when it is 0
unfoldable pub addr_of : Fs → Inode → ℕ → ℕ × Fs × Inode
unfolding balloc
addr_of fs ip i =
    let addr = get_or ip.addrs i 0 in
    let (new, fs1) = balloc fs in
    if addr == 0
    then (if new == 0 then (0, fs1, ip) else (new, fs1, record ip { addrs = set ip.addrs i new }))
    else (addr, fs, ip)

-- `a[bn]` of the indirect block at `at`, allocated when it is 0
unfoldable pub indirect_of : Fs → ℕ → ℕ → ℕ × Fs
unfolding balloc
indirect_of fs at bn =
    let addr = get_le 4 (fs.block at) (4 * bn) in
    let (new, fs1) = balloc fs in
    if addr == 0
    then (if new == 0
        then (0, fs1)
        else (new, put_block fs1 at (put_le 4 (fs1.block at) (4 * bn) new)))
    else (addr, fs)

abbrev pub through_indirect : ℕ → ℕ × Fs × Inode → ℕ × Fs × Inode
through_indirect bn (at, fs, ip) =
    let (addr, fs1) = indirect_of fs at bn in if at == 0 then (0, fs, ip) else (addr, fs1, ip)

unfoldable pub bmap : Fs → Inode → ℕ → Result (ℕ × Fs × Inode)
unfolding addr_of indirect_of
bmap fs ip bn =
    if ltb bn ndirect
    then ok (addr_of fs ip bn)
    else if ltb (bn - ndirect) nindirect
    then ok (through_indirect (bn - ndirect) (addr_of fs ip ndirect))
    else panic "bmap: out of range"

-- The direct loop of `itrunc` over the addresses, and the indirect loop from entry `j` on with the rounds left.
unfoldable pub free_addrs : Fs → List ℕ → Result Fs
unfolding bfree
free_addrs fs [] = ok fs
free_addrs fs (a ∷ addrs) = do fs1 ← if a == 0 then ok fs else bfree fs a; free_addrs fs1 addrs

unfoldable pub free_entries : ℕ → Fs → ℕ → ℕ → Result Fs
unfolding bfree
free_entries zero fs at j = ok fs
free_entries (suc rounds) fs at j = do
  let a = get_le 4 (fs.block at) (4 * j)
  fs1 ← if a == 0 then ok fs else bfree fs a
  free_entries rounds fs1 at (j + 1)

unfoldable pub free_indirect : Fs → ℕ → Result Fs
unfolding bfree free_entries
free_indirect fs at = do fs1 ← free_entries nindirect fs at 0; bfree fs1 at

unfoldable pub itrunc : Fs → Inode → Result (Fs × Inode)
unfolding free_addrs free_indirect iupdate
itrunc fs ip = do
  fs1 ← free_addrs fs (take ndirect ip.addrs)
  let at = get_or ip.addrs ndirect 0
  fs2 ← if at == 0 then ok fs1 else free_indirect fs1 at
  let ip1 = record ip { addrs = replicate (ndirect + 1) 0; size = 0 }
  ok (iupdate fs2 ip1, ip1)

-- `struct stat`
pub record Stat : Type 0 where
  pub dev : ℕ
  pub ino : ℕ
  pub type : ℕ
  pub nlink : ℕ
  pub size : ℕ

unfoldable pub stati : Inode → Stat
stati ip = record { dev = ip.dev; ino = ip.inum; type = ip.type; nlink = ip.nlink; size = ip.size }
