-- ===== src/Fs/Path.antt =====
-- kernel/fs.c: directories and path names. A path is its bytes before the 0, and a name is its bytes
-- up to a 0 or DIRSIZ; in memory that the functions share it is cut and padded in the same way.
pub mod Split
use Prim.Native.String.{String}
use oshard.Common.{
  ℕ, zero, suc, ◌+◌, ◌-◌, ◌*◌, ◌%◌, ◌^◌, Bool, true, false, not, ◌&&◌, List, [], ◌∷◌, ◌++◌, Option,
  none, some, Result, ok, panic, loops, ◌>>=◌, ◌==◌, ltb, if◌then◌else◌, take, drop, replicate,
  get_or, length,
}
use oshard.Fs.{Fs}
use oshard.Fs.Bytes.{get_le, le_bytes}
use oshard.Fs.Inode.{Inode}
use oshard.Fs.Inode.Transfer.{Moved, readi, writei}
use oshard.Fs.Table.{Inodes, inode_at, put_inode, iget, idup, ilock, iunlock, iput, iunlockput}

abbrev pub dirsiz : ℕ
dirsiz = 14

-- `sizeof(struct dirent)`
abbrev pub dirent_size : ℕ
dirent_size = 16

abbrev pub t_dir : ℕ
t_dir = 1

abbrev pub slash : ℕ
slash = 47

-- `while (*path == '/') path++;`
unfoldable pub skip_slashes : List ℕ → List ℕ
skip_slashes [] = []
skip_slashes (b ∷ path) = let rest = skip_slashes path in if b == slash then rest else b ∷ path

-- `while (*path != '/' && *path != 0) path++;`, the bytes passed and those left
unfoldable pub span_elem : List ℕ → List ℕ × List ℕ
span_elem [] = ([], [])
span_elem (b ∷ path) =
    let (elem, rest) = span_elem path in if b == slash then ([], b ∷ path) else (b ∷ elem, rest)

abbrev pub next_elem : List ℕ → Option (List ℕ × List ℕ)
next_elem [] = none
next_elem (b ∷ path) =
    let (elem, rest) = span_elem (b ∷ path) in some (take dirsiz elem, skip_slashes rest)

-- the name and the path left
unfoldable pub skipelem : List ℕ → Option (List ℕ × List ℕ)
unfolding skip_slashes span_elem
skipelem path = next_elem (skip_slashes path)

-- the bytes of a field before its 0
unfoldable pub cut : List ℕ → List ℕ
cut [] = []
cut (b ∷ bytes) = let rest = cut bytes in if b == 0 then [] else b ∷ rest

-- `namecmp(s, t) == 0`
unfoldable pub same_name : List ℕ → List ℕ → Bool
same_name [] [] = true
same_name [] (y ∷ ys) = false
same_name (x ∷ xs) [] = false
same_name (x ∷ xs) (y ∷ ys) = (x == y) && same_name xs ys

-- `either_copyout` and `either_copyin` with an address of the kernel
abbrev pub kernel_copyout : List ℕ → ℕ → List ℕ → Bool × List ℕ
kernel_copyout mem dst bytes = (true, mem ++ bytes)

abbrev pub splice : List ℕ → ℕ → List ℕ → List ℕ
splice block place bytes = take place block ++ bytes ++ drop (place + length bytes) block

abbrev pub kernel_copyin : List ℕ → List ℕ → ℕ → ℕ → ℕ → Bool × List ℕ
kernel_copyin mem block place src m = (true, splice block place (take m (drop src mem)))

-- `readi(dp, 0, (uint64)&de, off, sizeof(de))` that must be whole
unfoldable pub read_dirent : String → Fs → Inode → ℕ → Result (List ℕ × Fs × Inode)
unfolding readi
read_dirent message fs dp off = do
  (got, bytes, fs1, dp1) ← readi kernel_copyout [] fs dp 0 off dirent_size
  if got == dirent_size then ok (bytes, fs1, dp1) else panic message

-- The loop of `dirlookup` from `off` on, with the rounds left: the inode number and the offset.
unfoldable pub lookup_loop : ℕ → Fs → Inode → List ℕ → ℕ → Result (Option (ℕ × ℕ) × Fs × Inode)
unfolding read_dirent same_name cut
lookup_loop zero fs dp name off = loops
lookup_loop (suc rounds) fs dp name off = if not (ltb off dp.size) then ok (none, fs, dp) else (do
  (de, fs1, dp1) ← read_dirent "dirlookup read" fs dp off
  let inum = get_le 2 de 0
  if not (inum == 0) && same_name name (cut (drop 2 de))
      then ok (some (inum, off), fs1, dp1)
      else lookup_loop rounds fs1 dp1 name (off + dirent_size))

-- the entry found gives a reference to its inode
abbrev pub get_found : Inodes → ℕ → Option (ℕ × ℕ) → Result (Option (ℕ × ℕ) × Inodes)
get_found s dev none = ok (none, s)
get_found s dev (some (inum, off)) = iget s dev inum >>= λ r. ok (some (r.0, off), r.1)

unfoldable pub dirlookup : Inodes → ℕ → List ℕ → Result (Option (ℕ × ℕ) × Inodes)
unfolding lookup_loop iget
dirlookup s d name =
    let dp = inode_at s d in
    if not (dp.type == t_dir) then panic "dirlookup not DIR" else (do
      (found, fs1, dp1) ← lookup_loop (dp.size + 1) s.fs dp name 0
      get_found (put_inode (record s { fs = fs1 }) d dp1) dp.dev found)

-- The loop of `dirlink` that looks for an empty entry.
unfoldable pub empty_loop : ℕ → Fs → Inode → ℕ → Result (ℕ × Fs × Inode)
unfolding read_dirent
empty_loop zero fs dp off = loops
empty_loop (suc rounds) fs dp off = if not (ltb off dp.size) then ok (off, fs, dp) else (do
  (de, fs1, dp1) ← read_dirent "dirlink read" fs dp off
  if get_le 2 de 0 == 0 then ok (off, fs1, dp1) else empty_loop rounds fs1 dp1 (off + dirent_size))

-- `strncpy(de.name, name, DIRSIZ); de.inum = inum;`
abbrev pub dirent : List ℕ → ℕ → List ℕ
dirent name inum = le_bytes 2 inum ++ take dirsiz (name ++ replicate dirsiz 0)

unfoldable pub write_link : Inodes → ℕ → List ℕ → ℕ → Result (Bool × Inodes)
unfolding empty_loop writei
write_link s d name inum = do
  let dp = inode_at s d
  (off, fs1, dp1) ← empty_loop (dp.size + 1) s.fs dp 0
  (put, fs2, dp2) ← writei kernel_copyin (dirent name inum) fs1 dp1 0 off dirent_size
  ok (put == dirent_size, put_inode (record s { fs = fs2 }) d dp2)

abbrev pub link_unless : ℕ → ℕ → List ℕ → ℕ → Option (ℕ × ℕ) × Inodes → Result (Bool × Inodes)
link_unless pid d name inum (some (i, off), s) = iput pid s i >>= λ s1. ok (false, s1)
link_unless pid d name inum (none, s) = write_link s d name inum

-- whether the entry was written
unfoldable pub dirlink : ℕ → Inodes → ℕ → List ℕ → ℕ → Result (Bool × Inodes)
unfolding dirlookup write_link iput
dirlink pid s d name inum = dirlookup s d name >>= link_unless pid d name inum
