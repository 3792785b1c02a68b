-- ===== src/Fs/Name.antt =====
-- kernel/fs.c: `fsinit`, and the inode that a path names. `cwd` is the inode of `myproc()->cwd`.
use oshard.Common.{
  ℕ, zero, suc, ◌+◌, Bool, true, false, not, ◌&&◌, List, [], ◌∷◌, Option, none, some, Result, ok,
  panic, loops, ◌>>=◌, ◌==◌, if◌then◌else◌, length,
}
use oshard.Fs.{Superblock, Fs}
use oshard.Fs.Bytes.{get_le}
use oshard.Fs.Table.{Inodes, inode_at, iget, idup, ilock, iunlock, iput, iunlockput}
use oshard.Fs.Path.{t_dir, slash, skipelem, dirlookup}

abbrev pub fsmagic : ℕ
fsmagic = 270544960

unfoldable pub readsb : List ℕ → Superblock
readsb bytes = record {
  magic = get_le 4 bytes 0;
  size = get_le 4 bytes 4;
  nblocks = get_le 4 bytes 8;
  ninodes = get_le 4 bytes 12;
  nlog = get_le 4 bytes 16;
  logstart = get_le 4 bytes 20;
  inodestart = get_le 4 bytes 24;
  bmapstart = get_le 4 bytes 28;
}

-- `initlog` of kernel/log.c is an argument.
unfoldable pub fsinit : (Fs → Result Fs) → Fs → Result Fs
unfolding readsb
fsinit initlog fs =
    let sb = readsb (fs.block 1) in
    if not (sb.magic == fsmagic)
    then panic "invalid file system"
    else initlog (record fs { sb = sb })

-- ROOTDEV and ROOTINO
abbrev pub rootdev : ℕ
rootdev = 1

abbrev pub rootino : ℕ
rootino = 1

abbrev pub starts_at_root : List ℕ → Bool
starts_at_root [] = false
starts_at_root (b ∷ path) = b == slash

abbrev pub path_done : List ℕ → Bool
path_done [] = true
path_done (b ∷ path) = false

-- the inode, if there is one, and the last name that was split off
abbrev pub Named : Type 0
Named = Option ℕ × List ℕ × Inodes

-- The loop of `namex` with the rounds left, at inode `ip` and with the name last split off.
unfoldable pub namex_loop : ℕ → ℕ → Bool → Inodes → ℕ → List ℕ → List ℕ → Result Named
unfolding skipelem dirlookup ilock iunlock iput iunlockput
namex_loop zero pid parent s ip name path = loops
namex_loop (suc rounds) pid parent s ip name path = elim (skipelem path) [
  | none ↦ if parent then (iput pid s ip >>= λ s1. ok (none, name, s1)) else ok (some ip, name, s)
  | some (elem, rest) ↦ do
    s1 ← ilock pid s (some ip)
    elim (not ((inode_at s1 ip).type == t_dir)) [
      | true ↦ iunlockput pid s1 ip >>= λ s2. ok (none, elem, s2)
      | false ↦ elim (parent && path_done rest) [
        | true ↦ iunlock pid s1 (some ip) >>= λ s2. ok (some ip, elem, s2)
        | false ↦ dirlookup s1 ip elem >>= λ r. elim r.0 [
          | none ↦ iunlockput pid r.1 ip >>= λ s2. ok (none, elem, s2)
          | some (next, off) ↦
              iunlockput pid r.1 ip >>= λ s2. namex_loop rounds pid parent s2 next elem rest
        ]
      ]
    ]
]

unfoldable pub namex : ℕ → Bool → Inodes → ℕ → List ℕ → Result Named
unfolding namex_loop iget idup
namex pid parent s cwd path = do
  (ip, s1) ← if starts_at_root path then iget s rootdev rootino else ok (cwd, idup s cwd)
  namex_loop (length path + 1) pid parent s1 ip [] path

unfoldable pub namei : ℕ → Inodes → ℕ → List ℕ → Result Named
unfolding namex
namei pid s cwd path = namex pid false s cwd path

unfoldable pub nameiparent : ℕ → Inodes → ℕ → List ℕ → Result Named
unfolding namex
nameiparent pid s cwd path = namex pid true s cwd path
