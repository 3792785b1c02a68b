-- ===== src/Fs/Table/Unique.antt =====
-- `iget` of kernel/fs.c: one entry of the table for an inode.
use oshard.Common.{
  ℕ, ◌<◌, ◌≡◌, ◌≢◌, true, false, List, Option, none, some, Result, ok, panic, loops, get_or, length,
}
use oshard.Fs.Inode.{Inode}
use oshard.Fs.Table.{Inodes, inode_at, blank_inode, Slot, present, vacant, full, is_inode}

-- a slot that the search may end with in the table `all`
abbrev Found : List Inode → ℕ → ℕ → Slot → Type 0
Found all dev inum (present i) =
    (i < length all) × (is_inode dev inum (get_or all i blank_inode) ≡ true)
Found all dev inum (vacant i) =
    (i < length all)
    × ((get_or all i blank_inode).ref ≡ 0)
    × ((j : ℕ) → j < length all → is_inode dev inum (get_or all j blank_inode) ≡ false)
Found all dev inum full =
    (j : ℕ) → j < length all → is_inode dev inum (get_or all j blank_inode) ≡ false

-- the free entry remembered, if there is one
abbrev IsEmpty : List Inode → Option ℕ → Type 0
IsEmpty all none = Unit
IsEmpty all (some e) = (e < length all) × ((get_or all e blank_inode).ref ≡ 0)

-- No two entries are in use for the same inode.
abbrev pub UniqueInodes : List Inode → Type 0
UniqueInodes all =
    (dev inum i j : ℕ)
    → i < length all
    → j < length all
    → is_inode dev inum (get_or all i blank_inode) ≡ true
    → is_inode dev inum (get_or all j blank_inode) ≡ true
    → i ≡ j

-- How `iget` ends.
abbrev pub GetsInode : Inodes → ℕ → ℕ → Result (ℕ × Inodes) → Type 0
GetsInode s dev inum (ok (i, s')) =
    (i < length s'.inode)
    × (is_inode dev inum (inode_at s' i) ≡ true)
    × UniqueInodes s'.inode
    × ((j : ℕ) → j ≢ i → inode_at s' j ≡ inode_at s j)
GetsInode s dev inum (panic e) =
    (j : ℕ) → j < length s.inode → is_inode dev inum (inode_at s j) ≡ false
GetsInode s dev inum loops = ⊥
