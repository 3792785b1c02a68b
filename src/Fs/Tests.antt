-- ===== src/Fs/Tests.antt =====
-- Runs of kernel/fs.c, and its theorems on a small disk.
use oshard.Common.{
  ℕ, zero, suc, ◌+◌, ◌/◌, ◌≡◌, refl, subst, true, false, [], ◌∷◌, none, some, ok, panic, not, ◌&&◌,
  ◌==◌, ◌⊎◌, arith, replicate,
}
use oshard.Buddy.Bits.{bit_isset}
use oshard.Buddy.Bits.Laws.{IsBytes}
use oshard.Fs.{Fs, balloc, bfree}
use oshard.Fs.Bitmap.{used, IsFs}
use oshard.Fs.Alloc.{Allocates, balloc-Allocates, bfree_lem}
use oshard.Fs.Inode.{Inode, iupdate}
use oshard.Fs.Inode.Stored.{AllFit, IsStorable, SameFields, load_inode-iupdate}
use oshard.Fs.Table.{Inodes, iget, scan_itable, load_inode, blank_inode}
use oshard.Fs.Path.{skipelem, skip_slashes, span_elem}
use oshard.Fs.Path.Split.{SplitsOff, elems, skipelem-SplitsOff}

-- 20 blocks, the map in block 2, and blocks 0 to 2 and 9 in use; the other blocks are like the map.
abbrev small : Fs
small = record {
  sb = record {
    magic = 0;
    size = 20;
    nblocks = 10;
    ninodes = 16;
    nlog = 0;
    logstart = 0;
    inodestart = 3;
    bmapstart = 2;
  };
  block = λ n. 7 ∷ 2 ∷ replicate 1022 0;
}

replicate-IsBytes : (n : ℕ) → IsBytes (replicate n 0)
replicate-IsBytes zero = tt
replicate-IsBytes (suc n) = (omega arith, replicate-IsBytes n)

small-IsFs : IsFs small
unfolding bit_isset
small-IsFs = record {
  map_bytes = λ b i. (omega arith, (omega arith, replicate-IsBytes 1022));
  map_whole = λ b i. refl;
  map_inside = λ b i. omega arith;
  map_used =
      λ b i. let e : 2 ≡ b / 8192 + 2 = omega arith in subst (λ n. used small n ≡ true) e refl;
}

balloc-Allocates_example : Allocates small (balloc small)
balloc-Allocates_example = balloc-Allocates small small-IsFs

bfree_lem_example :
    ((used small 9 ≡ false) × (bfree small 9 ≡ panic "freeing free block"))
    ⊎ ((fs' : Fs) × (bfree small 9 ≡ ok fs')
        × (used small 9 ≡ true)
        × IsFs fs'
        × ((n : ℕ) → used fs' n ≡ (not (9 == n) && used small n)))
bfree_lem_example = bfree_lem small 9 small-IsFs (omega arith) (λ b i e. omega arith)

elements :
    (skipelem (47 ∷ 97 ∷ 98 ∷ 47 ∷ 47 ∷ 99 ∷ []) ≡ some (97 ∷ 98 ∷ [], 99 ∷ []))
    × (skipelem (47 ∷ 47 ∷ []) ≡ none)
unfolding skipelem skip_slashes span_elem
elements = (refl, refl)

skipelem-SplitsOff_example :
    SplitsOff (elems (47 ∷ 97 ∷ 47 ∷ 98 ∷ [])) (skipelem (47 ∷ 97 ∷ 47 ∷ 98 ∷ []))
skipelem-SplitsOff_example = skipelem-SplitsOff (47 ∷ 97 ∷ 47 ∷ 98 ∷ [])

-- a directory of 32 bytes
abbrev directory : Inode
directory = record blank_inode { inum = 5; type = 1; nlink = 1; size = 32 }

zeros-AllFit : (n : ℕ) → AllFit (replicate n 0)
zeros-AllFit zero = tt
zeros-AllFit (suc n) = (refl, zeros-AllFit n)

directory-IsStorable : IsStorable directory
directory-IsStorable = record {
  type_fits = refl;
  major_fits = refl;
  minor_fits = refl;
  nlink_fits = refl;
  size_fits = refl;
  addrs_fit = zeros-AllFit 13;
  count = refl;
}

load_inode-iupdate_example :
    (new : Inode) × (load_inode (iupdate small directory) (record blank_inode { inum = 5 })
      ≡ ok new)
    × SameFields new directory
load_inode-iupdate_example =
    load_inode-iupdate small directory (record blank_inode { inum = 5 }) refl directory-IsStorable
      refl refl (λ e. omega (arith, e))

-- a table of one entry, which holds inode 5
abbrev one_inode : Inodes
one_inode = record { fs = small; inode = record directory { dev = 1; ref = 1 } ∷ [] }

gets :
    iget one_inode 1 5
    ≡ ok (0, record one_inode { inode = record directory { dev = 1; ref = 2 } ∷ [] })
unfolding iget scan_itable
gets = refl
