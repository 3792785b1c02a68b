-- ===== src/Fs.antt =====
-- kernel/fs.c and kernel/fs.h: the blocks of the disk. `block` is what `bread` of a block gives; the
-- change that `log_write` puts into the transaction is seen by every later `bread`. There is one
-- device, so `dev` is left out of the arguments, and the number of blocks is below 2 ^ 31.
pub mod Bytes
pub mod Bitmap
pub mod Scan
pub mod Alloc
pub mod Inode
pub mod Table
pub mod Path
pub mod Name
mod Tests
use Prim.Native.Nat.{bit_and}
use oshard.Common.{
  ℕ, zero, suc, ◌+◌, ◌*◌, ◌/◌, ◌%◌, Bool, List, Option, none, some, Result, ok, panic, ◌==◌, ltb,
  if◌then◌else◌, get_or, replicate,
}
use oshard.Buddy.Bits.{mask, bit_set, bit_clear}

abbrev pub bsize : ℕ
bsize = 1024

-- BPB: bitmap bits per block
abbrev pub bpb : ℕ
bpb = bsize * 8

-- `struct superblock`
pub record Superblock : Type 0 where
  pub magic : ℕ
  pub size : ℕ
  pub nblocks : ℕ
  pub ninodes : ℕ
  pub nlog : ℕ
  pub logstart : ℕ
  pub inodestart : ℕ
  pub bmapstart : ℕ

pub record Fs : Type 0 where
  pub sb : Superblock
  pub block : ℕ → List ℕ

abbrev pub put_block : Fs → ℕ → List ℕ → Fs
put_block fs n bytes = record fs { block = λ k. if k == n then bytes else fs.block k }

-- `BBLOCK(b, sb)`
abbrev pub bblock : Fs → ℕ → ℕ
bblock fs b = b / bpb + fs.sb.bmapstart

unfoldable pub bzero : Fs → ℕ → Fs
bzero fs bno = put_block fs bno (replicate bsize 0)

-- `(bp->data[bi / 8] & m) == 0`
abbrev pub is_free : List ℕ → ℕ → Bool
is_free bits bi = bit_and (get_or bits (bi / 8) 0) (mask bi) == 0

-- The inner loop of `balloc` from `bi` on, with the rounds left; a found bit comes with its block.
unfoldable pub scan_bits : ℕ → Fs → ℕ → ℕ → Option (ℕ × ℕ)
scan_bits zero fs b bi = none
scan_bits (suc rounds) fs b bi =
    let rest = scan_bits rounds fs b (bi + 1) in
    if ltb (b + bi) fs.sb.size
    then (if is_free (fs.block (bblock fs b)) bi then some (b, bi) else rest)
    else none

abbrev pub or_scan : Option (ℕ × ℕ) → Option (ℕ × ℕ) → Option (ℕ × ℕ)
or_scan (some found) o = some found
or_scan none o = o

-- The outer loop from block `b` on.
unfoldable pub scan_blocks : ℕ → Fs → ℕ → Option (ℕ × ℕ)
scan_blocks zero fs b = none
scan_blocks (suc rounds) fs b =
    let rest = scan_blocks rounds fs (b + bpb) in
    if ltb b fs.sb.size then or_scan (scan_bits bpb fs b 0) rest else none

-- the bit found is set and its block zeroed; 0 when there is none
abbrev pub take_bit : Fs → Option (ℕ × ℕ) → ℕ × Fs
take_bit fs none = (0, fs)
take_bit fs (some (b, bi)) =
    let fs1 = put_block fs (bblock fs b) (bit_set (fs.block (bblock fs b)) bi) in
    (b + bi, bzero fs1 (b + bi))

unfoldable pub balloc : Fs → ℕ × Fs
unfolding scan_blocks
balloc fs = take_bit fs (scan_blocks fs.sb.size fs 0)

unfoldable pub bfree : Fs → ℕ → Result Fs
bfree fs b =
    let bits = fs.block (bblock fs b) in
    let bi = b % bpb in
    if is_free bits bi
    then panic "freeing free block"
    else ok (put_block fs (bblock fs b) (bit_clear bits bi))
