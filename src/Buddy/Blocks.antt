-- ===== src/Buddy/Blocks.antt =====
-- kernel/buddy.c, the arithmetic of block sizes: `BLK_SIZE`, `NBLK`, `ROUNDUP`, `firstk`, `log2`,
-- `blk_index`, `addr`, `blk_index_next`. A `uint64` or a pointer wraps at 2 ^ 64; an `int` that
-- holds an offset or an index is its 32-bit pattern, which is the number itself below 2 ^ 31.
pub mod Sizes
pub mod Index
mod Tests
use oshard.Common.{
  ℕ, zero, suc, ◌+◌, ◌-◌, ◌*◌, ◌/◌, ◌%◌, ◌^◌, Bool, Option, none, some, ◌==◌, ltb, if◌then◌else◌,
}

abbrev pub leaf_size : ℕ
leaf_size = 16

-- `(1L << k) * LEAF_SIZE`
abbrev pub blk_size : ℕ → ℕ
blk_size k = 2 ^ k * leaf_size

-- `((n - 1) / sz + 1) * sz`, of a `uint64`
abbrev pub roundup : ℕ → ℕ → ℕ
roundup n sz = (((n + 2 ^ 64 - 1) % 2 ^ 64 / sz + 1) * sz) % 2 ^ 64

-- `while (size < n) { k++; size *= 2; }`, `none` when the fuel is used up
unfoldable pub firstk_loop : ℕ → ℕ → ℕ → ℕ → Option ℕ
firstk_loop zero n k size = none
firstk_loop (suc fuel) n k size =
    let rest = firstk_loop fuel n (k + 1) (size * 2 % 2 ^ 64) in if ltb size n then rest else some k

-- The fuel is enough for every `n` for which the loop ends: 60 rounds make `size` 2 ^ 64.
unfoldable pub firstk : ℕ → Option ℕ
unfolding firstk_loop
firstk n = firstk_loop 64 n 0 leaf_size

-- `while (n > 1) { k++; n = n >> 1; }`
unfoldable pub log2_loop : ℕ → ℕ → ℕ → Option ℕ
log2_loop zero n k = none
log2_loop (suc fuel) n k =
    let rest = log2_loop fuel (n / 2) (k + 1) in if ltb 1 n then rest else some k

-- A `uint64` is 0 after 64 shifts.
unfoldable pub log2 : ℕ → Option ℕ
unfolding log2_loop
log2 n = log2_loop 65 n 0

-- `p - (char *)bd_base`
abbrev pub offset : ℕ → ℕ → ℕ
offset base p = (p + 2 ^ 64 - base) % 2 ^ 64

abbrev pub to_int : ℕ → ℕ
to_int n = n % 2 ^ 32

unfoldable pub blk_index : ℕ → ℕ → ℕ → ℕ
blk_index base k p = let n = to_int (offset base p) in n / blk_size k

unfoldable pub addr : ℕ → ℕ → ℕ → ℕ
addr base k bi = let n = to_int (bi * blk_size k) in (base + n) % 2 ^ 64

unfoldable pub blk_index_next : ℕ → ℕ → ℕ → ℕ
blk_index_next base k p =
    let n = to_int (offset base p / blk_size k) in
    if offset base p % blk_size k == 0 then n else n + 1

-- `(bi % 2 == 0) ? bi + 1 : bi - 1`
unfoldable pub buddy_of : ℕ → ℕ
buddy_of bi = if bi % 2 == 0 then bi + 1 else bi - 1
