-- ===== src/Buddy/Bits.antt =====
-- kernel/buddy.c, the bit arrays: `bit_isset`, `bit_set`, `bit_clear`, `bit_invert`. An array is the
-- list of its bytes (`char` is unsigned on RISC-V), and an index is not negative. A read past the
-- end gives 0, and a write there changes nothing.
pub mod Laws
mod Tests
use Prim.Native.Nat.{bit_and, bit_or, bit_xor}
use oshard.Common.{ℕ, ◌+◌, ◌-◌, ◌/◌, ◌%◌, ◌^◌, Bool, List, ◌==◌, get_or, set}

-- `char m = (1 << (index % 8))`
abbrev pub mask : ℕ → ℕ
mask index = 2 ^ (index % 8) % 256

unfoldable pub bit_isset : List ℕ → ℕ → Bool
bit_isset array index = let b = get_or array (index / 8) 0 in let m = mask index in bit_and b m == m

unfoldable pub bit_set : List ℕ → ℕ → List ℕ
bit_set array index =
    let b = get_or array (index / 8) 0 in
    let m = mask index in set array (index / 8) (bit_or b m % 256)

-- `~m` is taken of an `int`
unfoldable pub bit_clear : List ℕ → ℕ → List ℕ
bit_clear array index =
    let b = get_or array (index / 8) 0 in
    let m = mask index in set array (index / 8) (bit_and b (2 ^ 32 - 1 - m) % 256)

unfoldable pub bit_invert : List ℕ → ℕ → List ℕ
bit_invert array index =
    let b = get_or array (index / 8) 0 in
    let m = mask index in set array (index / 8) (bit_xor b m % 256)
