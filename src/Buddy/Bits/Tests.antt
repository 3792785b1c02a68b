-- ===== src/Buddy/Bits/Tests.antt =====
-- Runs of the bit arrays of kernel/buddy.c, and their theorems at an array of two bytes.
use oshard.Common.{ℕ, ◌≡◌, refl, List, [], ◌∷◌, arith}
use oshard.Buddy.Bits.{bit_set, bit_clear, bit_invert}
use oshard.Buddy.Bits.Laws.{IsBytes}

abbrev two_bytes : List ℕ
two_bytes = 0x81 ∷ 0x02 ∷ []

two_bytes-IsBytes : IsBytes two_bytes
two_bytes-IsBytes = omega arith

writes :
    (bit_set two_bytes 10 ≡ 0x81 ∷ 0x06 ∷ [])
    × (bit_clear two_bytes 7 ≡ 0x01 ∷ 0x02 ∷ [])
    × (bit_invert two_bytes 9 ≡ 0x81 ∷ 0x00 ∷ [])
unfolding bit_set bit_clear bit_invert
writes = (refl, refl, refl)
