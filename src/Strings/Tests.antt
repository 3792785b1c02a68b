-- ===== src/Strings/Tests.antt =====
-- Runs of kernel/string.c, and its theorems at a memory whose byte at an address is the address.
use Prim.Native.Nat.{min}
use oshard.Common.{ℕ, ◌+◌, ◌-◌, ◌%◌, ◌≡◌, refl, inl, ◌^◌, false, arith, if◌then◌else◌}
use oshard.Strings.{
  Memory, zeros, copy_up, copy_down, memcmp, memmove, strncmp, strncpy, safestrcpy,
}
use oshard.Strings.Copy.{within, AreBytes, memmove_lem}
use oshard.Strings.Text.{IsString, IsCopied, safestrcpy_lem}

abbrev ramp : Memory
ramp a = a % 256

ramp-AreBytes : AreBytes ramp
ramp-AreBytes a = omega arith

-- three bytes before the 0 at 256
tail-IsString : IsString ramp 253 3
tail-IsString = record { body = λ i lt. ground arith; ends = refl }

overlapped :
    (memmove ramp 11 10 4 11 ≡ 10) × (memmove ramp 11 10 4 14 ≡ 13) × (memmove ramp 10 11 4 10 ≡ 11)
unfolding memmove copy_up copy_down
overlapped = (refl, refl, refl)

compared : (strncmp ramp 5 261 3 ≡ 0) × (strncmp ramp 5 6 3 ≡ 2 ^ 32 - 1) × (memcmp ramp 6 5 3 ≡ 1)
unfolding strncmp memcmp
compared = (refl, refl, refl)

padded :
    (strncpy ramp 10 254 5 11 ≡ 255)
    × (strncpy ramp 10 254 5 14 ≡ 0)
    × (strncpy ramp 10 254 5 15 ≡ 15)
unfolding strncpy zeros
padded = (refl, refl, refl)

memmove_lem_example :
    memmove ramp 11 10 4 13 ≡ (if within 11 4 13 then ramp (10 + (13 - 11)) else ramp 13)
memmove_lem_example = memmove_lem ramp 11 10 4 13 ramp-AreBytes

safestrcpy_lem_example :
    IsCopied ramp (safestrcpy ramp 10 253 3) 10 253 (min 3 2)
    × ((a : ℕ) → within 10 3 a ≡ false → safestrcpy ramp 10 253 3 a ≡ ramp a)
safestrcpy_lem_example =
    safestrcpy_lem 2 ramp 10 253 3 ramp-AreBytes tail-IsString (inl (omega arith))
