-- ===== src/Vm/Bits.antt =====
-- `|` of a number and of bits below it, and the leaf entries of kernel/vm.c as sums.
use Prim.Native.Nat.{max, bit_or, digits, bit_or-bitwise}
use native.Mathlib.Nat.{two-pow-succ}
use oshard.Common.{ℕ, zero, suc, ◌+◌, ◌*◌, ◌/◌, ◌%◌, ◌^◌, ◌≤◌, ◌<◌, ◌≡◌, refl, ap, ◌∙◌, arith}
use oshard.Vm.{leaf_pte}

abbrev or_digits : ℕ → ℕ → ℕ → ℕ
or_digits n a b = digits (λ b. b) max n a b

or_digits_fuel : (n m a b : ℕ) → a ≤ n → a ≤ m → or_digits n a b ≡ or_digits m a b
or_digits_fuel zero zero a b p q = refl
or_digits_fuel zero (suc m) zero b p q = refl
or_digits_fuel zero (suc m) (suc a) b p q = absurd (omega arith)
or_digits_fuel (suc n) zero zero b p q = refl
or_digits_fuel (suc n) zero (suc a) b p q = absurd (omega arith)
or_digits_fuel (suc n) (suc m) zero b p q = refl
or_digits_fuel (suc n) (suc m) (suc a) b p q =
    omega (arith, or_digits_fuel n m (suc a / 2) (b / 2) (omega arith) (omega arith))

zero-bit_or : (b : ℕ) → bit_or 0 b ≡ b
zero-bit_or b = bit_or-bitwise 0 b

-- the law for the lowest digit
bit_or_step : (a b : ℕ) → bit_or a b ≡ bit_or (a / 2) (b / 2) * 2 + max (a % 2) (b % 2)
bit_or_step zero b = omega (arith, zero-bit_or b, zero-bit_or (b / 2))
bit_or_step (suc a) b = omega (
  arith,
  bit_or-bitwise (suc a) b,
  bit_or-bitwise (suc a / 2) (b / 2),
  or_digits_fuel a (suc a / 2) (suc a / 2) (b / 2) (omega arith) (omega arith),
)

bit_or-zero_fuel : (n a : ℕ) → a ≤ n → bit_or a 0 ≡ a
bit_or-zero_fuel n zero h = refl
bit_or-zero_fuel zero (suc a) h = absurd (omega arith)
bit_or-zero_fuel (suc n) (suc a) h =
    omega (arith, bit_or_step (suc a) 0, bit_or-zero_fuel n (suc a / 2) (omega arith))

-- Bits below those of a multiple of a power of 2 are added to it.
bit_or_below : (k x p : ℕ) → p < 2 ^ k → bit_or (x * 2 ^ k) p ≡ x * 2 ^ k + p
bit_or_below zero x p h =
    let z : p ≡ 0 = omega arith in
    let one : x * 2 ^ 0 ≡ x = omega arith in
    rw (z, one) (bit_or-zero_fuel x x (omega arith) ∙ omega arith)
bit_or_below (suc k) x p h =
    let e = two-pow-succ k in
    let twice : x * 2 ^ suc k ≡ x * 2 ^ k * 2 = rw e (omega arith) in
    let half : x * 2 ^ k * 2 / 2 ≡ x * 2 ^ k = omega arith in
    let low : p / 2 < 2 ^ k = omega (arith, e) in
    let s = bit_or_step (x * 2 ^ k * 2) p in
    let ih : bit_or (x * 2 ^ k * 2 / 2) (p / 2) ≡ x * 2 ^ k + p / 2 =
      ap (λ y. bit_or y (p / 2)) half ∙ bit_or_below k x (p / 2) low in
    rw twice (omega (arith, s, ih))

-- the permissions of an entry, of which `PTE_V` is none
pub record IsPerm (perm : ℕ) : Type 0 where
  pub flags : perm < 1024
  pub no_valid : perm % 2 ≡ 0

-- A valid entry, for the page of `pa`: its flags are `perm` and `PTE_V`, and the page's number is above.
abbrev pub page_entry : ℕ → ℕ → ℕ
page_entry pa perm = pa / 4096 * 1024 + perm + 1

pub leaf_pte_lem : (pa perm : ℕ) → IsPerm perm → leaf_pte pa perm ≡ page_entry pa perm
leaf_pte_lem pa perm w =
    let f = w.flags in
    let v = w.no_valid in
    let first : bit_or (pa / 4096 * 1024) perm ≡ pa / 4096 * 1024 + perm =
      bit_or_below 10 (pa / 4096) perm f in
    let sum = (pa / 4096 * 1024 + perm) / 2 in
    let whole : pa / 4096 * 1024 + perm ≡ sum * 2 = omega arith in
    let second : bit_or (sum * 2) 1 ≡ sum * 2 + 1 = bit_or_below 1 sum 1 (omega arith) in
    ap (λ n. bit_or n 1) (first ∙ whole) ∙ second ∙ omega (arith, whole)
