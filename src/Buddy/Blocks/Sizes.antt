-- ===== src/Buddy/Blocks/Sizes.antt =====
-- `firstk` and `log2` of kernel/buddy.c: termination and what they compute.
use native.Mathlib.Nat.{one-le-pow, two-pow-succ}
use native.Mathlib.Numerals.{towards_suc}
use native.Mathlib.Decide.{dec_lt}
use oshard.Common.{
  ℕ, zero, suc, ◌+◌, ◌*◌, ◌/◌, ◌%◌, ◌^◌, ◌≤◌, ◌<◌, ◌≡◌, refl, inl, inr, none, some, arith, ltb,
  Bool-cases, ltb→lt, lt→ltb, ap, ◌∙◌,
}
use oshard.Buddy.Blocks.{leaf_size, blk_size, firstk_loop, firstk, log2_loop, log2}

-- `k` is the first level whose blocks hold `n` bytes.
pub record IsFirst (n k : ℕ) : Type 0 where
  pub fits : n ≤ blk_size k
  pub least : (j : ℕ) → j < k → blk_size j < n

blk_size-suc : (k : ℕ) → blk_size (k + 1) ≡ blk_size k * 2
blk_size-suc k = simp towards_suc (omega arith)

mul-pow_suc : (a f : ℕ) → a * 2 ^ suc f ≡ a * 2 * 2 ^ f
mul-pow_suc a f = rw (two-pow-succ f) (omega arith)

firstk_loop-IsFirst :
    (f n k size : ℕ)
    → size ≡ blk_size k
    → n ≤ 2 ^ 63
    → n ≤ size * 2 ^ f
    → ((j : ℕ) → j < k → blk_size j < n)
    → (r : ℕ) × (firstk_loop (suc f) n k size ≡ some r) × IsFirst n r
unfolding firstk_loop
firstk_loop-IsFirst zero n k size e small fuel below =
    (k, ground arith, record { fits = omega arith; least = below })
firstk_loop-IsFirst (suc f) n k size e small fuel below = elim (Bool-cases (ltb size n)) [
  | inl more ↦
      let lt : size < n = ltb→lt size n more in
      let (r, run, first) =
        firstk_loop-IsFirst f n (k + 1) (size * 2 % 2 ^ 64) (omega (arith, blk_size-suc k)) small
          (let e2 : size * 2 % 2 ^ 64 ≡ size * 2 = omega arith in
            rw (e2, ← mul-pow_suc size f) fuel)
          (grown lt) in
      (r, rw more run, first)
  | inr done ↦ (k, rw done, record { fits = ground arith; least = below })
]
  where
    grown : size < n → (j : ℕ) → j < k + 1 → blk_size j < n
    grown lt j h = elim (dec_lt j k) [
      | yes p ↦ below j p
      | no p ↦ let q : j ≡ k = omega arith in rw (q, ← e) lt
    ]

-- Up to 2 ^ 63 bytes firstk ends, with the first level k whose blocks, of 16 * 2 ^ k bytes, are
-- large enough.
pub firstk-IsFirst : (n : ℕ) → n ≤ 2 ^ 63 → (k : ℕ) × (firstk n ≡ some k) × IsFirst n k
unfolding firstk
firstk-IsFirst n h =
    firstk_loop-IsFirst 63 n 0 leaf_size refl h (omega arith) (λ j l. absurd (omega arith))

firstk_loop-zero : (f n k : ℕ) → 0 < n → firstk_loop f n k 0 ≡ none
unfolding firstk_loop
firstk_loop-zero zero n k h = refl
firstk_loop-zero (suc f) n k h = rw (lt→ltb 0 n h) (firstk_loop-zero f n (k + 1) h)

firstk_loop-none :
    (r f n k size : ℕ) → 2 ^ 63 < n → size * 2 ^ r ≡ 2 ^ 63 → firstk_loop f n k size ≡ none
unfolding firstk_loop
firstk_loop-none r zero n k size h e = refl
firstk_loop-none zero (suc f) n k size h e =
    let q : size ≡ 2 ^ 63 = omega arith in
    rw (lt→ltb size n (omega arith), q) (firstk_loop-zero f n (k + 1) (omega arith))
firstk_loop-none (suc r) (suc f) n k size h e =
    let pos = one-le-pow r 2 (omega arith) in
    let e' : size * 2 * 2 ^ r ≡ 2 ^ 63 = rw (← mul-pow_suc size r) e in
    let small : size * 2 ≤ 2 ^ 63 = grind arith in
    let q : size * 2 % 2 ^ 64 ≡ size * 2 = omega arith in
    rw (lt→ltb size n (omega arith), q) (firstk_loop-none r f n (k + 1) (size * 2) h e')

-- Above 2 ^ 63 bytes the loop of firstk does not end with any fuel: size wraps to 0 and stays
-- there.
pub firstk_loop_endless : (fuel n : ℕ) → 2 ^ 63 < n → firstk_loop fuel n 0 leaf_size ≡ none
firstk_loop_endless fuel n h = firstk_loop-none 59 fuel n 0 leaf_size h refl

log2_loop-bounds :
    (f n k : ℕ)
    → 0 < n
    → n < 2 ^ suc f
    → (d : ℕ) × (log2_loop (suc f) n k ≡ some (k + d)) × (2 ^ d ≤ n) × (n < 2 ^ suc d)
unfolding log2_loop
log2_loop-bounds zero n k pos h = (0, ground arith, omega arith, omega arith)
log2_loop-bounds (suc f) n k pos h = elim (Bool-cases (ltb 1 n)) [
  | inl more ↦
      let big : 1 < n = ltb→lt 1 n more in
      let (d, run, lo, hi) = log2_loop-bounds f (n / 2) (k + 1) (omega arith) (omega arith) in
      (suc d, rw (more, run) (ap some (omega arith)), omega arith, omega arith)
  | inr done ↦ (0, rw done (ap some (omega arith)), omega arith, ground arith)
]

-- log2 ends on every positive uint64, with the exponent of the largest power of two up to it.
pub log2-bounds :
    (n : ℕ) → 0 < n → n < 2 ^ 64 → (k : ℕ) × (log2 n ≡ some k) × (2 ^ k ≤ n) × (n < 2 ^ suc k)
unfolding log2
log2-bounds n pos h =
    let (d, run, lo, hi) = log2_loop-bounds 64 n 0 pos (omega arith) in
    (d, run ∙ ap some (omega arith), lo, hi)
