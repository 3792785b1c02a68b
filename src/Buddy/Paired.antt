-- ===== src/Buddy/Paired.antt =====
-- The alloc bits of kernel/buddy.c: one bit for a pair of buddies, set when exactly one of them is
-- on the free list of its level.
use oshard.Common.{
  ℕ, ◌+◌, ◌*◌, ◌/◌, ◌<◌, ◌≡◌, Bool, true, false, xor, inl, inr, arith, ◌==◌, if◌then◌else◌,
  Bool-cases, ==_iff, subst, ◌∙◌, List, [], ◌∷◌,
}
use oshard.LinkedList.Ring.{has, distinct, erase}
use oshard.Buddy.View.{Within}
use oshard.Buddy.Lists.{FreeLists, put}

abbrev pub IsPaired : ℕ → (ℕ → ℕ → Bool) → FreeLists → Type 0
IsPaired nsizes alloc fl =
    (k j : ℕ)
    → k + 1 < nsizes
    → Within nsizes k (2 * j + 1)
    → alloc k j ≡ xor (has (2 * j) (fl k)) (has (2 * j + 1) (fl k))

-- `xs'` has `x` exactly when `xs` has not, and is else the same.
abbrev pub Toggled : ℕ → List ℕ → List ℕ → Type 0
Toggled x xs xs' = (i : ℕ) → has i xs' ≡ xor (x == i) (has i xs)

pub Toggled-cons : (x : ℕ) (xs : List ℕ) → has x xs ≡ false → Toggled x xs (x ∷ xs)
Toggled-cons x xs new i = elim (Bool-cases (x == i)) [
  | inl e ↦ ground arith
  | inr ne ↦ ground arith
]

pub Toggled-erase :
    (x : ℕ) (xs : List ℕ) → distinct xs ≡ true → has x xs ≡ true → Toggled x xs (erase x xs)
Toggled-erase x [] d h i = ground arith
Toggled-erase x (y ∷ ys) d h i = elim (Bool-cases (y == x)) [
  | inl e ↦ rw e (ground arith)
  | inr ne ↦ rw ne (ground (arith, Toggled-erase x ys (ground arith) (ground arith) i))
]

pair_xor :
    (x j : ℕ) (a b : Bool)
    → xor (x / 2 == j) (xor a b) ≡ xor (xor (x == 2 * j) a) (xor (x == 2 * j + 1) b)
pair_xor x j a b = ground arith

-- Inverting the bit of a pair when one of its blocks comes or goes keeps the bits right.
pub IsPaired-toggle :
    (nsizes k x : ℕ) (alloc alloc' : ℕ → ℕ → Bool) (fl : FreeLists) (xs : List ℕ)
    → ((m j : ℕ) → alloc' m j ≡ (if m == k then xor (x / 2 == j) (alloc k j) else alloc m j))
    → Toggled x (fl k) xs
    → IsPaired nsizes alloc fl
    → IsPaired nsizes alloc' (put fl k xs)
IsPaired-toggle nsizes k x alloc alloc' fl xs inv tog w m j lt i = elim (Bool-cases (m == k)) [
  | inl e ↦
      let q = (==_iff m k).0 e in
      let old : alloc k j ≡ xor (has (2 * j) (fl k)) (has (2 * j + 1) (fl k)) =
        subst (λ l. alloc l j ≡ xor (has (2 * j) (fl l)) (has (2 * j + 1) (fl l))) q (w m j lt i) in
      inv m j
      ∙ rw (e, tog (2 * j), tog (2 * j + 1), old)
          (pair_xor x j (has (2 * j) (fl k)) (has (2 * j + 1) (fl k)))
  | inr ne ↦ inv m j ∙ rw ne (w m j lt i)
]
