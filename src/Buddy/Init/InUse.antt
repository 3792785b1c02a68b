-- ===== src/Buddy/Init/InUse.antt =====
-- The two calls of `bd_mark` that kernel/buddy.c makes at its start: the bits say which blocks are free.
use native.Mathlib.Nat.{mul-le-mul_right, lt_of_mul-lt-mul_right}
use oshard.Common.{
  ℕ, ◌+◌, ◌-◌, ◌*◌, ◌%◌, ◌^◌, ◌≤◌, ◌<◌, ◌≡◌, refl, ap, sym, subst, ◌∙◌, Bool, true, false, xor,
  ◌&&◌, ◌||◌, arith, ltb, leb, Result, ok, ◌>>=◌,
}
use oshard.Buddy.Blocks.{leaf_size, blk_size}
use oshard.Buddy.Blocks.Index.{Fits}
use oshard.Buddy.Heap.{Heap, max_size}
use oshard.Buddy.View.{alloc_bit, split_bit, IsShaped}
use oshard.Buddy.Whole.{pow-add}
use oshard.Buddy.Init.{bd_mark}
use oshard.Buddy.Init.Mark.{meets}
use oshard.Buddy.Init.Levels.{IsMarked, bd_mark-IsMarked}

-- Block `i` of level `k` meets the first `used` bytes or those from offset `end` on.
abbrev pub in_use : ℕ → ℕ → ℕ → ℕ → ℕ → Bool
in_use whole used end k i = meets k 0 used i || meets k end whole i

-- Below the top no block meets both, when the first bytes end and the last begin at the half or
-- before and after it.
apart :
    (max k used end whole i : ℕ)
    → k < max
    → used ≤ blk_size (max - 1)
    → blk_size (max - 1) ≤ end
    → meets k 0 used i ≡ true
    → meets k end whole i ≡ false
apart max k used end whole i lt low high first =
    let e : 2 ^ (max - 1) ≡ 2 ^ (max - 1 - k) * 2 ^ k =
      subst (λ z. 2 ^ z ≡ 2 ^ (max - 1 - k) * 2 ^ k) (omega arith) (pow-add (max - 1 - k) k) in
    let in_first : i * blk_size k < used = ground arith in
    let left : i < 2 ^ (max - 1 - k) =
      lt_of_mul-lt-mul_right (2 ^ k) (omega (arith, e, in_first)) in
    let le : i + 1 ≤ 2 ^ (max - 1 - k) = omega arith in
    let up = mul-le-mul_right (2 ^ k) le in
    let ends : (i + 1) * blk_size k ≤ end = omega (arith, up, e, high) in ground arith

xor_or :
    (a b c d : Bool)
    → (a ≡ true → c ≡ false)
    → (b ≡ true → d ≡ false)
    → xor (xor c d) (xor (xor a b) false) ≡ xor (a || c) (b || d)
xor_or true true true d f g = let h = f refl in cc
xor_or true true false true f g = let h = g refl in cc
xor_or true true false false f g = refl
xor_or true false true d f g = let h = f refl in cc
xor_or true false false true f g = refl
xor_or true false false false f g = refl
xor_or false true c true f g = let h = g refl in cc
xor_or false true true false f g = refl
xor_or false true false false f g = refl
xor_or false false true true f g = refl
xor_or false false true false f g = refl
xor_or false false false true f g = refl
xor_or false false false false f g = refl

-- What the bits say of a heap of `whole` bytes: a block above level 0 is marked as split when it is in
-- use, and the alloc bit of a pair below the top is set when just one block of it is.
pub record SaysInUse (s : Heap) (whole used end : ℕ) : Type 0 where
  pub shaped : IsShaped s
  pub split_is : (m i : ℕ) → m < s.nsizes → split_bit s m i ≡ (ltb 0 m && in_use whole used end m i)
  pub alloc_is :
      (m j : ℕ)
      → m < max_size s
      → alloc_bit s m j
        ≡ xor (in_use whole used end m (2 * j)) (in_use whole used end m (2 * j + 1))

-- the start's two calls, for the first `used` bytes and for those from offset `end` on
abbrev pub mark_both : Heap → ℕ → ℕ → ℕ → Result Heap
mark_both s whole used end = do
  s1 ← bd_mark s s.base (s.base + used)
  bd_mark s1 (s1.base + end) (s1.base + whole)

both_run :
    (s s1 s2 : Heap) (whole used end : ℕ)
    → bd_mark s (s.base + 0) (s.base + used) ≡ ok s1
    → bd_mark s1 (s1.base + end) (s1.base + whole) ≡ ok s2
    → mark_both s whole used end ≡ ok s2
both_run s s1 s2 whole used end e1 e2 =
    let z : s.base + 0 ≡ s.base = omega arith in
    let e : bd_mark s s.base (s.base + used) ≡ ok s1 =
      subst (λ b. bd_mark s b (s.base + used) ≡ ok s1) z e1 in
    rw e e2

or_clear : (t p q : Bool) → ((true && (t && q)) || ((true && (t && p)) || false)) ≡ (t && (p || q))
or_clear t p q = ground arith

leb_zero : (m : ℕ) → leb 0 m ≡ true
leb_zero m = ground arith

both_say :
    (s s1 s2 : Heap) (whole used end : ℕ)
    → ((m i : ℕ) → (split_bit s m i ≡ false) × (alloc_bit s m i ≡ false))
    → IsMarked s 0 0 used s1
    → IsMarked s1 0 end whole s2
    → used ≤ blk_size (max_size s - 1)
    → blk_size (max_size s - 1) ≤ end
    → SaysInUse s2 whole used end
both_say s s1 s2 whole used end clear m1 m2 low high =
    let n1 = m1.same.0 in
    let n2 = m2.same.0 in
    record {
      shaped = m2.shaped;
      split_is = λ m i lt.
          m2.split_is m i (omega (arith, n2))
          ∙ rw (m1.split_is m i (omega (arith, n1, n2)), (clear m i).0, leb_zero m)
              (or_clear (ltb 0 m) (meets m 0 used i) (meets m end whole i));
      alloc_is = λ m j lt.
          let below : m < max_size s = omega (arith, n1, n2) in
          m2.alloc_is m j (omega (arith, n2))
          ∙ rw (m1.alloc_is m j below, (clear m j).1, leb_zero m)
              (xor_or (meets m 0 used (2 * j)) (meets m 0 used (2 * j + 1))
                (meets m end whole (2 * j)) (meets m end whole (2 * j + 1))
                (apart (max_size s) m used end whole (2 * j) below low high)
                (apart (max_size s) m used end whole (2 * j + 1) below low high));
    }

-- the second call, after the first
second_mark :
    (s1 : Heap) (base whole end : ℕ)
    → IsShaped s1
    → s1.base ≡ base
    → whole ≡ blk_size (max_size s1)
    → Fits base whole
    → base % leaf_size ≡ 0
    → end % leaf_size ≡ 0
    → end ≤ whole
    → (s2 : Heap) × (bd_mark s1 (s1.base + end) (s1.base + whole) ≡ ok s2)
      × IsMarked s1 0 end whole s2
second_mark s1 base whole end w b n f al le ew =
    bd_mark-IsMarked s1 end whole w
      (record {
        in_space = let a = f.in_space in omega (arith, b);
        in_int = let a = f.in_int in omega arith;
      })
      (record { in_space = let a = f.in_space in omega (arith, b); in_int = f.in_int })
      (omega (arith, n)) (omega (arith, b)) (omega (arith, b, n))

after_first :
    (s s1 : Heap) (used end : ℕ)
    → ((m i : ℕ) → (split_bit s m i ≡ false) × (alloc_bit s m i ≡ false))
    → bd_mark s (s.base + 0) (s.base + used) ≡ ok s1
    → IsMarked s 0 0 used s1
    → Fits s.base (blk_size (max_size s))
    → s.base % leaf_size ≡ 0
    → end % leaf_size ≡ 0
    → used ≤ blk_size (max_size s - 1)
    → blk_size (max_size s - 1) ≤ end
    → end ≤ blk_size (max_size s)
    → (s' : Heap) × (mark_both s (blk_size (max_size s)) used end ≡ ok s')
      × SaysInUse s' (blk_size (max_size s)) used end
after_first s s1 used end clear run1 m1 fits al le low high ew =
    let n1 = m1.same.0 in
    let second =
      second_mark s1 s.base (blk_size (max_size s)) end m1.shaped m1.same.1
        (ap (λ n. blk_size (n - 1)) (sym n1)) fits al le ew in
    (
      second.0,
      both_run s s1 second.0 (blk_size (max_size s)) used end run1 second.1,
      both_say s s1 second.0 (blk_size (max_size s)) used end clear m1 second.2 low high,
    )

-- On a heap with all bits clear, the calls of bd_mark for the first bytes, up to the half of the
-- managed memory at most, and for the last, from the half on at the earliest, both return, and then a
-- block above level 0 is marked as split just when it meets them, and the alloc bit of a pair below
-- the top level is set just when one block of the pair meets them and the other does not.
pub mark_both-SaysInUse :
    (s : Heap) (used end : ℕ)
    → IsShaped s
    → ((m i : ℕ) → (split_bit s m i ≡ false) × (alloc_bit s m i ≡ false))
    → Fits s.base (blk_size (max_size s))
    → s.base % leaf_size ≡ 0
    → used % leaf_size ≡ 0
    → end % leaf_size ≡ 0
    → used ≤ blk_size (max_size s - 1)
    → blk_size (max_size s - 1) ≤ end
    → used ≤ blk_size (max_size s)
    → end ≤ blk_size (max_size s)
    → (s' : Heap) × (mark_both s (blk_size (max_size s)) used end ≡ ok s')
      × SaysInUse s' (blk_size (max_size s)) used end
mark_both-SaysInUse s used end w clear fits al lu le low high uw ew =
    let first =
      bd_mark-IsMarked s 0 used w
        (record { in_space = let a = fits.in_space in omega arith; in_int = omega arith })
        (record {
          in_space = let a = fits.in_space in omega arith;
          in_int = let a = fits.in_int in omega arith;
        })
        uw (omega arith) (omega arith) in
    after_first s first.0 used end clear first.1 first.2 fits al le low high ew
