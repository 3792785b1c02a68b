-- ===== src/Buddy/Init/Levels.antt =====
-- `bd_mark` of kernel/buddy.c over all levels.
use oshard.Common.{
  ℕ, zero, suc, ◌+◌, ◌-◌, ◌*◌, ◌%◌, ◌^◌, ◌≤◌, ◌<◌, ◌≡◌, refl, sym, subst, ◌∙◌, Bool, xor, ◌&&◌,
  ◌||◌, arith, ◌==◌, ltb, leb, Bool-cases, ==_iff, inl, inr, ok,
}
use oshard.Buddy.Blocks.{leaf_size, blk_size, blk_index, blk_index_next}
use oshard.Buddy.Blocks.Index.{Fits}
use oshard.Buddy.Heap.{Heap, max_size}
use oshard.Buddy.View.{alloc_bit, split_bit, IsShaped}
use oshard.Buddy.Init.{mark_level, mark_sizes, bd_mark}
use oshard.Buddy.Init.Mark.{
  inside, meets, MarksLevel, nothing_marked, mark_level-MarksLevel, inside_meets, next_within,
}

-- just one block of pair `j` of level `k` meets the bytes
abbrev pub half_met : ℕ → ℕ → ℕ → ℕ → Bool
half_met k from to j = xor (meets k from to (2 * j)) (meets k from to (2 * j + 1))

-- What marking the bytes from offset `from` on and below offset `to` does on the levels from `first`
-- on: a block that meets them has its split bit set, above level 0; a pair with just one such block
-- has its alloc bit inverted; no other bit changes.
pub record IsMarked (s : Heap) (first from to : ℕ) (s' : Heap) : Type 0 where
  pub shaped : IsShaped s'
  pub same : (s'.nsizes ≡ s.nsizes) × (s'.base ≡ s.base) × (s'.links ≡ s.links)
  pub split_is :
      (m i : ℕ)
      → m < s.nsizes
      → split_bit s' m i ≡ ((leb first m && (ltb 0 m && meets m from to i)) || split_bit s m i)
  pub alloc_is :
      (m j : ℕ)
      → m < max_size s
      → alloc_bit s' m j ≡ xor (leb first m && half_met m from to j) (alloc_bit s m j)

-- The inner loop, where it may have no round.
mark_rounds :
    (s : Heap) (k a b : ℕ)
    → IsShaped s
    → k < s.nsizes
    → b * 2 ^ k ≤ 2 ^ (s.nsizes - 1)
    → MarksLevel s k a b (mark_level (b - a) s k a)
unfolding mark_level
mark_rounds s k a b w h inn = elim (Bool-cases (leb b a)) [
  | inl none_left ↦
      let z : b - a ≡ 0 = ground arith in rw z (nothing_marked s k a b w (ground arith))
  | inr some_left ↦
      let e : a + (b - a) ≡ b = ground arith in
      subst (λ n. MarksLevel s k a n (mark_level (b - a) s k a)) e
        (mark_level-MarksLevel (b - a) s k a w h (rw e inn))
]

-- One level marked, and then the levels above it.
level_first :
    (s s1 s2 : Heap) (k from to a b : ℕ)
    → k < s.nsizes
    → ((i : ℕ) → inside a b i ≡ meets k from to i)
    → MarksLevel s k a b s1
    → IsMarked s1 (k + 1) from to s2
    → IsMarked s k from to s2
level_first s s1 s2 k from to a b h met one rest =
    let (n1, b1, l1) = one.same in
    let (n2, b2, l2) = rest.same in
    record {
      shaped = rest.shaped;
      same = (n2 ∙ n1, b2 ∙ b1, l2 ∙ l1);
      split_is = λ m i lt. rest.split_is m i (omega (arith, n1)) ∙ elim (Bool-cases (m == k)) [
        | inl e ↦ let q = (==_iff m k).0 e in rw (q, one.split_is i, met i) (ground arith)
        | inr ne ↦ rw ((one.others m i ne).0) (ground arith)
      ];
      alloc_is = λ m j lt. rest.alloc_is m j (omega (arith, n1)) ∙ elim (Bool-cases (m == k)) [
        | inl e ↦
            let q = (==_iff m k).0 e in
            rw (q, one.alloc_is (omega (arith, q)) j, met (2 * j), met (2 * j + 1)) (ground arith)
        | inr ne ↦ rw ((one.others m j ne).1) (ground arith)
      ];
    }

mark_sizes-IsMarked :
    (rounds : ℕ) (s : Heap) (k base from to : ℕ)
    → IsShaped s
    → s.base ≡ base
    → Fits base from
    → Fits base to
    → to ≤ blk_size (max_size s)
    → k + rounds ≡ s.nsizes
    → IsMarked s k from to (mark_sizes rounds s k (base + from) (base + to))
unfolding mark_sizes
mark_sizes-IsMarked zero s k base from to w at f t room all = record {
  shaped = w;
  same = (refl, refl, refl);
  split_is = λ m i lt. ground arith;
  alloc_is = λ m j lt. ground arith;
}
mark_sizes-IsMarked (suc rounds) s k base from to w at f t room all =
    let a = blk_index base k (base + from) in
    let b = blk_index_next base k (base + to) in
    let h : k < s.nsizes = omega (arith, all) in
    let inn = next_within base k from to f t (max_size s) (omega (arith, all)) room in
    let s1 = mark_level (b - a) s k a in
    let one = mark_rounds s k a b w h inn in
    let (n1, b1, l1) = one.same in
    subst
      (λ z. IsMarked s k from to (
        mark_sizes rounds
          (mark_level (blk_index_next z k (base + to) - blk_index z k (base + from)) s k
            (blk_index z k (base + from)))
          (k + 1) (base + from) (base + to)))
      (sym at)
      (level_first s s1 (mark_sizes rounds s1 (k + 1) (base + from) (base + to)) k from to a b h
        (inside_meets base k from to f t) one
        (mark_sizes-IsMarked rounds s1 (k + 1) base from to one.shaped (b1 ∙ at) f t (rw n1 room)
          (omega (arith, n1, all))))

-- On a heap whose arrays are large enough, bd_mark of whole leaves of the managed memory returns,
-- with the split bit set, on each level above 0, of every block that meets them, and no other split
-- bit changed; with the alloc bit inverted, on each level below the top, of every pair with just
-- one such block, and no other alloc bit of those levels changed; and with no free list and no size
-- changed. Of the alloc bits of the top level it says nothing.
pub bd_mark-IsMarked :
    (s : Heap) (from to : ℕ)
    → IsShaped s
    → Fits s.base from
    → Fits s.base to
    → to ≤ blk_size (max_size s)
    → (s.base + from) % leaf_size ≡ 0
    → (s.base + to) % leaf_size ≡ 0
    → (s' : Heap) × (bd_mark s (s.base + from) (s.base + to) ≡ ok s') × IsMarked s 0 from to s'
unfolding bd_mark
bd_mark-IsMarked s from to w f t room lo hi =
    let s' = mark_sizes s.nsizes s 0 (s.base + from) (s.base + to) in
    (
      s',
      rw (lo, hi) refl,
      mark_sizes-IsMarked s.nsizes s 0 s.base from to w refl f t room (omega arith),
    )
