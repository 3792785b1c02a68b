-- ===== src/Buddy/Init/Mark.antt =====
-- `bd_mark` of kernel/buddy.c: the bits that it leaves on every level.
use native.Mathlib.Nat.{mul-le-mul_right, div-lt_iff_lt-mul, lt_of_mul-lt-mul_right}
use oshard.Common.{
  ℕ, zero, suc, ◌+◌, ◌-◌, ◌*◌, ◌/◌, ◌^◌, ◌≤◌, ◌<◌, ◌≡◌, refl, ap, ap₂, ltb→lt, ◌↔◌, sym, subst, ◌∙◌,
  Bool, true, false, xor, ◌&&◌, ◌||◌, arith, ◌==◌, ltb, leb, if◌then◌else◌, Bool-cases, ==_iff, inl,
  inr,
}
use oshard.Buddy.Bits.{bit_set}
use oshard.Buddy.Blocks.{blk_size, blk_index, blk_index_next}
use oshard.Buddy.Blocks.Index.{Fits, blk_size_pos, blk_index_lem, blk_index_next_lem}
use oshard.Buddy.Heap.{Heap, max_size, size_info, set_split}
use oshard.Buddy.View.{
  alloc_bit, split_bit, Within, IsShaped, alloc_bit-invert, invert_other, split_bit-set,
  IsShaped-writes,
}
use oshard.Buddy.Whole.{pow-add}
use oshard.Buddy.Invariant.Steps.{Within-pair}
use oshard.Buddy.Init.{mark_block, mark_level}

-- block `i` is one of those from `a` on and below `b`
abbrev pub inside : ℕ → ℕ → ℕ → Bool
inside a b i = leb a i && ltb i b

-- just one block of pair `j` is
abbrev pub turned : ℕ → ℕ → ℕ → Bool
turned a b j = xor (inside a b (2 * j)) (inside a b (2 * j + 1))

-- What marking the blocks from `a` on and below `b` of level `k` does: above level 0 their split bits
-- are set, the alloc bits of the pairs with one of them are inverted, and nothing else changes. The
-- top level is one block, whose pair has no alloc bit that counts.
pub record MarksLevel (s : Heap) (k a b : ℕ) (s' : Heap) : Type 0 where
  pub shaped : IsShaped s'
  pub same : (s'.nsizes ≡ s.nsizes) × (s'.base ≡ s.base) × (s'.links ≡ s.links)
  pub split_is : (i : ℕ) → split_bit s' k i ≡ ((ltb 0 k && inside a b i) || split_bit s k i)
  pub alloc_is : k < max_size s → (j : ℕ) → alloc_bit s' k j ≡ xor (turned a b j) (alloc_bit s k j)
  pub others :
      (m j : ℕ)
      → (m == k) ≡ false
      → (split_bit s' m j ≡ split_bit s m j) × (alloc_bit s' m j ≡ alloc_bit s m j)

pub nothing_marked : (s : Heap) (k a b : ℕ) → IsShaped s → b ≤ a → MarksLevel s k a b s
nothing_marked s k a b w none_left = record {
  shaped = w;
  same = (refl, refl, refl);
  split_is = λ i. ground arith;
  alloc_is = λ low j. ground arith;
  others = λ m j ne. (refl, refl);
}

if_same : (f : ℕ → Bool) (m k : ℕ) → f m ≡ (if m == k then f k else f m)
if_same f m k = elim (Bool-cases (m == k)) [
  | inl e ↦ let q = (==_iff m k).0 e in rw e (ap f q)
  | inr ne ↦ rw ne refl
]

self_eq : (k : ℕ) → (k == k) ≡ true
self_eq k = ground arith

-- the split bit of a block set, above level 0
split_marked :
    (s : Heap) (k a : ℕ)
    → IsShaped s
    → k < s.nsizes
    → Within s.nsizes k a
    → let s' = (if ltb 0 k then set_split s k (bit_set (size_info s k).split a) else s) in
      IsShaped s'
      × ((s'.nsizes ≡ s.nsizes) × (s'.base ≡ s.base) × (s'.links ≡ s.links))
      × ((m j : ℕ)
          → (split_bit s' m j
              ≡ (if m == k then (ltb 0 k && (a == j)) || split_bit s k j else split_bit s m j))
            × (alloc_bit s' m j ≡ alloc_bit s m j))
split_marked s k a w h inn = elim (Bool-cases (ltb 0 k)) [
  | inl pos ↦ rw pos (
    (IsShaped-writes w k h a).1,
    (refl, refl, refl),
    λ m j. split_bit-set w k h a (w.split_room k a (ground arith) h inn) m j,
  )
  | inr low ↦ rw low (w, (refl, refl, refl), λ m j. (if_same (λ n. split_bit s n j) m k, refl))
]

one_inside : (a i : ℕ) → inside a (a + 1) i ≡ (a == i)
one_inside a i = ground arith

-- The pair of block `a` is the one that holds just that block.
one_turned : (a j : ℕ) → turned a (a + 1) j ≡ (a / 2 == j)
one_turned a j = ground arith

-- one round of the inner loop
mark_block-MarksLevel :
    (s : Heap) (k a : ℕ)
    → IsShaped s
    → k < s.nsizes
    → Within s.nsizes k a
    → MarksLevel s k a (a + 1) (mark_block s k a)
unfolding mark_block
mark_block-MarksLevel s k a w h inn =
    let s1 = (if ltb 0 k then set_split s k (bit_set (size_info s k).split a) else s) in
    let (w1, same, bits) = split_marked s k a w h inn in
    let h1 : k < s1.nsizes = omega (arith, same.0) in
    record {
      shaped = (IsShaped-writes w1 k h1 (a / 2)).0;
      same = same;
      split_is = λ i.
          (invert_other w1 k h1 (a / 2) k i).0 ∙ (bits k i).0 ∙ rw (self_eq k, one_inside a i) refl;
      alloc_is = λ low j.
          let low1 : k < max_size s1 = omega (arith, same.0) in
          let room = w1.alloc_room k (a / 2) low1 (
            Within-pair s1.nsizes k a (omega arith) (subst (λ n. Within n k a) (sym same.0) inn)) in
          (alloc_bit-invert w1 k h1 (a / 2) room k j).0
          ∙ rw (self_eq k, one_turned a j) (ap (xor (a / 2 == j)) (bits k j).1);
      others = λ m j ne.
          let o = invert_other w1 k h1 (a / 2) m j in
          (o.0 ∙ (bits m j).0 ∙ rw ne refl, o.1 ne ∙ (bits m j).1);
    }

xor_swap :
    (p q r t : Bool) (old : Bool)
    → xor (xor p q) (xor (xor r t) old) ≡ xor (xor (xor r p) (xor t q)) old
xor_swap p q r t old = ground arith

inside_both : (a c b i : ℕ) → a ≤ c → c ≤ b → xor (inside a c i) (inside c b i) ≡ inside a b i
inside_both a c b i ac cb = ground arith

turned_both :
    (a c b j : ℕ) (old : Bool)
    → a ≤ c
    → c ≤ b
    → xor (turned c b j) (xor (turned a c j) old) ≡ xor (turned a b j) old
turned_both a c b j old ac cb =
    xor_swap (inside c b (2 * j)) (inside c b (2 * j + 1)) (inside a c (2 * j))
      (inside a c (2 * j + 1)) old
    ∙ rw (inside_both a c b (2 * j) ac cb, inside_both a c b (2 * j + 1) ac cb) refl

-- a run of blocks marked after another
then_marked :
    (s s1 s2 : Heap) (k a c b : ℕ)
    → a ≤ c
    → c ≤ b
    → MarksLevel s k a c s1
    → MarksLevel s1 k c b s2
    → MarksLevel s k a b s2
then_marked s s1 s2 k a c b ac cb first second =
    let (n1, b1, l1) = first.same in
    let (n2, b2, l2) = second.same in
    record {
      shaped = second.shaped;
      same = (n2 ∙ n1, b2 ∙ b1, l2 ∙ l1);
      split_is = λ i. second.split_is i ∙ rw (first.split_is i) (ground arith);
      alloc_is = λ low j.
          second.alloc_is (omega (arith, n1)) j
          ∙ rw (first.alloc_is low j) (turned_both a c b j (alloc_bit s k j) ac cb);
      others = λ m j ne.
          let o1 = first.others m j ne in
          let o2 = second.others m j ne in (o2.0 ∙ o1.0, o2.1 ∙ o1.1);
    }

pub mark_level-MarksLevel :
    (rounds : ℕ) (s : Heap) (k a : ℕ)
    → IsShaped s
    → k < s.nsizes
    → (a + rounds) * 2 ^ k ≤ 2 ^ (s.nsizes - 1)
    → MarksLevel s k a (a + rounds) (mark_level rounds s k a)
unfolding mark_level
mark_level-MarksLevel zero s k a w h inn = nothing_marked s k a (a + 0) w (omega arith)
mark_level-MarksLevel (suc rounds) s k a w h inn =
    let e : a + 1 + rounds ≡ a + suc rounds = omega arith in
    let first = mark_block-MarksLevel s k a w h (
      let le : a + 1 ≤ a + suc rounds = omega arith in
      let up = mul-le-mul_right (2 ^ k) le in omega (arith, up, inn)) in
    let n1 = first.same.0 in
    let second =
      mark_level-MarksLevel rounds (mark_block s k a) k (a + 1) first.shaped (omega (arith, n1))
        (rw (e, n1) inn) in
    then_marked s (mark_block s k a) (mark_level rounds (mark_block s k a) k (a + 1)) k a (a + 1)
      (a + suc rounds) (omega arith) (omega arith) first
      (subst
        (λ b.
          MarksLevel (mark_block s k a) k (a + 1) b
            (mark_level rounds (mark_block s k a) k (a + 1)))
        e second)

-- Block `i` of level `k` meets the bytes from offset `from` on and below offset `to`.
abbrev pub meets : ℕ → ℕ → ℕ → ℕ → Bool
meets k from to i = ltb from ((i + 1) * blk_size k) && ltb (i * blk_size k) to

ltb_iff : (a b c d : ℕ) → (a < b → c < d) → (c < d → a < b) → ltb a b ≡ ltb c d
ltb_iff a b c d f g = elim (Bool-cases (ltb a b)) [
  | inl h ↦ let lt = f (ltb→lt a b h) in ground arith
  | inr h ↦ elim (Bool-cases (ltb c d)) [
    | inl h' ↦ let lt = g (ltb→lt c d h') in ground arith
    | inr h' ↦ cc
  ]
]

leb_lt : (a i : ℕ) → leb a i ≡ ltb a (i + 1)
leb_lt a i = ground arith

module _ (base k from to : ℕ) (f : Fits base from) (t : Fits base to) where
  -- The blocks that `bd_mark` goes through on a level are those that meet the bytes.
  pub inside_meets :
      (i : ℕ)
      → inside (blk_index base k (base + from)) (blk_index_next base k (base + to)) i
        ≡ meets k from to i
  inside_meets i =
      let pos = blk_size_pos k in
      let start = blk_index_lem base k from f in
      let (above, below) = blk_index_next_lem base k to t in
      let n = blk_index_next base k (base + to) in
      let q : (from / blk_size k < i + 1) ↔ (from < (i + 1) * blk_size k) = div-lt_iff_lt-mul pos in
      let lower : leb (blk_index base k (base + from)) i ≡ ltb from ((i + 1) * blk_size k) =
        rw start (
          leb_lt (from / blk_size k) i
          ∙ ltb_iff (from / blk_size k) (i + 1) from ((i + 1) * blk_size k) q.0 q.1) in
      let upper : ltb i n ≡ ltb (i * blk_size k) to =
        ltb_iff i n (i * blk_size k) to
          (λ lt.
            let le : i + 1 ≤ n = omega arith in
            let up = mul-le-mul_right (blk_size k) le in omega (arith, up, below))
          (λ lt. lt_of_mul-lt-mul_right (blk_size k) (omega (arith, above, lt))) in
      ap₂ (λ a b. a && b) lower upper

  -- They are blocks of the managed memory.
  pub next_within :
      (max : ℕ) → k ≤ max → to ≤ blk_size max → blk_index_next base k (base + to) * 2 ^ k ≤ 2 ^ max
  next_within max le room =
      let (above, below) = blk_index_next_lem base k to t in
      let n = blk_index_next base k (base + to) in
      let e : 2 ^ max ≡ 2 ^ (max - k) * 2 ^ k =
        subst (λ z. 2 ^ z ≡ 2 ^ (max - k) * 2 ^ k) (omega arith) (pow-add (max - k) k) in
      let lt : n < 2 ^ (max - k) + 1 = lt_of_mul-lt-mul_right (2 ^ k) (omega (arith, e, below)) in
      let le' : n ≤ 2 ^ (max - k) = omega (arith, lt) in
      let up = mul-le-mul_right (2 ^ k) le' in omega (arith, up, e)
