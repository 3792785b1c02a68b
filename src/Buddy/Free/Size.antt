-- ===== src/Buddy/Free/Size.antt =====
-- `size` of kernel/buddy.c: the level of a block from its address.
use native.Mathlib.Decide.{dec_lt}
use native.Mathlib.Numerals.{add-one}
use oshard.Common.{
  ℕ, zero, suc, ◌+◌, ◌-◌, ◌*◌, ◌/◌, ◌^◌, ◌≤◌, ◌<◌, ◌≡◌, true, false, arith, subst, ◌∙◌, ap,
}
use oshard.Buddy.Blocks.{blk_size, blk_index}
use oshard.Buddy.Blocks.Index.{blk_index-suc}
use oshard.Buddy.Heap.{Heap}
use oshard.Buddy.View.{at, Within, split_bit}
use oshard.Buddy.Lists.{FreeLists}
use oshard.Buddy.Whole.{pow-add, pow_pos, double, mul_mono}
use oshard.Buddy.Invariant.{Invariant, IsHeld}
use oshard.Buddy.Malloc.Serve.{block-Fits, blk_index-at}
use oshard.Buddy.Free.{size_loop, size}

-- The managed memory does not begin at its first leaf, so no held block is the whole of it.
pub held_level :
    {lo : ℕ} {s : Heap} {fl : FreeLists} {k i : ℕ} → 0 < lo → IsHeld lo s fl k i → k + 1 < s.nsizes
held_level {lo} {s} {fl} {k} {i} pos held = elim (dec_lt (k + 1) s.nsizes) [
  | yes lt ↦ lt
  | no top ↦
      let q : k ≡ s.nsizes - 1 = omega (arith, held.level) in
      let one : (i + 1) * 2 ^ k ≤ 2 ^ k = rw (← q) at held.placed.within in
      absurd (omega (arith, one, held.placed.high))
]

-- the index, at a lower level, of the leftmost block inside a block
leftmost : (k m i : ℕ) → m ≤ k → i * 2 ^ (k - m) * 2 ^ m ≡ i * 2 ^ k
leftmost k m i le =
    let e : 2 ^ k ≡ 2 ^ (k - m) * 2 ^ m =
      subst (λ z. 2 ^ z ≡ 2 ^ (k - m) * 2 ^ m) (omega arith) (pow-add (k - m) m) in
    rw e (omega arith)

pow_le : (m k : ℕ) → m ≤ k → 2 ^ m ≤ 2 ^ k
pow_le m k le =
    let big = mul_mono 1 (2 ^ (k - m)) (2 ^ m) (pow_pos (k - m)) in omega (arith, leftmost k m 1 le)

module _ {lo : ℕ} {s : Heap} {fl : FreeLists} (w : Invariant lo s fl) {k i : ℕ}
    (held : IsHeld lo s fl k i) where
  split_below :
      (j : ℕ) → j < k → split_bit s (suc j) (blk_index s.base (suc j) (at s.base k i)) ≡ false
  split_below j lt =
      let n = i * 2 ^ (k - suc j) in
      let e : n * 2 ^ suc j ≡ i * 2 ^ k = leftmost k (suc j) i lt in
      let p = pow_pos (suc j) in
      let small : 2 ^ suc j ≤ 2 ^ k = pow_le (suc j) k lt in
      let inn : Within s.nsizes (suc j) n = omega (arith, held.placed.within) in
      let a : at s.base k i ≡ at s.base (suc j) n = omega arith in
      let index : blk_index s.base (suc j) (at s.base k i) ≡ n =
        rw a (blk_index-at w.shaped (suc j) n inn) in
      rw index (held.whole.inside (suc j) n (omega arith) lt (omega arith) (omega arith))

  split_at :
      k + 1 < s.nsizes → split_bit s (suc k) (blk_index s.base (suc k) (at s.base k i)) ≡ true
  split_at lt =
      let index : blk_index s.base (suc k) (at s.base k i) ≡ i / 2 =
        blk_index-suc s.base k (i * blk_size k) (block-Fits w.shaped k i held.placed.within)
        ∙ ap (λ b. b / 2) (blk_index-at w.shaped k i held.placed.within) in
      let lo' = mul_mono (2 * (i / 2)) i (2 ^ k) (omega arith) in
      let hi' = mul_mono (i + 1) (2 * (i / 2 + 1)) (2 ^ k) (omega arith) in
      let p = pow_pos k in
      rw index (
        held.whole.around (suc k) (i / 2) (omega arith) (omega arith)
          (omega (arith, double (i / 2) k)) (omega (arith, double (i / 2 + 1) k)))

  size_loop-level :
      (rounds j : ℕ)
      → k + 1 < s.nsizes
      → j ≤ k
      → k < j + rounds
      → size_loop rounds s j (at s.base k i) ≡ k
  unfolding size_loop
  size_loop-level zero j top le lt = absurd (omega arith)
  size_loop-level (suc rounds) j top le lt = elim (dec_lt j k) [
    | yes below ↦
        rw (add-one j, split_below j below)
          (let e = add-one j in
            rw (← e) (size_loop-level rounds (j + 1) top (omega arith) (omega arith)))
    | no here ↦ let q : j ≡ k = omega arith in rw (add-one j, q, split_at top)
  ]

-- Under the invariant, of a held block size finds the level from its address, when the managed
-- memory does not begin at leaf 0.
pub size-level :
    {lo : ℕ} {s : Heap} {fl : FreeLists} {k i : ℕ}
    → 0 < lo
    → Invariant lo s fl
    → IsHeld lo s fl k i
    → size s (at s.base k i) ≡ k
unfolding size
size-level {s} pos w held =
    size_loop-level w held s.nsizes 0 (held_level pos held) (omega arith)
      (omega (arith, held.level))
