-- ===== src/Fs/Bitmap.antt =====
-- The free bit map of kernel/fs.c as the set of blocks in use, and what a write to the map does to it.
use Prim.Native.Nat.{bit_and}
use oshard.Common.{
  ℕ, ◌/◌, ◌%◌, ◌^◌, ◌<◌, ◌≡◌, refl, ap, ap₂, sym, ◌∙◌, Bool, true, false, not, List, arith, ◌==◌,
  Bool-cases, inl, inr, length, get_or,
}
use oshard.Buddy.Bits.{bit_isset}
use oshard.Buddy.Bits.Laws.{IsBytes, IsBytes-get_or, all_hold, all_hold-entry, iff, iff→eq}
use oshard.Fs.{bsize, bpb, Fs, put_block, bblock, is_free}

free_table :
    all_hold
      (λ b.
        all_hold
          (λ i. iff (bit_and b (2 ^ i % 256) == 0) (not (bit_and b (2 ^ i % 256) == 2 ^ i % 256)))
          8)
      256
    ≡ true
unfolding all_hold
free_table = refl

pub is_free-bit_isset :
    (bits : List ℕ) (i : ℕ) → IsBytes bits → is_free bits i ≡ not (bit_isset bits i)
unfolding bit_isset
is_free-bit_isset bits i w = iff→eq _ _ (
    all_hold-entry _ 8 (i % 8) (omega arith)
      (all_hold-entry _ 256 (get_or bits (i / 8) 0) (IsBytes-get_or bits (i / 8) w) free_table))

-- whether the map has the block in use
abbrev pub used : Fs → ℕ → Bool
used fs b = bit_isset (fs.block (bblock fs b)) (b % bpb)

-- Every block of the map is a whole block of bytes, and the map has its own blocks in use.
pub record IsFs (fs : Fs) : Type 0 where
  pub map_bytes : (b : ℕ) → b < fs.sb.size → IsBytes (fs.block (bblock fs b))
  pub map_whole : (b : ℕ) → b < fs.sb.size → length (fs.block (bblock fs b)) ≡ bsize
  pub map_inside : (b : ℕ) → b < fs.sb.size → bblock fs b < fs.sb.size
  pub map_used : (b : ℕ) → b < fs.sb.size → used fs (bblock fs b) ≡ true

pub put_block-at :
    (fs : Fs) (n k : ℕ) (bytes : List ℕ) → (k == n) ≡ true → (put_block fs n bytes).block k ≡ bytes
put_block-at fs n k bytes t = rw t

pub put_block-other :
    (fs : Fs) (n k : ℕ) (bytes : List ℕ)
    → (k == n) ≡ false
    → (put_block fs n bytes).block k ≡ fs.block k
put_block-other fs n k bytes f = rw f

-- What a write to one bit of the map does.
module _ (fs : Fs) (a : ℕ) (bits : List ℕ) (F : Bool → Bool → Bool)
    (law : (j : ℕ) → bit_isset bits j ≡ F (a % bpb == j) (bit_isset (fs.block (bblock fs a)) j))
    (keeps : (old : Bool) → F false old ≡ old) where
  pub used-put_block : (b : ℕ) → used (put_block fs (bblock fs a) bits) b ≡ F (a == b) (used fs b)
  used-put_block b = elim (Bool-cases (bblock fs b == bblock fs a)) [
    | inl t ↦
        let same : bblock fs a ≡ bblock fs b = ground arith in
        let place : (a % bpb == b % bpb) ≡ (a == b) = ground arith in
        ap (λ m. bit_isset m (b % bpb)) (put_block-at fs (bblock fs a) (bblock fs b) bits t)
        ∙ law (b % bpb)
        ∙ ap₂ (λ e m. F e (bit_isset (fs.block m) (b % bpb))) place same
    | inr f ↦
        let apart : (a == b) ≡ false = ground arith in
        ap (λ m. bit_isset m (b % bpb)) (put_block-other fs (bblock fs a) (bblock fs b) bits f)
        ∙ sym (keeps (used fs b))
        ∙ ap (λ e. F e (used fs b)) (sym apart)
  ]
