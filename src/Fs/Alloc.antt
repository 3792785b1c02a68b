-- ===== src/Fs/Alloc.antt =====
-- `balloc` and `bfree` of kernel/fs.c on the set of blocks in use.
use oshard.Common.{
  ℕ, ◌+◌, ◌*◌, ◌/◌, ◌%◌, ◌<◌, ◌≡◌, ◌≢◌, ◌⊎◌, refl, ap, ap₂, sym, subst, ◌∙◌, true, false, not, ◌||◌,
  ◌&&◌, List, Option, none, some, arith, ok, panic, ◌==◌, Bool-cases, inl, inr, length, replicate,
}
use oshard.Buddy.Bits.{bit_isset, bit_set, bit_clear}
use oshard.Buddy.Bits.Laws.{
  IsBytes, bit_isset-bit_set, bit_isset-bit_clear, bit_writes-IsBytes, bit_writes-length,
}
use oshard.Fs.{bsize, bpb, Fs, put_block, bblock, bzero, take_bit, balloc, bfree}
use oshard.Fs.Scan.{is_free_block, ScanEnds, scan_blocks-ScanEnds}
use oshard.Fs.Bitmap.{used, IsFs, used-put_block, put_block-other, put_block-at, is_free-bit_isset}

IsFs-put_block :
    (fs : Fs) (n : ℕ) (bytes : List ℕ)
    → IsFs fs
    → IsBytes bytes
    → length bytes ≡ bsize
    → ((b : ℕ) → b < fs.sb.size → used (put_block fs n bytes) (bblock fs b) ≡ true)
    → IsFs (put_block fs n bytes)
IsFs-put_block fs n bytes k w l u = record {
  map_bytes = λ b i. elim (Bool-cases (bblock fs b == n)) [
    | inl t ↦ subst IsBytes (sym (put_block-at fs n (bblock fs b) bytes t)) w
    | inr f ↦ subst IsBytes (sym (put_block-other fs n (bblock fs b) bytes f)) (k.map_bytes b i)
  ];
  map_whole = λ b i. elim (Bool-cases (bblock fs b == n)) [
    | inl t ↦ ap length (put_block-at fs n (bblock fs b) bytes t) ∙ l
    | inr f ↦ ap length (put_block-other fs n (bblock fs b) bytes f) ∙ k.map_whole b i
  ];
  map_inside = k.map_inside;
  map_used = u;
}

module _ (fs : Fs) (a : ℕ) (k : IsFs fs) (i : a < fs.sb.size) where
  abbrev marked : Fs
  marked = put_block fs (bblock fs a) (bit_set (fs.block (bblock fs a)) (a % bpb))

  abbrev cleared : Fs
  cleared = put_block fs (bblock fs a) (bit_clear (fs.block (bblock fs a)) (a % bpb))

  inside : a % bpb < length (fs.block (bblock fs a)) * 8
  inside = omega (arith, k.map_whole a i)

  used-marked : (b : ℕ) → used marked b ≡ ((a == b) || used fs b)
  used-marked =
      used-put_block fs a _ (λ e old. e || old)
        (λ j. bit_isset-bit_set _ (a % bpb) j (k.map_bytes a i) inside) (λ old. refl)

  used-cleared : (b : ℕ) → used cleared b ≡ (not (a == b) && used fs b)
  used-cleared =
      used-put_block fs a _ (λ e old. not e && old)
        (λ j. bit_isset-bit_clear _ (a % bpb) j (k.map_bytes a i) inside) (λ old. refl)

  marked-IsFs : IsFs marked
  marked-IsFs =
      IsFs-put_block fs _ _ k (bit_writes-IsBytes _ (a % bpb) (k.map_bytes a i)).0
        ((bit_writes-length _ (a % bpb)).0 ∙ k.map_whole a i)
        (λ b j. let u = k.map_used b j in used-marked (bblock fs b) ∙ ground arith)

  cleared-IsFs : ((b : ℕ) → b < fs.sb.size → bblock fs b ≢ a) → IsFs cleared
  cleared-IsFs data_block =
      IsFs-put_block fs _ _ k (bit_writes-IsBytes _ (a % bpb) (k.map_bytes a i)).1
        ((bit_writes-length _ (a % bpb)).1 ∙ k.map_whole a i)
        (λ b j.
          let u = k.map_used b j in
          let other = data_block b j in used-cleared (bblock fs b) ∙ ground arith)

bzero-other : (fs : Fs) (a n : ℕ) → (n == a) ≡ false → (bzero fs a).block n ≡ fs.block n
unfolding bzero
bzero-other fs a n f = rw f

bzero-at : (fs : Fs) (a : ℕ) → (bzero fs a).block a ≡ replicate bsize 0
unfolding bzero
bzero-at fs a = put_block-at fs a a (replicate bsize 0) (ground arith)

bzero-sb : (fs : Fs) (a : ℕ) → (bzero fs a).sb ≡ fs.sb
unfolding bzero
bzero-sb fs a = refl

-- A disk with the same superblock and the same map.
module _ (fs fs1 : Fs) (same_sb : fs1.sb ≡ fs.sb)
    (same : (b : ℕ) → b < fs.sb.size → fs1.block (bblock fs b) ≡ fs.block (bblock fs b)) where
  block-same : (b : ℕ) → b < fs.sb.size → fs1.block (bblock fs1 b) ≡ fs.block (bblock fs b)
  block-same b i = ap (λ s. fs1.block (b / bpb + s.bmapstart)) same_sb ∙ same b i

  used-same : (b : ℕ) → b < fs.sb.size → used fs1 b ≡ used fs b
  used-same b i = ap (λ m. bit_isset m (b % bpb)) (block-same b i)

  was : (b : ℕ) → b < fs1.sb.size → b < fs.sb.size
  was b i = subst (λ s. b < s.size) same_sb i

  IsFs-same : IsFs fs → IsFs fs1
  IsFs-same k = record {
    map_bytes = λ b i. subst IsBytes (sym (block-same b (was b i))) (k.map_bytes b (was b i));
    map_whole = λ b i. ap length (block-same b (was b i)) ∙ k.map_whole b (was b i);
    map_inside =
        λ b i. subst (λ s. b / bpb + s.bmapstart < s.size) (sym same_sb) (k.map_inside b (was b i));
    map_used = λ b i.
        ap (λ s. used fs1 (b / bpb + s.bmapstart)) same_sb
        ∙ used-same (bblock fs b) (k.map_inside b (was b i))
        ∙ k.map_used b (was b i);
  }

is_free_block-used :
    (fs : Fs) (n : ℕ) → IsFs fs → n < fs.sb.size → is_free_block fs n ≡ not (used fs n)
is_free_block-used fs n k i = is_free-bit_isset (fs.block (bblock fs n)) (n % bpb) (k.map_bytes n i)

-- What `balloc` returns and leaves.
abbrev pub Allocates : Fs → ℕ × Fs → Type 0
Allocates fs (a, fs') =
    ((a ≡ 0) × (fs' ≡ fs) × ((n : ℕ) → n < fs.sb.size → used fs n ≡ true))
    ⊎ ((a < fs.sb.size)
        × (used fs a ≡ false)
        × IsFs fs'
        × ((n : ℕ) → n < fs.sb.size → used fs' n ≡ ((a == n) || used fs n))
        × (fs'.block a ≡ replicate bsize 0))

-- no block of the map is one that is not in use
map_apart :
    (fs : Fs) (a : ℕ)
    → IsFs fs
    → used fs a ≡ false
    → (b : ℕ) → b < fs.sb.size
    → (bblock fs b == a) ≡ false
map_apart fs a k unused b i = elim (Bool-cases (bblock fs b == a)) [
  | inr f ↦ f
  | inl t ↦
      let e : bblock fs b ≡ a = ground arith in
      absurd (cc (sym (k.map_used b i) ∙ ap (used fs) e ∙ unused))
]

take_block :
    (fs : Fs) (a : ℕ) (k : IsFs fs) (i : a < fs.sb.size)
    → used fs a ≡ false
    → Allocates fs (a, bzero (marked fs a k i) a)
take_block fs a k i unused =
    let fs1 = marked fs a k i in
    let same : (b : ℕ)
        → b < fs.sb.size
        → (bzero fs1 a).block (bblock fs b) ≡ fs1.block (bblock fs b) =
      λ b j. bzero-other fs1 a (bblock fs b) (map_apart fs a k unused b j) in
    inr (
      i,
      unused,
      IsFs-same fs1 (bzero fs1 a) (bzero-sb fs1 a) same (marked-IsFs fs a k i),
      λ n j. used-same fs1 (bzero fs1 a) (bzero-sb fs1 a) same n j ∙ used-marked fs a k i n,
      bzero-at fs1 a,
    )

take_bit-Allocates :
    (fs : Fs) (found : Option (ℕ × ℕ))
    → IsFs fs
    → ScanEnds fs 0 found
    → Allocates fs (take_bit fs found)
take_bit-Allocates fs none k end = inl (
  refl,
  refl,
  λ n i. let e = sym (is_free_block-used fs n k i) ∙ end n (omega arith) i in ground arith,
)
take_bit-Allocates fs (some (x, y)) k (m, h, i, free) =
    let q : (x + y) / bpb ≡ x / bpb = omega arith in
    let r : (x + y) % bpb ≡ y = omega arith in
    let unused : used fs (x + y) ≡ false =
      let e = sym (is_free_block-used fs (x + y) k i) ∙ free in ground arith in
    subst (λ s. Allocates fs (x + y, bzero s (x + y)))
      (ap₂
        (λ blk bit.
          put_block fs (blk + fs.sb.bmapstart) (bit_set (fs.block (blk + fs.sb.bmapstart)) bit))
        q r)
      (take_block fs (x + y) k i unused)

-- When every block of the free bit map is whole and the map has its own blocks in use, balloc finds
-- a block that is not in use, takes it into use with no change to the others, zeroes it and keeps
-- the map so; or it returns 0 and changes nothing, when every block is in use.
pub balloc-Allocates : (fs : Fs) → IsFs fs → Allocates fs (balloc fs)
unfolding balloc
balloc-Allocates fs k =
    take_bit-Allocates fs _ k (scan_blocks-ScanEnds fs.sb.size fs 0 refl (omega arith))

-- When every block of the free bit map is whole and the map has its own blocks in use, bfree of a
-- block of the disk that is none of the map panics when the block is not in use, and otherwise
-- gives it back with no change to the others and keeps the map so.
pub bfree_lem :
    (fs : Fs) (a : ℕ)
    → IsFs fs
    → a < fs.sb.size
    → ((b : ℕ) → b < fs.sb.size → bblock fs b ≢ a)
    → ((used fs a ≡ false) × (bfree fs a ≡ panic "freeing free block"))
      ⊎ ((fs' : Fs) × (bfree fs a ≡ ok fs')
          × (used fs a ≡ true)
          × IsFs fs'
          × ((n : ℕ) → used fs' n ≡ (not (a == n) && used fs n)))
unfolding bfree
bfree_lem fs a k i data_block =
    let free = is_free_block-used fs a k i in
    elim (Bool-cases (used fs a)) [
      | inr f ↦ let t : is_free_block fs a ≡ true = free ∙ ap not f in inl (f, rw t)
      | inl u ↦
          let t : is_free_block fs a ≡ false = free ∙ ap not u in
          inr (cleared fs a k i, rw t, u, cleared-IsFs fs a k i data_block, used-cleared fs a k i)
    ]
