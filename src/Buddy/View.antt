-- ===== src/Buddy/View.antt =====
-- How the proofs about kernel/buddy.c read the allocator's state: the bit of a block in one of the
-- two arrays of its level, and what a write to one array does to every bit of every level.
use oshard.Common.{
  ℕ, ◌+◌, ◌-◌, ◌*◌, ◌^◌, ◌≤◌, ◌<◌, ◌≡◌, refl, Bool, false, not, xor, ◌&&◌, ◌||◌, arith, ◌==◌,
  if◌then◌else◌, ◌∙◌, subst, Bool-cases, inl, inr, ==_iff, List, length, length-set, get_or, set,
  get_or-set_self, get_or-set_ne,
}
use oshard.Buddy.Bits.{bit_isset, bit_set, bit_clear, bit_invert}
use oshard.Buddy.Bits.Laws.{
  IsBytes, capacity, bit_writes-IsBytes, bit_writes-length, bit_isset-bit_set, bit_isset-bit_clear,
  bit_isset-bit_invert,
}
use oshard.Buddy.Blocks.{blk_size}
use oshard.Buddy.Heap.{SzInfo, Heap, no_size, max_size, size_info, set_alloc, set_split}

abbrev pub alloc_bit : Heap → ℕ → ℕ → Bool
alloc_bit s k j = bit_isset (size_info s k).alloc j

abbrev pub split_bit : Heap → ℕ → ℕ → Bool
split_bit s k n = bit_isset (size_info s k).split n

-- the address of block `i` of level `k`
abbrev pub at : ℕ → ℕ → ℕ → ℕ
at base k i = base + i * blk_size k

-- Block `i` of level `k` lies within the memory that `nsizes` levels manage.
abbrev pub Within : ℕ → ℕ → ℕ → Type 0
Within nsizes k i = (i + 1) * 2 ^ k ≤ 2 ^ (nsizes - 1)

-- The arrays are large enough for the blocks of their level, and the memory for its addresses.
pub record IsShaped (s : Heap) : Type 0 where
  pub some_size : 0 < s.nsizes
  pub all_sizes : length s.sizes ≡ s.nsizes
  pub alloc_room :
      (k j : ℕ)
      → k < max_size s
      → Within s.nsizes k (2 * j + 1)
      → j < capacity (size_info s k).alloc
  pub split_room :
      (k n : ℕ) → 0 < k → k < s.nsizes → Within s.nsizes k n → n < capacity (size_info s k).split
  pub alloc_bytes : (k : ℕ) → k < s.nsizes → IsBytes (size_info s k).alloc
  pub split_bytes : (k : ℕ) → k < s.nsizes → IsBytes (size_info s k).split
  pub in_space : s.base + 2 ^ max_size s * 16 ≤ 2 ^ 64
  pub in_int : 2 ^ max_size s * 16 ≤ 2 ^ 31

size_info-set :
    (s : Heap) (k m : ℕ) (v : SzInfo)
    → k < length s.sizes
    → get_or (set s.sizes k v) m no_size ≡ (if m == k then v else size_info s m)
size_info-set s k m v h = elim (Bool-cases (m == k)) [
  | inl e ↦ let q = (==_iff m k).0 e in rw (e, q, get_or-set_self s.sizes k v no_size h)
  | inr ne ↦ rw (ne, get_or-set_ne s.sizes k m v no_size (ground arith))
]

module _ {s : Heap} (w : IsShaped s) (k : ℕ) (h : k < s.nsizes) where
  size_info-set_alloc :
      (m : ℕ) (bits : List ℕ)
      → size_info (set_alloc s k bits) m
        ≡ (if m == k then record (size_info s k) { alloc = bits } else size_info s m)
  size_info-set_alloc m bits = size_info-set s k m _ (omega (arith, w.all_sizes))

  size_info-set_split :
      (m : ℕ) (bits : List ℕ)
      → size_info (set_split s k bits) m
        ≡ (if m == k then record (size_info s k) { split = bits } else size_info s m)
  size_info-set_split m bits = size_info-set s k m _ (omega (arith, w.all_sizes))

  -- Inverting bit `x` of an alloc array changes that bit alone.
  pub alloc_bit-invert :
      (x : ℕ)
      → x < capacity (size_info s k).alloc
      → (m j : ℕ)
      → let s' = set_alloc s k (bit_invert (size_info s k).alloc x) in
        (alloc_bit s' m j ≡ (if m == k then xor (x == j) (alloc_bit s k j) else alloc_bit s m j))
        × (split_bit s' m j ≡ split_bit s m j)
  alloc_bit-invert x room m j = elim (Bool-cases (m == k)) [
    | inl e ↦
        let q = (==_iff m k).0 e in
        rw (size_info-set_alloc m (bit_invert (size_info s k).alloc x), e, q)
          (bit_isset-bit_invert (size_info s k).alloc x j (w.alloc_bytes k h) room, refl)
    | inr ne ↦ rw (size_info-set_alloc m (bit_invert (size_info s k).alloc x), ne) (refl, refl)
  ]

  -- Wherever the bit is, the split bits and the alloc bits of other levels stay.
  pub invert_other :
      (x m j : ℕ)
      → let s' = set_alloc s k (bit_invert (size_info s k).alloc x) in
        (split_bit s' m j ≡ split_bit s m j)
        × ((m == k) ≡ false → alloc_bit s' m j ≡ alloc_bit s m j)
  invert_other x m j = elim (Bool-cases (m == k)) [
    | inl e ↦
        let q = (==_iff m k).0 e in
        (rw (size_info-set_alloc m (bit_invert (size_info s k).alloc x), e, q) refl, λ ne. cc)
    | inr ne ↦ (
      rw (size_info-set_alloc m (bit_invert (size_info s k).alloc x), ne) refl,
      λ ne. rw (size_info-set_alloc m (bit_invert (size_info s k).alloc x), ne) refl,
    )
  ]

  -- Setting bit `x` of a split array sets that bit alone.
  pub split_bit-set :
      (x : ℕ)
      → x < capacity (size_info s k).split
      → (m j : ℕ)
      → let s' = set_split s k (bit_set (size_info s k).split x) in
        (split_bit s' m j ≡ (if m == k then (x == j) || split_bit s k j else split_bit s m j))
        × (alloc_bit s' m j ≡ alloc_bit s m j)
  split_bit-set x room m j = elim (Bool-cases (m == k)) [
    | inl e ↦
        let q = (==_iff m k).0 e in
        rw (size_info-set_split m (bit_set (size_info s k).split x), e, q)
          (bit_isset-bit_set (size_info s k).split x j (w.split_bytes k h) room, refl)
    | inr ne ↦ rw (size_info-set_split m (bit_set (size_info s k).split x), ne) (refl, refl)
  ]

  -- Clearing bit `x` of a split array clears that bit alone.
  pub split_bit-clear :
      (x : ℕ)
      → x < capacity (size_info s k).split
      → (m j : ℕ)
      → let s' = set_split s k (bit_clear (size_info s k).split x) in
        (split_bit s' m j ≡ (if m == k then not (x == j) && split_bit s k j else split_bit s m j))
        × (alloc_bit s' m j ≡ alloc_bit s m j)
  split_bit-clear x room m j = elim (Bool-cases (m == k)) [
    | inl e ↦
        let q = (==_iff m k).0 e in
        rw (size_info-set_split m (bit_clear (size_info s k).split x), e, q)
          (bit_isset-bit_clear (size_info s k).split x j (w.split_bytes k h) room, refl)
    | inr ne ↦ rw (size_info-set_split m (bit_clear (size_info s k).split x), ne) (refl, refl)
  ]

  -- A predicate of a level's entry after a write to level `k`.
  set_level :
      (v : SzInfo) (m : ℕ) (P : SzInfo → Type 0)
      → (m ≡ k → P (size_info s k) → P v)
      → P (size_info s m)
      → P (get_or (set s.sizes k v) m no_size)
  set_level v m P new old = elim (Bool-cases (m == k)) [
    | inl e ↦
        let q = (==_iff m k).0 e in
        rw (size_info-set s k m v (omega (arith, w.all_sizes)), e)
          (new q (subst (λ n. P (size_info s n)) q old))
    | inr ne ↦ rw (size_info-set s k m v (omega (arith, w.all_sizes)), ne) old
  ]

  -- A new array of the same size for a level keeps the shape.
  pub IsShaped-set_alloc :
      (bits : List ℕ)
      → IsBytes bits
      → length bits ≡ length (size_info s k).alloc
      → IsShaped (set_alloc s k bits)
  IsShaped-set_alloc bits b len =
      let v = record (size_info s k) { alloc = bits } in
      record {
        some_size = w.some_size;
        all_sizes = length-set s.sizes k v ∙ w.all_sizes;
        alloc_room = λ m j lt i.
            set_level v m (λ z. j < capacity z.alloc) (λ q o. omega (arith, len))
              (w.alloc_room m j lt i);
        split_room = λ m n pos lt i.
            set_level v m (λ z. n < capacity z.split) (λ q o. o) (w.split_room m n pos lt i);
        alloc_bytes = λ m lt. set_level v m (λ z. IsBytes z.alloc) (λ q o. b) (w.alloc_bytes m lt);
        split_bytes = λ m lt. set_level v m (λ z. IsBytes z.split) (λ q o. o) (w.split_bytes m lt);
        in_space = w.in_space;
        in_int = w.in_int;
      }

  pub IsShaped-set_split :
      (bits : List ℕ)
      → IsBytes bits
      → length bits ≡ length (size_info s k).split
      → IsShaped (set_split s k bits)
  IsShaped-set_split bits b len =
      let v = record (size_info s k) { split = bits } in
      record {
        some_size = w.some_size;
        all_sizes = length-set s.sizes k v ∙ w.all_sizes;
        alloc_room = λ m j lt i.
            set_level v m (λ z. j < capacity z.alloc) (λ q o. o) (w.alloc_room m j lt i);
        split_room = λ m n pos lt i.
            set_level v m (λ z. n < capacity z.split) (λ q o. omega (arith, len))
              (w.split_room m n pos lt i);
        alloc_bytes = λ m lt. set_level v m (λ z. IsBytes z.alloc) (λ q o. o) (w.alloc_bytes m lt);
        split_bytes = λ m lt. set_level v m (λ z. IsBytes z.split) (λ q o. b) (w.split_bytes m lt);
        in_space = w.in_space;
        in_int = w.in_int;
      }

  -- The three writes of the allocator keep the shape.
  pub IsShaped-writes :
      (x : ℕ)
      → IsShaped (set_alloc s k (bit_invert (size_info s k).alloc x))
        × IsShaped (set_split s k (bit_set (size_info s k).split x))
        × IsShaped (set_split s k (bit_clear (size_info s k).split x))
  IsShaped-writes x =
      let a = (size_info s k).alloc in
      let p = (size_info s k).split in
      (
        IsShaped-set_alloc _ (bit_writes-IsBytes a x (w.alloc_bytes k h)).2
            (bit_writes-length a x).2,
        IsShaped-set_split _ (bit_writes-IsBytes p x (w.split_bytes k h)).0
            (bit_writes-length p x).0,
        IsShaped-set_split _ (bit_writes-IsBytes p x (w.split_bytes k h)).1
            (bit_writes-length p x).1,
      )
