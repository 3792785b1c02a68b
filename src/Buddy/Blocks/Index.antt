-- ===== src/Buddy/Blocks/Index.antt =====
-- Block indices and addresses of kernel/buddy.c: the round trip between them, and buddies.
use native.Mathlib.Nat.{
  one-le-pow, two-pow-succ, mul-div_cancel, div-add-mod, div-div-eq-div-mul, mod-lt,
}
use oshard.Common.{
  ℕ, suc, ◌+◌, ◌*◌, ◌/◌, ◌^◌, ◌≤◌, ◌<◌, ◌≡◌, ◌≢◌, ap, arith, ◌==◌, if◌then◌else◌, ◌∙◌, sym,
  Bool-cases, inl, inr, ==_iff,
}
use oshard.Buddy.Blocks.{blk_size, offset, to_int, blk_index, addr, blk_index_next, buddy_of}

pub blk_size_pos : (k : ℕ) → 0 < blk_size k
blk_size_pos k = let h = one-le-pow k 2 (omega arith) in omega arith

pub blk_size-suc : (k : ℕ) → blk_size (suc k) ≡ blk_size k * 2
blk_size-suc k = rw (two-pow-succ k) (omega arith)

ceil_bounds :
    (o s q r : ℕ)
    → r < s
    → s * q + r ≡ o
    → let n = (if r == 0 then q else q + 1) in (o ≤ n * s) × (n * s < o + s)
ceil_bounds o s q r h e = elim (Bool-cases (r == 0)) [
  | inl z ↦ let z' = (==_iff r 0).0 z in rw z (omega arith, omega arith)
  | inr nz ↦ let pos : 0 < r = ground arith in rw nz (omega arith, omega arith)
]

-- The managed memory lies in the address space and its offsets fit an `int`.
pub record Fits (base o : ℕ) : Type 0 where
  pub in_space : base + o < 2 ^ 64
  pub in_int : o < 2 ^ 31

module _ (base k : ℕ) where
  -- Of an address in the managed memory `blk_index` is the block that holds it.
  pub blk_index_lem : (o : ℕ) → Fits base o → blk_index base k (base + o) ≡ o / blk_size k
  unfolding blk_index
  blk_index_lem o f = ap (λ n. n / blk_size k) (omega arith)

  pub addr_lem : (bi : ℕ) → Fits base (bi * blk_size k) → addr base k bi ≡ base + bi * blk_size k
  unfolding addr
  addr_lem bi f = omega arith

  -- For a block inside the managed memory blk_index of its address is its number.
  pub blk_index-addr :
      (bi : ℕ) → Fits base (bi * blk_size k) → blk_index base k (addr base k bi) ≡ bi
  blk_index-addr bi f = rw (addr_lem bi f, blk_index_lem _ f) (mul-div_cancel bi (blk_size_pos k))

  -- At an address inside the managed memory blk_index_next is the number of the first block that
  -- starts at or after it.
  pub blk_index_next_lem :
      (o : ℕ)
      → Fits base o
      → (o ≤ blk_index_next base k (base + o) * blk_size k)
        × (blk_index_next base k (base + o) * blk_size k < o + blk_size k)
  unfolding blk_index_next
  blk_index_next_lem o f =
      let e : offset base (base + o) ≡ o = omega arith in
      let small : o / blk_size k ≤ o = let p = blk_size_pos k in grind arith in
      let i : to_int (o / blk_size k) ≡ o / blk_size k = omega arith in
      let p = blk_size_pos k in
      let d = div-add-mod o (blk_size k) in
      rw (e, i) (ceil_bounds o (blk_size k) _ _ (mod-lt o p) d)

  -- A block at level k + 1 is the two blocks of a pair at level k.
  pub blk_index-suc :
      (o : ℕ) → Fits base o → blk_index base (suc k) (base + o) ≡ blk_index base k (base + o) / 2
  unfolding blk_index
  blk_index-suc o f =
      let n = to_int (offset base (base + o)) in
      ap (λ m. n / m) (blk_size-suc k) ∙ sym (div-div-eq-div-mul n (blk_size k) 2)

-- The buddy of a block is another block of the same pair, and its buddy is the block again.
pub buddy_of_lem :
    (bi : ℕ) → (buddy_of bi ≢ bi) × (buddy_of bi / 2 ≡ bi / 2) × (buddy_of (buddy_of bi) ≡ bi)
unfolding buddy_of
buddy_of_lem bi = ground arith
