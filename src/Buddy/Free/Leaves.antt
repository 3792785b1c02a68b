-- ===== src/Buddy/Free/Leaves.antt =====
-- The leaves that the free lists of kernel/buddy.c cover, and what a change of one list does to them.
use oshard.Common.{
  ℕ, suc, ◌+◌, ◌*◌, ◌^◌, ◌≤◌, ◌<◌, ◌≡◌, ◌≢◌, ap, sym, ◌∙◌, true, ◌⊎◌, inl, inr, List, [], ◌∷◌,
  arith, ◌==◌, Bool-cases, ==_iff, ltb, ltb→lt,
}
use oshard.LinkedList.Ring.{has, erase}
use oshard.Buddy.Lists.{FreeLists, put, put-cons_inv, put-erase_inv}
use oshard.Buddy.Whole.{double}

-- Leaf `x` is one of block `i` of level `k`.
abbrev pub InBlock : ℕ → ℕ → ℕ → Type 0
InBlock k i x = (i * 2 ^ k ≤ x) × (x < (i + 1) * 2 ^ k)

-- Leaf `x` is in a block of a free list.
abbrev pub IsFreeLeaf : ℕ → FreeLists → ℕ → Type 0
IsFreeLeaf nsizes fl x = (m j : ℕ) × (m < nsizes) × (has j (fl m) ≡ true) × InBlock m j x

pub halves : (k i x : ℕ) → InBlock (suc k) i x → InBlock k (2 * i) x ⊎ InBlock k (2 * i + 1) x
halves k i x (lo, hi) =
    let e = double i k in
    let e' = double (i + 1) k in
    elim (Bool-cases (ltb x ((2 * i + 1) * 2 ^ k))) [
      | inl h ↦ inl (omega (arith, e, e'), ltb→lt x ((2 * i + 1) * 2 ^ k) h)
      | inr h ↦ inr (ground arith, omega (arith, e'))
    ]

pub in_left : (k i x : ℕ) → InBlock k (2 * i) x → InBlock (suc k) i x
in_left k i x (lo, hi) = (omega (arith, double i k), omega (arith, double (i + 1) k))

pub in_right : (k i x : ℕ) → InBlock k (2 * i + 1) x → InBlock (suc k) i x
in_right k i x (lo, hi) = (omega (arith, double i k), omega (arith, double (i + 1) k))

has-erase_other : (j e : ℕ) (xs : List ℕ) → j ≢ e → has j xs ≡ true → has j (erase e xs) ≡ true
has-erase_other j e [] ne h = h
has-erase_other j e (x ∷ xs) ne h = ground (arith, has-erase_other j e xs ne)

-- Putting a block on a list frees its leaves.
module _ (nsizes : ℕ) (fl : FreeLists) (k i : ℕ) (lt : k < nsizes) where
  abbrev pub pushed : FreeLists
  pushed = put fl k (i ∷ fl k)

  pub pushed_lem : has i (pushed k) ≡ true
  pushed_lem = ground arith

  pub pushed_keeps : (x : ℕ) → IsFreeLeaf nsizes fl x → IsFreeLeaf nsizes pushed x
  pushed_keeps x (m, j, h, mem, inn) = (
    m,
    j,
    h,
    elim (Bool-cases (m == k)) [
      | inl e ↦
          let q = (==_iff m k).0 e in
          let old : has j (fl k) ≡ true = ap (λ z. has j (fl z)) (sym q) ∙ mem in
          rw e (ground arith)
      | inr ne ↦ rw ne mem
    ],
    inn,
  )

  pub pushed_no_more : (x : ℕ) → IsFreeLeaf nsizes pushed x → InBlock k i x ⊎ IsFreeLeaf nsizes fl x
  pushed_no_more x (m, j, h, mem, inn) = elim (put-cons_inv fl k i m j mem) [
    | inl (e, f) ↦ inl (rw (e, f) at inn)
    | inr old ↦ inr (m, j, h, old, inn)
  ]

-- Taking a block off a list takes its leaves at most.
module _ (nsizes : ℕ) (fl : FreeLists) (k b : ℕ) where
  abbrev pub removed : FreeLists
  removed = put fl k (erase b (fl k))

  pub removed_keeps : (x : ℕ) → IsFreeLeaf nsizes fl x → InBlock k b x ⊎ IsFreeLeaf nsizes removed x
  removed_keeps x (m, j, h, mem, inn) = elim (Bool-cases (m == k)) [
    | inl e ↦
        let q = (==_iff m k).0 e in
        let old : has j (fl k) ≡ true = ap (λ z. has j (fl z)) (sym q) ∙ mem in
        elim (Bool-cases (j == b)) [
          | inl f ↦ let g = (==_iff j b).0 f in inl (rw (q, g) at inn)
          | inr f ↦ inr (m, j, h, rw e (has-erase_other j b (fl k) (ground arith) old), inn)
        ]
    | inr ne ↦ inr (m, j, h, rw ne mem, inn)
  ]

  pub removed_no_more : (x : ℕ) → IsFreeLeaf nsizes removed x → IsFreeLeaf nsizes fl x
  removed_no_more x (m, j, h, mem, inn) = (m, j, h, put-erase_inv fl k b m j mem, inn)
