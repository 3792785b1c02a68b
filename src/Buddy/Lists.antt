-- ===== src/Buddy/Lists.antt =====
-- The free lists of kernel/buddy.c: memory threads, for every level, a circular list through the
-- free blocks of the level. A block is its level and its index; `fl k` holds the indices of the
-- free blocks of level `k`, in the order of the list.
use native.Mathlib.Nat.{one-le-pow}
use native.Mathlib.Decide.{dec_lt}
use oshard.Common.{
  ℕ, ◌+◌, ◌*◌, ◌^◌, ◌≤◌, ◌<◌, ◌≡◌, ◌≢◌, refl, true, false, false≢true, ◌⊎◌, inl, inr, List, [], ◌∷◌,
  map, arith, ◌==◌, if◌then◌else◌, Bool-cases, ==_iff, subst, ◌∙◌, sym,
}
use oshard.LinkedList.{Links, lst_push, lst_remove}
use oshard.LinkedList.Ring.{
  has, distinct, erase, Apart, SameOutside, IsRing, IsRing-frame, has_ne, of_has-erase,
  has-erase_self, lst_push_lem, lst_remove_lem,
}
use oshard.Buddy.Blocks.Index.{blk_size_pos}
use oshard.Buddy.View.{at, Within}

abbrev pub FreeLists : Type 0
FreeLists = ℕ → List ℕ

abbrev pub put : FreeLists → ℕ → List ℕ → FreeLists
put fl k xs m = if m == k then xs else fl m

-- Two blocks share no byte.
abbrev pub Disjoint : ℕ → ℕ → ℕ → ℕ → Type 0
Disjoint k i m j = ((i + 1) * 2 ^ k ≤ j * 2 ^ m) ⊎ ((j + 1) * 2 ^ m ≤ i * 2 ^ k)

-- the address of the list head of level `k`
abbrev pub head_at : ℕ → ℕ → ℕ
head_at sizes_at k = sizes_at + k * 32

abbrev pub addresses : ℕ → ℕ → List ℕ → List ℕ
addresses base k xs = map (at base k) xs

-- The blocks from leaf `lo` on are managed: the allocator's own data lies below.
pub record Geometry : Type 0 where
  pub nsizes : ℕ
  pub base : ℕ
  pub sizes_at : ℕ
  pub lo : ℕ

-- Block `i` of level `k` lies in the memory that is handed out.
pub record IsPlaced (g : Geometry) (k i : ℕ) : Type 0 where
  pub within : Within g.nsizes k i
  pub high : g.lo ≤ i * 2 ^ k

pub record HasLists (g : Geometry) (links : Links) (fl : FreeLists) : Type 0 where
  pub heads_low : g.sizes_at + g.nsizes * 32 ≤ g.base + g.lo * 16
  pub rings :
      (k : ℕ) → k < g.nsizes → IsRing links (head_at g.sizes_at k) (addresses g.base k (fl k))
  pub placed : (k i : ℕ) → k < g.nsizes → has i (fl k) ≡ true → IsPlaced g k i
  pub disjoint :
      (k m i j : ℕ)
      → k < g.nsizes
      → m < g.nsizes
      → k ≢ m
      → has i (fl k) ≡ true
      → has j (fl m) ≡ true
      → Disjoint k i m j

-- A block that overlaps no free block.
abbrev pub Separate : Geometry → FreeLists → ℕ → ℕ → Type 0
Separate g fl k i = (m j : ℕ) → m < g.nsizes → has j (fl m) ≡ true → Disjoint k i m j

at-injective : (base k x i : ℕ) → at base k x ≡ at base k i → x ≡ i
at-injective base k x i h = let p = blk_size_pos k in grind arith

eq_at : (base k x i : ℕ) → (at base k x == at base k i) ≡ (x == i)
eq_at base k x i = elim (Bool-cases (x == i)) [
  | inl e ↦ let q = (==_iff x i).0 e in rw (e, q) ((==_iff _ _).1 refl)
  | inr ne ↦ ground (arith, at-injective base k x i)
]

-- The addresses of a level's blocks are those of its indices.
pub has-addresses :
    (base k i : ℕ) (xs : List ℕ) → has (at base k i) (addresses base k xs) ≡ has i xs
has-addresses base k i [] = refl
has-addresses base k i (x ∷ xs) = rw (has-addresses base k i xs, eq_at base k x i)

has-addresses_inv :
    (base k b : ℕ) (xs : List ℕ)
    → has b (addresses base k xs) ≡ true
    → (i : ℕ) × (has i xs ≡ true) × (b ≡ at base k i)
has-addresses_inv base k b [] h = absurd (false≢true h)
has-addresses_inv base k b (x ∷ xs) h = elim (Bool-cases (at base k x == b)) [
  | inl e ↦ (x, ground arith, ground arith)
  | inr ne ↦ let (i, m, e) = has-addresses_inv base k b xs (ground arith) in (i, ground arith, e)
]

pub erase-addresses :
    (base k i : ℕ) (xs : List ℕ)
    → erase (at base k i) (addresses base k xs) ≡ addresses base k (erase i xs)
erase-addresses base k i [] = refl
erase-addresses base k i (x ∷ xs) = elim (Bool-cases (x == i)) [
  | inl e ↦ rw (eq_at base k x i, e)
  | inr ne ↦ rw (eq_at base k x i, ne, erase-addresses base k i xs)
]

pub Disjoint-starts : (k i m j : ℕ) → Disjoint k i m j → i * 2 ^ k ≢ j * 2 ^ m
Disjoint-starts k i m j d =
    let p = one-le-pow k 2 (omega arith) in let q = one-le-pow m 2 (omega arith) in omega arith

pub Disjoint-sym : (k i m j : ℕ) → Disjoint k i m j → Disjoint m j k i
Disjoint-sym k i m j (inl h) = inr h
Disjoint-sym k i m j (inr h) = inl h

Disjoint-of_ne : (k x j : ℕ) → x ≢ j → Disjoint k x k j
Disjoint-of_ne k x j ne = elim (dec_lt x j) [
  | yes lt ↦ inl (grind arith)
  | no ge ↦ let gt : j < x = omega arith in inr (grind arith)
]

pub distinct-addresses :
    (base k : ℕ) (xs : List ℕ) → distinct (addresses base k xs) ≡ true → distinct xs ≡ true
distinct-addresses base k [] d = refl
distinct-addresses base k (x ∷ xs) d =
    ground (arith, has-addresses base k x xs, distinct-addresses base k xs)

eq_self : (k : ℕ) → (k == k) ≡ true
eq_self k = (==_iff k k).1 refl

pub put-cons_inv :
    (fl : FreeLists) (k x m i : ℕ)
    → has i (put fl k (x ∷ fl k) m) ≡ true
    → ((m ≡ k) × (i ≡ x)) ⊎ (has i (fl m) ≡ true)
put-cons_inv fl k x m i h = elim (Bool-cases (m == k)) [
  | inl e ↦
      let q = (==_iff m k).0 e in
      let h' : has i (x ∷ fl k) ≡ true = rw e at h in
      elim (Bool-cases (x == i)) [
        | inl hit ↦ inl (q, sym ((==_iff x i).0 hit))
        | inr miss ↦ inr (rw q (ground arith))
      ]
  | inr ne ↦ inr (rw ne at h)
]

pub put-erase_inv :
    (fl : FreeLists) (k x m i : ℕ)
    → has i (put fl k (erase x (fl k)) m) ≡ true
    → has i (fl m) ≡ true
put-erase_inv fl k x m i h = elim (Bool-cases (m == k)) [
  | inl e ↦ rw ((==_iff m k).0 e) (of_has-erase i x (fl k) (rw e at h))
  | inr ne ↦ rw ne at h
]

module _ {g : Geometry} {links : Links} {fl : FreeLists} (w : HasLists g links fl) where
  open g use {nsizes, base, sizes_at, lo}

  -- the nodes of the list of level `k`
  abbrev nodes : ℕ → List ℕ
  nodes k = head_at sizes_at k ∷ addresses base k (fl k)

  head-fresh :
      (k m : ℕ)
      → k < nsizes
      → m < nsizes
      → has (head_at sizes_at k) (addresses base m (fl m)) ≡ false
  head-fresh k m hk hm = elim (Bool-cases (has (head_at sizes_at k) (addresses base m (fl m)))) [
    | inl hit ↦
        let (j, mem, e) = has-addresses_inv base m (head_at sizes_at k) (fl m) hit in
        absurd (omega (arith, w.heads_low, (w.placed m j hm mem).high))
    | inr out ↦ out
  ]

  -- A placed block that overlaps no block of a list is no node of it.
  pub block-fresh :
      (k i m : ℕ)
      → m < nsizes
      → IsPlaced g k i
      → ((j : ℕ) → has j (fl m) ≡ true → Disjoint k i m j)
      → has (at base k i) (nodes m) ≡ false
  block-fresh k i m hm pl sep = elim (Bool-cases (has (at base k i) (addresses base m (fl m)))) [
    | inl hit ↦
        let (j, mem, e) = has-addresses_inv base m (at base k i) (fl m) hit in
        absurd (Disjoint-starts k i m j (sep j mem) (omega arith))
    | inr out ↦
        let ne : head_at sizes_at m ≢ at base k i = omega (arith, w.heads_low, pl.high) in
        ground arith
  ]

  -- The lists of two levels share no node.
  pub nodes-Apart : (k m : ℕ) → k < nsizes → m < nsizes → k ≢ m → Apart (nodes k) (nodes m)
  nodes-Apart k m hk hm ne b h = elim (Bool-cases (head_at sizes_at k == b)) [
    | inl e ↦
        let q : b ≡ head_at sizes_at k = ground arith in
        let heads : head_at sizes_at m ≢ head_at sizes_at k = omega arith in
        subst (λ z. has z (nodes m) ≡ false) (sym q) (ground (arith, head-fresh k m hk hm))
    | inr out ↦
        let (i, mem, e) = has-addresses_inv base k b (fl k) (ground arith) in
        subst (λ z. has z (nodes m) ≡ false) (sym e)
          (block-fresh k i m hm (w.placed k i hk mem) (λ j. w.disjoint k m i j hk hm ne mem))
  ]

  -- Putting a block that is placed and overlaps no free block on the list of its level.
  pub HasLists-push :
      (k x : ℕ)
      → k < nsizes
      → IsPlaced g k x
      → Separate g fl k x
      → HasLists g (lst_push links (head_at sizes_at k) (at base k x)) (put fl k (x ∷ fl k))
  HasLists-push k x hk pl sep = record {
    heads_low = w.heads_low;
    rings = λ m hm. elim (Bool-cases (m == k)) [
      | inl e ↦
          subst
            (λ l.
              IsRing (lst_push links (head_at sizes_at k) (at base k x)) (head_at sizes_at l)
                (addresses base l (put fl k (x ∷ fl k) l)))
            (sym ((==_iff m k).0 e)) (rw (eq_self k) pushed.0)
      | inr ne ↦ rw ne (
          IsRing-frame (head_at sizes_at k ∷ at base k x ∷ addresses base k (fl k)) (w.rings m hm)
            (apart m hm (ground arith)) pushed.1)
    ];
    placed = λ m i hm mem. elim (put-cons_inv fl k x m i mem) [
      | inl (q, e) ↦ rw (q, e) pl
      | inr old ↦ w.placed m i hm old
    ];
    disjoint = λ m l i j hm hl ne mem mem'. elim (put-cons_inv fl k x m i mem) [
      | inl (q, e) ↦ elim (put-cons_inv fl k x l j mem') [
        | inl (q', e') ↦ absurd (ne (q ∙ sym q'))
        | inr old ↦ rw (q, e) (sep l j hl old)
      ]
      | inr old ↦ elim (put-cons_inv fl k x l j mem') [
        | inl (q', e') ↦ rw (q', e') (Disjoint-sym k x m i (sep m i hm old))
        | inr old' ↦ w.disjoint m l i j hm hl ne old old'
      ]
    ];
  }
    where
      pushed :
          IsRing
            (lst_push links (head_at sizes_at k) (at base k x))
            (head_at sizes_at k)
            (at base k x ∷ addresses base k (fl k))
          × SameOutside
              (head_at sizes_at k ∷ at base k x ∷ addresses base k (fl k))
              links
              (lst_push links (head_at sizes_at k) (at base k x))
      pushed =
          lst_push_lem (at base k x) (addresses base k (fl k)) (w.rings k hk)
            (block-fresh k x k hk pl (λ j. sep k j hk))

      apart :
          (m : ℕ)
          → m < nsizes
          → m ≢ k
          → Apart (nodes m) (head_at sizes_at k ∷ at base k x ∷ addresses base k (fl k))
      apart m hm ne b i = ground (
        arith,
        nodes-Apart m k hm hk ne b,
        has_ne (at base k x) b (nodes m) (block-fresh k x m hm pl (λ j. sep m j hm)) i,
      )

  -- Taking a block off the list of its level: it then overlaps no free block.
  pub HasLists-remove :
      (k x : ℕ)
      → k < nsizes
      → has x (fl k) ≡ true
      → HasLists g (lst_remove links (at base k x)) (put fl k (erase x (fl k)))
        × IsPlaced g k x
        × Separate g (put fl k (erase x (fl k))) k x
  HasLists-remove k x hk mem = (
    record {
      heads_low = w.heads_low;
      rings = λ m hm. elim (Bool-cases (m == k)) [
        | inl e ↦
            subst
              (λ l.
                IsRing (lst_remove links (at base k x)) (head_at sizes_at l)
                  (addresses base l (put fl k (erase x (fl k)) l)))
              (sym ((==_iff m k).0 e))
              (rw (eq_self k) (
                subst (IsRing (lst_remove links (at base k x)) (head_at sizes_at k))
                  (erase-addresses base k x (fl k)) removed.0))
        | inr ne ↦
            rw ne (
              IsRing-frame (nodes k) (w.rings m hm) (nodes-Apart m k hm hk (ground arith))
                removed.1)
      ];
      placed = λ m i hm mem'. w.placed m i hm (put-erase_inv fl k x m i mem');
      disjoint = λ m l i j hm hl ne a b.
          w.disjoint m l i j hm hl ne (put-erase_inv fl k x m i a) (put-erase_inv fl k x l j b);
    },
    w.placed k x hk mem,
    λ m j hm mem'. elim (Bool-cases (m == k)) [
      | inl e ↦
          let q = (==_iff m k).0 e in
          let mem2 : has j (erase x (fl k)) ≡ true = rw e at mem' in
          let ne : x ≢ j = λ c. cc (has-erase_self x (fl k) distinct_indices, mem2, c) in
          subst (λ l. Disjoint k x l j) (sym q) (Disjoint-of_ne k x j ne)
      | inr ne ↦ w.disjoint k m x j hk hm (ground arith) mem (put-erase_inv fl k x m j mem')
    ],
  )
    where
      distinct_indices : distinct (fl k) ≡ true
      distinct_indices =
          distinct-addresses base k (fl k) (ground (arith, (w.rings k hk).distinct_nodes))

      removed :
          IsRing
            (lst_remove links (at base k x))
            (head_at sizes_at k)
            (erase (at base k x) (addresses base k (fl k)))
          × SameOutside (nodes k) links (lst_remove links (at base k x))
      removed =
          lst_remove_lem (at base k x) (addresses base k (fl k)) (w.rings k hk)
            (has-addresses base k x (fl k) ∙ mem)
