-- ===== src/Buddy/Free/Merge.antt =====
-- The merging loop of `bd_free` of kernel/buddy.c.
use native.Mathlib.Numerals.{add-one}
use oshard.Common.{
  ℕ, zero, suc, ◌+◌, ◌*◌, ◌/◌, ◌%◌, ◌^◌, ◌<◌, ◌≡◌, refl, true, false, not, ◌⊎◌, inl, inr, ◌∷◌,
  arith, sym, subst, ◌∙◌, if◌then◌else◌, ap, ◌==◌, Bool-cases,
}
use oshard.LinkedList.{lst_push, lst_remove}
use oshard.LinkedList.Ring.{has, erase}
use oshard.Buddy.Blocks.{buddy_of}
use oshard.Buddy.Blocks.Index.{addr_lem, buddy_of_lem}
use oshard.Buddy.Heap.{Heap, max_size, free_list, set_links}
use oshard.Buddy.View.{at, Within, alloc_bit, alloc_bit-invert}
use oshard.Buddy.Lists.{FreeLists, Disjoint, put}
use oshard.Buddy.Whole.{double}
use oshard.Buddy.Invariant.{Invariant, IsHeld, Keeps, invert, clear_split}
use oshard.Buddy.Invariant.Steps.{
  Invariant-push, Invariant-push_top, Invariant-remove, Invariant-merge, both_halves, fresh,
  Within-pair,
}
use oshard.Buddy.Malloc.Serve.{block-Fits, blk_index-at}
use oshard.Buddy.Free.{merge}
use oshard.Buddy.Free.Leaves.{
  InBlock, IsFreeLeaf, halves, in_left, in_right, pushed_lem, pushed_keeps, pushed_no_more,
  removed_keeps, removed_no_more,
}

-- What giving back the held block `i` of level `k` leaves: the free lists cover the leaves that they
-- covered and those of the block, and no other, the block is in a free one that has no free buddy or
-- is of the top level, and what else is held stays so.
pub record Freed (lo : ℕ) (s : Heap) (fl : FreeLists) (k i : ℕ) (s' : Heap) : Type 0 where
  pub fl' : FreeLists
  pub invariant : Invariant lo s' fl'
  pub same_sizes : s'.nsizes ≡ s.nsizes
  pub freed : (x : ℕ) → InBlock k i x → IsFreeLeaf s.nsizes fl' x
  pub still_free : (x : ℕ) → IsFreeLeaf s.nsizes fl x → IsFreeLeaf s.nsizes fl' x
  pub no_more : (x : ℕ) → IsFreeLeaf s.nsizes fl' x → InBlock k i x ⊎ IsFreeLeaf s.nsizes fl x
  pub merged :
      (m j : ℕ) × (m < s.nsizes)
      × (has j (fl' m) ≡ true)
      × ((x : ℕ) → InBlock k i x → InBlock m j x)
      × ((suc m ≡ s.nsizes) ⊎ (has (buddy_of j) (fl' m) ≡ false))
  pub keeps : Keeps lo s fl s' fl' (Disjoint k i)

-- A block and its buddy are the halves of the block above.
pub pair_cases :
    (i : ℕ)
    → ((i ≡ 2 * (i / 2)) × (buddy_of i ≡ 2 * (i / 2) + 1))
      ⊎ ((i ≡ 2 * (i / 2) + 1) × (buddy_of i ≡ 2 * (i / 2)))
unfolding buddy_of
pair_cases i = elim (Bool-cases (i % 2 == 0)) [
  | inl even ↦ inl (ground arith, ground arith)
  | inr odd ↦ inr (ground arith, ground arith)
]

buddy_ne : (i : ℕ) → (i == buddy_of i) ≡ false
buddy_ne i = elim (pair_cases i) [ inl (e, b) ↦ ground arith | inr (e, b) ↦ ground arith ]

-- the state after the buddy is taken off its list and the block above is no longer split
abbrev merged : Heap → ℕ → ℕ → Heap
merged s k i =
    clear_split (set_links (invert s k (i / 2)) (lst_remove s.links (at s.base k (buddy_of i))))
      (suc k) (i / 2)

module _ {lo : ℕ} {s : Heap} {fl : FreeLists} (w : Invariant lo s fl) (k i : ℕ)
    (held : IsHeld lo s fl k i) where
  -- Under the invariant, for a held block below the top level, the alloc bit of its pair after
  -- bd_free has inverted it is clear exactly when the buddy is on the free list of the level.
  pub bit-buddy :
      suc k < s.nsizes → alloc_bit (invert s k (i / 2)) k (i / 2) ≡ not (has (buddy_of i) (fl k))
  bit-buddy lt =
      let pair = Within-pair s.nsizes k i (omega arith) held.placed.within in
      let flip =
        (alloc_bit-invert w.shaped k held.level (i / 2)
          (w.shaped.alloc_room k (i / 2) (omega arith) pair) k (i / 2)).0 in
      let old = w.paired k (i / 2) (omega arith) pair in
      elim (pair_cases i) [
        | inl (e, b) ↦
            let out : has (2 * (i / 2)) (fl k) ≡ false =
              subst (λ z. has z (fl k) ≡ false) e (fresh held) in
            ground (arith, flip, old, out, b)
        | inr (e, b) ↦
            let out : has (2 * (i / 2) + 1) (fl k) ≡ false =
              subst (λ z. has z (fl k) ≡ false) e (fresh held) in
            ground (arith, flip, old, out, b)
      ]

  -- the buddy off its list
  abbrev unlinked : ℕ → Heap
  unlinked x = set_links (invert s k x) (lst_remove s.links (at s.base k (buddy_of i)))

  abbrev fl1 : FreeLists
  fl1 = put fl k (erase (buddy_of i) (fl k))

  unlink :
      has (buddy_of i) (fl k) ≡ true
      → Invariant lo (unlinked (i / 2)) fl1
        × IsHeld lo (unlinked (i / 2)) fl1 k (buddy_of i)
        × ((m j : ℕ)
            → IsHeld lo s fl m j
            → IsHeld lo (unlinked (i / 2)) fl1 m j × Disjoint k (buddy_of i) m j)
  unlink mem =
      subst
        (λ x.
          Invariant lo (unlinked x) fl1
          × IsHeld lo (unlinked x) fl1 k (buddy_of i)
          × ((m j : ℕ)
              → IsHeld lo s fl m j
              → IsHeld lo (unlinked x) fl1 m j × Disjoint k (buddy_of i) m j))
        (buddy_of_lem i).1 (Invariant-remove w k (buddy_of i) held.level mem)

  -- One merging round.
  merge_round :
      suc k < s.nsizes
      → has (buddy_of i) (fl k) ≡ true
      → Invariant lo (merged s k i) fl1
        × IsHeld lo (merged s k i) fl1 (suc k) (i / 2)
        × ((m j : ℕ)
            → IsHeld lo s fl m j
            → Disjoint k i m j
            → IsHeld lo (merged s k i) fl1 m j × Disjoint (suc k) (i / 2) m j)
  merge_round lt mem =
      let (w1, buddy, others) = unlink mem in
      let (self, _) = others k i held in
      elim (pair_cases i) [
        | inl (e, b) ↦
            let (w2, whole, keeps) =
              Invariant-merge w1 k (i / 2) lt (subst (IsHeld lo (unlinked (i / 2)) fl1 k) e self)
                (subst (IsHeld lo (unlinked (i / 2)) fl1 k) b buddy) in
            (
              w2,
              whole,
              λ m j h d.
                  let (h1, d1) = others m j h in
                  let left = subst (λ z. Disjoint k z m j) e d in
                  let right = subst (λ z. Disjoint k z m j) b d1 in
                  (keeps m j h1 (left, right), both_halves k (i / 2) m j left right),
            )
        | inr (e, b) ↦
            let (w2, whole, keeps) =
              Invariant-merge w1 k (i / 2) lt (subst (IsHeld lo (unlinked (i / 2)) fl1 k) b buddy)
                (subst (IsHeld lo (unlinked (i / 2)) fl1 k) e self) in
            (
              w2,
              whole,
              λ m j h d.
                  let (h1, d1) = others m j h in
                  let left = subst (λ z. Disjoint k z m j) b d1 in
                  let right = subst (λ z. Disjoint k z m j) e d in
                  (keeps m j h1 (left, right), both_halves k (i / 2) m j left right),
            )
      ]

  -- the code's address of the merged block
  upper_address :
      (if buddy_of i % 2 == 0 then at s.base k (buddy_of i) else at s.base k i)
      ≡ at s.base (suc k) (i / 2)
  upper_address = elim (pair_cases i) [
    | inl (e, b) ↦
        let odd : (buddy_of i % 2 == 0) ≡ false = ground arith in
        rw odd (omega (arith, double (i / 2) k, ap (λ z. z * 2 ^ k) e))
    | inr (e, b) ↦
        let even : (buddy_of i % 2 == 0) ≡ true = ground arith in
        rw even (omega (arith, double (i / 2) k, ap (λ z. z * 2 ^ k) b))
  ]

  merge_unfold :
      suc k < s.nsizes
      → (rounds : ℕ)
      → merge (suc rounds) s k (at s.base k i) ≡ (
          if alloc_bit (invert s k (i / 2)) k (i / 2)
          then set_links (invert s k (i / 2)) (lst_push s.links (free_list s k) (at s.base k i))
          else merge rounds (merged s k i) (suc k) (at s.base (suc k) (i / 2)))
  unfolding merge
  merge_unfold lt rounds =
      let pair = Within-pair s.nsizes k i (omega arith) held.placed.within in
      let buddy_in : Within s.nsizes k (buddy_of i) = elim (pair_cases i) [
        | inl (e, b) ↦ rw b pair
        | inr (e, b) ↦ rw b (omega arith)
      ] in
      let upper_in : Within s.nsizes (suc k) (i / 2) = omega (arith, double (i / 2 + 1) k) in
      rw (
        blk_index-at w.shaped k i held.placed.within,
        addr_lem s.base k (buddy_of i) (block-Fits w.shaped k (buddy_of i) buddy_in),
        (buddy_of_lem i).1,
        upper_address,
        add-one k,
        blk_index-at w.shaped (suc k) (i / 2) upper_in,
      )

module _ {lo : ℕ} {s : Heap} {fl : FreeLists} (w : Invariant lo s fl) (k i : ℕ)
    (held : IsHeld lo s fl k i) (lt : suc k < s.nsizes) (rounds : ℕ) where
  merge-go :
      has (buddy_of i) (fl k) ≡ true
      → merge (suc rounds) s k (at s.base k i)
        ≡ merge rounds (merged s k i) (suc k) (at s.base (suc k) (i / 2))
  merge-go mem =
      let bit : alloc_bit (invert s k (i / 2)) k (i / 2) ≡ false =
        bit-buddy w k i held lt ∙ rw mem in
      merge_unfold w k i held lt rounds ∙ rw bit

  merge-stop :
      has (buddy_of i) (fl k) ≡ false
      → merge (suc rounds) s k (at s.base k i)
        ≡ set_links (invert s k (i / 2)) (lst_push s.links (free_list s k) (at s.base k i))
  merge-stop out =
      let bit : alloc_bit (invert s k (i / 2)) k (i / 2) ≡ true =
        bit-buddy w k i held lt ∙ rw out in
      merge_unfold w k i held lt rounds ∙ rw bit

merge-zero :
    (s : Heap) (k i p : ℕ)
    → p ≡ at s.base k i
    → merge zero s k p ≡ set_links s (lst_push s.links (free_list s k) (at s.base k i))
unfolding merge
merge-zero s k i p a = rw a

-- a block that is put on the list of its level, where it cannot be merged
stopped-Freed :
    {lo : ℕ} {s : Heap} {fl : FreeLists} (k i : ℕ) (s' : Heap)
    → k < s.nsizes
    → (suc k ≡ s.nsizes) ⊎ (has (buddy_of i) (fl k) ≡ false)
    → s'.nsizes ≡ s.nsizes
    → Invariant lo s' (put fl k (i ∷ fl k))
    → Keeps lo s fl s' (put fl k (i ∷ fl k)) (Disjoint k i)
    → Freed lo s fl k i s'
stopped-Freed {lo} {s} {fl} k i s' lt alone n w keeps = record {
  fl' = put fl k (i ∷ fl k);
  invariant = w;
  same_sizes = n;
  freed = λ x inn. (k, i, lt, pushed_lem s.nsizes fl k i lt, inn);
  still_free = pushed_keeps s.nsizes fl k i lt;
  no_more = pushed_no_more s.nsizes fl k i lt;
  merged = (
    k,
    i,
    lt,
    pushed_lem s.nsizes fl k i lt,
    λ x inn. inn,
    elim alone [
      | inl top ↦ inl top
      | inr out ↦ (let ne = buddy_ne i in inr (ground (arith, out, ne)))
    ],
  );
  keeps = keeps;
}

-- the block and its buddy, as one block of the next level
either_half : (k i x : ℕ) → InBlock (suc k) (i / 2) x → InBlock k i x ⊎ InBlock k (buddy_of i) x
either_half k i x inn = elim (pair_cases i) [
  | inl (e, b) ↦ elim (halves k (i / 2) x inn) [
    | inl l ↦ inl (subst (λ z. InBlock k z x) (sym e) l)
    | inr r ↦ inr (subst (λ z. InBlock k z x) (sym b) r)
  ]
  | inr (e, b) ↦ elim (halves k (i / 2) x inn) [
    | inl l ↦ inr (subst (λ z. InBlock k z x) (sym b) l)
    | inr r ↦ inl (subst (λ z. InBlock k z x) (sym e) r)
  ]
]

in_whole : (k i x : ℕ) → InBlock k i x ⊎ InBlock k (buddy_of i) x → InBlock (suc k) (i / 2) x
in_whole k i x inn = elim (pair_cases i) [
  | inl (e, b) ↦ elim inn [
    | inl l ↦ in_left k (i / 2) x (subst (λ z. InBlock k z x) e l)
    | inr r ↦ in_right k (i / 2) x (subst (λ z. InBlock k z x) b r)
  ]
  | inr (e, b) ↦ elim inn [
    | inl r ↦ in_right k (i / 2) x (subst (λ z. InBlock k z x) e r)
    | inr l ↦ in_left k (i / 2) x (subst (λ z. InBlock k z x) b l)
  ]
]

-- a block merged with its buddy, from what becomes of the two
merged-Freed :
    {lo : ℕ} {s : Heap} {fl : FreeLists} (k i : ℕ) (s' : Heap)
    → k < s.nsizes
    → has (buddy_of i) (fl k) ≡ true
    → Freed lo (merged s k i) (put fl k (erase (buddy_of i) (fl k))) (suc k) (i / 2) s'
    → ((m j : ℕ)
        → IsHeld lo s fl m j
        → Disjoint k i m j
        → IsHeld lo (merged s k i) (put fl k (erase (buddy_of i) (fl k))) m j
          × Disjoint (suc k) (i / 2) m j)
    → Freed lo s fl k i s'
merged-Freed {lo} {s} {fl} k i s' lt mem rest keeps =
    let (m, j, top, in_list, holds, alone) = rest.merged in
    record {
      fl' = rest.fl';
      invariant = rest.invariant;
      same_sizes = rest.same_sizes;
      freed = λ x inn. rest.freed x (in_whole k i x (inl inn));
      still_free = λ x f. elim (removed_keeps s.nsizes fl k (buddy_of i) x f) [
        | inl inn ↦ rest.freed x (in_whole k i x (inr inn))
        | inr f' ↦ rest.still_free x f'
      ];
      no_more = λ x f. elim (rest.no_more x f) [
        | inl inn ↦ elim (either_half k i x inn) [
          | inl own ↦ inl own
          | inr buddy ↦ inr (k, buddy_of i, lt, mem, buddy)
        ]
        | inr f' ↦ inr (removed_no_more s.nsizes fl k (buddy_of i) x f')
      ];
      merged = (m, j, top, in_list, λ x inn. holds x (in_whole k i x (inl inn)), alone);
      keeps = λ m j h d. let (h1, d1) = keeps m j h d in rest.keeps m j h1 d1;
    }

-- The loop at level `k` gives the block back.
pub merge-Freed :
    {lo : ℕ} (rounds : ℕ) {s : Heap} {fl : FreeLists} (k i p : ℕ)
    → k + rounds ≡ max_size s
    → p ≡ at s.base k i
    → Invariant lo s fl
    → IsHeld lo s fl k i
    → Freed lo s fl k i (merge rounds s k p)
merge-Freed {lo} zero {s} {fl} k i p e a w held =
    let (w', keeps) = Invariant-push_top w k i (omega (arith, w.shaped.some_size)) held in
    let some_size = w.shaped.some_size in
    subst (Freed lo s fl k i) (sym (merge-zero s k i p a))
      (stopped-Freed k i _ held.level (inl (omega arith)) refl w' keeps)
merge-Freed {lo} (suc rounds) {s} {fl} k i p e a w held =
    let lt : suc k < s.nsizes = omega (arith, w.shaped.some_size) in
    elim (Bool-cases (has (buddy_of i) (fl k))) [
      | inl mem ↦
          let (w1, whole, keeps) = merge_round w k i held lt mem in
          let rest =
            merge-Freed rounds (suc k) (i / 2) (at s.base (suc k) (i / 2)) (omega arith) refl w1
              whole in
          subst (Freed lo s fl k i) (sym (rw a (merge-go w k i held lt rounds mem)))
            (merged-Freed k i _ held.level mem rest keeps)
      | inr out ↦
          let (w', keeps) = Invariant-push w k i held in
          subst (Freed lo s fl k i) (sym (rw a (merge-stop w k i held lt rounds out)))
            (stopped-Freed k i _ held.level (inr out) refl w' keeps)
    ]
