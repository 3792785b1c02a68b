-- ===== src/Buddy/Invariant/Steps.antt =====
-- What each elementary step of kernel/buddy.c does to the invariant: a block goes on its free list,
-- comes off it, is marked as split, or is made whole again.
use native.Mathlib.Nat.{two-pow-succ, one-le-pow}
use native.Mathlib.Decide.{dec_lt}
use oshard.Common.{
  ℕ, suc, ◌+◌, ◌-◌, ◌*◌, ◌/◌, ◌^◌, ◌≤◌, ◌<◌, ◌≡◌, true, false, not, ◌&&◌, ◌||◌, inl, inr, List, ◌∷◌,
  arith, ◌==◌, if◌then◌else◌, Bool-cases, subst, ◌∙◌,
}
use oshard.LinkedList.{Links, lst_push, lst_remove}
use oshard.LinkedList.Ring.{has, erase, distinct}
use oshard.Buddy.Heap.{Heap, free_list, set_links}
use oshard.Buddy.View.{
  alloc_bit, split_bit, at, Within, IsShaped, IsShaped-writes, alloc_bit-invert, split_bit-set,
  split_bit-clear, invert_other,
}
use oshard.Buddy.Lists.{
  FreeLists, Disjoint, Disjoint-sym, put, put-cons_inv, put-erase_inv, HasLists-push,
  HasLists-remove, distinct-addresses,
}
use oshard.Buddy.Whole.{
  IsWhole, IsWhole-cong, IsWhole-set, IsWhole-halves, IsWhole-clear, IsWhole-merge, pow-add, double,
  mul_mono, pow_pos,
}
use oshard.Buddy.Paired.{IsPaired, Toggled, Toggled-cons, Toggled-erase, IsPaired-toggle}
use oshard.Buddy.Invariant.{Invariant, IsHeld, Keeps, invert, mark_split, clear_split}

pair_below : (x d p : ℕ) → 0 < p → (x + 1) * p ≤ 2 * d * p → 2 * (x / 2) + 1 + 1 ≤ 2 * d
pair_below x d p pos h = elim (dec_lt (2 * d) (x + 1)) [
  | yes far ↦ let big = mul_mono (2 * d + 1) (x + 1) p (omega arith) in absurd (omega arith)
  | no near ↦ omega arith
]

-- A level below the top has its blocks in pairs.
pub Within-pair : (n k x : ℕ) → k + 1 < n → Within n k x → Within n k (2 * (x / 2) + 1)
Within-pair n k x lt h =
    let d = n - k - 2 in
    let e : 2 ^ (n - 1) ≡ 2 ^ (suc d) * 2 ^ k =
      subst (λ z. 2 ^ z ≡ 2 ^ (suc d) * 2 ^ k) (omega arith) (pow-add (suc d) k) in
    let e' : 2 ^ suc d ≡ 2 * 2 ^ d = two-pow-succ d ∙ omega arith in
    rw (e, e')
      (mul_mono (2 * (x / 2) + 1 + 1) (2 * 2 ^ d) (2 ^ k)
        (pair_below x (2 ^ d) (2 ^ k) (one-le-pow k 2 (omega arith)) (rw (← e', ← e) h)))

set_links-IsShaped : {s : Heap} {m : Links} → IsShaped s → IsShaped (set_links s m)
set_links-IsShaped w = record {
  some_size = w.some_size;
  all_sizes = w.all_sizes;
  alloc_room = w.alloc_room;
  split_room = w.split_room;
  alloc_bytes = w.alloc_bytes;
  split_bytes = w.split_bytes;
  in_space = w.in_space;
  in_int = w.in_int;
}

-- A held block is not free.
pub fresh :
    {lo : ℕ} {s : Heap} {fl : FreeLists} {k x : ℕ} → IsHeld lo s fl k x → has x (fl k) ≡ false
fresh {fl} {k} {x} h = elim (Bool-cases (has x (fl k))) [
  | inl mem ↦ let p = pow_pos k in absurd (let d = h.separate k x h.level mem in omega arith)
  | inr out ↦ out
]

-- What overlaps neither half of a block does not overlap the block.
pub both_halves :
    (k x m j : ℕ) → Disjoint k (2 * x) m j → Disjoint k (2 * x + 1) m j → Disjoint (suc k) x m j
both_halves k x m j (inr below) d' = inr (omega (arith, double x k))
both_halves k x m j (inl _) (inl above) = inl (omega (arith, double (x + 1) k))
both_halves k x m j (inl above) (inr below) = let q = pow_pos m in absurd (omega arith)

module _ {lo : ℕ} {s : Heap} {fl : FreeLists} (w : Invariant lo s fl) where
  -- Inverting the bit of a block's pair as the block comes or goes.
  invert-IsPaired :
      (k x : ℕ) (xs : List ℕ)
      → k < s.nsizes
      → Within s.nsizes k x
      → Toggled x (fl k) xs
      → IsPaired s.nsizes (alloc_bit (invert s k (x / 2))) (put fl k xs)
  invert-IsPaired k x xs hk inn tog = elim (dec_lt (k + 1) s.nsizes) [
    | yes lt ↦
        IsPaired-toggle s.nsizes k x (alloc_bit s) (alloc_bit (invert s k (x / 2))) fl xs
          (λ m j.
            (alloc_bit-invert w.shaped k hk (x / 2)
              (w.shaped.alloc_room k (x / 2) (omega arith) (Within-pair s.nsizes k x lt inn)) m
              j).0)
          tog w.paired
    | no top ↦ λ m j lt i.
        let ne : (m == k) ≡ false = ground arith in
        rw ne ((invert_other w.shaped k hk (x / 2) m j).1 ne ∙ w.paired m j lt i)
  ]

  -- A block that is held goes on the free list of its level, and its pair's bit is inverted.
  pub Invariant-push :
      (k x : ℕ)
      → IsHeld lo s fl k x
      → let s' =
          set_links (invert s k (x / 2)) (lst_push s.links (free_list s k) (at s.base k x)) in
        Invariant lo s' (put fl k (x ∷ fl k))
        × Keeps lo s fl s' (put fl k (x ∷ fl k)) (Disjoint k x)
  Invariant-push k x held = (
    record {
      shaped = set_links-IsShaped (IsShaped-writes w.shaped k held.level (x / 2)).0;
      lists = HasLists-push w.lists k x held.level held.placed held.separate;
      whole = λ m i hm mem. elim (put-cons_inv fl k x m i mem) [
        | inl (q, e) ↦ rw (q, e) (whole' k x held.whole)
        | inr old ↦ whole' m i (w.whole m i hm old)
      ];
      paired =
          invert-IsPaired k x (x ∷ fl k) held.level held.placed.within
            (Toggled-cons x (fl k) (fresh held));
    },
    λ m j h d. record {
      level = h.level;
      placed = h.placed;
      whole = whole' m j h.whole;
      separate = λ l i hl mem. elim (put-cons_inv fl k x l i mem) [
        | inl (q, e) ↦ rw (q, e) (Disjoint-sym k x m j d)
        | inr old ↦ h.separate l i hl old
      ];
    },
  )
    where
      whole' :
          (m i : ℕ)
          → IsWhole s.nsizes (split_bit s) m i
          → IsWhole s.nsizes (split_bit (invert s k (x / 2))) m i
      whole' m i =
          IsWhole-cong s.nsizes _ _ m i (λ l n. (invert_other w.shaped k held.level (x / 2) l n).0)

  -- The block of the top level has no pair: it goes on its list alone.
  pub Invariant-push_top :
      (k x : ℕ)
      → k + 1 ≡ s.nsizes
      → IsHeld lo s fl k x
      → let s' = set_links s (lst_push s.links (free_list s k) (at s.base k x)) in
        Invariant lo s' (put fl k (x ∷ fl k))
        × Keeps lo s fl s' (put fl k (x ∷ fl k)) (Disjoint k x)
  Invariant-push_top k x top held = (
    record {
      shaped = set_links-IsShaped w.shaped;
      lists = HasLists-push w.lists k x held.level held.placed held.separate;
      whole = λ m i hm mem. elim (put-cons_inv fl k x m i mem) [
        | inl (q, e) ↦ rw (q, e) held.whole
        | inr old ↦ w.whole m i hm old
      ];
      paired = λ m j lt i. let ne : (m == k) ≡ false = ground arith in rw ne (w.paired m j lt i);
    },
    λ m j h d. record {
      level = h.level;
      placed = h.placed;
      whole = h.whole;
      separate = λ l i hl mem. elim (put-cons_inv fl k x l i mem) [
        | inl (q, e) ↦ rw (q, e) (Disjoint-sym k x m j d)
        | inr old ↦ h.separate l i hl old
      ];
    },
  )

  -- A free block comes off its list, and its pair's bit is inverted: it is held, beside the blocks
  -- that were.
  pub Invariant-remove :
      (k x : ℕ)
      → k < s.nsizes
      → has x (fl k) ≡ true
      → let s' = set_links (invert s k (x / 2)) (lst_remove s.links (at s.base k x)) in
        let fl' = put fl k (erase x (fl k)) in
        Invariant lo s' fl'
        × IsHeld lo s' fl' k x
        × ((m j : ℕ) → IsHeld lo s fl m j → IsHeld lo s' fl' m j × Disjoint k x m j)
  Invariant-remove k x hk mem =
      let (lists, placed, separate) = HasLists-remove w.lists k x hk mem in
      (
        record {
          shaped = set_links-IsShaped (IsShaped-writes w.shaped k hk (x / 2)).0;
          lists = lists;
          whole = λ m i hm mem'. whole' m i (w.whole m i hm (put-erase_inv fl k x m i mem'));
          paired =
              invert-IsPaired k x (erase x (fl k)) hk placed.within
                (Toggled-erase x (fl k) no_repeat mem);
        },
        record {
          level = hk;
          placed = placed;
          whole = whole' k x (w.whole k x hk mem);
          separate = separate;
        },
        λ m j h. (
          record {
            level = h.level;
            placed = h.placed;
            whole = whole' m j h.whole;
            separate = λ l i hl mem'. h.separate l i hl (put-erase_inv fl k x l i mem');
          },
          Disjoint-sym m j k x (h.separate k x hk mem),
        ),
      )
    where
      no_repeat : distinct (fl k) ≡ true
      no_repeat =
          distinct-addresses s.base k (fl k) (ground (arith, (w.lists.rings k hk).distinct_nodes))

      whole' :
          (m i : ℕ)
          → IsWhole s.nsizes (split_bit s) m i
          → IsWhole s.nsizes (split_bit (invert s k (x / 2))) m i
      whole' m i = IsWhole-cong s.nsizes _ _ m i (λ l n. (invert_other w.shaped k hk (x / 2) l n).0)

  -- A held block is split in two held blocks.
  pub Invariant-split :
      (k x : ℕ)
      → IsHeld lo s fl (suc k) x
      → let s' = mark_split s (suc k) x in
        Invariant lo s' fl
        × IsHeld lo s' fl k (2 * x)
        × IsHeld lo s' fl k (2 * x + 1)
        × Keeps lo s fl s' fl (Disjoint (suc k) x)
  Invariant-split k x held = (
    record {
      shaped = (IsShaped-writes w.shaped (suc k) held.level x).1;
      lists = w.lists;
      whole = λ m i hm mem.
          IsWhole-set s.nsizes (suc k) x (split_bit s) (split_bit s') set m i
            (held.separate m i hm mem) (w.whole m i hm mem);
      paired = λ m j lt i. (bits m j).1 ∙ w.paired m j lt i;
    },
    half (2 * x) halves.0 (omega (arith, double x k)) (omega (arith, double (x + 1) k)),
    half (2 * x + 1) halves.1 (omega (arith, double x k)) (omega (arith, double (x + 1) k)),
    λ m j h d. record {
      level = h.level;
      placed = h.placed;
      whole = IsWhole-set s.nsizes (suc k) x (split_bit s) (split_bit s') set m j d h.whole;
      separate = h.separate;
    },
  )
    where
      s' : Heap
      s' = mark_split s (suc k) x

      bits :
          (m n : ℕ)
          → (split_bit s' m n
              ≡ (if m == suc k then (x == n) || split_bit s (suc k) n else split_bit s m n))
            × (alloc_bit s' m n ≡ alloc_bit s m n)
      bits m n =
          split_bit-set w.shaped (suc k) held.level x
            (w.shaped.split_room (suc k) x (omega arith) held.level held.placed.within) m n

      set :
          (m n : ℕ)
          → split_bit s' m n
            ≡ (if m == suc k then (x == n) || split_bit s (suc k) n else split_bit s m n)
      set m n = (bits m n).0

      halves :
          IsWhole s.nsizes (split_bit s') k (2 * x) × IsWhole s.nsizes (split_bit s') k (2 * x + 1)
      halves = IsWhole-halves s.nsizes k x (split_bit s) (split_bit s') set held.whole

      half :
          (i : ℕ)
          → IsWhole s.nsizes (split_bit s') k i
          → x * 2 ^ suc k ≤ i * 2 ^ k
          → (i + 1) * 2 ^ k ≤ (x + 1) * 2 ^ suc k
          → IsHeld lo s' fl k i
      half i wh low high = record {
        level = omega (arith, held.level);
        placed = record {
          within = omega (arith, held.placed.within);
          high = omega (arith, held.placed.high);
        };
        whole = wh;
        separate = λ m j hm mem. let d = held.separate m j hm mem in omega arith;
      }

  -- Two held buddies are made one held block.
  pub Invariant-merge :
      (k x : ℕ)
      → suc k < s.nsizes
      → IsHeld lo s fl k (2 * x)
      → IsHeld lo s fl k (2 * x + 1)
      → let s' = clear_split s (suc k) x in
        Invariant lo s' fl
        × IsHeld lo s' fl (suc k) x
        × Keeps lo s fl s' fl (λ m j. Disjoint k (2 * x) m j × Disjoint k (2 * x + 1) m j)
  Invariant-merge k x hk left right = (
    record {
      shaped = (IsShaped-writes w.shaped (suc k) hk x).2;
      lists = w.lists;
      whole = λ m i hm mem.
          IsWhole-clear s.nsizes k x (split_bit s) (split_bit s') clear m i
            (left.separate m i hm mem) (right.separate m i hm mem) (w.whole m i hm mem);
      paired = λ m j lt i. (bits m j).1 ∙ w.paired m j lt i;
    },
    record {
      level = hk;
      placed = record { within = within; high = omega (arith, left.placed.high, double x k) };
      whole = IsWhole-merge s.nsizes k x (split_bit s) (split_bit s') clear left.whole right.whole;
      separate =
          λ m j hm mem. both_halves k x m j (left.separate m j hm mem) (right.separate m j hm mem);
    },
    λ m j h (d, d'). record {
      level = h.level;
      placed = h.placed;
      whole = IsWhole-clear s.nsizes k x (split_bit s) (split_bit s') clear m j d d' h.whole;
      separate = h.separate;
    },
  )
    where
      s' : Heap
      s' = clear_split s (suc k) x

      within : Within s.nsizes (suc k) x
      within = omega (arith, right.placed.within, double (x + 1) k)

      bits :
          (m n : ℕ)
          → (split_bit s' m n
              ≡ (if m == suc k then not (x == n) && split_bit s (suc k) n else split_bit s m n))
            × (alloc_bit s' m n ≡ alloc_bit s m n)
      bits m n =
          split_bit-clear w.shaped (suc k) hk x
            (w.shaped.split_room (suc k) x (omega arith) hk within) m n

      clear :
          (m n : ℕ)
          → split_bit s' m n
            ≡ (if m == suc k then not (x == n) && split_bit s (suc k) n else split_bit s m n)
      clear m n = (bits m n).0
