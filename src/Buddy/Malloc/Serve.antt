-- ===== src/Buddy/Malloc/Serve.antt =====
-- What `bd_malloc` of kernel/buddy.c hands out.
use native.Mathlib.Nat.{mul-div_cancel}
use native.Mathlib.Numerals.{add-one}
use native.Mathlib.Decide.{dec_lt}
use oshard.Common.{
  ℕ, zero, suc, ◌+◌, ◌-◌, ◌*◌, ◌/◌, ◌%◌, ◌^◌, ◌≤◌, ◌<◌, ◌≡◌, refl, true, false, false≢true, inl,
  inr, List, [], ◌∷◌, Result, ok, arith, ltb, lt→ltb, Bool-cases, sym, subst, ◌∙◌,
}
use oshard.LinkedList.{lst_push, lst_remove, lst_empty}
use oshard.LinkedList.Ring.{IsRing, is_nil, lst_empty_lem, lst_pop-cons}
use oshard.Buddy.Blocks.{blk_size, blk_index}
use oshard.Buddy.Blocks.Index.{Fits, blk_index_lem, blk_index-suc, blk_size_pos}
use oshard.Buddy.Heap.{Heap, free_list, set_links}
use oshard.Buddy.View.{at, Within, IsShaped}
use oshard.Buddy.Lists.{FreeLists, Disjoint, put, addresses}
use oshard.Buddy.Whole.{double, pow_pos}
use oshard.Buddy.Invariant.{Invariant, IsHeld, Keeps, invert, mark_split}
use oshard.Buddy.Invariant.Steps.{Invariant-push, Invariant-remove, Invariant-split}
use oshard.Buddy.Malloc.{find_free, split_block, split_down, take_level}

-- A block's address fits the arithmetic of the allocator.
pub block-Fits :
    {s : Heap} → IsShaped s → (k i : ℕ) → Within s.nsizes k i → Fits s.base (i * blk_size k)
block-Fits w k i h =
    let p = pow_pos k in
    record { in_space = omega (arith, w.in_space); in_int = omega (arith, w.in_int) }

-- The index of a block's address is the block.
pub blk_index-at :
    {s : Heap}
    → IsShaped s
    → (k i : ℕ) → Within s.nsizes k i
    → blk_index s.base k (at s.base k i) ≡ i
blk_index-at {s} w k i h =
    blk_index_lem s.base k (i * blk_size k) (block-Fits w k i h) ∙ mul-div_cancel i (blk_size_pos k)

left_half : (k x m j : ℕ) → Disjoint (suc k) x m j → Disjoint k (2 * x) m j
left_half k x m j (inl h) = inl (omega (arith, double (x + 1) k))
left_half k x m j (inr h) = inr (omega (arith, double x k))

right_half : (k x m j : ℕ) → Disjoint (suc k) x m j → Disjoint k (2 * x + 1) m j
right_half k x m j (inl h) = inl (omega (arith, double (x + 1) k))
right_half k x m j (inr h) = inr (omega (arith, double x k))

-- One round of the splitting loop, in terms of blocks.
split_block_lem :
    {s : Heap}
    → IsShaped s
    → (k x : ℕ) → suc k < s.nsizes
    → Within s.nsizes (suc k) x
    → split_block s k (at s.base (suc k) x)
      ≡ set_links
          (invert (mark_split s (suc k) x) k ((2 * x + 1) / 2))
          (lst_push s.links (free_list s k) (at s.base k (2 * x + 1)))
unfolding split_block
split_block_lem {s} w k x hk inn =
    let f = block-Fits w (suc k) x inn in
    let i = blk_index-at w (suc k) x inn in
    let i2 : blk_index s.base k (at s.base (suc k) x) / 2 ≡ (2 * x + 1) / 2 =
      sym (blk_index-suc s.base k (x * blk_size (suc k)) f) ∙ i ∙ omega arith in
    let q : (at s.base (suc k) x + blk_size k) % 2 ^ 64 ≡ at s.base k (2 * x + 1) =
      omega (arith, double x k, double (x + 1) k, pow_pos k, w.in_space) in
    rw (add-one k, i, i2, q)

-- What a client holds after a block has been carved out of the held block `x` of level `k`.
pub record Served (lo : ℕ) (s s' : Heap) (fl : FreeLists) (k x fk : ℕ) : Type 0 where
  pub fl' : FreeLists
  pub block : ℕ
  pub start : block * 2 ^ fk ≡ x * 2 ^ k
  pub same_base : s'.base ≡ s.base
  pub invariant : Invariant lo s' fl'
  pub held : IsHeld lo s' fl' fk block
  pub keeps : Keeps lo s fl s' fl' (Disjoint k x)
  pub inner : (m j : ℕ) → Disjoint k x m j → Disjoint fk block m j

split_block-Served :
    {lo : ℕ} {s : Heap} {fl : FreeLists} (k x : ℕ)
    → Invariant lo s fl
    → IsHeld lo s fl (suc k) x
    → Served lo s (split_block s k (at s.base (suc k) x)) fl (suc k) x k
split_block-Served {lo} {s} {fl} k x w held =
    let (w1, left, right, keeps) = Invariant-split w k x held in
    let (w2, keeps2) = Invariant-push w1 k (2 * x + 1) right in
    subst (λ s'. Served lo s s' fl (suc k) x k)
      (sym (split_block_lem w.shaped k x held.level held.placed.within))
      (record {
        fl' = put fl k ((2 * x + 1) ∷ fl k);
        block = 2 * x;
        start = sym (double x k);
        same_base = refl;
        invariant = w2;
        held = keeps2 k (2 * x) left (inr (omega arith));
        keeps = λ m j h d. keeps2 m j (keeps m j h d) (right_half k x m j d);
        inner = λ m j d. left_half k x m j d;
      })

Served-refl :
    {lo : ℕ} {s : Heap} {fl : FreeLists} (k x : ℕ)
    → Invariant lo s fl
    → IsHeld lo s fl k x
    → Served lo s s fl k x k
Served-refl {fl} k x w held = record {
  fl' = fl;
  block = x;
  start = refl;
  same_base = refl;
  invariant = w;
  held = held;
  keeps = λ m j h d. h;
  inner = λ m j d. d;
}

Served-trans :
    {lo : ℕ} {s s1 s2 : Heap} {fl : FreeLists} {k x m fk : ℕ}
    → (a : Served lo s s1 fl k x m) → Served lo s1 s2 a.fl' m a.block fk
    → Served lo s s2 fl k x fk
Served-trans a b = record {
  fl' = b.fl';
  block = b.block;
  start = b.start ∙ a.start;
  same_base = b.same_base ∙ a.same_base;
  invariant = b.invariant;
  held = b.held;
  keeps = λ m j h d. b.keeps m j (a.keeps m j h d) (a.inner m j d);
  inner = λ m j d. b.inner m j (a.inner m j d);
}

-- The loop from level `k`, `d` levels above `fk`.
split_down-Served :
    {lo : ℕ} (d : ℕ) {s : Heap} {fl : FreeLists} (fk k x p : ℕ)
    → k ≡ fk + d
    → p ≡ at s.base k x
    → Invariant lo s fl
    → IsHeld lo s fl k x
    → Served lo s (split_down d s fk p) fl k x fk
unfolding split_down
split_down-Served {lo} zero {s} {fl} fk k x p e a w held =
    let q : k ≡ fk = omega arith in subst (Served lo s s fl k x) q (Served-refl k x w held)
split_down-Served {lo} (suc d) {s} {fl} fk k x p e a w held =
    let q : k ≡ suc (fk + d) = omega arith in
    let one : Served lo s (split_block s (fk + d) p) fl k x (fk + d) =
      rw (a, q) (split_block-Served (fk + d) x w (rw q at held)) in
    Served-trans one (
      split_down-Served d fk (fk + d) one.block p refl
        (a ∙ same_address one.block one.same_base one.start) one.invariant one.held)
  where
    same_address :
        {b b' : ℕ} (y : ℕ) → b' ≡ b → y * 2 ^ (fk + d) ≡ x * 2 ^ k → at b k x ≡ at b' (fk + d) y
    same_address y eb ey = omega arith

-- the first level from `fk` on with a free block, or `nsizes`
record IsFirstFree (nsizes : ℕ) (fl : FreeLists) (fk k : ℕ) : Type 0 where
  above : fk ≤ k
  empty_below : (j : ℕ) → fk ≤ j → j < k → is_nil (fl j) ≡ true
  stops : k < nsizes → is_nil (fl k) ≡ false

is_nil-addresses : (base k : ℕ) (xs : List ℕ) → is_nil (addresses base k xs) ≡ is_nil xs
is_nil-addresses base k [] = refl
is_nil-addresses base k (x ∷ xs) = refl

find_free-IsFirstFree :
    {lo : ℕ} {s : Heap} {fl : FreeLists}
    → Invariant lo s fl
    → (rounds fk k : ℕ) → fk ≤ k
    → rounds ≡ s.nsizes - k
    → ((j : ℕ) → fk ≤ j → j < k → is_nil (fl j) ≡ true)
    → IsFirstFree s.nsizes fl fk (find_free rounds s k)
unfolding find_free
find_free-IsFirstFree w zero fk k le top below = record {
  above = le;
  empty_below = below;
  stops = λ lt. absurd (omega arith);
}
find_free-IsFirstFree {s} {fl} w (suc rounds) fk k le top below =
    let e : lst_empty s.links (free_list s k) ≡ is_nil (fl k) =
      lst_empty_lem (addresses s.base k (fl k)) (w.lists.rings k (omega arith))
      ∙ is_nil-addresses s.base k (fl k) in
    elim (Bool-cases (is_nil (fl k))) [
      | inl none_free ↦
          rw (e, none_free)
            (find_free-IsFirstFree w rounds fk (k + 1) (omega arith) (omega arith)
              (grown none_free))
      | inr some_free ↦
          rw (e, some_free) (record { above = le; empty_below = below; stops = λ _. some_free })
    ]
  where
    grown : is_nil (fl k) ≡ true → (j : ℕ) → fk ≤ j → j < k + 1 → is_nil (fl j) ≡ true
    grown here j lo hi = elim (dec_lt j k) [
      | yes old ↦ below j lo old
      | no new ↦ let q : j ≡ k = omega arith in rw q here
    ]

-- What a successful call leaves: `p` is the address of a block of level `fk` that is now held and
-- overlaps no block that was held before, and all of those still are.
pub record Allocated (lo : ℕ) (s : Heap) (fl : FreeLists) (fk p : ℕ) (s' : Heap) : Type 0 where
  pub fl' : FreeLists
  pub block : ℕ
  pub address : p ≡ at s.base fk block
  pub same_base : s'.base ≡ s.base
  pub invariant : Invariant lo s' fl'
  pub held : IsHeld lo s' fl' fk block
  pub others : (m j : ℕ) → IsHeld lo s fl m j → IsHeld lo s' fl' m j × Disjoint fk block m j

-- Popping block `x` of level `k` and splitting it down to level `fk`.
serve :
    {lo : ℕ} {s : Heap} {fl : FreeLists}
    → Invariant lo s fl
    → (fk k x : ℕ) (xs : List ℕ) → fk ≤ k
    → k < s.nsizes
    → fl k ≡ x ∷ xs
    → let s1 = set_links (invert s k (x / 2)) (lst_remove s.links (at s.base k x)) in
      Allocated lo s fl fk (at s.base k x) (split_down (k - fk) s1 fk (at s.base k x))
serve {lo} {s} {fl} w fk k x xs le lt e =
    let (w1, held, others) = Invariant-remove w k x lt (rw e (ground arith)) in
    let served = split_down-Served (k - fk) fk k x (at s.base k x) (omega arith) refl w1 held in
    record {
      fl' = served.fl';
      block = served.block;
      address = omega (arith, served.start);
      same_base = served.same_base;
      invariant = served.invariant;
      held = served.held;
      others = λ m j h. let (h1, d) = others m j h in (served.keeps m j h1 d, served.inner m j d);
    }

ring :
    {lo : ℕ} {s : Heap} {fl : FreeLists} (w : Invariant lo s fl) (k : ℕ) {x : ℕ} {xs : List ℕ}
    → k < s.nsizes
    → fl k ≡ x ∷ xs
    → IsRing s.links (free_list s k) (at s.base k x ∷ addresses s.base k xs)
ring {s} w k lt e =
    subst (λ l. IsRing s.links (free_list s k) (addresses s.base k l)) e (w.lists.rings k lt)

within :
    {lo : ℕ} {s : Heap} {fl : FreeLists} (w : Invariant lo s fl) (k x : ℕ) {xs : List ℕ}
    → k < s.nsizes
    → fl k ≡ x ∷ xs
    → Within s.nsizes k x
within w k x lt e = (w.lists.placed k x lt (rw e (ground arith))).within

take_level-found :
    {lo : ℕ} {s : Heap} {fl : FreeLists}
    → Invariant lo s fl
    → (fk k : ℕ) (x : ℕ) (xs : List ℕ) → find_free (s.nsizes - fk) s fk ≡ k
    → k < s.nsizes
    → fl k ≡ x ∷ xs
    → take_level s fk
      ≡ ok (
        at s.base k x,
        split_down
            (k - fk)
            (set_links (invert s k (x / 2)) (lst_remove s.links (at s.base k x)))
            fk
            (at s.base k x),
      )
unfolding take_level
take_level-found {s} w fk k x xs ek lt e = rw (
  ek,
  lt→ltb k s.nsizes lt,
  (lst_pop-cons (ring w k lt e)).0,
  blk_index-at w.shaped k x (within w k x lt e),
)

-- `bd_malloc` for a level: when no level from `fk` on has a free block it returns 0 and changes
-- nothing; else it hands out a block of level `fk`.
pub data Outcome (lo : ℕ) (s : Heap) (fl : FreeLists) (fk : ℕ) : Result (ℕ × Heap) → Type 0 where
  exhausted :
      ((j : ℕ) → fk ≤ j → j < s.nsizes → is_nil (fl j) ≡ true) → Outcome lo s fl fk (ok (0, s))
  allocated : {p : ℕ} {s' : Heap} → Allocated lo s fl fk p s' → Outcome lo s fl fk (ok (p, s'))

take_level-exhausted :
    (s : Heap) (fk : ℕ)
    → ¬ (find_free (s.nsizes - fk) s fk < s.nsizes)
    → take_level s fk ≡ ok (0, s)
unfolding take_level
take_level-exhausted s fk out =
    let e : ltb (find_free (s.nsizes - fk) s fk) s.nsizes ≡ false = ground arith in rw e

take_level-Outcome_at :
    {lo : ℕ} {s : Heap} {fl : FreeLists} (fk : ℕ)
    → Invariant lo s fl
    → IsFirstFree s.nsizes fl fk (find_free (s.nsizes - fk) s fk)
    → (l : List ℕ) → fl (find_free (s.nsizes - fk) s fk) ≡ l
    → find_free (s.nsizes - fk) s fk < s.nsizes
    → Outcome lo s fl fk (take_level s fk)
take_level-Outcome_at fk w first [] e lt =
    let no_block = first.stops lt in absurd (false≢true (sym no_block ∙ rw e))
take_level-Outcome_at {lo} {s} {fl} fk w first (x ∷ xs) e lt =
    let k = find_free (s.nsizes - fk) s fk in
    subst (Outcome lo s fl fk) (sym (take_level-found w fk k x xs refl lt e))
      (allocated (serve w fk k x xs first.above lt e))

-- From the invariant the search and the splitting never panic, and end in one of the two outcomes.
pub take_level-Outcome :
    {lo : ℕ} {s : Heap} {fl : FreeLists} (fk : ℕ)
    → Invariant lo s fl
    → Outcome lo s fl fk (take_level s fk)
take_level-Outcome {lo} {s} {fl} fk w =
    let k = find_free (s.nsizes - fk) s fk in
    let first =
      find_free-IsFirstFree w (s.nsizes - fk) fk fk (omega arith) refl
        (λ j lo hi. absurd (omega arith)) in
    elim (dec_lt k s.nsizes) [
      | yes lt ↦ take_level-Outcome_at fk w first (fl k) refl lt
      | no out ↦
          subst (Outcome lo s fl fk) (sym (take_level-exhausted s fk out))
            (exhausted (λ j lo hi. first.empty_below j lo (omega arith)))
    ]
