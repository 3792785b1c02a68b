-- ===== src/Bio/Search.antt =====
-- The searches of `bget` of kernel/bio.c along the ring of buffers, as searches of a list.
use oshard.Common.{
  ℕ, zero, suc, ◌+◌, ◌-◌, ◌≤◌, ◌<◌, ◌≡◌, refl, ap, ap₂, sym, subst, ◌∙◌, Bool, true, false, List,
  [], ◌∷◌, Option, none, some, ◌==◌, if◌then◌else◌, Bool-cases, ◌⊎◌, inl, inr, arith, length,
}
use oshard.LinkedList.Ring.{has, Chain, IsRing}
use oshard.Bio.{Buf, Bcache, nbuf, seek_next, seek_prev, holds_block, is_unused, choice, find_buf}

-- the first buffer of a list that passes a test, and the last
unfoldable pub first_of : (ℕ → Bool) → List ℕ → Option ℕ
first_of f [] = none
first_of f (x ∷ xs) = let rest = first_of f xs in if f x then some x else rest

abbrev pub or_else : Option ℕ → Option ℕ → Option ℕ
or_else none o = o
or_else (some b) o = some b

unfoldable pub last_of : (ℕ → Bool) → List ℕ → Option ℕ
last_of f [] = none
last_of f (x ∷ xs) = let rest = last_of f xs in or_else rest (if f x then some x else none)

seek_next-first_of :
    (rounds : ℕ) (c : Bcache) (f : Buf → Bool) (a : ℕ) (xs : List ℕ)
    → Chain c.links a xs c.head
    → has c.head xs ≡ false
    → length xs < rounds
    → seek_next rounds c f (c.links.next a) ≡ first_of (λ b. f (c.buf b)) xs
unfolding seek_next first_of
seek_next-first_of zero c f a xs ch h lt = absurd (omega arith)
seek_next-first_of (suc rounds) c f a [] (n, p) h lt = ground (arith, n)
seek_next-first_of (suc rounds) c f a (x ∷ xs) (n, p, ch) h lt =
    let other : (x == c.head) ≡ false = ground arith in
    let rest = seek_next-first_of rounds c f x xs ch (ground arith) (omega arith) in
    rw (n, other, rest)

or_else_assoc : (a b o : Option ℕ) → or_else (or_else a b) o ≡ or_else a (or_else b o)
or_else_assoc none b o = refl
or_else_assoc (some x) b o = refl

seek_prev_step :
    (c : Bcache) (f : Buf → Bool) (a x n : ℕ)
    → c.links.prev x ≡ a
    → (x == c.head) ≡ false
    → seek_prev (suc n) c f x ≡ or_else (if f (c.buf x) then some x else none) (seek_prev n c f a)
unfolding seek_prev
seek_prev_step c f a x n p other = elim (Bool-cases (f (c.buf x))) [
  | inl t ↦ rw (p, other, t)
  | inr e ↦ rw (p, other, e)
]

seek_prev-last_of :
    (c : Bcache) (f : Buf → Bool) (a : ℕ) (xs : List ℕ) (z n : ℕ)
    → Chain c.links a xs z
    → has c.head xs ≡ false
    → seek_prev (length xs + n) c f (c.links.prev z)
      ≡ or_else (last_of (λ b. f (c.buf b)) xs) (seek_prev n c f a)
unfolding seek_prev last_of
seek_prev-last_of c f a [] z n (e, p) h = let s : 0 + n ≡ n = omega arith in rw (p, s)
seek_prev-last_of c f a (x ∷ xs) z n (e, p, ch) h =
    let other : (x == c.head) ≡ false = ground arith in
    let s : suc (length xs) + n ≡ length xs + suc n = omega arith in
    let rest = seek_prev-last_of c f x xs z (suc n) ch (ground arith) in
    rw s (
      rest
      ∙ ap (or_else (last_of (λ b. f (c.buf b)) xs)) (seek_prev_step c f a x n p other)
      ∙ sym (or_else_assoc (last_of (λ b. f (c.buf b)) xs) _ (seek_prev n c f a)))

seek_prev_head : (n : ℕ) (c : Bcache) (f : Buf → Bool) → seek_prev n c f c.head ≡ none
unfolding seek_prev
seek_prev_head zero c f = refl
seek_prev_head (suc n) c f = let t : (c.head == c.head) ≡ true = ground arith in rw t

or_else-none : (o : Option ℕ) → or_else o none ≡ o
or_else-none none = refl
or_else-none (some b) = refl

pub find_buf_lem :
    (c : Bcache) (dev blockno : ℕ) (xs : List ℕ)
    → IsRing c.links c.head xs
    → length xs ≤ nbuf
    → find_buf c dev blockno
      ≡ choice
          (first_of (λ b. holds_block dev blockno (c.buf b)) xs)
          (last_of (λ b. is_unused (c.buf b)) xs)
unfolding find_buf
find_buf_lem c dev blockno xs r le =
    let outside : has c.head xs ≡ false = ground arith in
    let first =
      seek_next-first_of (nbuf + 1) c (holds_block dev blockno) c.head xs r.chain outside
        (omega arith) in
    let back =
      seek_prev-last_of c is_unused c.head xs c.head (nbuf + 1 - length xs) r.chain outside in
    let rounds : length xs + (nbuf + 1 - length xs) ≡ nbuf + 1 = omega arith in
    let last =
      subst
        (λ k.
          seek_prev k c is_unused (c.links.prev c.head)
          ≡ or_else (last_of (λ b. is_unused (c.buf b)) xs)
              (seek_prev (nbuf + 1 - length xs) c is_unused c.head))
        rounds back in
    ap₂ choice first
      (last ∙ ap (or_else _) (seek_prev_head (nbuf + 1 - length xs) c is_unused) ∙ or_else-none _)

-- what a step of either search comes to, for a test `t` of the buffer `x`
pick_some :
    (t : Bool) (x b : ℕ) (o : Option ℕ)
    → (if t then some x else o) ≡ some b
    → ((t ≡ true) × (x ≡ b)) ⊎ (o ≡ some b)
pick_some true x b o e = inl (refl, cc e)
pick_some false x b o e = inr e

pick_none :
    (t : Bool) (x : ℕ) (o : Option ℕ) → (if t then some x else o) ≡ none → (t ≡ false) × (o ≡ none)
pick_none true x o e = absurd (cc e)
pick_none false x o e = (refl, e)

or_else-some : (o p : Option ℕ) (b : ℕ) → or_else o p ≡ some b → (o ≡ some b) ⊎ (p ≡ some b)
or_else-some none p b e = inr e
or_else-some (some a) p b e = inl e

both_none : (o p : Option ℕ) → or_else o p ≡ none → (o ≡ none) × (p ≡ none)
both_none none p e = (refl, e)
both_none (some a) p e = absurd (cc e)

abbrev Passes : (ℕ → Bool) → List ℕ → ℕ → Type 0
Passes f xs b = (has b xs ≡ true) × (f b ≡ true)

here : (f : ℕ → Bool) (x b : ℕ) (xs : List ℕ) → (f x ≡ true) × (x ≡ b) → Passes f (x ∷ xs) b
here f x b xs (t, e) = (ground arith, subst (λ a. f a ≡ true) e t)

there : (f : ℕ → Bool) (x b : ℕ) (xs : List ℕ) → Passes f xs b → Passes f (x ∷ xs) b
there f x b xs (i, t) = (ground arith, t)

-- the elements of a longer list
has-cases : (x b : ℕ) (xs : List ℕ) → has b (x ∷ xs) ≡ true → (x ≡ b) ⊎ (has b xs ≡ true)
has-cases x b xs i = elim (Bool-cases (x == b)) [
  | inl t ↦ inl (ground arith)
  | inr t ↦ inr (ground arith)
]

fails :
    (f : ℕ → Bool) (x b : ℕ) (xs : List ℕ)
    → f x ≡ false
    → (has b xs ≡ true → f b ≡ false)
    → has b (x ∷ xs) ≡ true
    → f b ≡ false
fails f x b xs t rest i = elim (has-cases x b xs i) [
  | inl e ↦ subst (λ a. f a ≡ false) e t
  | inr j ↦ rest j
]

pub first_of-some :
    (f : ℕ → Bool) (xs : List ℕ) (b : ℕ) → first_of f xs ≡ some b → (has b xs ≡ true) × (f b ≡ true)
unfolding first_of
first_of-some f [] b e = absurd (cc e)
first_of-some f (x ∷ xs) b e = elim (pick_some (f x) x b (first_of f xs) e) [
  | inl hit ↦ here f x b xs hit
  | inr rest ↦ there f x b xs (first_of-some f xs b rest)
]

pub first_of-none :
    (f : ℕ → Bool) (xs : List ℕ) → first_of f xs ≡ none → (b : ℕ) → has b xs ≡ true → f b ≡ false
unfolding first_of
first_of-none f [] e b i = absurd (cc i)
first_of-none f (x ∷ xs) e b i =
    let (t, rest) = pick_none (f x) x (first_of f xs) e in
    fails f x b xs t (first_of-none f xs rest b) i

pub last_of-some :
    (f : ℕ → Bool) (xs : List ℕ) (b : ℕ) → last_of f xs ≡ some b → (has b xs ≡ true) × (f b ≡ true)
unfolding last_of
last_of-some f [] b e = absurd (cc e)
last_of-some f (x ∷ xs) b e = elim (or_else-some (last_of f xs) _ b e) [
  | inl rest ↦ there f x b xs (last_of-some f xs b rest)
  | inr own ↦ elim (pick_some (f x) x b none own) [
    | inl hit ↦ here f x b xs hit
    | inr none_left ↦ absurd (cc none_left)
  ]
]

pub last_of-none :
    (f : ℕ → Bool) (xs : List ℕ) → last_of f xs ≡ none → (b : ℕ) → has b xs ≡ true → f b ≡ false
unfolding last_of
last_of-none f [] e b i = absurd (cc i)
last_of-none f (x ∷ xs) e b i =
    let (rest, own) = both_none (last_of f xs) _ e in
    fails f x b xs (pick_none (f x) x none own).0 (last_of-none f xs rest b) i
