-- ===== src/LinkedList/Ring.antt =====
-- A list head and the sequence of elements that it stands for, and what each operation of
-- kernel/list.c does to that sequence and to the other lists in memory.
use oshard.Common.{
  ℕ, ◌≡◌, ◌≢◌, refl, Bool, true, false, ◌&&◌, ◌||◌, not, List, [], ◌∷◌, arith, ok, panic, ◌==◌,
  if◌then◌else◌, Bool-cases, inl, inr, subst,
}
use oshard.LinkedList.{Links, lst_init, lst_empty, lst_remove, lst_pop, lst_push}

-- `a` is one of `xs`
abbrev pub has : ℕ → List ℕ → Bool
has a [] = false
has a (x ∷ xs) = (x == a) || has a xs

-- no address occurs twice
abbrev pub distinct : List ℕ → Bool
distinct [] = true
distinct (x ∷ xs) = not (has x xs) && distinct xs

-- From `a` through `xs` to `z`: each `next` leads on and each `prev` leads back.
abbrev pub Chain : Links → ℕ → List ℕ → ℕ → Type 0
Chain m a [] z = (m.next a ≡ z) × (m.prev z ≡ a)
Chain m a (x ∷ xs) z = (m.next a ≡ x) × (m.prev x ≡ a) × Chain m x xs z

pub has_ne : (a b : ℕ) (xs : List ℕ) → has a xs ≡ false → has b xs ≡ true → a ≢ b
has_ne a b [] f t e = cc
has_ne a b (x ∷ xs) f t e = ground (arith, has_ne a b xs)

-- The circular list with head `h` stands for `xs`.
pub record IsRing (m : Links) (h : ℕ) (xs : List ℕ) : Type 0 where
  pub chain : Chain m h xs h
  pub distinct_nodes : distinct (h ∷ xs) ≡ true

-- Memory that agrees on the nodes of a chain holds that chain.
pub Chain-frame :
    (m m' : Links) (a : ℕ) (xs : List ℕ) (z : ℕ)
    → ((b : ℕ) → has b (a ∷ xs) ≡ true → m'.next b ≡ m.next b)
    → ((b : ℕ) → has b (z ∷ xs) ≡ true → m'.prev b ≡ m.prev b)
    → Chain m a xs z
    → Chain m' a xs z
Chain-frame m m' a [] z n p (e, f) = (ground (arith, n a), ground (arith, p z))
Chain-frame m m' a (x ∷ xs) z n p (e, f, c) = (
  ground (arith, n a),
  ground (arith, p x),
  Chain-frame m m' x xs z (λ b h. n b (ground arith)) (λ b h. p b (ground arith)) c,
)

-- `xs` without `e`
abbrev pub erase : ℕ → List ℕ → List ℕ
erase e [] = []
erase e (x ∷ xs) = if x == e then xs else x ∷ erase e xs

pub has-erase : (a e : ℕ) (xs : List ℕ) → has a xs ≡ false → has a (erase e xs) ≡ false
has-erase a e [] h = refl
has-erase a e (x ∷ xs) h = ground (arith, has-erase a e xs)

pub of_has-erase : (a e : ℕ) (xs : List ℕ) → has a (erase e xs) ≡ true → has a xs ≡ true
of_has-erase a e [] h = h
of_has-erase a e (x ∷ xs) h = ground (arith, of_has-erase a e xs)

-- An element is no longer there once it is taken out of a list without repetition.
pub has-erase_self : (e : ℕ) (xs : List ℕ) → distinct xs ≡ true → has e (erase e xs) ≡ false
has-erase_self e [] d = refl
has-erase_self e (x ∷ xs) d = ground (arith, has-erase_self e xs)

-- no address is in both
abbrev pub Apart : List ℕ → List ℕ → Type 0
Apart xs ys = (b : ℕ) → has b xs ≡ true → has b ys ≡ false

-- The two memories differ at most at the addresses of `xs`.
abbrev pub SameOutside : List ℕ → Links → Links → Type 0
SameOutside xs m m' = (b : ℕ) → has b xs ≡ false → (m'.next b ≡ m.next b) × (m'.prev b ≡ m.prev b)

-- A write that spares a list's nodes spares the list.
pub IsRing-frame :
    {m m' : Links} {h : ℕ} {xs : List ℕ} (ys : List ℕ)
    → IsRing m h xs
    → Apart (h ∷ xs) ys
    → SameOutside ys m m'
    → IsRing m' h xs
IsRing-frame {m} {m'} {h} {xs} ys r apart same = record {
  chain =
      Chain-frame m m' h xs h (λ b i. (same b (apart b i)).0) (λ b i. (same b (apart b i)).1)
        r.chain;
  distinct_nodes = r.distinct_nodes;
}

-- `lst_init` makes an empty list, and writes only its head.
pub lst_init_lem :
    (m : Links) (h : ℕ) → IsRing (lst_init m h) h [] × SameOutside (h ∷ []) m (lst_init m h)
unfolding lst_init
lst_init_lem m h = (ground arith, λ b i. ground arith)

abbrev pub is_nil : List ℕ → Bool
is_nil [] = true
is_nil (x ∷ xs) = false

-- `lst_empty` says whether the list has no element.
pub lst_empty_lem : {m : Links} {h : ℕ} (xs : List ℕ) → IsRing m h xs → lst_empty m h ≡ is_nil xs
unfolding lst_empty
lst_empty_lem [] r = ground arith
lst_empty_lem (x ∷ xs) r = ground arith

-- lst_push puts an element that the circular list does not have in front of it, and writes only
-- nodes of the longer list.
pub lst_push_lem :
    {m : Links} {h : ℕ} (e : ℕ) (xs : List ℕ)
    → IsRing m h xs
    → has e (h ∷ xs) ≡ false
    → IsRing (lst_push m h e) h (e ∷ xs) × SameOutside (h ∷ e ∷ xs) m (lst_push m h e)
unfolding lst_push
lst_push_lem e [] r new = (ground arith, λ b i. ground arith)
lst_push_lem {m} {h} e (x ∷ xs) r new = (
  record {
    chain = (
      ground arith,
      ground arith,
      (
        ground arith,
        ground arith,
        Chain-frame m _ x xs h (λ b i. ground arith) (λ b i. ground arith) r.chain.2,
      ),
    );
    distinct_nodes = ground arith;
  },
  λ b i. ground arith,
)

module _ (m : Links) (e : ℕ) where
  lst_remove-Chain :
      (a : ℕ) (xs : List ℕ) (z : ℕ)
      → Chain m a xs z
      → distinct (a ∷ xs) ≡ true
      → distinct (z ∷ xs) ≡ true
      → has e xs ≡ true
      → Chain (lst_remove m e) a (erase e xs) z
        × (has (m.prev e) (a ∷ xs) ≡ true)
        × (has (m.next e) (z ∷ xs) ≡ true)
  unfolding lst_remove
  lst_remove-Chain a [] z c d d' i = cc
  lst_remove-Chain a (x ∷ []) z c d d' i = ground arith
  lst_remove-Chain a (x ∷ y ∷ ys) z c d d' i = elim (Bool-cases (x == e)) [
    | inl hit ↦ rw hit (
      (
        ground arith,
        ground arith,
        Chain-frame m _ y ys z (λ b i. ground arith) (λ b i. ground arith) c.2.2,
      ),
      ground arith,
      ground arith,
    )
    | inr miss ↦
        let ih = lst_remove-Chain x (y ∷ ys) z c.2 (ground arith) (ground arith) (ground arith) in
        rw miss ((ground arith, ground arith, ih.0), ground (arith, ih.1), ground (arith, ih.2))
  ]

  lst_remove-SameOutside :
      (a : ℕ) (xs : List ℕ)
      → has (m.prev e) (a ∷ xs) ≡ true
      → has (m.next e) (a ∷ xs) ≡ true
      → SameOutside (a ∷ xs) m (lst_remove m e)
  unfolding lst_remove
  lst_remove-SameOutside a xs p n b i =
      (ground (arith, has_ne b (m.prev e) (a ∷ xs)), ground (arith, has_ne b (m.next e) (a ∷ xs)))

pub distinct-erase : (e : ℕ) (xs : List ℕ) → distinct xs ≡ true → distinct (erase e xs) ≡ true
distinct-erase e [] d = refl
distinct-erase e (x ∷ xs) d = ground (arith, distinct-erase e xs, has-erase x e xs)

-- lst_remove takes an element out of the circular list that it is on, and writes only nodes of
-- that list.
pub lst_remove_lem :
    {m : Links} {h : ℕ} (e : ℕ) (xs : List ℕ)
    → IsRing m h xs
    → has e xs ≡ true
    → IsRing (lst_remove m e) h (erase e xs) × SameOutside (h ∷ xs) m (lst_remove m e)
lst_remove_lem {m} {h} e xs r i =
    let (c, p, n) = lst_remove-Chain m e h xs h r.chain r.distinct_nodes r.distinct_nodes i in
    (
      record { chain = c; distinct_nodes = ground (arith, distinct-erase e xs, has-erase h e xs) },
      lst_remove-SameOutside m e h xs p n,
    )

-- lst_pop of a circular list with a first element returns that element and leaves the list of the
-- others, as lst_remove of it does, writing only nodes of the list.
pub lst_pop-cons :
    {m : Links} {h x : ℕ} {xs : List ℕ}
    → IsRing m h (x ∷ xs)
    → (lst_pop m h ≡ ok (x, lst_remove m x))
      × IsRing (lst_remove m x) h xs
      × SameOutside (h ∷ x ∷ xs) m (lst_remove m x)
unfolding lst_pop
lst_pop-cons {m} {h} {x} {xs} r =
    let (ring, same) = lst_remove_lem x (x ∷ xs) r (ground arith) in
    (ground arith, subst (IsRing (lst_remove m x) h) (ground arith) ring, same)

pub lst_pop-nil : {m : Links} {h : ℕ} → IsRing m h [] → lst_pop m h ≡ panic "lst_pop"
unfolding lst_pop
lst_pop-nil r = ground arith
