-- ===== src/Bio/Init.antt =====
-- `binit` of kernel/bio.c: the ring that it makes of the buffers.
use oshard.Common.{
  ℕ, ◌+◌, ◌≤◌, ◌≡◌, refl, sym, subst, ◌∙◌, Bool, true, false, ◌||◌, ◌≢◌, List, [], ◌∷◌, ◌==◌, arith,
  length,
}
use oshard.LinkedList.{set_next, set_prev}
use oshard.LinkedList.Ring.{has, has_ne, distinct, IsRing, Apart, lst_push_lem}
use oshard.SleepLock.{initsleeplock}
use oshard.Bio.{Bcache, nbuf, link_first, init_buf, binit_loop, binit}
use oshard.Bio.Correct.{IsCache, link_first-lst_push, kept_dev}

-- the elements of the first list, each put in front of the second
abbrev pub rev_onto : List ℕ → List ℕ → List ℕ
rev_onto [] ys = ys
rev_onto (x ∷ xs) ys = rev_onto xs (x ∷ ys)

length-rev_onto : (xs ys : List ℕ) → length (rev_onto xs ys) ≡ length xs + length ys
length-rev_onto [] ys = omega arith
length-rev_onto (x ∷ xs) ys = omega (arith, length-rev_onto xs (x ∷ ys))

has_split : (b : ℕ) (bs : List ℕ) → distinct (b ∷ bs) ≡ true → has b bs ≢ true
has_split b bs d i = ground arith

or_there : (t u : Bool) → u ≡ true → (t || u) ≡ true
or_there true u e = refl
or_there false u e = e

binit_loop-IsRing :
    (bs : List ℕ) (c : Bcache) (xs : List ℕ)
    → IsRing c.links c.head xs
    → distinct bs ≡ true
    → Apart bs (c.head ∷ xs)
    → IsRing (binit_loop bs c).links (binit_loop bs c).head (rev_onto bs xs)
unfolding binit_loop
binit_loop-IsRing [] c xs r d new = r
binit_loop-IsRing (b ∷ bs) c xs r d new =
    let pushed = (lst_push_lem b xs r (new b (ground arith))).0 in
    let r1 : IsRing (link_first c.links c.head b) c.head (b ∷ xs) =
      rw (link_first-lst_push c.links c.head b) pushed in
    binit_loop-IsRing bs (init_buf c b) (b ∷ xs) r1 (ground arith) (λ a i.
      let other : b ≢ a = λ e. has_split b bs d (subst (λ x. has x bs ≡ true) (sym e) i) in
      let old = new a (or_there (b == a) _ i) in ground arith)

binit_loop-dev : (bs : List ℕ) (c : Bcache) (a : ℕ) → ((binit_loop bs c).buf a).dev ≡ (c.buf a).dev
unfolding binit_loop
binit_loop-dev [] c a = refl
binit_loop-dev (b ∷ bs) c a =
    binit_loop-dev bs (init_buf c b) a
    ∙ kept_dev c b a (record (c.buf b) { lock = initsleeplock (c.buf b).lock }) refl

-- binit makes of at most NBUF different buffers, none of them for a device, a cache in order with
-- the last buffer first.
pub binit-IsCache :
    (c : Bcache) (bufs : List ℕ)
    → distinct (c.head ∷ bufs) ≡ true
    → length bufs ≤ nbuf
    → ((a : ℕ) → (c.buf a).dev ≡ 0)
    → IsCache (binit c bufs) (rev_onto bufs [])
unfolding binit
binit-IsCache c bufs d le blank =
    let empty_links = set_next (set_prev c.links c.head c.head) c.head c.head in
    record {
      ring =
          binit_loop-IsRing bufs (record c { links = empty_links }) []
            (record { chain = (ground arith, ground arith); distinct_nodes = refl }) (ground arith)
            (λ b i. let other : c.head ≢ b = has_ne c.head b bufs (ground arith) i in ground arith);
      bound = omega (arith, length-rev_onto bufs []);
      unique = λ a b i j dev. absurd (dev (binit_loop-dev bufs _ a ∙ blank a));
    }
