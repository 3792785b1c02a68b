-- ===== src/Bio/Correct.antt =====
-- `bget` and `brelse` of kernel/bio.c against the sequence of buffers, the most recent first.
use oshard.Common.{
  ℕ, ◌^◌, ◌+◌, ◌≤◌, ◌<◌, ◌≡◌, ◌≢◌, refl, ap, sym, subst, ◌∙◌, Bool, true, false, ◌&&◌, List, ◌∷◌,
  Option, none, some, Result, ◌>>=◌, ◌⊎◌, ok, panic, loops, ◌==◌, if◌then◌else◌, Bool-cases, inl,
  inr, arith, length,
}
use oshard.LinkedList.{Links, lst_remove, lst_push}
use oshard.LinkedList.Ring.{
  has, has_ne, IsRing, erase, has-erase_self, lst_push_lem, lst_remove_lem,
}
use oshard.SleepLock.{releasesleep, acquiresleep, holdingsleep}
use oshard.Bio.{
  Buf, Bcache, put_buf, inc, dec, nbuf, holds_block, is_unused, choice, take_buf, bget, brelse,
  unlink, link_first,
}
use oshard.Bio.Search.{
  first_of, last_of, find_buf_lem, first_of-some, first_of-none, last_of-some, last_of-none,
}

pub link_first-lst_push : (m : Links) (h b : ℕ) → link_first m h b ≡ lst_push m h b
unfolding link_first lst_push
link_first-lst_push m h b = refl

same_branch {ℓ} : {A : Type ℓ} (t : Bool) (x : A) → (if t then x else x) ≡ x
same_branch true x = refl
same_branch false x = refl

unlink-lst_remove : (m : Links) (b : ℕ) → unlink m b ≡ lst_remove m b
unfolding unlink lst_remove
unlink-lst_remove m b =
    rw (same_branch (m.next b == b) (m.prev b), same_branch (m.prev b == b) (m.next b))

fresh :
    (m : Links) (h b : ℕ) (xs : List ℕ)
    → IsRing m h xs
    → has b xs ≡ true
    → has b (h ∷ erase b xs) ≡ false
fresh m h b xs r i =
    let apart : h ≢ b = has_ne h b xs (ground arith) i in
    let gone = has-erase_self b xs (ground arith) in ground arith

-- Moving a buffer of the ring to the front.
unlink-IsRing :
    (m : Links) (h b : ℕ) (xs : List ℕ)
    → IsRing m h xs
    → has b xs ≡ true
    → IsRing (link_first (unlink m b) h b) h (b ∷ erase b xs)
unlink-IsRing m h b xs r i =
    rw (link_first-lst_push (unlink m b) h b, unlink-lst_remove m b)
      (lst_push_lem b (erase b xs) (lst_remove_lem b xs r i).0 (fresh m h b xs r i)).0

dec_lem : (n : ℕ) → 0 < n → n < 2 ^ 32 → dec n + 1 ≡ n
dec_lem n pos small = omega arith

pred_zero : (d n : ℕ) → d + 1 ≡ n → (d == 0) ≡ (n == 1)
pred_zero d n e = ground arith

put_buf_self : (c : Bcache) (b : ℕ) (v : Buf) → (put_buf c b v).buf b ≡ v
put_buf_self c b v = let t : (b == b) ≡ true = ground arith in rw t

put_buf_ne : (c : Bcache) (a b : ℕ) (v : Buf) → a ≢ b → (put_buf c b v).buf a ≡ c.buf a
put_buf_ne c a b v ne = let t : (a == b) ≡ false = ground arith in rw t

-- brelse of a buffer on the ring by the holder of its lock, with a count that is not 0, frees the
-- lock, drops one reference and changes no other buffer; when the reference was the last the buffer
-- becomes the first of the ring, and otherwise the ring stays as it is.
pub brelse_lem :
    (pid : ℕ) (c : Bcache) (b : ℕ) (xs : List ℕ)
    → IsRing c.links c.head xs
    → has b xs ≡ true
    → holdingsleep pid (c.buf b).lock ≡ true
    → 0 < (c.buf b).refcnt
    → (c.buf b).refcnt < 2 ^ 32
    → (c' : Bcache) × (brelse pid c b ≡ ok c')
      × IsRing c'.links c'.head (if (c.buf b).refcnt == 1 then b ∷ erase b xs else xs)
      × ((c'.buf b).refcnt + 1 ≡ (c.buf b).refcnt)
      × ((c'.buf b).lock.locked ≡ false)
      × ((a : ℕ) → a ≢ b → c'.buf a ≡ c.buf a)
unfolding brelse releasesleep
brelse_lem pid c b xs r i held some_ref small =
    let v : Buf = record (c.buf b) {
      lock = releasesleep (c.buf b).lock;
      refcnt = dec (c.buf b).refcnt;
    } in
    let c1 = put_buf c b v in
    let self = put_buf_self c b v in
    let fewer = dec_lem (c.buf b).refcnt some_ref small in
    elim (Bool-cases ((c.buf b).refcnt == 1)) [
      | inl last ↦
          let gone : (dec (c.buf b).refcnt == 0) ≡ true = pred_zero _ _ fewer ∙ last in
          (
            record c1 { links = link_first (unlink c1.links b) c1.head b },
            rw (held, gone),
            rw last (unlink-IsRing c.links c.head b xs r i),
            ap (λ u. u.refcnt + 1) self ∙ fewer,
            ap (λ u. u.lock.locked) self,
            λ a ne. put_buf_ne c a b v ne,
          )
      | inr more ↦
          let left : (dec (c.buf b).refcnt == 0) ≡ false = pred_zero _ _ fewer ∙ more in
          (
            c1,
            rw (held, left),
            rw more r,
            ap (λ u. u.refcnt + 1) self ∙ fewer,
            ap (λ u. u.lock.locked) self,
            λ a ne. put_buf_ne c a b v ne,
          )
    ]

-- The ring holds `xs`, at most `nbuf` buffers, and no two of them are for the same block of a device.
-- At the start every buffer is for block 0 of device 0, which is no device.
pub record IsCache (c : Bcache) (xs : List ℕ) : Type 0 where
  pub ring : IsRing c.links c.head xs
  pub bound : length xs ≤ nbuf
  pub unique :
      (a b : ℕ)
      → has a xs ≡ true
      → has b xs ≡ true
      → (c.buf a).dev ≢ 0
      → (c.buf a).dev ≡ (c.buf b).dev
      → (c.buf a).blockno ≡ (c.buf b).blockno
      → a ≡ b

clash : (v u : Buf) → v.dev ≡ u.dev → v.blockno ≡ u.blockno → holds_block v.dev v.blockno u ≢ false
clash v u d n f = ground arith

-- a buffer after a write of `v` at `b`: it is `v`, or it is as it was
written :
    (c : Bcache) (b x : ℕ) (v : Buf)
    → ((x ≡ b) × ((put_buf c b v).buf x ≡ v)) ⊎ ((put_buf c b v).buf x ≡ c.buf x)
written c b x v = elim (Bool-cases (x == b)) [
  | inl t ↦ inl (ground arith, rw t)
  | inr f ↦ inr (rw f)
]

module _ (c : Bcache) (b : ℕ) (v : Buf) (xs : List ℕ) (k : IsCache c xs) where
  kept_field {ℓ} :
      {A : Type ℓ} (g : Buf → A) (x : ℕ)
      → g v ≡ g (c.buf b)
      → g ((put_buf c b v).buf x) ≡ g (c.buf x)
  kept_field g x e = elim (Bool-cases (x == b)) [
    | inl t ↦ let s : b ≡ x = ground arith in rw t (subst (λ y. g v ≡ g (c.buf y)) s e)
    | inr f ↦ rw f
  ]

  -- A write that keeps the block of the buffer keeps the invariant.
  put_buf-same : v.dev ≡ (c.buf b).dev → v.blockno ≡ (c.buf b).blockno → IsCache (put_buf c b v) xs
  put_buf-same d n = record {
    ring = k.ring;
    bound = k.bound;
    unique = λ x y i j dev same_dev same_no.
        let dev_of : (a : ℕ) → _ = λ a. kept_field (λ u. u.dev) a d in
        let no_of : (a : ℕ) → _ = λ a. kept_field (λ u. u.blockno) a n in
        k.unique x y i j (λ e. dev (dev_of x ∙ e)) (sym (dev_of x) ∙ same_dev ∙ dev_of y)
          (sym (no_of x) ∙ same_no ∙ no_of y);
  }

  -- So does a write that gives the buffer a block that no buffer has.
  put_buf-new :
      ((x : ℕ) → has x xs ≡ true → holds_block v.dev v.blockno (c.buf x) ≡ false)
      → IsCache (put_buf c b v) xs
  put_buf-new absent = record {
    ring = k.ring;
    bound = k.bound;
    unique = λ x y i j dev same_dev same_no. elim (written c b x v) [
      | inl (x_b, vx) ↦ elim (written c b y v) [
        | inl (y_b, vy) ↦ x_b ∙ sym y_b
        | inr uy ↦ absurd (
            clash v (c.buf y) (sym (ap (λ u. u.dev) vx) ∙ same_dev ∙ ap (λ u. u.dev) uy)
              (sym (ap (λ u. u.blockno) vx) ∙ same_no ∙ ap (λ u. u.blockno) uy) (absent y j))
      ]
      | inr ux ↦ elim (written c b y v) [
        | inl (y_b, vy) ↦ absurd (
            clash v (c.buf x) (sym (ap (λ u. u.dev) vy) ∙ sym same_dev ∙ ap (λ u. u.dev) ux)
              (sym (ap (λ u. u.blockno) vy) ∙ sym same_no ∙ ap (λ u. u.blockno) ux) (absent x i))
        | inr uy ↦
            k.unique x y i j (λ e. dev (ap (λ u. u.dev) ux ∙ e))
              (sym (ap (λ u. u.dev) ux) ∙ same_dev ∙ ap (λ u. u.dev) uy)
              (sym (ap (λ u. u.blockno) ux) ∙ same_no ∙ ap (λ u. u.blockno) uy)
      ]
    ];
  }

-- The buffer was for the block, or it was unused and no buffer was.
abbrev pub Taken : Bcache → List ℕ → ℕ → ℕ → ℕ → Type 0
Taken c xs dev blockno b =
    (holds_block dev blockno (c.buf b) ≡ true)
    ⊎ ((c.buf b).refcnt ≡ 0)
      × ((a : ℕ) → has a xs ≡ true → holds_block dev blockno (c.buf a) ≡ false)

held : (pid : ℕ) → holdingsleep pid (record { locked = true; pid = pid }) ≡ true
unfolding holdingsleep
held pid = ground arith

same_block : (d n : ℕ) → ((d == d) && (n == n)) ≡ true
same_block d n = ground arith

pub kept_dev :
    (c : Bcache) (b a : ℕ) (v : Buf)
    → v.dev ≡ (c.buf b).dev
    → ((put_buf c b v).buf a).dev ≡ (c.buf a).dev
kept_dev c b a v e = elim (written c b a v) [
  | inl (a_b, va) ↦ ap (λ u. u.dev) va ∙ e ∙ ap (λ x. (c.buf x).dev) (sym a_b)
  | inr same ↦ ap (λ u. u.dev) same
]

-- How `bget` ends on the buffers `xs`.
abbrev pub GetEnds : ℕ → Bcache → List ℕ → ℕ → ℕ → Result (ℕ × Bcache) → Type 0
GetEnds pid c xs dev blockno (ok (b, c')) =
    IsCache c' xs
    × (has b xs ≡ true)
    × (holds_block dev blockno (c'.buf b) ≡ true)
    × (holdingsleep pid (c'.buf b).lock ≡ true)
    × Taken c xs dev blockno b
GetEnds pid c xs dev blockno (panic e) =
    (a : ℕ) → has a xs ≡ true → (holds_block dev blockno (c.buf a) ≡ false) × ((c.buf a).refcnt ≢ 0)
GetEnds pid c xs dev blockno loops = (b : ℕ) × (has b xs ≡ true) × ((c.buf b).lock.locked ≡ true)

-- `acquiresleep` on the buffer taken ends the call.
lock_lem :
    (pid dev blockno : ℕ) (c c1 : Bcache) (xs : List ℕ) (b : ℕ)
    → IsCache c1 xs
    → has b xs ≡ true
    → holds_block dev blockno (c1.buf b) ≡ true
    → (c1.buf b).lock ≡ (c.buf b).lock
    → Taken c xs dev blockno b
    → GetEnds pid c xs dev blockno (
        acquiresleep pid (c1.buf b).lock >>= λ lock.
        ok (b, put_buf c1 b (record (c1.buf b) { lock = lock })))
unfolding acquiresleep
lock_lem pid dev blockno c c1 xs b k i h same why = elim (Bool-cases (c1.buf b).lock.locked) [
  | inl busy ↦ rw busy (b, i, ap (λ l. l.locked) (sym same) ∙ busy)
  | inr free ↦
      let w = record (c1.buf b) { lock = record { locked = true; pid = pid } } in
      let self = put_buf_self c1 b w in
      rw free (
        put_buf-same c1 b w xs k refl refl,
        i,
        ap (holds_block dev blockno) self ∙ h,
        ap (λ u. holdingsleep pid u.lock) self ∙ held pid,
        why,
      )
]

choice-GetEnds :
    (pid : ℕ) (c : Bcache) (xs : List ℕ) (dev blockno : ℕ) (own spare : Option ℕ)
    → IsCache c xs
    → own ≡ first_of (λ b. holds_block dev blockno (c.buf b)) xs
    → spare ≡ last_of (λ b. is_unused (c.buf b)) xs
    → GetEnds pid c xs dev blockno (
        take_buf c dev blockno (choice own spare) >>= λ r.
        acquiresleep pid (r.1.buf r.0).lock >>= λ lock.
        ok (r.0, put_buf r.1 r.0 (record (r.1.buf r.0) { lock = lock })))
unfolding take_buf
choice-GetEnds pid c xs dev blockno (some b) spare k e f =
    let (i, h) = first_of-some _ xs b (sym e) in
    let v = record (c.buf b) { refcnt = inc (c.buf b).refcnt } in
    let self = put_buf_self c b v in
    lock_lem pid dev blockno c (put_buf c b v) xs b (put_buf-same c b v xs k refl refl) i
      (ap (holds_block dev blockno) self ∙ h) (ap (λ u. u.lock) self) (inl h)
choice-GetEnds pid c xs dev blockno none (some b) k e f =
    let (i, h) = last_of-some _ xs b (sym f) in
    let absent = first_of-none _ xs (sym e) in
    let v = record (c.buf b) { dev = dev; blockno = blockno; valid = false; refcnt = 1 } in
    let self = put_buf_self c b v in
    lock_lem pid dev blockno c (put_buf c b v) xs b (put_buf-new c b v xs k absent) i
      (ap (holds_block dev blockno) self ∙ same_block dev blockno) (ap (λ u. u.lock) self)
      (inr (ground arith, absent))
choice-GetEnds pid c xs dev blockno none none k e f =
    λ a i. (first_of-none _ xs (sym e) a i, let t = last_of-none _ xs (sym f) a i in ground arith)

-- On a cache in order, bget returns a buffer for the block, locked by the caller, that was the one
-- of the block or else was unused while no buffer had the block, and the cache is still in order:
-- no two buffers are for one block. It panics only when no buffer has the block and none is unused,
-- and waits only for the lock of a buffer that is held.
pub bget-GetEnds :
    (pid : ℕ) (c : Bcache) (xs : List ℕ) (dev blockno : ℕ)
    → IsCache c xs
    → GetEnds pid c xs dev blockno (bget pid c dev blockno)
unfolding bget
bget-GetEnds pid c xs dev blockno k =
    rw (find_buf_lem c dev blockno xs k.ring k.bound)
      (choice-GetEnds pid c xs dev blockno _ _ k refl refl)
