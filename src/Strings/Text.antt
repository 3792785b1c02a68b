-- ===== src/Strings/Text.antt =====
-- `strlen` and `safestrcpy` of kernel/string.c: 0-terminated strings.
use oshard.Common.{
  ℕ, zero, suc, ◌+◌, ◌≤◌, ◌<◌, ◌≡◌, ◌≢◌, false, ◌⊎◌, inl, inr, some, arith, ◌==◌, ltb, min, ◌∙◌,
  Bool-cases, ap, sym, ==_iff,
}
use oshard.Strings.{Memory, store, safe_loop, safestrcpy, strlen}
use oshard.Strings.Copy.{within, AreBytes, store-AreBytes}

-- The string at `s` has `len` bytes before its 0.
pub record IsString (m : Memory) (s len : ℕ) : Type 0 where
  pub body : (i : ℕ) → i < len → m (s + i) ≢ 0
  pub ends : m (s + len) ≡ 0

strlen-from :
    (fuel : ℕ) (m : Memory) (s len n : ℕ)
    → IsString m s len
    → n ≤ len
    → len < n + fuel
    → strlen fuel m s n ≡ some len
unfolding strlen
strlen-from zero m s len n w le lt = absurd (omega arith)
strlen-from (suc fuel) m s len n w le lt = elim (Bool-cases (m (s + n) == 0)) [
  | inl stop ↦
      let z = (==_iff (m (s + n)) 0).0 stop in
      let e : n ≡ len = elim (Bool-cases (ltb n len)) [
        | inl below ↦ absurd (w.body n (ground arith) z)
        | inr here ↦ ground arith
      ] in
      rw (stop, e)
  | inr more ↦
      let ne : n ≢ len = λ e. cc (more, (==_iff (m (s + len)) 0).1 w.ends, e) in
      rw more (strlen-from fuel m s len (n + 1) w (omega arith) (omega arith))
]

-- With more rounds than the string has bytes strlen ends, with their number.
pub strlen_lem :
    (fuel : ℕ) (m : Memory) (s len : ℕ)
    → IsString m s len
    → len < fuel
    → strlen fuel m s 0 ≡ some len
strlen_lem fuel m s len w lt = strlen-from fuel m s len 0 w (omega arith) (omega arith)

-- Nothing outside the `n + 1` bytes from `s` on is written.
pub safe_loop-outside :
    (n : ℕ) (m : Memory) (s t a : ℕ) → within s (suc n) a ≡ false → safe_loop n m s t a ≡ m a
unfolding safe_loop
safe_loop-outside zero m s t a out = ground arith
safe_loop-outside (suc n) m s t a out =
    ground (arith, safe_loop-outside n (store m s (m t)) (s + 1) (t + 1) a)

-- the string at `t` stays one when a byte outside it is written
IsString-store :
    (m : Memory) (t len p c : ℕ)
    → IsString m t len
    → within t (suc len) p ≡ false
    → IsString (store m p c) t len
IsString-store m t len p c w out = record {
  body = λ i lt. stays i (omega arith) (w.body i lt);
  ends = kept;
}
  where
    apart : (i : ℕ) → i < suc len → (t + i == p) ≡ false
    apart i lt = ground arith

    stays : (i : ℕ) → i < suc len → m (t + i) ≢ 0 → store m p c (t + i) ≢ 0
    stays i lt ne = let away = apart i lt in rw away ne

    kept : store m p c (t + len) ≡ 0
    kept = let away = apart len (omega arith) in rw away w.ends

IsString-suc : (m : Memory) (t len : ℕ) → IsString m t (suc len) → IsString m (t + 1) len
IsString-suc m t len w = record {
  body = λ i lt e. w.body (suc i) (omega arith) (ap m (shift i) ∙ e);
  ends = ap m (sym (shift len)) ∙ w.ends;
}
  where
    shift : (i : ℕ) → t + suc i ≡ t + 1 + i
    shift i = omega arith

-- `after` has at `s` the first `len` bytes that `before` has at `t`, and then a 0.
pub record IsCopied (before after : Memory) (s t len : ℕ) : Type 0 where
  pub same : (i : ℕ) → i < len → after (s + i) ≡ before (t + i)
  pub ended : after (s + len) ≡ 0

-- one byte in front of a copy
IsCopied-suc :
    (m m' after : Memory) (s t len : ℕ)
    → IsCopied m' after (s + 1) (t + 1) len
    → after s ≡ m t
    → ((i : ℕ) → i < len → m' (t + 1 + i) ≡ m (t + 1 + i))
    → IsCopied m after s t (suc len)
IsCopied-suc m m' after s t len w first kept = record {
  same = bytes;
  ended = ap after (shift s len) ∙ w.ended;
}
  where
    shift : (a i : ℕ) → a + suc i ≡ a + 1 + i
    shift a i = omega arith

    bytes : (i : ℕ) → i < suc len → after (s + i) ≡ m (t + i)
    bytes zero lt =
        let e : s + 0 ≡ s = omega arith in
        let f : t + 0 ≡ t = omega arith in ap after e ∙ first ∙ sym (ap m f)
    bytes (suc i) lt =
        ap after (shift s i)
        ∙ w.same i (omega arith)
        ∙ kept i (omega arith)
        ∙ sym (ap m (shift t i))

safe_loop-IsCopied :
    (n : ℕ) (m : Memory) (s t len : ℕ)
    → AreBytes m
    → IsString m t len
    → (s + suc n ≤ t) ⊎ (t + len < s)
    → IsCopied m (safe_loop n m s t) s t (min len n)
unfolding safe_loop
safe_loop-IsCopied zero m s t len w str apart =
    let e : min len 0 ≡ 0 = omega arith in
    rw e (record { same = λ i lt. absurd (omega arith); ended = ground arith })
safe_loop-IsCopied (suc n) m s t zero w str apart =
    let e : min 0 (suc n) ≡ 0 = omega arith in
    let f : t + 0 ≡ t = omega arith in
    let z : m t ≡ 0 = sym (ap m f) ∙ str.ends in
    rw e (record { same = λ i lt. absurd (omega arith); ended = ground (arith, z) })
safe_loop-IsCopied (suc n) m s t (suc len) w str apart =
    let rest = safe_loop-IsCopied n m' (s + 1) (t + 1) len (store-AreBytes m s (m t) w) str' side in
    rw (e, more)
      (IsCopied-suc m m' (safe_loop n m' (s + 1) (t + 1)) s t (min len n) rest first kept)
  where
    m' : Memory
    m' = store m s (m t)

    e : min (suc len) (suc n) ≡ suc (min len n)
    e = omega arith

    written : m' s ≡ m t
    written = ground (arith, w t)

    nonzero : m t ≢ 0
    nonzero z = let f : t + 0 ≡ t = omega arith in str.body 0 (omega arith) (ap m f ∙ z)

    more : (m' s == 0) ≡ false
    more = let a = written in let b = nonzero in rw a (ground arith)

    str' : IsString m' (t + 1) len
    str' = IsString-store m (t + 1) len s (m t) (IsString-suc m t len str) (ground arith)

    side : (s + 1 + suc n ≤ t + 1) ⊎ (t + 1 + len < s + 1)
    side = elim apart [ inl h ↦ inl (omega arith) | inr h ↦ inr (omega arith) ]

    first : safe_loop n m' (s + 1) (t + 1) s ≡ m t
    first = safe_loop-outside n m' (s + 1) (t + 1) s (ground arith) ∙ written

    kept : (i : ℕ) → i < min len n → m' (t + 1 + i) ≡ m (t + 1 + i)
    kept i lt = let away : (t + 1 + i == s) ≡ false = ground arith in rw away

-- safestrcpy of a string to a buffer that does not meet it leaves in the buffer as much of the
-- string as fits before a 0, and writes only the buffer.
pub safestrcpy_lem :
    (n : ℕ) (m : Memory) (s t len : ℕ)
    → AreBytes m
    → IsString m t len
    → (s + suc n ≤ t) ⊎ (t + len < s)
    → IsCopied m (safestrcpy m s t (suc n)) s t (min len n)
      × ((a : ℕ) → within s (suc n) a ≡ false → safestrcpy m s t (suc n) a ≡ m a)
unfolding safestrcpy
safestrcpy_lem n m s t len w str apart =
    (safe_loop-IsCopied n m s t len w str apart, λ a out. safe_loop-outside n m s t a out)
