-- ===== src/Strings/Copy.antt =====
-- `memset`, `memmove` and `memcmp` of kernel/string.c.
use oshard.Common.{
  ℕ, zero, suc, ◌+◌, ◌-◌, ◌%◌, ◌≤◌, ◌<◌, ◌≡◌, refl, Bool, true, false, ◌&&◌, ◌⊎◌, ◌↔◌, inl, inr,
  arith, ◌==◌, ltb, leb, if◌then◌else◌, ◌∙◌, Bool-cases, ap, sym, ==_iff,
}
use oshard.Strings.{
  Memory, store, memset_loop, memset, memcmp, copy_up, copy_down, memmove, difference,
}

-- `a` is one of the `n` addresses from `p` on
abbrev pub within : ℕ → ℕ → ℕ → Bool
within p n a = leb p a && ltb a (p + n)

abbrev pub AreBytes : Memory → Type 0
AreBytes m = (a : ℕ) → m a < 256

pub store-AreBytes : (m : Memory) (p c : ℕ) → AreBytes m → AreBytes (store m p c)
store-AreBytes m p c w a = ground (arith, w a)

memset_loop_lem :
    (rounds : ℕ) (m : Memory) (dst i c a : ℕ)
    → memset_loop rounds m dst i c a ≡ (if within (dst + i) rounds a then c % 256 else m a)
unfolding memset_loop
memset_loop_lem zero m dst i c a = ground arith
memset_loop_lem (suc rounds) m dst i c a =
    ground (arith, memset_loop_lem rounds (store m (dst + i) c) dst (i + 1) c a)

-- memset writes the low byte of its argument to its region and changes nothing else.
pub memset_lem :
    (m : Memory) (dst c n a : ℕ) → memset m dst c n a ≡ (if within dst n a then c % 256 else m a)
unfolding memset
memset_lem m dst c n a = ground (arith, memset_loop_lem n m dst 0 c a)

-- the rest of an upward copy after its first byte
up_step :
    (n : ℕ) (m : Memory) (d s a : ℕ)
    → AreBytes m
    → (d ≤ s) ⊎ (s + suc n ≤ d)
    → (if within (d + 1) n a then store m d (m s) (s + 1 + (a - (d + 1))) else store m d (m s) a)
      ≡ (if within d (suc n) a then m (s + (a - d)) else m a)
up_step n m d s a w c = elim (Bool-cases (within (d + 1) n a)) [
  | inl hit ↦
      let e : s + 1 + (a - (d + 1)) ≡ s + (a - d) = ground arith in
      let outer : within d (suc n) a ≡ true = ground arith in rw (hit, outer, e) (ground arith)
  | inr miss ↦ elim (Bool-cases (a == d)) [
    | inl here ↦
        let e : s + (a - d) ≡ s = ground arith in
        let outer : within d (suc n) a ≡ true = ground arith in
        rw (miss, outer, here, e) (ground (arith, w s))
    | inr away ↦ let outer : within d (suc n) a ≡ false = ground arith in rw (miss, outer, away)
  ]
]

copy_up_lem :
    (n : ℕ) (m : Memory) (d s a : ℕ)
    → AreBytes m
    → (d ≤ s) ⊎ (s + n ≤ d)
    → copy_up n m d s a ≡ (if within d n a then m (s + (a - d)) else m a)
unfolding copy_up
copy_up_lem zero m d s a w c = ground arith
copy_up_lem (suc n) m d s a w c =
    let side : (d + 1 ≤ s + 1) ⊎ (s + 1 + n ≤ d + 1) = elim c [
      | inl h ↦ inl (omega arith)
      | inr h ↦ inr (omega arith)
    ] in
    copy_up_lem n (store m d (m s)) (d + 1) (s + 1) a (store-AreBytes m d (m s) w) side
    ∙ up_step n m d s a w c

down_step :
    (n : ℕ) (m : Memory) (d s a : ℕ)
    → AreBytes m
    → s ≤ d
    → (if within d n a
        then store m (d + n) (m (s + n)) (s + (a - d))
        else store m (d + n) (m (s + n)) a)
      ≡ (if within d (suc n) a then m (s + (a - d)) else m a)
down_step n m d s a w c = elim (Bool-cases (within d n a)) [
  | inl hit ↦
      let outer : within d (suc n) a ≡ true = ground arith in
      let apart : (s + (a - d) == d + n) ≡ false = ground arith in rw (hit, outer, apart)
  | inr miss ↦ elim (Bool-cases (a == d + n)) [
    | inl here ↦
        let e : s + (a - d) ≡ s + n = ground arith in
        let outer : within d (suc n) a ≡ true = ground arith in
        rw (miss, outer, here, e) (ground (arith, w (s + n)))
    | inr away ↦ let outer : within d (suc n) a ≡ false = ground arith in rw (miss, outer, away)
  ]
]

copy_down_lem :
    (n : ℕ) (m : Memory) (d s a : ℕ)
    → AreBytes m
    → s ≤ d
    → copy_down n m (d + n) (s + n) a ≡ (if within d n a then m (s + (a - d)) else m a)
unfolding copy_down
copy_down_lem zero m d s a w c = ground arith
copy_down_lem (suc n) m d s a w c =
    let e : d + suc n - 1 ≡ d + n = omega arith in
    let e' : s + suc n - 1 ≡ s + n = omega arith in
    rw (e, e')
      (copy_down_lem n (store m (d + n) (m (s + n))) d s a (store-AreBytes m (d + n) (m (s + n)) w)
          c
        ∙ down_step n m d s a w c)

-- For every overlap of the two regions memmove puts the bytes that the source held before into the
-- destination, and changes nothing else.
pub memmove_lem :
    (m : Memory) (dst src n a : ℕ)
    → AreBytes m
    → memmove m dst src n a ≡ (if within dst n a then m (src + (a - dst)) else m a)
unfolding memmove
memmove_lem m dst src n a w = elim (Bool-cases (n == 0)) [
  | inl none_left ↦ rw none_left (ground arith)
  | inr some_left ↦ elim (Bool-cases (ltb src dst && ltb dst (src + n))) [
    | inl down ↦ rw (some_left, down) (copy_down_lem n m dst src a w (ground arith))
    | inr up ↦
        let side : (dst ≤ src) ⊎ (src + n ≤ dst) = ground arith in
        rw (some_left, up) (copy_up_lem n m dst src a w side)
  ]
]

-- the two regions hold the same `n` bytes
abbrev pub SameBytes : ℕ → Memory → ℕ → ℕ → Type 0
SameBytes n m p q = (i : ℕ) → i < n → m (p + i) ≡ m (q + i)

pub first_byte : (n : ℕ) (m : Memory) (p q : ℕ) → SameBytes (suc n) m p q → m p ≡ m q
first_byte n m p q h =
    let e : p + 0 ≡ p = omega arith in
    let f : q + 0 ≡ q = omega arith in sym (ap m e) ∙ h 0 (omega arith) ∙ ap m f

pub SameBytes-tail :
    (n : ℕ) (m : Memory) (p q : ℕ) → SameBytes (suc n) m p q → SameBytes n m (p + 1) (q + 1)
SameBytes-tail n m p q h i lt =
    let e : p + 1 + i ≡ p + suc i = omega arith in
    let f : q + 1 + i ≡ q + suc i = omega arith in ap m e ∙ h (suc i) (omega arith) ∙ sym (ap m f)

pub SameBytes-suc :
    (n : ℕ) (m : Memory) (p q : ℕ)
    → m p ≡ m q
    → SameBytes n m (p + 1) (q + 1)
    → SameBytes (suc n) m p q
SameBytes-suc n m p q e h zero lt =
    let a : p + 0 ≡ p = omega arith in let b : q + 0 ≡ q = omega arith in ap m a ∙ e ∙ sym (ap m b)
SameBytes-suc n m p q e h (suc i) lt =
    let a : p + suc i ≡ p + 1 + i = omega arith in
    let b : q + suc i ≡ q + 1 + i = omega arith in ap m a ∙ h i (omega arith) ∙ sym (ap m b)

-- memcmp is 0 exactly when the regions are equal byte for byte.
pub memcmp_lem :
    (n : ℕ) (m : Memory) (s1 s2 : ℕ) → AreBytes m → (memcmp m s1 s2 n ≡ 0) ↔ SameBytes n m s1 s2
unfolding memcmp
memcmp_lem zero m s1 s2 w = (λ e i lt. absurd (omega arith), λ h. refl)
memcmp_lem (suc n) m s1 s2 w =
    let (equal, zero_if) = memcmp_lem n m (s1 + 1) (s2 + 1) w in
    elim (Bool-cases (m s1 == m s2)) [
      | inl same ↦ (
        λ e. SameBytes-suc n m s1 s2 ((==_iff (m s1) (m s2)).0 same) (equal (rw same at e)),
        λ h. rw same (zero_if (SameBytes-tail n m s1 s2 h)),
      )
      | inr other ↦ (
        λ e.
            absurd
              (let d : difference (m s1) (m s2) ≡ 0 = rw other at e in ground (arith, w s1, w s2)),
        λ h. absurd (let e = first_byte n m s1 s2 h in ground arith),
      )
    ]
