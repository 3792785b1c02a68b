-- ===== src/Buddy/Whole.antt =====
-- The split bits of kernel/buddy.c. A block is whole when no block inside it is marked as split and
-- every block around it is; that is what lets `size` find the level of a block from its address.
use native.Mathlib.Nat.{one-le-pow, two-pow-succ}
use native.Mathlib.Decide.{dec_lt}
use oshard.Common.{
  ℕ, zero, suc, ◌+◌, ◌-◌, ◌*◌, ◌^◌, ◌≤◌, ◌<◌, ◌≡◌, ap, Bool, true, false, not, ◌&&◌, ◌||◌, inl, inr,
  arith, ◌==◌, if◌then◌else◌, Bool-cases, ==_iff, sym, subst, ◌∙◌,
}
use oshard.Buddy.Lists.{Disjoint}

abbrev pub SplitBits : Type 0
SplitBits = ℕ → ℕ → Bool

-- Block `i` of level `k`, of `nsizes` levels.
pub record IsWhole (nsizes : ℕ) (split : SplitBits) (k i : ℕ) : Type 0 where
  pub inside :
      (m n : ℕ)
      → 0 < m
      → m ≤ k
      → i * 2 ^ k ≤ n * 2 ^ m
      → n * 2 ^ m < (i + 1) * 2 ^ k
      → split m n ≡ false
  pub around :
      (m n : ℕ)
      → k < m
      → m < nsizes
      → n * 2 ^ m ≤ i * 2 ^ k
      → i * 2 ^ k < (n + 1) * 2 ^ m
      → split m n ≡ true

pub IsWhole-cong :
    (nsizes : ℕ) (split split' : SplitBits) (k i : ℕ)
    → ((m n : ℕ) → split' m n ≡ split m n)
    → IsWhole nsizes split k i
    → IsWhole nsizes split' k i
IsWhole-cong nsizes split split' k i same w = record {
  inside = λ m n pos le lo hi. same m n ∙ w.inside m n pos le lo hi;
  around = λ m n lt small lo hi. same m n ∙ w.around m n lt small lo hi;
}

-- `split'` is `split` with bit `x` of level `k` set, or cleared.
abbrev pub WithSet : SplitBits → ℕ → ℕ → SplitBits → Type 0
WithSet split k x split' =
    (m n : ℕ) → split' m n ≡ (if m == k then (x == n) || split k n else split m n)

abbrev pub WithClear : SplitBits → ℕ → ℕ → SplitBits → Type 0
WithClear split k x split' =
    (m n : ℕ) → split' m n ≡ (if m == k then not (x == n) && split k n else split m n)

pub pow_pos : (k : ℕ) → 0 < 2 ^ k
pow_pos k = one-le-pow k 2 (omega arith)

pub pow-add : (d k : ℕ) → 2 ^ (d + k) ≡ 2 ^ d * 2 ^ k
pow-add zero k = let e : zero + k ≡ k = omega arith in rw e (omega arith)
pow-add (suc d) k =
    let e : suc d + k ≡ suc (d + k) = omega arith in
    rw (e, two-pow-succ (d + k), two-pow-succ d, pow-add d k) (omega arith)

-- the start of a block and of its left half
pub double : (x k : ℕ) → x * 2 ^ suc k ≡ 2 * x * 2 ^ k
double x k = rw (two-pow-succ k) (omega arith)

pub mul_mono : (a b q : ℕ) → a ≤ b → a * q ≤ b * q
mul_mono a b q h = grind arith

same_block : (n x q : ℕ) → n * q ≤ x * q → x * q < (n + 1) * q → n ≡ x
same_block n x q lo hi = elim (dec_lt n x) [
  | yes lt ↦ let h : (n + 1) * q ≤ x * q = grind arith in absurd (omega arith)
  | no ge ↦ elim (dec_lt x n) [
    | yes gt ↦ let h : (x + 1) * q ≤ n * q = grind arith in absurd (omega arith)
    | no le ↦ omega arith
  ]
]

-- A block that starts no later than the middle of a smaller one starts no later than that.
before_middle :
    (x k n m : ℕ) → suc k ≤ m → n * 2 ^ m ≤ (2 * x + 1) * 2 ^ k → n * 2 ^ m ≤ x * 2 ^ suc k
before_middle x k n m le h =
    let d = m - suc k in
    let e : 2 ^ m ≡ 2 ^ d * 2 ^ suc k =
      subst (λ z. 2 ^ z ≡ 2 ^ d * 2 ^ suc k) (omega arith) (pow-add d (suc k)) in
    let e' : n * 2 ^ m ≡ n * 2 ^ d * 2 ^ suc k = rw e (omega arith) in
    elim (dec_lt x (n * 2 ^ d)) [
      | yes lt ↦
          let p = pow_pos k in
          let far = mul_mono (x + 1) (n * 2 ^ d) (2 ^ suc k) (omega arith) in
          absurd (omega (arith, double (x + 1) k))
      | no ge ↦ let near = mul_mono (n * 2 ^ d) x (2 ^ suc k) (omega arith) in omega arith
    ]

-- A block whose start lies in another overlaps it.
start_inside :
    (k x m j : ℕ) → Disjoint k x m j → j * 2 ^ m ≤ x * 2 ^ k → x * 2 ^ k < (j + 1) * 2 ^ m → ⊥
start_inside k x m j d lo hi = let p = pow_pos k in omega arith

module _ (nsizes k x : ℕ) (split split' : SplitBits) where
  -- A bit that is not the written one is as before.
  set_miss : WithSet split k x split' → (l n : ℕ) → (l ≡ k → n ≡ x → ⊥) → split' l n ≡ split l n
  set_miss set l n apart = set l n ∙ elim (Bool-cases (l == k)) [
    | inl e ↦
        let q = (==_iff l k).0 e in
        elim (Bool-cases (x == n)) [
          | inl hit ↦ absurd (apart q (sym ((==_iff x n).0 hit)))
          | inr ne ↦ rw (e, ne) (ap (λ z. split z n) (sym q))
        ]
    | inr ne ↦ rw ne
  ]

  clear_miss : WithClear split k x split' → (l n : ℕ) → (l ≡ k → n ≡ x → ⊥) → split' l n ≡ split l n
  clear_miss clear l n apart = clear l n ∙ elim (Bool-cases (l == k)) [
    | inl e ↦
        let q = (==_iff l k).0 e in
        elim (Bool-cases (x == n)) [
          | inl hit ↦ absurd (apart q (sym ((==_iff x n).0 hit)))
          | inr ne ↦ rw (e, ne) (ap (λ z. split z n) (sym q))
        ]
    | inr ne ↦ rw ne
  ]

  -- Splitting a block leaves the blocks that it does not overlap whole.
  pub IsWhole-set :
      WithSet split k x split'
      → (m j : ℕ) → Disjoint k x m j
      → IsWhole nsizes split m j
      → IsWhole nsizes split' m j
  IsWhole-set set m j d w = record {
    inside = λ l n pos le lo hi.
        set_miss set l n (λ p q. start_inside k x m j d (rw (p, q) at lo) (rw (p, q) at hi))
        ∙ w.inside l n pos le lo hi;
    around = λ l n lt small lo hi. ground (arith, set l n, w.around l n lt small lo hi);
  }

module _ (nsizes k x : ℕ) (split split' : SplitBits) where
  half_around :
      WithSet split (suc k) x split'
      → IsWhole nsizes split (suc k) x
      → (m n : ℕ) → k < m
      → m < nsizes
      → n * 2 ^ m ≤ (2 * x + 1) * 2 ^ k
      → 2 * x * 2 ^ k < (n + 1) * 2 ^ m
      → split' m n ≡ true
  half_around set w m n lt small lo hi =
      let lo' = before_middle x k n m lt lo in
      let hi' : x * 2 ^ suc k < (n + 1) * 2 ^ m = omega (arith, double x k) in
      elim (dec_lt (suc k) m) [
        | yes up ↦ ground (arith, set m n, w.around m n up small lo' hi')
        | no top ↦
            let q : m ≡ suc k = omega arith in
            let e : n ≡ x = same_block n x (2 ^ suc k) (rw q at lo') (rw q at hi') in
            ground (arith, set m n)
      ]

  -- The halves of a whole block are whole once it is marked as split.
  pub IsWhole-halves :
      WithSet split (suc k) x split'
      → IsWhole nsizes split (suc k) x
      → IsWhole nsizes split' k (2 * x) × IsWhole nsizes split' k (2 * x + 1)
  IsWhole-halves set w = (
    record {
      inside = λ m n pos le lo hi.
          set_miss nsizes (suc k) x split split' set m n (λ p q. absurd (omega arith))
          ∙ w.inside m n pos (omega arith) (omega (arith, double x k))
              (omega (arith, double (x + 1) k));
      around = λ m n lt small lo hi. half_around set w m n lt small (omega arith) hi;
    },
    record {
      inside = λ m n pos le lo hi.
          set_miss nsizes (suc k) x split split' set m n (λ p q. absurd (omega arith))
          ∙ w.inside m n pos (omega arith) (omega (arith, double x k))
              (omega (arith, double (x + 1) k));
      around = λ m n lt small lo hi. half_around set w m n lt small lo (omega arith);
    },
  )

  -- Clearing the mark of a block leaves whole what lies in neither of its halves.
  pub IsWhole-clear :
      WithClear split (suc k) x split'
      → (m j : ℕ) → Disjoint k (2 * x) m j
      → Disjoint k (2 * x + 1) m j
      → IsWhole nsizes split m j
      → IsWhole nsizes split' m j
  IsWhole-clear clear m j d d' w = record {
    inside = λ l n pos le lo hi. ground (arith, clear l n, w.inside l n pos le lo hi);
    around = λ l n lt small lo hi.
        clear_miss nsizes (suc k) x split split' clear l n
          (λ p q. in_a_half (rw (p, q) at lo) (rw (p, q) at hi))
        ∙ w.around l n lt small lo hi;
  }
    where
      in_a_half : x * 2 ^ suc k ≤ j * 2 ^ m → j * 2 ^ m < (x + 1) * 2 ^ suc k → ⊥
      in_a_half lo hi = let p = pow_pos m in omega (arith, double x k, double (x + 1) k)

  -- Two whole halves make a whole block once its mark is cleared.
  pub IsWhole-merge :
      WithClear split (suc k) x split'
      → IsWhole nsizes split k (2 * x)
      → IsWhole nsizes split k (2 * x + 1)
      → IsWhole nsizes split' (suc k) x
  IsWhole-merge clear w w' = record {
    inside = λ m n pos le lo hi. elim (dec_lt k m) [
      | yes up ↦
          let q : m ≡ suc k = omega arith in
          let e : x ≡ n = same_block x n (2 ^ suc k) (rw q at lo) (rw q at hi) in
          ground (arith, clear m n)
      | no in_half ↦ elim (dec_lt (n * 2 ^ m) ((2 * x + 1) * 2 ^ k)) [
        | yes left ↦
            ground
              (arith, clear m n, w.inside m n pos (omega arith) (omega (arith, double x k)) left)
        | no right ↦ ground (
          arith,
          clear m n,
          w'.inside m n pos (omega arith) (omega arith) (omega (arith, double (x + 1) k)),
        )
      ]
    ];
    around = λ m n lt small lo hi.
        clear_miss nsizes (suc k) x split split' clear m n (λ p q. absurd (omega arith))
        ∙ w.around m n (omega arith) small (omega (arith, double x k)) (omega (arith, double x k));
  }
