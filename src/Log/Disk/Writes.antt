-- ===== src/Log/Disk/Writes.antt =====
-- What `write_log` and `install_trans` of kernel/log.c leave on the disk, with any power.
use oshard.Common.{
  ℕ, suc, ◌+◌, ◌-◌, ◌≤◌, ◌<◌, ◌≡◌, ◌≢◌, refl, sym, subst, ◌∙◌, ◌⊎◌, inl, inr, true, false, List, [],
  ◌∷◌, ◌==◌, Bool-cases, length, arith,
}
use oshard.LinkedList.Ring.{has}
use oshard.Log.Disk.{Store, Block, copy_block, bwrite, write_log, install_trans}

-- The blocks from `j` on hold what `v` gives for these block numbers.
unfoldable pub LogHolds : (ℕ → Block) → (ℕ → Block) → ℕ → List ℕ → Type 0
LogHolds v blocks_at j [] = Unit
LogHolds v blocks_at j (n ∷ ns) = (blocks_at j ≡ v n) × LogHolds v blocks_at (j + 1) ns

-- No number of the list is one of the blocks from `j` on that the log takes.
unfoldable pub IsApart : ℕ → List ℕ → Type 0
IsApart j ns = (a : ℕ) → has a ns ≡ true → (a < j) ⊎ (j + length ns ≤ a)

pub record IsLogged (v : ℕ → Block) (s s' : Store) (j : ℕ) (ns : List ℕ) : Type 0 where
  pub head : s'.head ≡ s.head
  pub kept :
      (a : ℕ) → (a < j) ⊎ (j + length ns ≤ a) → (s'.disk a ≡ s.disk a) × (s'.cache a ≡ s.cache a)
  pub cached : LogHolds v s'.cache j ns
  pub full : length ns ≤ s.power → LogHolds v s'.disk j ns × (s'.power ≡ s.power - length ns)
  pub short : s.power < length ns → s'.power ≡ 0
  pub dead : s.power ≡ 0 → s'.power ≡ 0

-- one block written to the log
abbrev log_one : Store → ℕ → ℕ → Store
log_one s j n = bwrite (copy_block s j n) j

log_one_lem :
    (s : Store) (j n : ℕ)
    → ((log_one s j n).head ≡ s.head)
      × ((log_one s j n).cache j ≡ s.cache n)
      × (0 < s.power → (log_one s j n).disk j ≡ s.cache n)
      × ((log_one s j n).power ≡ s.power - 1)
      × ((a : ℕ)
          → a ≢ j
          → ((log_one s j n).disk a ≡ s.disk a) × ((log_one s j n).cache a ≡ s.cache a))
unfolding bwrite
log_one_lem s j n = (
  ground arith,
  ground arith,
  λ p. ground arith,
  ground arith,
  λ a ne. (ground arith, ground arith),
)

pub LogHolds-frame :
    (v f g : ℕ → Block) (j : ℕ) (ns : List ℕ)
    → ((a : ℕ) → j ≤ a → a < j + length ns → g a ≡ f a)
    → LogHolds v f j ns
    → LogHolds v g j ns
unfolding LogHolds
LogHolds-frame v f g j [] e h = tt
LogHolds-frame v f g j (n ∷ ns) e (here, h) = (
  e j (omega arith) (omega arith) ∙ here,
  LogHolds-frame v f g (j + 1) ns (λ a lo hi. e a (omega arith) (omega arith)) h,
)

IsApart-suc : (j n : ℕ) (ns : List ℕ) → IsApart j (n ∷ ns) → IsApart (j + 1) ns
unfolding IsApart
IsApart-suc j n ns w a h =
    let there : has a (n ∷ ns) ≡ true = ground arith in
    elim (w a there) [ inl l ↦ inl (omega arith) | inr l ↦ inr (omega arith) ]

IsApart-head : (j n : ℕ) (ns : List ℕ) → IsApart j (n ∷ ns) → (n < j) ⊎ (j + suc (length ns) ≤ n)
unfolding IsApart
IsApart-head j n ns w = w n (ground arith)

pub write_log-IsLogged :
    (v : ℕ → Block) (s : Store) (j : ℕ) (ns : List ℕ)
    → IsApart j ns
    → ((a : ℕ) → has a ns ≡ true → s.cache a ≡ v a)
    → IsLogged v s (write_log s j ns) j ns
unfolding write_log LogHolds IsApart
write_log-IsLogged v s j [] w c = record {
  head = refl;
  kept = λ a o. (refl, refl);
  cached = tt;
  full = λ p. (tt, omega arith);
  short = λ p. absurd (omega arith);
  dead = λ z. z;
}
write_log-IsLogged v s j (n ∷ ns) w c =
    let (h, c1, d1, p1, out) = log_one_lem s j n in
    let away : (a : ℕ) → has a ns ≡ true → a ≢ j = λ a i e. elim (w a (let x = i in ground arith)) [
      | inl l ↦ absurd (omega (arith, e, l))
      | inr l ↦ absurd (omega (arith, e, l))
    ] in
    let r =
      write_log-IsLogged v (log_one s j n) (j + 1) ns (IsApart-suc j n ns w)
        λ a i. (out a (away a i)).1 ∙ c a (let x = i in ground arith) in
    let first = c n (ground arith) in
    let at_j = r.kept j (inl (omega arith)) in
    record {
      head = r.head ∙ h;
      kept = λ a o.
          let ne : a ≢ j = λ e. elim o [
            | inl l ↦ absurd (omega (arith, e, l))
            | inr l ↦ absurd (omega (arith, e, l))
          ] in
          let o' : (a < j + 1) ⊎ (j + 1 + length ns ≤ a) = elim o [
            | inl l ↦ inl (omega arith)
            | inr l ↦ inr (omega arith)
          ] in
          ((r.kept a o').0 ∙ (out a ne).0, (r.kept a o').1 ∙ (out a ne).1);
      cached = (at_j.1 ∙ c1 ∙ first, r.cached);
      full = λ p.
          let (held, left) = r.full (omega (arith, p1, p)) in
          ((at_j.0 ∙ d1 (omega arith) ∙ first, held), omega (arith, left, p1));
      short = λ p. elim (Bool-cases (s.power == 0)) [
        | inl z ↦ r.dead (ground (arith, p1, z))
        | inr nz ↦ r.short (ground (arith, p1, nz, p))
      ];
      dead = λ z. r.dead (omega (arith, p1, z));
    }

pub record IsInstalled (v : ℕ → Block) (s s' : Store) (ns : List ℕ) : Type 0 where
  pub head : s'.head ≡ s.head
  pub kept : (a : ℕ) → has a ns ≡ false → s'.disk a ≡ s.disk a
  pub full :
      length ns ≤ s.power
      → ((a : ℕ) → has a ns ≡ true → s'.disk a ≡ v a) × (s'.power ≡ s.power - length ns)
  pub short : s.power < length ns → s'.power ≡ 0
  pub dead : s.power ≡ 0 → (s'.power ≡ 0) × ((a : ℕ) → s'.disk a ≡ s.disk a)

abbrev install_one : Store → ℕ → ℕ → Store
install_one s j n = bwrite (copy_block s n j) n

install_one_lem :
    (s : Store) (j n : ℕ)
    → ((install_one s j n).head ≡ s.head)
      × ((a : ℕ)
          → a ≢ n
          → ((install_one s j n).disk a ≡ s.disk a) × ((install_one s j n).cache a ≡ s.cache a))
      × (0 < s.power → (install_one s j n).disk n ≡ s.cache j)
      × ((install_one s j n).power ≡ s.power - 1)
      × (s.power ≡ 0 → (a : ℕ) → (install_one s j n).disk a ≡ s.disk a)
unfolding bwrite
install_one_lem s j n = (
  ground arith,
  λ a ne. (ground arith, ground arith),
  λ p. ground arith,
  ground arith,
  λ z a. ground arith,
)

pub install_trans-IsInstalled :
    (v : ℕ → Block) (s : Store) (j : ℕ) (ns : List ℕ)
    → IsApart j ns
    → LogHolds v s.cache j ns
    → IsInstalled v s (install_trans s j ns) ns
unfolding install_trans LogHolds
install_trans-IsInstalled v s j [] w c = record {
  head = refl;
  kept = λ a o. refl;
  full = λ p. (λ a i. absurd (cc i), omega arith);
  short = λ p. absurd (omega arith);
  dead = λ z. (z, λ a. refl);
}
install_trans-IsInstalled v s j (n ∷ ns) w (first, c) =
    let (h, out, d1, p1, dead1) = install_one_lem s j n in
    let place = IsApart-head j n ns w in
    let outside : (a : ℕ) → j + 1 ≤ a → a < j + 1 + length ns → a ≢ n = λ a lo hi e. elim place [
      | inl l ↦ absurd (omega (arith, e, l))
      | inr l ↦ absurd (omega (arith, e, l))
    ] in
    let r = install_trans-IsInstalled v (install_one s j n) (j + 1) ns (IsApart-suc j n ns w) (
      LogHolds-frame v s.cache (install_one s j n).cache (j + 1) ns
        (λ a lo hi. (out a (outside a lo hi)).1) c) in
    record {
      head = r.head ∙ h;
      kept = λ a o. r.kept a (let x = o in ground arith) ∙ (out a (let x = o in ground arith)).0;
      full = λ p.
          let (held, left) = r.full (omega (arith, p1, p)) in
          (
            λ a i. elim (Bool-cases (has a ns)) [
              | inl later ↦ held a later
              | inr last ↦
                  let e : a ≡ n = ground arith in
                  subst (λ a. (install_trans (install_one s j n) (j + 1) ns).disk a ≡ v a) (sym e)
                    (r.kept n (subst (λ a. has a ns ≡ false) e last) ∙ d1 (omega arith) ∙ first)
            ],
            omega (arith, left, p1),
          );
      short = λ p. elim (Bool-cases (s.power == 0)) [
        | inl z ↦ (r.dead (ground (arith, p1, z))).0
        | inr nz ↦ r.short (ground (arith, p1, nz, p))
      ];
      dead = λ z. let (pz, same) = r.dead (omega (arith, p1, z)) in (pz, λ a. same a ∙ dead1 z a);
    }
