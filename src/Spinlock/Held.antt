-- ===== src/Spinlock/Held.antt =====
-- Several cpus that take and give back the locks of kernel/spinlock.c.
use oshard.Common.{
  bind_ok, guard_ok, ℕ, suc, ◌+◌, ◌^◌, ◌≤◌, ◌<◌, ◌≡◌, refl, ap, sym, subst, ◌∙◌, Bool, true, false,
  ◌&&◌, List, [], ◌∷◌, length, ok, panic, loops, ◌>>=◌, ltb, leb, ◌||◌, ◌-◌, arith, ◌==◌,
  if◌then◌else◌, Bool-cases, inl, inr, none, some, Option,
}
use oshard.Spinlock.{Cpu, Spinlock, is_cpu, push_off, pop_off, holding, acquire, release}
use oshard.Spinlock.Nesting.{unlocked, locked_by}

-- The cpus by their numbers, and the locks.
pub record Machine : Type 0 where
  pub cpu : ℕ → Cpu
  pub locks : List Spinlock

abbrev pub set_cpu : (ℕ → Cpu) → ℕ → Cpu → ℕ → Cpu
set_cpu f h c i = if i == h then c else f i

-- One lock of the list becomes another.
pub data Turns (lk lk' : Spinlock) : List Spinlock → List Spinlock → Type 0 where
  here : {ls : List Spinlock} → Turns lk lk' (lk ∷ ls) (lk' ∷ ls)
  there :
      {l : Spinlock} {ls ls' : List Spinlock}
      → Turns lk lk' ls ls'
      → Turns lk lk' (l ∷ ls) (l ∷ ls')

-- Cpu `h` takes a lock or gives one back, or outside of all sections turns interrupts on or off.
pub data Step : Machine → Machine → Type 0 where
  acquires :
      {m : Machine} {lk lk' : Spinlock} {ls : List Spinlock} {c : Cpu} (h : ℕ)
      → Turns lk lk' m.locks ls
      → acquire (m.cpu h) lk ≡ ok (c, lk')
      → Step m (record { cpu = set_cpu m.cpu h c; locks = ls })
  releases :
      {m : Machine} {lk lk' : Spinlock} {ls : List Spinlock} {c : Cpu} (h : ℕ)
      → Turns lk lk' m.locks ls
      → release (m.cpu h) lk ≡ ok (c, lk')
      → Step m (record { cpu = set_cpu m.cpu h c; locks = ls })
  enables :
      {m : Machine} (h : ℕ) (b : Bool)
      → (m.cpu h).noff ≡ 0
      → Step m (record m { cpu = set_cpu m.cpu h (record (m.cpu h) { intr = b }) })

pub data Reach : Machine → Machine → Type 0 where
  start : {m : Machine} → Reach m m
  after : {m n k : Machine} → Reach m n → Step n k → Reach m k

-- 1 when cpu `h` holds the lock
abbrev pub holds : ℕ → Spinlock → ℕ
holds h lk = if lk.locked && is_cpu lk.cpu h then 1 else 0

-- how many of the locks cpu `h` holds
unfoldable pub held : ℕ → List Spinlock → ℕ
held h [] = 0
held h (lk ∷ ls) = holds h lk + held h ls

-- Each cpu counts the locks that it holds, and while it holds one its interrupts are off.
pub record IsGuarded (m : Machine) : Type 0 where
  pub ids : (h : ℕ) → (m.cpu h).id ≡ h
  pub depth : (h : ℕ) → (m.cpu h).noff ≡ held h m.locks
  pub quiet : (h : ℕ) → 0 < held h m.locks → (m.cpu h).intr ≡ false
  pub few : length m.locks + 1 < 2 ^ 31

held-length : (h : ℕ) (ls : List Spinlock) → held h ls ≤ length ls
unfolding held
held-length h [] = omega arith
held-length h (lk ∷ ls) =
    let e = held-length h ls in
    elim (Bool-cases (lk.locked && is_cpu lk.cpu h)) [
      | inl t ↦ rw t (omega arith)
      | inr f ↦ rw f (omega arith)
    ]

Turns-held :
    {lk lk' : Spinlock} {ls ls' : List Spinlock} (h : ℕ)
    → Turns lk lk' ls ls'
    → (held h ls' + holds h lk ≡ held h ls + holds h lk') × (length ls' ≡ length ls)
unfolding held
Turns-held h here = (omega arith, refl)
Turns-held h (there t) = let (e, same) = Turns-held h t in (omega (arith, e), ap suc same)

push_off-id : (c : Cpu) → (push_off c).id ≡ c.id
unfolding push_off
push_off-id c = ground arith

push_off_lem :
    (c : Cpu)
    → c.noff + 1 < 2 ^ 31
    → ((push_off c).noff ≡ c.noff + 1) × ((push_off c).intr ≡ false) × ((push_off c).id ≡ c.id)
unfolding push_off
push_off_lem c small = ground arith

-- what a successful `acquire` has done
acquire_inv :
    (c c' : Cpu) (lk lk' : Spinlock)
    → acquire c lk ≡ ok (c', lk')
    → (lk.locked ≡ false) × (push_off c ≡ c') × (locked_by c.id ≡ lk')
unfolding acquire
acquire_inv c c' lk lk' e = elim (Bool-cases (holding (push_off c) lk)) [
  | inl own ↦ absurd (let f : panic "acquire" ≡ ok (c', lk') = rw own at e in cc f)
  | inr other ↦ elim (Bool-cases lk.locked) [
    | inl busy ↦ absurd (let f : loops ≡ ok (c', lk') = rw (other, busy) at e in cc f)
    | inr free ↦
        let f : ok (push_off c, locked_by (push_off c).id) ≡ ok (c', lk') = rw (other, free) at e in
        let g : locked_by (push_off c).id ≡ lk' = cc f in
        (free, cc f, ap locked_by (sym (push_off-id c)) ∙ g)
  ]
]

release_inv :
    (c c' : Cpu) (lk lk' : Spinlock)
    → release c lk ≡ ok (c', lk')
    → (holding c lk ≡ true) × (pop_off c ≡ ok c') × (unlocked ≡ lk')
unfolding release
release_inv c c' lk lk' e = elim (Bool-cases (holding c lk)) [
  | inr other ↦ absurd (let f : panic "release" ≡ ok (c', lk') = rw other at e in cc f)
  | inl own ↦
      let f : (pop_off c >>= λ c1. ok (c1, unlocked)) ≡ ok (c', lk') = rw own at e in
      let (c1, e1, rest) = bind_ok (pop_off c) (λ c1. ok (c1, unlocked)) f in
      let g : c1 ≡ c' = cc rest in (own, e1 ∙ ap ok g, cc rest)
]

ok_inj : {A : Type 0} {x y : A} → ok x ≡ ok y → x ≡ y
ok_inj e = cc e

pop_off_inv :
    (c c' : Cpu)
    → pop_off c ≡ ok c'
    → (c'.id ≡ c.id) × (c'.noff + 1 ≡ c.noff) × (0 < c'.noff → c'.intr ≡ c.intr)
unfolding pop_off
pop_off_inv c c' e =
    let (off, e1) = guard_ok c.intr _ _ e in
    let (low, e2) = guard_ok (ltb c.noff 1 || leb (2 ^ 31) c.noff) _ _ e1 in
    subst (λ x. (x.id ≡ c.id) × (x.noff + 1 ≡ c.noff) × (0 < x.noff → x.intr ≡ c.intr)) (ok_inj e2)
      (let pos : 0 < c.noff = ground (arith, low) in
        elim (Bool-cases ((c.noff - 1 == 0) && c.intena)) [
          | inl last ↦ rw last (refl, omega arith, λ p. absurd (ground (arith, last, p)))
          | inr deep ↦ rw deep (refl, omega arith, λ p. refl)
        ])

holds_free : (h : ℕ) (lk : Spinlock) → lk.locked ≡ false → holds h lk ≡ 0
holds_free h lk e = rw e

holds_by : (h i : ℕ) → holds i (locked_by h) ≡ (if i == h then 1 else 0)
holds_by h i = ground arith

is_cpu_own : (h i : ℕ) (o : Option ℕ) → is_cpu o h ≡ true → is_cpu o i ≡ (i == h)
is_cpu_own h i none e = absurd (cc e)
is_cpu_own h i (some n) e = ground arith

holds_own :
    (h i : ℕ) (lk : Spinlock) (c : Cpu)
    → c.id ≡ h
    → holding c lk ≡ true
    → holds i lk ≡ (if i == h then 1 else 0)
unfolding holding
holds_own h i lk c e own =
    let mine : lk.locked && is_cpu lk.cpu h ≡ true =
      subst (λ j. lk.locked && is_cpu lk.cpu j ≡ true) e own in
    elim (Bool-cases lk.locked) [
      | inl t ↦
          rw (t, is_cpu_own h i lk.cpu (let f : is_cpu lk.cpu h ≡ true = rw t at mine in f)) refl
      | inr f ↦ absurd (let g : false ≡ true = rw f at mine in cc g)
    ]

-- A lock of cpu `h` more or less, and its count with it.
turned-IsGuarded :
    (m : Machine) (h : ℕ) (c : Cpu) (lk lk' : Spinlock) (ls : List Spinlock)
    → IsGuarded m
    → Turns lk lk' m.locks ls
    → c.id ≡ h
    → ((i : ℕ) → (i == h) ≡ false → holds i lk' ≡ holds i lk)
    → c.noff + holds h lk ≡ (m.cpu h).noff + holds h lk'
    → (0 < c.noff → c.intr ≡ false)
    → IsGuarded (record { cpu = set_cpu m.cpu h c; locks = ls })
turned-IsGuarded m h c lk lk' ls w t same others count off =
    let own : (i : ℕ) → (i == h) ≡ true → i ≡ h = λ i e. ground arith in
    let moved : (i : ℕ) → (i == h) ≡ false → held i ls ≡ held i m.locks =
      λ i e. (let (k, len) = Turns-held i t in let o = others i e in omega (arith, k, o)) in
    let mine : c.noff ≡ held h ls =
      (let (k, len) = Turns-held h t in let d = w.depth h in omega (arith, k, d)) in
    record {
      ids = λ i. elim (Bool-cases (i == h)) [
        | inl e ↦ rw e (same ∙ sym (own i e))
        | inr e ↦ rw e (w.ids i)
      ];
      depth = λ i. elim (Bool-cases (i == h)) [
        | inl e ↦ rw e (mine ∙ ap (λ j. held j ls) (sym (own i e)))
        | inr e ↦ rw e (w.depth i ∙ sym (moved i e))
      ];
      quiet = λ i some_held. elim (Bool-cases (i == h)) [
        | inl e ↦
            rw e (off (subst (λ n. 0 < n) (ap (λ j. held j ls) (own i e) ∙ sym mine) some_held))
        | inr e ↦ rw e (w.quiet i (subst (λ n. 0 < n) (moved i e) some_held))
      ];
      few = (let (k, len) = Turns-held h t in let f = w.few in omega (arith, len, f));
    }

acquires-IsGuarded :
    (m : Machine) (h : ℕ) (c : Cpu) (lk lk' : Spinlock) (ls : List Spinlock)
    → IsGuarded m
    → Turns lk lk' m.locks ls
    → acquire (m.cpu h) lk ≡ ok (c, lk')
    → IsGuarded (record { cpu = set_cpu m.cpu h c; locks = ls })
acquires-IsGuarded m h c lk lk' ls w t e =
    let (free, pushed, by) = acquire_inv (m.cpu h) c lk lk' e in
    let mine : locked_by h ≡ lk' = ap locked_by (sym (w.ids h)) ∙ by in
    let small = held-length h m.locks in
    let (one, off, same) =
      push_off_lem (m.cpu h) (let d = w.depth h in let f = w.few in omega (arith, d, f, small)) in
    turned-IsGuarded m h c lk lk' ls w t (sym (ap (λ x. x.id) pushed) ∙ same ∙ w.ids h)
      (λ i e. ap (holds i) (sym mine) ∙ holds_by h i ∙ rw e (sym (holds_free i lk free)))
      (let a = holds_free h lk free in
        let b : holds h lk' ≡ 1 = ap (holds h) (sym mine) ∙ holds_by h h ∙ ground arith in
        let d = ap (λ x. x.noff) pushed in omega (arith, a, b, d, one))
      (λ p. sym (ap (λ x. x.intr) pushed) ∙ off)

releases-IsGuarded :
    (m : Machine) (h : ℕ) (c : Cpu) (lk lk' : Spinlock) (ls : List Spinlock)
    → IsGuarded m
    → Turns lk lk' m.locks ls
    → release (m.cpu h) lk ≡ ok (c, lk')
    → IsGuarded (record { cpu = set_cpu m.cpu h c; locks = ls })
releases-IsGuarded m h c lk lk' ls w t e =
    let (own, popped, free) = release_inv (m.cpu h) c lk lk' e in
    let (same, less, keeps) = pop_off_inv (m.cpu h) c popped in
    let had : (i : ℕ) → holds i lk ≡ (if i == h then 1 else 0) =
      λ i. holds_own h i lk (m.cpu h) (w.ids h) own in
    let none_now : (i : ℕ) → holds i lk' ≡ 0 = λ i. ap (holds i) (sym free) in
    turned-IsGuarded m h c lk lk' ls w t (same ∙ w.ids h)
      (λ i e. none_now i ∙ sym (had i ∙ rw e refl))
      (let a = none_now h in
        let b : holds h lk ≡ 1 = had h ∙ ground arith in omega (arith, a, b, less))
      (λ p. keeps p ∙ w.quiet h (let d = w.depth h in omega (arith, p, less, d)))

enables-IsGuarded :
    (m : Machine) (h : ℕ) (b : Bool)
    → IsGuarded m
    → (m.cpu h).noff ≡ 0
    → IsGuarded (record m { cpu = set_cpu m.cpu h (record (m.cpu h) { intr = b }) })
enables-IsGuarded m h b w outside = record {
  ids = λ i. elim (Bool-cases (i == h)) [
    | inl e ↦ rw e (w.ids h ∙ sym (let f : i ≡ h = ground arith in f))
    | inr e ↦ rw e (w.ids i)
  ];
  depth = λ i. elim (Bool-cases (i == h)) [
    | inl e ↦ rw e (w.depth h ∙ ap (λ j. held j m.locks) (sym (let f : i ≡ h = ground arith in f)))
    | inr e ↦ rw e (w.depth i)
  ];
  quiet = λ i some_held. elim (Bool-cases (i == h)) [
    | inl e ↦ absurd (
        let f : i ≡ h = ground arith in
        let d = w.depth h in
        let n : held i m.locks ≡ held h m.locks = ap (λ j. held j m.locks) f in
        omega (arith, some_held, d, outside, n))
    | inr e ↦ rw e (w.quiet i some_held)
  ];
  few = w.few;
}

Step-IsGuarded : {m n : Machine} → Step m n → IsGuarded m → IsGuarded n
Step-IsGuarded (acquires {m} {lk} {lk'} {ls} {c} h t e) w = acquires-IsGuarded m h c lk lk' ls w t e
Step-IsGuarded (releases {m} {lk} {lk'} {ls} {c} h t e) w = releases-IsGuarded m h c lk lk' ls w t e
Step-IsGuarded (enables {m} h b outside) w = enables-IsGuarded m h b w outside

reached-IsGuarded : {m n : Machine} → Reach m n → IsGuarded m → IsGuarded n
reached-IsGuarded start w = w
reached-IsGuarded (after r s) w = Step-IsGuarded s (reached-IsGuarded r w)

pop_off_inside :
    (c : Cpu) → 0 < c.noff → c.noff < 2 ^ 31 → c.intr ≡ false → (d : Cpu) × (pop_off c ≡ ok d)
unfolding pop_off
pop_off_inside c pos small off =
    let low : ltb c.noff 1 || leb (2 ^ 31) c.noff ≡ false = ground arith in
    let d = record c { noff = c.noff - 1 } in
    ((if (d.noff == 0) && d.intena then record d { intr = true } else d), rw (off, low) refl)

-- A cpu can give back every lock that it holds.
release_runs :
    {m : Machine} {lk : Spinlock} {ls : List Spinlock} (h : ℕ)
    → IsGuarded m
    → Turns lk unlocked m.locks ls
    → holding (m.cpu h) lk ≡ true
    → (c : Cpu) × (release (m.cpu h) lk ≡ ok (c, unlocked))
unfolding release
release_runs {m} {lk} h w t own =
    let (k, len) = Turns-held h t in
    let one : holds h lk ≡ 1 = holds_own h h lk (m.cpu h) (w.ids h) own ∙ ground arith in
    let some_held : 0 < held h m.locks = omega (arith, k, one) in
    let d = w.depth h in
    let f = w.few in
    let small = held-length h m.locks in
    let (c, e) =
      pop_off_inside (m.cpu h) (omega (arith, d, some_held)) (omega (arith, d, f, small))
        (w.quiet h some_held) in
    (c, rw (own, e) refl)

-- Let any cpus take locks and give them back, and turn interrupts on and off outside of all
-- sections, from a state in which each cpu counts the locks that it holds, has its interrupts off
-- while it holds one, and bears its own number, with fewer than 2 ^ 31 - 1 locks. Every state that
-- they lead to is such a state, and in it each release of a lock by the cpu that holds it goes
-- through.
pub Reach-IsGuarded :
    {m n : Machine}
    → Reach m n
    → IsGuarded m
    → IsGuarded n
      × ((h : ℕ) (lk : Spinlock) (ls : List Spinlock)
          → Turns lk unlocked n.locks ls
          → holding (n.cpu h) lk ≡ true
          → (c : Cpu) × (release (n.cpu h) lk ≡ ok (c, unlocked)))
Reach-IsGuarded r w =
    let w' = reached-IsGuarded r w in (w', λ h lk ls t own. release_runs h w' t own)
