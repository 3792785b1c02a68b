-- ===== src/Proc/Wait.antt =====
-- What `wait` of kernel/proc.c finds, and does to the tree of processes.
use oshard.Common.{
  ℕ, zero, suc, ◌+◌, ◌≤◌, ◌<◌, ◌≡◌, ◌≢◌, refl, ap, sym, subst, ◌∙◌, Bool, true, false, false≢true,
  ◌&&◌, ◌||◌, none, some, and_true, or_true, Bool-cases, inl, inr, ◌⊎◌, arith,
}
use oshard.Proc.Table.{zombie, is_state, of_proc, Proc, Table, put_proc, nproc, freeproc}
use oshard.Proc.Sleep.{killed}
use oshard.Proc.Life.{
  is_entry, Scan, reaped, bad_address, nothing, wait_scan, after_scan, Waited, returns, fails,
  sleeps, wait,
}
use oshard.Proc.Tree.{
  Life, free, dead, alive, life, life_of, IsTree, is_state_eq, number_cases, put_proc_self,
  put_proc_ne,
}

-- a dead child given back
freed-IsTree :
    (t : Table) (i : ℕ)
    → IsTree t
    → life_of t i ≡ dead
    → IsTree (put_proc t i (freeproc (t.proc i)))
unfolding freeproc
freed-IsTree t i w d = record {
  init = w.init;
  is_init = w.is_init;
  init_alive = stays w.init w.init_alive;
  bound = λ a h. elim (number_cases a i) [
    | inl e ↦ at_i a e
    | inr ne ↦ ap life_q (away a ne) ∙ w.bound a h
  ];
  parents = λ a j e. elim (number_cases a i) [
    | inl h ↦ absurd (let g : none ≡ some j = sym (ap (λ q. q.parent) (here a h)) ∙ e in cc g)
    | inr ne ↦ stays j (w.parents a j (sym (ap (λ q. q.parent) (away a ne)) ∙ e))
  ];
  raised = λ a n ne e.
      let m = moved a n in w.raised a (was a n) ne (sym (ap (λ q. q.parent) (away a m)) ∙ e);
  blank = λ a z. elim (number_cases a i) [
    | inl e ↦ (ap (λ q. q.pid) (here a e), ap (λ q. q.parent) (here a e))
    | inr ne ↦
        let (p, q) = w.blank a (sym (ap life_q (away a ne)) ∙ z) in
        (ap (λ q. q.pid) (away a ne) ∙ p, ap (λ q. q.parent) (away a ne) ∙ q)
  ];
  numbered = λ a n.
      let (p, q) = w.numbered a (was a n) in
      let e = ap (λ q. q.pid) (away a (moved a n)) in (omega (arith, e, p), omega (arith, e, q));
  different = λ a b n m e.
      w.different a b (was a n) (was b m)
        (sym (ap (λ q. q.pid) (away a (moved a n))) ∙ e ∙ ap (λ q. q.pid) (away b (moved b m)));
}
  where
    life_q : Proc → Life
    life_q q = life q.state

    u : Table
    u = put_proc t i (freeproc (t.proc i))

    here : (a : ℕ) → a ≡ i → u.proc a ≡ freeproc (t.proc i)
    here a e = ap u.proc e ∙ put_proc_self t i (freeproc (t.proc i))

    away : (a : ℕ) → a ≢ i → u.proc a ≡ t.proc a
    away a ne = put_proc_ne t i (freeproc (t.proc i)) a ne

    at_i : (a : ℕ) → a ≡ i → life_of u a ≡ free
    at_i a e = ap life_q (here a e)

    stays : (j : ℕ) → life_of t j ≡ alive → life_of u j ≡ alive
    stays j al =
        ap life_q
          (away j (λ e. (let g : dead ≡ alive = sym d ∙ ap (life_of t) (sym e) ∙ al in cc g)))
        ∙ al

    moved : (a : ℕ) → life_of u a ≢ free → a ≢ i
    moved a n e = n (at_i a e)

    was : (a : ℕ) → life_of u a ≢ free → life_of t a ≢ free
    was a n z = n (ap life_q (away a (moved a n)) ∙ z)

-- Entry `a` is a child of `me`.
abbrev pub is_child : Table → ℕ → ℕ → Bool
is_child t me a = is_entry (t.proc a).parent me

-- What the scan from entry `i` on may end with.
ScanEnds : ℕ → Table → ℕ → Bool → Bool → ℕ → Scan → Type 0
ScanEnds rounds t me copied havekids i (reaped pid t') =
    (copied ≡ true)
    × (j : ℕ) × (is_child t me j ≡ true)
    × ((t.proc j).state ≡ zombie)
    × (pid ≡ (t.proc j).pid)
    × (t' ≡ put_proc t j (freeproc (t.proc j)))
ScanEnds rounds t me copied havekids i bad_address =
    (copied ≡ false) × (j : ℕ) × (is_child t me j ≡ true) × ((t.proc j).state ≡ zombie)
ScanEnds rounds t me copied havekids i (nothing kids) =
    ((a : ℕ) → i ≤ a → a < i + rounds → is_child t me a ≡ true → (t.proc a).state ≢ zombie)
    × (kids ≡ true → (havekids ≡ true) ⊎ ((a : ℕ) × (is_child t me a ≡ true)))
    × ((a : ℕ) → i ≤ a → a < i + rounds → is_child t me a ≡ true → kids ≡ true)
    × (havekids ≡ true → kids ≡ true)

ScanEnds-suc :
    (rounds : ℕ) (t : Table) (me : ℕ) (copied havekids : Bool) (i : ℕ) (r : Scan)
    → (is_child t me i && is_state (t.proc i).state zombie) ≡ false
    → ScanEnds rounds t me copied (havekids || is_child t me i) (i + 1) r
    → ScanEnds (suc rounds) t me copied havekids i r
unfolding ScanEnds
ScanEnds-suc rounds t me copied havekids i (reaped pid t') h s = s
ScanEnds-suc rounds t me copied havekids i bad_address h s = s
ScanEnds-suc rounds t me copied havekids i (nothing kids) h
      (none_dead, some_kid, all_kids, before) =
    (
      λ a lo hi c z. elim (number_cases a i) [
        | inl e ↦
            let c' : is_child t me i ≡ true = ap (is_child t me) (sym e) ∙ c in
            let z' : is_state (t.proc i).state zombie ≡ true =
              ap (λ x. is_state (t.proc x).state zombie) (sym e) ∙ ap (λ s. is_state s zombie) z in
            let n : true ≡ false = rw (c', z') at h in cc n
        | inr ne ↦ none_dead a (omega arith) (omega arith) c z
      ],
      λ k. elim (some_kid k) [
        | inl both ↦ elim (Bool-cases havekids) [
          | inl had ↦ inl had
          | inr fresh ↦ inr (i, rw fresh at both)
        ]
        | inr other ↦ inr other
      ],
      λ a lo hi c. elim (number_cases a i) [
        | inl e ↦
            (let c' : is_child t me i ≡ true = ap (is_child t me) (sym e) ∙ c in
              before (rw c' (or_true havekids)))
        | inr ne ↦ all_kids a (omega arith) (omega arith) c
      ],
      λ had. before (rw had),
    )

wait_scan-ScanEnds :
    (rounds : ℕ) (t : Table) (me : ℕ) (copied havekids : Bool) (i : ℕ)
    → ScanEnds rounds t me copied havekids i (wait_scan rounds t me copied havekids i)
unfolding wait_scan ScanEnds
wait_scan-ScanEnds zero t me copied havekids i =
    (λ a lo hi. absurd (omega arith), λ k. inl k, λ a lo hi. absurd (omega arith), λ k. k)
wait_scan-ScanEnds (suc rounds) t me copied havekids i =
    elim (Bool-cases (is_child t me i && is_state (t.proc i).state zombie)) [
      | inl h ↦
          let (c, z) = and_true (is_child t me i) (is_state (t.proc i).state zombie) h in
          elim (Bool-cases copied) [
            | inl y ↦ rw (h, y) (refl, i, c, is_state_eq (t.proc i).state zombie z, refl, refl)
            | inr n ↦ rw (h, n) (refl, i, c, is_state_eq (t.proc i).state zombie z)
          ]
      | inr h ↦ rw h (
          ScanEnds-suc rounds t me copied havekids i
            (wait_scan rounds t me copied (havekids || is_child t me i) (i + 1)) h
            (wait_scan-ScanEnds rounds t me copied (havekids || is_child t me i) (i + 1)))
    ]

-- No child of `me` is dead.
abbrev pub NoneDead : Table → ℕ → Type 0
NoneDead t me = (a : ℕ) → a < nproc → is_child t me a ≡ true → (t.proc a).state ≢ zombie

-- What `wait` may come to: with `copyout` good, the pid of a dead child, whose entry is given back; -1,
-- with a dead child and `copyout` bad, or with none and no child at all or the process killed; or a
-- `sleep` with a child and none dead.
unfoldable pub WaitEnds : Table → ℕ → Bool → Waited → Type 0
WaitEnds t me copied (returns pid t') =
    (copied ≡ true)
    × (j : ℕ) × (is_child t me j ≡ true)
    × ((t.proc j).state ≡ zombie)
    × (pid ≡ (t.proc j).pid)
    × (t' ≡ put_proc t j (freeproc (t.proc j)))
WaitEnds t me copied fails =
    ((copied ≡ false) × (j : ℕ) × (is_child t me j ≡ true) × ((t.proc j).state ≡ zombie))
    ⊎ (NoneDead t me
        × (((a : ℕ) → a < nproc → is_child t me a ≡ false) ⊎ ((t.proc me).killed ≡ true)))
WaitEnds t me copied (sleeps c) =
    (c ≡ of_proc me)
    × NoneDead t me
    × ((a : ℕ) × (is_child t me a ≡ true))
    × ((t.proc me).killed ≡ false)

wait_after :
    (t : Table) (me : ℕ) (copied : Bool) (r : Scan)
    → ScanEnds nproc t me copied false 0 r
    → WaitEnds t me copied (after_scan t me r)
unfolding after_scan ScanEnds WaitEnds killed
wait_after t me copied (reaped pid t') s = s
wait_after t me copied bad_address s = inl s
wait_after t me copied (nothing false) (none_dead, some_kid, all_kids, before) = inr (
  λ a lt. none_dead a (omega arith) (omega arith),
  inl λ a lt. elim (Bool-cases (is_child t me a)) [
    | inl y ↦ absurd (false≢true (all_kids a (omega arith) (omega arith) y))
    | inr n ↦ n
  ],
)
wait_after t me copied (nothing true) (none_dead, some_kid, all_kids, before) =
    elim (Bool-cases (t.proc me).killed) [
      | inl k ↦ rw k (inr (λ a lt. none_dead a (omega arith) (omega arith), inr k))
      | inr k ↦ rw k (
        refl,
        λ a lt. none_dead a (omega arith) (omega arith),
        elim (some_kid refl) [ inl z ↦ absurd (false≢true z) | inr x ↦ x ],
        k,
      )
    ]

-- wait returns the pid of a dead child, whose entry it gives back, when copyout succeeds; or it
-- fails, with a dead child when copyout fails, or with no dead child when the process has no child
-- or is killed; or it sleeps on itself with a child, none of them dead, and not killed.
pub wait-WaitEnds : (t : Table) (me : ℕ) (copied : Bool) → WaitEnds t me copied (wait t me copied)
unfolding wait
wait-WaitEnds t me copied =
    wait_after t me copied (wait_scan nproc t me copied false 0)
      (wait_scan-ScanEnds nproc t me copied false 0)

pub wait-IsTree :
    (t : Table) (me : ℕ) (copied : Bool) (pid : ℕ) (t' : Table)
    → IsTree t
    → wait t me copied ≡ returns pid t'
    → IsTree t'
unfolding WaitEnds
wait-IsTree t me copied pid t' w e =
    let (good, j, child, dead_one, same, left) : WaitEnds t me copied (returns pid t') =
      subst (WaitEnds t me copied) e (wait-WaitEnds t me copied) in
    subst IsTree (sym left) (freed-IsTree t j w (ap life dead_one))
