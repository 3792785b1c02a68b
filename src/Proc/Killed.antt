-- ===== src/Proc/Killed.antt =====
-- `kill` of kernel/proc.c on pid 0, the pid of free entries.
use oshard.Common.{
  ℕ, zero, suc, ◌+◌, ◌≡◌, refl, ap, sym, subst, ◌∙◌, Bool, true, false, some, ◌==◌, Bool-cases, inl,
  inr, arith,
}
use oshard.Proc.Table.{
  State, unused, used, sleeping, runnable, running, zombie, is_state, Table, put_proc, nproc,
  find_unused, fill_entry, allocproc,
}
use oshard.Proc.Sleep.{kill_loop, kill}
use oshard.Proc.Tree.{free, life, IsTree, is_state_eq, put_proc_self}

free-unused : (s : State) → is_state s unused ≡ false → life s ≡ free → ⊥
free-unused unused h e = cc h
free-unused used h e = cc e
free-unused sleeping h e = cc e
free-unused runnable h e = cc e
free-unused running h e = cc e
free-unused zombie h e = cc e

-- pid 0 is that of the free entries
pid_zero : (t : Table) (a : ℕ) → IsTree t → ((t.proc a).pid == 0) ≡ is_state (t.proc a).state unused
pid_zero t a w = elim (Bool-cases (is_state (t.proc a).state unused)) [
  | inl h ↦
      let s = is_state_eq (t.proc a).state unused h in
      let z = (w.blank a (ap life s)).0 in
      let z' : ((t.proc a).pid == 0) ≡ true = ground (arith, z) in z' ∙ sym h
  | inr h ↦
      let p = (w.numbered a (free-unused (t.proc a).state h)).0 in
      let z' : ((t.proc a).pid == 0) ≡ false = ground (arith, p) in z' ∙ sym h
]

kill_loop-zero :
    (rounds : ℕ) (t : Table) (i j : ℕ)
    → IsTree t
    → find_unused rounds t i ≡ some j
    → kill_loop rounds t 0 i ≡ (true, put_proc t j (record (t.proc j) { killed = true }))
unfolding kill_loop find_unused
kill_loop-zero zero t i j w e = absurd (cc e)
kill_loop-zero (suc rounds) t i j w e = elim (Bool-cases (is_state (t.proc i).state unused)) [
  | inl h ↦
      let f : some i ≡ some j = rw h at e in
      let g : i ≡ j = cc f in
      let s = is_state_eq (t.proc i).state unused h in
      let awake : is_state (t.proc i).state sleeping ≡ false = ap (λ s. is_state s sleeping) s in
      let z = pid_zero t i w ∙ h in
      subst
        (λ j.
          kill_loop (suc rounds) t 0 i ≡ (true, put_proc t j (record (t.proc j) { killed = true })))
        g (rw (z, awake) refl)
  | inr h ↦
      let z = pid_zero t i w ∙ h in
      let f : find_unused rounds t (i + 1) ≡ some j = rw h at e in
      rw z (kill_loop-zero rounds t (i + 1) j w f)
]

find_unused_cong :
    (rounds : ℕ) (t t' : Table) (i : ℕ)
    → ((a : ℕ) → (t'.proc a).state ≡ (t.proc a).state)
    → find_unused rounds t' i ≡ find_unused rounds t i
unfolding find_unused
find_unused_cong zero t t' i e = refl
find_unused_cong (suc rounds) t t' i e = rw (e i, find_unused_cong rounds t t' (i + 1) e)

state-marked :
    (t : Table) (i a : ℕ)
    → ((put_proc t i (record (t.proc i) { killed = true })).proc a).state ≡ (t.proc a).state
state-marked t i a = elim (Bool-cases (a == i)) [
  | inl h ↦ (let e : i ≡ a = ground arith in rw h (ap (λ x. (t.proc x).state) e))
  | inr h ↦ rw h
]

killed-fill_entry :
    (t : Table) (i forkret frame pages : ℕ)
    → ((fill_entry t forkret (some frame) (some pages) (some i)).1.proc i).killed
      ≡ (t.proc i).killed
unfolding fill_entry
killed-fill_entry t i forkret frame pages = let e : (i == i) ≡ true = ground arith in rw e

fill_entry-some :
    (t : Table) (i forkret frame pages : ℕ)
    → (fill_entry t forkret (some frame) (some pages) (some i)).0 ≡ some i
unfolding fill_entry
fill_entry-some t i forkret frame pages = refl

kill_zero :
    (t : Table) (i : ℕ)
    → IsTree t
    → find_unused nproc t 0 ≡ some i
    → kill t 0 ≡ (true, put_proc t i (record (t.proc i) { killed = true }))
unfolding kill
kill_zero t i w e = kill_loop-zero nproc t 0 i w e

-- `allocproc` on the first free entry keeps its mark.
marked_entry :
    (t : Table) (i forkret frame pages : ℕ)
    → find_unused nproc t 0 ≡ some i
    → ((allocproc t forkret (some frame) (some pages)).0 ≡ some i)
      × (((allocproc t forkret (some frame) (some pages)).1.proc i).killed ≡ (t.proc i).killed)
unfolding allocproc
marked_entry t i forkret frame pages f = (
  ap (λ o. (fill_entry t forkret (some frame) (some pages) o).0) f
      ∙ fill_entry-some t i forkret frame pages,
  ap (λ o. ((fill_entry t forkret (some frame) (some pages) o).1.proc i).killed) f
      ∙ killed-fill_entry t i forkret frame pages,
)

-- In a table in order with a free entry, kill of pid 0 succeeds and marks the first free entry as
-- killed, and an allocproc that gets its memory then gives that entry, marked, to the next process.
pub kill_zero-allocproc :
    (t : Table) (i forkret frame pages : ℕ)
    → IsTree t
    → find_unused nproc t 0 ≡ some i
    → let t1 = (kill t 0).1 in
      ((kill t 0).0 ≡ true)
      × ((allocproc t1 forkret (some frame) (some pages)).0 ≡ some i)
      × (((allocproc t1 forkret (some frame) (some pages)).1.proc i).killed ≡ true)
kill_zero-allocproc t i forkret frame pages w e =
    let k = kill_zero t i w e in
    let t1 = put_proc t i (record (t.proc i) { killed = true }) in
    let found : find_unused nproc t1 0 ≡ some i =
      find_unused_cong nproc t t1 0 (state-marked t i) ∙ e in
    let (given, marked) = marked_entry t1 i forkret frame pages found in
    (
      ap (λ r. r.0) k,
      ap (λ (r : Bool × Table). (allocproc r.1 forkret (some frame) (some pages)).0) k ∙ given,
      ap (λ (r : Bool × Table). ((allocproc r.1 forkret (some frame) (some pages)).1.proc i).killed)
            k
          ∙ marked
          ∙ ap (λ p. p.killed) (put_proc_self t i (record (t.proc i) { killed = true })),
    )
