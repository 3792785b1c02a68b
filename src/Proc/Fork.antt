-- ===== src/Proc/Fork.antt =====
-- What `fork` of kernel/proc.c do to the tree of processes.
use oshard.Common.{
  ◌^◌, ◌<◌, ◌+◌, arith, ℕ, ◌+◌, ◌≡◌, ◌≢◌, refl, ap, sym, subst, ◌∙◌, Bool, true, false, List, [],
  ◌∷◌, Option, none, some, ok, bind_ok, guard_ok, ◌==◌, if◌then◌else◌, inl, inr,
}
use oshard.Proc.Table.{Proc, Table, put_proc, allocproc, freeproc}
use oshard.Proc.Life.{dup_one, dup_files, idup, fork_into, fork, child_of, raise_child}
use oshard.Proc.Tree.{
  free, alive, life, life_of, IsTree, IsTree-IsAlike, number_cases, put_proc_self, put_proc_ne,
}
use oshard.Proc.Born.{born, bumped, IsAllocated, allocproc-IsAllocated}

dup_files_lem :
    (t : Table) (fs : List (Option ℕ)) (t' : Table)
    → dup_files t fs ≡ ok t'
    → (t'.proc ≡ t.proc) × (t'.nextpid ≡ t.nextpid) × (t'.initproc ≡ t.initproc)
unfolding dup_files
dup_files_lem t [] t' e =
    let g : t ≡ t' = cc e in
    (ap (λ t. t.proc) (sym g), ap (λ t. t.nextpid) (sym g), ap (λ t. t.initproc) (sym g))
dup_files_lem t (none ∷ fs) t' e = dup_files_lem t fs t' e
dup_files_lem t (some f ∷ fs) t' e =
    let (t1, ran, later) = bind_ok (dup_one t (some f)) (λ t1. dup_files t1 fs) e in
    let more = record t { file_ref = λ g. if g == f then t.file_ref f + 1 else t.file_ref g } in
    let (alive', k) = guard_ok (t.file_ref f == 0) "filedup" (ok more) ran in
    let g : more ≡ t1 = cc k in
    let (p, n, i) = dup_files_lem t1 fs t' later in
    (
      p ∙ ap (λ t. t.proc) (sym g),
      n ∙ ap (λ t. t.nextpid) (sym g),
      i ∙ ap (λ t. t.initproc) (sym g),
    )

idup_lem :
    (t : Table) (cwd : Option ℕ)
    → ((idup t cwd).proc ≡ t.proc)
      × ((idup t cwd).nextpid ≡ t.nextpid)
      × ((idup t cwd).initproc ≡ t.initproc)
idup_lem t none = (refl, refl, refl)
idup_lem t (some ip) = (refl, refl, refl)

-- the entry of `allocproc` made a child
child_born :
    (t t1 t3 : Table) (me i : ℕ) (c : Proc)
    → IsTree t
    → life_of t me ≡ alive
    → IsAllocated t (some i) t1
    → (t3.proc ≡ t1.proc) × (t3.nextpid ≡ t1.nextpid) × (t3.initproc ≡ t1.initproc)
    → life c.state ≡ alive
    → c.pid ≡ (t3.proc i).pid
    → c.parent ≡ some me
    → IsTree (put_proc t3 i c)
unfolding IsAllocated
child_born t t1 t3 me i c w l (f, lt, same_init, next, others, new) (p, n, o) lc pc qc =
    let at_i = put_proc_self t3 i c in
    born t (put_proc t3 i c) me i w l f lt (o ∙ same_init) (n ∙ next)
      (λ a ne.
        let same = put_proc_ne t3 i c a ne ∙ ap (λ g. g a) p ∙ others a ne in
        (ap (λ q. life q.state) same, ap (λ q. q.pid) same, ap (λ q. q.parent) same))
      (
        ap (λ q. life q.state) at_i ∙ lc,
        ap (λ q. q.pid) at_i ∙ pc ∙ ap (λ g. (g i).pid) p ∙ new,
        ap (λ q. q.parent) at_i ∙ qc,
      )

-- the entry of `allocproc` given back
child_lost :
    (t t1 : Table) (i : ℕ) (p : Proc)
    → t.nextpid + 1 < 2 ^ 31
    → IsTree t
    → IsAllocated t (some i) t1
    → (life p.state ≡ free) × (p.pid ≡ 0) × (p.parent ≡ none)
    → IsTree (put_proc t1 i p)
unfolding IsAllocated
child_lost t t1 i p room w (f, lt, same_init, next, others, new) (lf, z, o) =
    let (z', o') = w.blank i f in
    let at_i = put_proc_self t1 i p in
    let away : (a : ℕ) → a ≢ i → (put_proc t1 i p).proc a ≡ t.proc a =
      λ a ne. put_proc_ne t1 i p a ne ∙ others a ne in
    IsTree-IsAlike
      (record {
        same_init = same_init;
        same_next = omega (arith, next, room);
        same_life = λ a. elim (number_cases a i) [
          | inl e ↦
              ap (life_of (put_proc t1 i p)) e
              ∙ ap (λ q. life q.state) at_i
              ∙ lf
              ∙ sym f
              ∙ ap (life_of t) (sym e)
          | inr ne ↦ ap (λ q. life q.state) (away a ne)
        ];
        same_pid = λ a. elim (number_cases a i) [
          | inl e ↦
              ap (λ x. ((put_proc t1 i p).proc x).pid) e
              ∙ ap (λ q. q.pid) at_i
              ∙ z
              ∙ sym z'
              ∙ ap (λ x. (t.proc x).pid) (sym e)
          | inr ne ↦ ap (λ q. q.pid) (away a ne)
        ];
        same_parent = λ a. elim (number_cases a i) [
          | inl e ↦
              ap (λ x. ((put_proc t1 i p).proc x).parent) e
              ∙ ap (λ q. q.parent) at_i
              ∙ o
              ∙ sym o'
              ∙ ap (λ x. (t.proc x).parent) (sym e)
          | inr ne ↦ ap (λ q. q.parent) (away a ne)
        ];
      })
      (bumped t room w)

raise_child-IsTree :
    (t t1 : Table) (me i : ℕ) (pid : Option ℕ) (t' : Table)
    → IsTree t
    → life_of t me ≡ alive
    → IsAllocated t (some i) t1
    → raise_child t1 me i ≡ ok (pid, t')
    → IsTree t'
unfolding raise_child IsAllocated
raise_child-IsTree t t1 me i pid t' w l a e =
    let (t2, ran, k) =
      bind_ok (dup_files t1 (t1.proc me).ofile)
        (λ t2.
          let p = t2.proc me in
          let t3 = idup t2 p.cwd in
          ok (some (child_of t3 p me i).pid, put_proc t3 i (child_of t3 p me i)))
        e in
    let t3 = idup t2 (t2.proc me).cwd in
    let c = child_of t3 (t2.proc me) me i in
    let g : put_proc t3 i c ≡ t' = cc k in
    let (p, n, o) = dup_files_lem t1 (t1.proc me).ofile t2 ran in
    let (p', n', o') = idup_lem t2 (t2.proc me).cwd in
    subst IsTree g (child_born t t1 t3 me i c w l a (p' ∙ p, n' ∙ n, o' ∙ o) refl refl refl)

fork_into-IsTree :
    (t t1 : Table) (me : ℕ) (copied : Bool) (np pid : Option ℕ) (t' : Table)
    → t.nextpid + 1 < 2 ^ 31
    → IsTree t
    → life_of t me ≡ alive
    → IsAllocated t np t1
    → fork_into t1 me copied np ≡ ok (pid, t')
    → IsTree t'
unfolding fork_into IsAllocated freeproc
fork_into-IsTree t t1 me copied none pid t' room w l a e =
    let g : t1 ≡ t' = cc e in subst IsTree g a
fork_into-IsTree t t1 me true (some i) pid t' room w l a e =
    raise_child-IsTree t t1 me i pid t' w l a e
fork_into-IsTree t t1 me false (some i) pid t' room w l a e =
    let g : put_proc t1 i (freeproc (t1.proc i)) ≡ t' = cc e in
    subst IsTree g (child_lost t t1 i (freeproc (t1.proc i)) room w a (refl, refl, refl))

-- `fork` keeps the tree, when it fails too.
pub fork-IsTree :
    (t : Table) (me forkret : ℕ) (frame pages : Option ℕ) (copied : Bool) (pid : Option ℕ)
    (t' : Table)
    → t.nextpid + 1 < 2 ^ 31
    → IsTree t
    → life_of t me ≡ alive
    → fork t me forkret frame pages copied ≡ ok (pid, t')
    → IsTree t'
unfolding fork
fork-IsTree t me forkret frame pages copied pid t' room w l e =
    let (np, t1) = allocproc t forkret frame pages in
    fork_into-IsTree t t1 me copied np pid t' room w l
      (allocproc-IsAllocated t forkret frame pages room w) e
