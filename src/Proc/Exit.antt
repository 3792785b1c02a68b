-- ===== src/Proc/Exit.antt =====
-- What `exit` of kernel/proc.c do to the tree of processes.
use oshard.Common.{
  ℕ, zero, suc, ◌+◌, ◌≤◌, ◌≡◌, ◌≢◌, refl, ap, sym, subst, ◌∙◌, Bool, true, false, ◌&&◌, Option,
  none, some, ok, bind_ok, guard_ok, and_false, ◌>>=◌, ◌==◌, leb, ltb, if◌then◌else◌, Bool-cases,
  inl, inr, arith, map,
}
use oshard.Proc.Table.{zombie, Proc, Table, put_proc, nproc}
use oshard.Proc.Sleep.{wakeup}
use oshard.Proc.Life.{
  is_entry, chan_of, reparent_one, reparent_loop, reparent, drop_ref, close_files, exit, bury,
}
use oshard.Proc.Tree.{
  free, dead, alive, life_of, life-put, IsTree, IsAlike, IsAlike-refl, IsAlike-trans,
  IsTree-IsAlike, IsAlike-put, wakeup-IsAlike, same_number, alive-free,
}

-- Entry `a` is one of `rounds` from `i` on.
abbrev in_rounds : ℕ → ℕ → ℕ → Bool
in_rounds i rounds a = leb i a && ltb a (i + rounds)

record IsReparented (rounds : ℕ) (t t' : Table) (me i : ℕ) : Type 0 where
  same_init : t'.initproc ≡ t.initproc
  same_next : t'.nextpid ≡ t.nextpid
  same_life : (a : ℕ) → life_of t' a ≡ life_of t a
  same_pid : (a : ℕ) → (t'.proc a).pid ≡ (t.proc a).pid
  moved :
      (a : ℕ)
      → (t'.proc a).parent ≡ (
          if in_rounds i rounds a && is_entry (t.proc a).parent me
          then t.initproc
          else (t.proc a).parent)

moved_here :
    (t : Table) (me i a : ℕ)
    → is_entry (t.proc i).parent me ≡ true
    → ((put_proc t i (record (t.proc i) { parent = t.initproc })).proc a).parent
      ≡ (if in_rounds i 1 a && is_entry (t.proc a).parent me then t.initproc else (t.proc a).parent)
moved_here t me i a h = elim (Bool-cases (a == i)) [
  | inl hit ↦
      let e : a ≡ i = ground arith in
      let hh : is_entry (t.proc a).parent me ≡ true =
        ap (λ x. is_entry (t.proc x).parent me) e ∙ h in
      let inside : in_rounds i 1 a ≡ true = ground arith in rw (hit, inside, hh)
  | inr miss ↦ let outside : in_rounds i 1 a ≡ false = ground arith in rw (miss, outside)
]

moved_not :
    (t : Table) (me i a : ℕ)
    → is_entry (t.proc i).parent me ≡ false
    → (t.proc a).parent
      ≡ (if in_rounds i 1 a && is_entry (t.proc a).parent me then t.initproc else (t.proc a).parent)
moved_not t me i a h = elim (Bool-cases (a == i)) [
  | inl hit ↦
      let e : a ≡ i = ground arith in
      let hh : is_entry (t.proc a).parent me ≡ false =
        ap (λ x. is_entry (t.proc x).parent me) e ∙ h in
      let inside : in_rounds i 1 a ≡ true = ground arith in rw (inside, hh)
  | inr miss ↦ let outside : in_rounds i 1 a ≡ false = ground arith in rw outside
]

moved_step :
    (i rounds a me : ℕ) (p p' init init' : Option ℕ)
    → init' ≡ init
    → p' ≡ (if in_rounds i 1 a && is_entry p me then init else p)
    → (if in_rounds (i + 1) rounds a && is_entry p' me then init' else p')
      ≡ (if in_rounds i (suc rounds) a && is_entry p me then init else p)
moved_step i rounds a me p p' init init' e m = elim (Bool-cases (a == i)) [
  | inl hit ↦
      let now : in_rounds i 1 a ≡ true = ground arith in
      let later : in_rounds (i + 1) rounds a ≡ false = ground arith in
      let all : in_rounds i (suc rounds) a ≡ true = ground arith in rw (later, all) (rw now at m)
  | inr miss ↦
      let now : in_rounds i 1 a ≡ false = ground arith in
      let same : in_rounds (i + 1) rounds a ≡ in_rounds i (suc rounds) a = ground arith in
      let n : p' ≡ p = rw now at m in rw (same, n, e)
]

reparent_one-IsReparented : (t : Table) (me i : ℕ) → IsReparented 1 t (reparent_one t me i) me i
reparent_one-IsReparented t me i = elim (Bool-cases (is_entry (t.proc i).parent me)) [
  | inl h ↦
      let p = record (t.proc i) { parent = t.initproc } in
      let u = wakeup-IsAlike (put_proc t i p) me (chan_of t.initproc) in
      rw h (record {
        same_init = u.same_init;
        same_next = u.same_next;
        same_life = λ a. u.same_life a ∙ life-put t i p a refl;
        same_pid = λ a. u.same_pid a ∙ ground arith;
        moved = λ a. u.same_parent a ∙ moved_here t me i a h;
      })
  | inr h ↦ rw h (record {
    same_init = refl;
    same_next = refl;
    same_life = λ a. refl;
    same_pid = λ a. refl;
    moved = λ a. moved_not t me i a h;
  })
]

reparent_loop-IsReparented :
    (rounds : ℕ) (t : Table) (me i : ℕ) → IsReparented rounds t (reparent_loop rounds t me i) me i
unfolding reparent_loop
reparent_loop-IsReparented zero t me i = record {
  same_init = refl;
  same_next = refl;
  same_life = λ a. refl;
  same_pid = λ a. refl;
  moved = λ a. ground arith;
}
reparent_loop-IsReparented (suc rounds) t me i =
    let u = reparent_one-IsReparented t me i in
    let r = reparent_loop-IsReparented rounds (reparent_one t me i) me (i + 1) in
    record {
      same_init = r.same_init ∙ u.same_init;
      same_next = r.same_next ∙ u.same_next;
      same_life = λ a. r.same_life a ∙ u.same_life a;
      same_pid = λ a. r.same_pid a ∙ u.same_pid a;
      moved = λ a.
          r.moved a
          ∙ moved_step i rounds a me (t.proc a).parent ((reparent_one t me i).proc a).parent
              t.initproc (reparent_one t me i).initproc u.same_init (u.moved a);
    }

reparent-IsReparented : (t : Table) (me : ℕ) → IsReparented nproc t (reparent t me) me 0
unfolding reparent
reparent-IsReparented t me = reparent_loop-IsReparented nproc t me 0

-- The process `me` becomes a zombie in a table where its children have gone to `initproc`.
buried :
    (t t' : Table) (me status : ℕ)
    → IsTree t
    → t.initproc ≢ some me
    → life_of t me ≡ alive
    → IsReparented nproc t t' me 0
    → IsTree (put_proc t' me (record (t'.proc me) { xstate = status; state = zombie }))
buried t t' me status w other l r = record {
  init = w.init;
  is_init = r.same_init ∙ w.is_init;
  init_alive = elsewhere w.init not_me ∙ w.init_alive;
  bound =
      λ a h. elsewhere a (λ e. alive-free _ l (ap (life_of t) (sym e) ∙ w.bound a h)) ∙ w.bound a h;
  parents = λ a j e. parents a j (sym (kept_parent a) ∙ e);
  raised = λ a n ne e. raised a (was a n) ne (sym (kept_parent a) ∙ e);
  blank = λ a f. blank a f;
  numbered = λ a n.
      let (p, q) = w.numbered a (was a n) in
      let e = kept_pid a in let m = r.same_next in (omega (arith, e, p), omega (arith, e, m, q));
  different = λ a b n m e. w.different a b (was a n) (was b m) (sym (kept_pid a) ∙ e ∙ kept_pid b);
}
  where
    not_me : w.init ≢ me
    not_me e = other (w.is_init ∙ ap some e)

    z : Proc
    z = record (t'.proc me) { xstate = status; state = zombie }

    u : Table
    u = put_proc t' me z

    elsewhere : (a : ℕ) → a ≢ me → life_of u a ≡ life_of t a
    elsewhere a ne = let miss : (a == me) ≡ false = ground arith in rw miss (r.same_life a)

    kept_pid : (a : ℕ) → (u.proc a).pid ≡ (t.proc a).pid
    kept_pid a = let e : (u.proc a).pid ≡ (t'.proc a).pid = ground arith in e ∙ r.same_pid a

    kept_parent : (a : ℕ) → (u.proc a).parent ≡ (t'.proc a).parent
    kept_parent a = ground arith

    was : (a : ℕ) → life_of u a ≢ free → life_of t a ≢ free
    was a n f = elim (Bool-cases (a == me)) [
      | inl h ↦ (let e : a ≡ me = ground arith in alive-free _ l (ap (life_of t) (sym e) ∙ f))
      | inr h ↦ n (elsewhere a (λ e. absurd (ground (arith, h, e))) ∙ f)
    ]

    cond : ℕ → Bool
    cond a = in_rounds 0 nproc a && is_entry (t.proc a).parent me

    parents : (a j : ℕ) → (t'.proc a).parent ≡ some j → life_of u j ≡ alive
    parents a j e = elim (Bool-cases (cond a)) [
      | inl y ↦
          let f : (t'.proc a).parent ≡ t.initproc = rw y at (r.moved a) in
          let g : some w.init ≡ some j = sym w.is_init ∙ sym f ∙ e in
          let k : w.init ≡ j = cc g in
          ap (life_of u) (sym k) ∙ elsewhere w.init not_me ∙ w.init_alive
      | inr n ↦
          let f : (t'.proc a).parent ≡ (t.proc a).parent = rw n at (r.moved a) in
          let g : (t.proc a).parent ≡ some j = sym f ∙ e in
          elsewhere j (λ same.
            let child : is_entry (t.proc a).parent me ≡ true =
              ap (λ p. is_entry p me) g ∙ ground arith in
            let out : in_rounds 0 nproc a ≡ false = elim (Bool-cases (in_rounds 0 nproc a)) [
              | inl i ↦ absurd (let n' : cond a ≡ true = rw (i, child) in cc (n, n'))
              | inr o ↦ o
            ] in
            let far : nproc ≤ a = ground arith in
            let z = (w.blank a (w.bound a far)).1 in absurd (cc (z, g)))
          ∙ w.parents a j g
    ]

    raised : (a : ℕ) → life_of t a ≢ free → a ≢ w.init → (t'.proc a).parent ≢ none
    raised a n ne e = elim (Bool-cases (cond a)) [
      | inl y ↦
          let f : (t'.proc a).parent ≡ t.initproc = rw y at (r.moved a) in
          let g : some w.init ≡ none = sym w.is_init ∙ sym f ∙ e in cc g
      | inr stays ↦
          let f : (t'.proc a).parent ≡ (t.proc a).parent = rw stays at (r.moved a) in
          w.raised a n ne (sym f ∙ e)
    ]

    blank : (a : ℕ) → life_of u a ≡ free → ((u.proc a).pid ≡ 0) × ((u.proc a).parent ≡ none)
    blank a f = elim (Bool-cases (a == me)) [
      | inl h ↦ absurd (let d : dead ≡ free = rw h at f in cc d)
      | inr h ↦
          let (p, q) = w.blank a (sym (elsewhere a (λ e. absurd (ground (arith, h, e)))) ∙ f) in
          let orphan : is_entry (t.proc a).parent me ≡ false = rw q in
          let c : cond a ≡ false = rw orphan (and_false (in_rounds 0 nproc a)) in
          let m : (t'.proc a).parent ≡ (t.proc a).parent = rw c at (r.moved a) in
          (kept_pid a ∙ p, kept_parent a ∙ m ∙ q)
    ]

compose :
    {t t2 t3 t4 : Table} {me : ℕ}
    → IsAlike t t2
    → IsReparented nproc t2 t3 me 0
    → IsAlike t3 t4
    → IsReparented nproc t2 t4 me 0
compose u r v = record {
  same_init = v.same_init ∙ r.same_init;
  same_next = v.same_next ∙ r.same_next;
  same_life = λ a. v.same_life a ∙ r.same_life a;
  same_pid = λ a. v.same_pid a ∙ r.same_pid a;
  moved = λ a. v.same_parent a ∙ r.moved a;
}

bury-IsTree :
    (t : Table) (refs : ℕ → ℕ) (me status : ℕ)
    → IsTree t
    → t.initproc ≢ some me
    → life_of t me ≡ alive
    → IsTree (bury t refs me status)
unfolding bury
bury-IsTree t refs me status w other l =
    let p = t.proc me in
    let t1 = record t { file_ref = refs; inode_ref = drop_ref t.inode_ref p.cwd } in
    let q = record p { ofile = map (λ f. none) p.ofile; cwd = none } in
    let t2 = put_proc t1 me q in
    let u : IsAlike t t2 =
      IsAlike-trans
        (record {
          same_init = refl;
          same_next = refl;
          same_life = λ a. refl;
          same_pid = λ a. refl;
          same_parent = λ a. refl;
        })
        (IsAlike-put t1 me q refl refl refl) in
    let t3 = reparent t2 me in
    let r = reparent-IsReparented t2 me in
    let v = wakeup-IsAlike t3 me (chan_of (t3.proc me).parent) in
    buried t2 (wakeup t3 me (chan_of (t3.proc me).parent)) me status (IsTree-IsAlike u w) other
      (u.same_life me ∙ l) (compose (IsAlike-refl t2) r v)

-- `initproc` does not exit, and the exit of any other process keeps the tree.
pub exit-IsTree :
    (t : Table) (me status : ℕ) (t' : Table)
    → IsTree t
    → life_of t me ≡ alive
    → exit t me status ≡ ok t'
    → IsTree t'
unfolding exit
exit-IsTree t me status t' w l e =
    let (h, m) =
      guard_ok (is_entry t.initproc me) "init exiting"
        (close_files t.file_ref (t.proc me).ofile >>= λ refs. ok (bury t refs me status)) e in
    let (refs, ran, f) =
      bind_ok (close_files t.file_ref (t.proc me).ofile) (λ refs. ok (bury t refs me status)) m in
    let g : bury t refs me status ≡ t' = cc f in
    let other : t.initproc ≢ some me = λ same.
      let itself : is_entry t.initproc me ≡ true = ap (λ p. is_entry p me) same ∙ same_number me in
      cc (h, itself) in
    subst IsTree g (bury-IsTree t refs me status w other l)
