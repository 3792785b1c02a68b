-- ===== src/Proc/Tree.antt =====
-- The processes of kernel/proc.c as a tree under `initproc`, with their pids.
use oshard.Common.{
  ℕ, zero, suc, ◌+◌, ◌≤◌, ◌<◌, ◌≡◌, ◌≢◌, refl, ap, sym, subst, ◌∙◌, true, false, not, ◌&&◌, none,
  some, ◌==◌, Bool-cases, ◌⊎◌, inl, inr, arith,
}
use oshard.Proc.Table.{
  State, unused, used, sleeping, runnable, running, zombie, is_state, Chan, no_chan, is_chan, Proc,
  Table, put_proc, nproc,
}
use oshard.Proc.Sleep.{
  scheduler, yield, sleep, sleep_back, wake_one, wakeup_loop, wakeup, kill_loop, kill, setkilled,
}

-- Free, dead or alive.
pub data Life : Type 0 where
  free dead alive : Life

abbrev pub life : State → Life
life unused = free
life zombie = dead
life _ = alive

abbrev pub life_of : Table → ℕ → Life
life_of t a = life (t.proc a).state

-- Every process but `initproc` has a parent, and every parent is alive; a free entry has no pid and no
-- parent; the pids of the others are positive, below `nextpid` and different.
pub record IsTree (t : Table) : Type 0 where
  pub init : ℕ
  pub is_init : t.initproc ≡ some init
  pub init_alive : life_of t init ≡ alive
  pub bound : (a : ℕ) → nproc ≤ a → life_of t a ≡ free
  pub parents : (a j : ℕ) → (t.proc a).parent ≡ some j → life_of t j ≡ alive
  pub raised : (a : ℕ) → life_of t a ≢ free → a ≢ init → (t.proc a).parent ≢ none
  pub blank : (a : ℕ) → life_of t a ≡ free → ((t.proc a).pid ≡ 0) × ((t.proc a).parent ≡ none)
  pub numbered : (a : ℕ) → life_of t a ≢ free → (0 < (t.proc a).pid) × ((t.proc a).pid < t.nextpid)
  pub different :
      (a b : ℕ) → life_of t a ≢ free → life_of t b ≢ free → (t.proc a).pid ≡ (t.proc b).pid → a ≡ b

pub same_number : (n : ℕ) → (n == n) ≡ true
same_number n = ground arith

pub number_cases : (a i : ℕ) → (a ≡ i) ⊎ (a ≢ i)
number_cases a i = elim (Bool-cases (a == i)) [
  | inl h ↦ inl (ground arith)
  | inr h ↦ inr (ground arith)
]

pub alive-free : (l : Life) → l ≡ alive → l ≢ free
alive-free l e f = cc (e, f)

pub put_proc_self : (t : Table) (i : ℕ) (p : Proc) → (put_proc t i p).proc i ≡ p
put_proc_self t i p = let e = same_number i in rw e

pub put_proc_ne :
    (t : Table) (i : ℕ) (p : Proc) (a : ℕ) → a ≢ i → (put_proc t i p).proc a ≡ t.proc a
put_proc_ne t i p a ne = let e : (a == i) ≡ false = ground arith in rw e

-- Two tables with the same tree.
pub record IsAlike (t t' : Table) : Type 0 where
  pub same_init : t'.initproc ≡ t.initproc
  pub same_next : t'.nextpid ≡ t.nextpid
  pub same_life : (a : ℕ) → life_of t' a ≡ life_of t a
  pub same_pid : (a : ℕ) → (t'.proc a).pid ≡ (t.proc a).pid
  pub same_parent : (a : ℕ) → (t'.proc a).parent ≡ (t.proc a).parent

pub IsAlike-refl : (t : Table) → IsAlike t t
IsAlike-refl t = record {
  same_init = refl;
  same_next = refl;
  same_life = λ a. refl;
  same_pid = λ a. refl;
  same_parent = λ a. refl;
}

pub IsAlike-trans : {t t' t'' : Table} → IsAlike t t' → IsAlike t' t'' → IsAlike t t''
IsAlike-trans u v = record {
  same_init = v.same_init ∙ u.same_init;
  same_next = v.same_next ∙ u.same_next;
  same_life = λ a. v.same_life a ∙ u.same_life a;
  same_pid = λ a. v.same_pid a ∙ u.same_pid a;
  same_parent = λ a. v.same_parent a ∙ u.same_parent a;
}

pub IsTree-IsAlike : {t t' : Table} → IsAlike t t' → IsTree t → IsTree t'
IsTree-IsAlike u w = record {
  init = w.init;
  is_init = u.same_init ∙ w.is_init;
  init_alive = u.same_life w.init ∙ w.init_alive;
  bound = λ a h. u.same_life a ∙ w.bound a h;
  parents = λ a j e. u.same_life j ∙ w.parents a j (sym (u.same_parent a) ∙ e);
  raised = λ a l ne e. w.raised a (λ f. l (u.same_life a ∙ f)) ne (sym (u.same_parent a) ∙ e);
  blank = λ a f.
      let (p, q) = w.blank a (sym (u.same_life a) ∙ f) in (u.same_pid a ∙ p, u.same_parent a ∙ q);
  numbered = λ a l.
      let (p, q) = w.numbered a (λ f. l (u.same_life a ∙ f)) in
      let e = u.same_pid a in let n = u.same_next in (omega (arith, e, p), omega (arith, e, n, q));
  different = λ a b l m e.
      w.different a b (λ f. l (u.same_life a ∙ f)) (λ f. m (u.same_life b ∙ f))
        (sym (u.same_pid a) ∙ e ∙ u.same_pid b);
}

pub life-put :
    (t : Table) (i : ℕ) (p : Proc) (a : ℕ)
    → life p.state ≡ life_of t i
    → life_of (put_proc t i p) a ≡ life_of t a
life-put t i p a l = elim (Bool-cases (a == i)) [
  | inl h ↦ (let x : a ≡ i = ground arith in rw h (l ∙ ap (life_of t) (sym x)))
  | inr h ↦ rw h
]

-- an entry rewritten with the same pid and parent, neither dying nor coming to life
pub IsAlike-put :
    (t : Table) (i : ℕ) (p : Proc)
    → life p.state ≡ life_of t i
    → p.pid ≡ (t.proc i).pid
    → p.parent ≡ (t.proc i).parent
    → IsAlike t (put_proc t i p)
IsAlike-put t i p l e f = record {
  same_init = refl;
  same_next = refl;
  same_life = λ a. life-put t i p a l;
  same_pid = λ a. ground (arith, e);
  same_parent = λ a. ground (arith, f);
}

pub is_state_eq : (a b : State) → is_state a b ≡ true → a ≡ b
is_state_eq unused unused h = refl
is_state_eq used used h = refl
is_state_eq sleeping sleeping h = refl
is_state_eq runnable runnable h = refl
is_state_eq running running h = refl
is_state_eq zombie zombie h = refl
is_state_eq _ _ h = absurd (cc h)

wake_one-IsAlike : (t : Table) (me : ℕ) (chan : Chan) (i : ℕ) → IsAlike t (wake_one t me chan i)
wake_one-IsAlike t me chan i =
    elim (Bool-cases
      (not (i == me) && (is_state (t.proc i).state sleeping && is_chan (t.proc i).chan chan))) [
        | inl h ↦
            let asleep : is_state (t.proc i).state sleeping ≡ true = ground arith in
            let e = is_state_eq (t.proc i).state sleeping asleep in
            rw h (IsAlike-put t i (record (t.proc i) { state = runnable }) (rw e) refl refl)
        | inr h ↦ rw h (IsAlike-refl t)
      ]

wakeup_loop-IsAlike :
    (rounds : ℕ) (t : Table) (me : ℕ) (chan : Chan) (i : ℕ)
    → IsAlike t (wakeup_loop rounds t me chan i)
unfolding wakeup_loop
wakeup_loop-IsAlike zero t me chan i = IsAlike-refl t
wakeup_loop-IsAlike (suc rounds) t me chan i =
    IsAlike-trans (wake_one-IsAlike t me chan i)
      (wakeup_loop-IsAlike rounds (wake_one t me chan i) me chan (i + 1))

pub wakeup-IsAlike : (t : Table) (me : ℕ) (chan : Chan) → IsAlike t (wakeup t me chan)
unfolding wakeup
wakeup-IsAlike t me chan = wakeup_loop-IsAlike nproc t me chan 0

kill_loop-IsAlike : (rounds : ℕ) (t : Table) (pid i : ℕ) → IsAlike t (kill_loop rounds t pid i).1
unfolding kill_loop
kill_loop-IsAlike zero t pid i = IsAlike-refl t
kill_loop-IsAlike (suc rounds) t pid i = elim (Bool-cases ((t.proc i).pid == pid)) [
  | inl h ↦ elim (Bool-cases (is_state (t.proc i).state sleeping)) [
    | inl asleep ↦
        let e = is_state_eq (t.proc i).state sleeping asleep in
        rw (h, asleep)
          (IsAlike-put t i (record (t.proc i) { killed = true; state = runnable }) (rw e) refl refl)
    | inr awake ↦
        rw (h, awake) (IsAlike-put t i (record (t.proc i) { killed = true }) refl refl refl)
  ]
  | inr h ↦ rw h (kill_loop-IsAlike rounds t pid (i + 1))
]

pub kill-IsAlike : (t : Table) (pid : ℕ) → IsAlike t (kill t pid).1
unfolding kill
kill-IsAlike t pid = kill_loop-IsAlike nproc t pid 0

pub scheduler-IsAlike :
    (rounds : ℕ) (t : Table) (i j : ℕ) (t' : Table)
    → scheduler rounds t i ≡ some (j, t')
    → IsAlike t t'
unfolding scheduler
scheduler-IsAlike zero t i j t' e = absurd (cc e)
scheduler-IsAlike (suc rounds) t i j t' e = elim (Bool-cases (is_state (t.proc i).state runnable)) [
  | inl h ↦
      let f : some (i, put_proc t i (record (t.proc i) { state = running })) ≡ some (j, t') =
        rw h at e in
      let g : put_proc t i (record (t.proc i) { state = running }) ≡ t' = cc f in
      let s = is_state_eq (t.proc i).state runnable h in
      subst (IsAlike t) g (IsAlike-put t i (record (t.proc i) { state = running }) (rw s) refl refl)
  | inr h ↦ scheduler-IsAlike rounds t (i + 1) j t' (rw h at e)
]

pub sleep-IsAlike :
    (t : Table) (me : ℕ) (chan : Chan)
    → life_of t me ≡ alive
    → IsAlike t (sleep t me chan)
      × IsAlike t (sleep_back t me)
      × IsAlike t (yield t me)
      × IsAlike t (setkilled t me)
unfolding sleep sleep_back yield setkilled
sleep-IsAlike t me chan l = (
  IsAlike-put t me (record (t.proc me) { chan = chan; state = sleeping }) (sym l) refl refl,
  IsAlike-put t me (record (t.proc me) { chan = no_chan }) refl refl refl,
  IsAlike-put t me (record (t.proc me) { state = runnable }) (sym l) refl refl,
  IsAlike-put t me (record (t.proc me) { killed = true }) refl refl refl,
)
