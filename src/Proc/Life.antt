-- ===== src/Proc/Life.antt =====
-- kernel/proc.c: `userinit`, `growproc`, `fork`, `reparent`, `exit`, `wait`.
use oshard.Common.{
  ℕ, zero, suc, ◌+◌, ◌-◌, ◌%◌, ◌^◌, Bool, true, false, not, ◌&&◌, ◌||◌, List, [], ◌∷◌, Option, none,
  some, Result, ok, panic, ◌>>=◌, ◌==◌, ltb, if◌then◌else◌, set, map, take,
}
use oshard.Proc.Table.{
  runnable, zombie, is_state, Chan, no_chan, of_proc, Proc, Table, put_proc, nproc, page_size,
  allocproc, freeproc,
}
use oshard.Proc.Sleep.{wakeup, killed}

abbrev pub is_entry : Option ℕ → ℕ → Bool
is_entry none i = false
is_entry (some j) i = j == i

-- `userinit`: `uvmfirst` fills the page at address 0, and `root` is what `namei("/")` gives. It relies
-- on `allocproc`; with no process the code would use a null pointer.
unfoldable pub userinit : Table → ℕ → Option ℕ → Option ℕ → Option ℕ → Table
userinit t forkret frame pages root =
    let (np, t1) = allocproc t forkret frame pages in
    elim np [
      | none ↦ record t1 { initproc = none }
      | some i ↦
          let p = t1.proc i in
          record (put_proc t1 i (record p {
            sz = page_size;
            saved = set (set p.saved 3 0) 6 page_size;
            name = 105 ∷ 110 ∷ 105 ∷ 116 ∷ 99 ∷ 111 ∷ 100 ∷ 101 ∷ [];
            cwd = root;
            state = runnable;
          })) { initproc = some i }
    ]

-- `n` is an `int` pattern; `grown` is what `uvmalloc` gives (0 when it fails), `shrunk` what
-- `uvmdealloc` gives, each as a function of the new size.
unfoldable pub growproc : Table → ℕ → ℕ → (ℕ → ℕ) → (ℕ → ℕ) → Bool × Table
growproc t me n grown shrunk =
    let p = t.proc me in
    if n == 0
    then (true, t)
    else if ltb n (2 ^ 31)
    then (let sz = grown ((p.sz + n) % 2 ^ 64) in
        if sz == 0 then (false, t) else (true, put_proc t me (record p { sz = sz })))
    else (true, put_proc t me (record p { sz = shrunk ((p.sz + (2 ^ 64 - 2 ^ 32) + n) % 2 ^ 64) }))

-- `filedup` (kernel/file.c) on one descriptor
abbrev pub dup_one : Table → Option ℕ → Result Table
dup_one t none = ok t
dup_one t (some f) =
    if t.file_ref f == 0
    then panic "filedup"
    else ok (record t { file_ref = λ g. if g == f then t.file_ref f + 1 else t.file_ref g })

unfoldable pub dup_files : Table → List (Option ℕ) → Result Table
dup_files t [] = ok t
dup_files t (f ∷ fs) = do t1 ← dup_one t f; dup_files t1 fs

abbrev pub idup : Table → Option ℕ → Table
idup t none = t
idup t (some ip) = record t {
  inode_ref = λ g. if g == ip then t.inode_ref ip + 1 else t.inode_ref g;
}

-- the entry of the child of `me`, whose entry is `p`
abbrev pub child_of : Table → Proc → ℕ → ℕ → Proc
child_of t p me i = record (t.proc i) {
  sz = p.sz;
  saved = set p.saved 14 0;
  ofile = p.ofile;
  cwd = p.cwd;
  name = take 15 p.name;
  parent = some me;
  state = runnable;
}

-- `fork` with the entry `i` of the child, from the copy of the files on.
unfoldable pub raise_child : Table → ℕ → ℕ → Result (Option ℕ × Table)
unfolding dup_files
raise_child t me i = do
  t2 ← dup_files t (t.proc me).ofile
  let p = t2.proc me
  let t3 = idup t2 p.cwd
  ok (some (child_of t3 p me i).pid, put_proc t3 i (child_of t3 p me i))

-- What `fork` does with the entry that `allocproc` gives; `copied` says whether `uvmcopy` succeeds.
unfoldable pub fork_into : Table → ℕ → Bool → Option ℕ → Result (Option ℕ × Table)
unfolding freeproc raise_child
fork_into t me copied none = ok (none, t)
fork_into t me true (some i) = raise_child t me i
fork_into t me false (some i) = ok (none, put_proc t i (freeproc (t.proc i)))

-- The pid of the child, or none for -1.
unfoldable pub fork : Table → ℕ → ℕ → Option ℕ → Option ℕ → Bool → Result (Option ℕ × Table)
fork t me forkret frame pages copied =
    let (np, t1) = allocproc t forkret frame pages in fork_into t1 me copied np

abbrev pub chan_of : Option ℕ → Chan
chan_of none = no_chan
chan_of (some i) = of_proc i

-- one round of the loop of `reparent`
abbrev pub reparent_one : Table → ℕ → ℕ → Table
reparent_one t me i =
    if is_entry (t.proc i).parent me
    then wakeup (put_proc t i (record (t.proc i) { parent = t.initproc })) me (chan_of t.initproc)
    else t

unfoldable pub reparent_loop : ℕ → Table → ℕ → ℕ → Table
unfolding wakeup
reparent_loop zero t me i = t
reparent_loop (suc rounds) t me i = reparent_loop rounds (reparent_one t me i) me (i + 1)

unfoldable pub reparent : Table → ℕ → Table
unfolding reparent_loop
reparent t me = reparent_loop nproc t me 0

-- `fileclose` and `iput` as far as the counts go
abbrev pub drop_ref : (ℕ → ℕ) → Option ℕ → ℕ → ℕ
drop_ref ref none g = ref g
drop_ref ref (some f) g = if g == f then ref f - 1 else ref g

unfoldable pub close_files : (ℕ → ℕ) → List (Option ℕ) → Result (ℕ → ℕ)
close_files ref [] = ok ref
close_files ref (none ∷ fs) = close_files ref fs
close_files ref (some f ∷ fs) =
    if ref f == 0 then panic "fileclose" else close_files (drop_ref ref (some f)) fs

-- `exit` from the loop over the files on, with the counts that the loop leaves, up to `sched`.
unfoldable pub bury : Table → (ℕ → ℕ) → ℕ → ℕ → Table
unfolding reparent wakeup
bury t refs me status =
    let p = t.proc me in
    let t1 = record t { file_ref = refs; inode_ref = drop_ref t.inode_ref p.cwd } in
    let t2 = put_proc t1 me (record p { ofile = map (λ f. none) p.ofile; cwd = none }) in
    let t3 = reparent t2 me in
    let t4 = wakeup t3 me (chan_of (t3.proc me).parent) in
    put_proc t4 me (record (t4.proc me) { xstate = status; state = zombie })

-- `exit` up to `sched`, which does not come back.
unfoldable pub exit : Table → ℕ → ℕ → Result Table
unfolding close_files bury
exit t me status =
    if is_entry t.initproc me
    then panic "init exiting"
    else (do refs ← close_files t.file_ref (t.proc me).ofile; ok (bury t refs me status))

-- How the scan of `wait` ends: a child is reaped, whose pid is returned; `copyout` fails; or there is
-- no child to reap, and whether there is a child at all.
pub data Scan : Type 0 where
  reaped : ℕ → Table → Scan
  bad_address : Scan
  nothing : Bool → Scan

-- The rounds left of the scan. `copied` says whether the status is not asked for or `copyout`
-- succeeds.
unfoldable pub wait_scan : ℕ → Table → ℕ → Bool → Bool → ℕ → Scan
unfolding freeproc
wait_scan zero t me copied havekids i = nothing havekids
wait_scan (suc rounds) t me copied havekids i =
    let p = t.proc i in
    let child = is_entry p.parent me in
    let rest = wait_scan rounds t me copied (havekids || child) (i + 1) in
    if child && is_state p.state zombie
    then (if copied then reaped p.pid (put_proc t i (freeproc p)) else bad_address)
    else rest

-- One round of the loop of `wait`: the pid returned, or -1, or a `sleep` on the process itself.
pub data Waited : Type 0 where
  returns : ℕ → Table → Waited
  fails : Waited
  sleeps : Chan → Waited

unfoldable pub after_scan : Table → ℕ → Scan → Waited
unfolding killed
after_scan t me (reaped pid t1) = returns pid t1
after_scan t me bad_address = fails
after_scan t me (nothing havekids) =
    if not havekids || killed t me then fails else sleeps (of_proc me)

unfoldable pub wait : Table → ℕ → Bool → Waited
wait t me copied = after_scan t me (wait_scan nproc t me copied false 0)
