-- ===== src/Proc/Table.antt =====
-- kernel/proc.c: the table, `procinit`, `allocpid`, `allocproc`, `freeproc`.
use oshard.Common.{
  ◌%◌, ℕ, zero, suc, ◌+◌, ◌-◌, ◌*◌, ◌^◌, Bool, true, false, List, [], Option, none, some, ◌==◌,
  if◌then◌else◌,
}

-- kernel/param.h
abbrev pub nproc : ℕ
nproc = 64

abbrev pub nofile : ℕ
nofile = 16

abbrev pub page_size : ℕ
page_size = 4096

-- `enum procstate`
pub data State : Type 0 where
  unused used sleeping runnable running zombie : State

abbrev pub code : State → ℕ
code unused = 0
code used = 1
code sleeping = 2
code runnable = 3
code running = 4
code zombie = 5

abbrev pub is_state : State → State → Bool
is_state a b = code a == code b

-- An address to sleep on: 0, an entry of the table, or another.
pub data Chan : Type 0 where
  no_chan : Chan
  of_proc : ℕ → Chan
  at : ℕ → Chan

abbrev pub is_chan : Chan → Chan → Bool
is_chan no_chan no_chan = true
is_chan (of_proc a) (of_proc b) = a == b
is_chan (at a) (at b) = a == b
is_chan a b = false

-- `struct proc` without its lock. `saved` is the words of the trapframe page, `context` the fields
-- `ra` and `sp`, and a name is the bytes before its 0.
pub record Proc : Type 0 where
  pub state : State
  pub chan : Chan
  pub killed : Bool
  pub xstate : ℕ
  pub pid : ℕ
  pub parent : Option ℕ
  pub kstack : ℕ
  pub sz : ℕ
  pub pagetable : Option ℕ
  pub trapframe : Option ℕ
  pub saved : List ℕ
  pub context : ℕ × ℕ
  pub ofile : List (Option ℕ)
  pub cwd : Option ℕ
  pub name : List ℕ

-- The table, of which the entries below `nproc` exist, the globals, and the reference counts of
-- files and inodes that processes hold.
pub record Table : Type 0 where
  pub proc : ℕ → Proc
  pub nextpid : ℕ
  pub initproc : Option ℕ
  pub file_ref : ℕ → ℕ
  pub inode_ref : ℕ → ℕ

abbrev pub put_proc : Table → ℕ → Proc → Table
put_proc t i p = record t { proc = λ j. if j == i then p else t.proc j }

-- `KSTACK(p)` of kernel/memlayout.h: `TRAMPOLINE - (p + 1) * 2 * PGSIZE`
abbrev pub kstack_of : ℕ → ℕ
kstack_of i = 2 ^ 38 - page_size - (i + 1) * 2 * page_size

-- The rounds left of the loop of `procinit`.
unfoldable pub procinit_loop : ℕ → Table → ℕ → Table
procinit_loop zero t i = t
procinit_loop (suc rounds) t i =
    procinit_loop rounds (put_proc t i (record (t.proc i) { state = unused; kstack = kstack_of i }))
      (i + 1)

unfoldable pub procinit : Table → Table
unfolding procinit_loop
procinit t = procinit_loop nproc t 0

-- `nextpid` is an `int`, which wraps.
unfoldable pub allocpid : Table → ℕ × Table
allocpid t = (t.nextpid, record t { nextpid = (t.nextpid + 1) % 2 ^ 32 })

-- the entry that `freeproc` leaves
unfoldable pub freeproc : Proc → Proc
freeproc p = record p {
  trapframe = none;
  pagetable = none;
  sz = 0;
  pid = 0;
  parent = none;
  name = [];
  chan = no_chan;
  killed = false;
  xstate = 0;
  state = unused;
}

-- The search of `allocproc`, with the rounds left.
unfoldable pub find_unused : ℕ → Table → ℕ → Option ℕ
find_unused zero t i = none
find_unused (suc rounds) t i =
    let rest = find_unused rounds t (i + 1) in
    if is_state (t.proc i).state unused then some i else rest

-- `allocproc` with the entry found. `frame` is what `kalloc` gives for the trapframe, `pages` what
-- `proc_pagetable` gives.
unfoldable pub fill_entry : Table → ℕ → Option ℕ → Option ℕ → Option ℕ → Option ℕ × Table
unfolding allocpid freeproc
fill_entry t forkret frame pages none = (none, t)
fill_entry t forkret none pages (some i) =
    let (pid, t1) = allocpid t in
    (
      none,
      put_proc t1 i (freeproc (record (t1.proc i) { pid = pid; state = used; trapframe = none })),
    )
fill_entry t forkret (some f) none (some i) =
    let (pid, t1) = allocpid t in
    let p = record (t1.proc i) { pid = pid; state = used; trapframe = some f; pagetable = none } in
    (none, put_proc t1 i (freeproc p))
fill_entry t forkret (some f) (some g) (some i) =
    let (pid, t1) = allocpid t in
    let p = record (t1.proc i) {
      pid = pid;
      state = used;
      trapframe = some f;
      pagetable = some g;
    } in
    (some i, put_proc t1 i (record p { context = (forkret, p.kstack + page_size) }))

unfoldable pub allocproc : Table → ℕ → Option ℕ → Option ℕ → Option ℕ × Table
allocproc t forkret frame pages = fill_entry t forkret frame pages (find_unused nproc t 0)
