-- ===== src/Proc/Tests.antt =====
-- Runs of kernel/proc.c on a table with `initproc` in entry 0, and its theorems there.
use oshard.Common.{
  ◌≡◌, refl, Bool, true, false, [], none, some, Result, ok, panic, loops, arith, ◌==◌,
  if◌then◌else◌,
}
use oshard.Proc.Table.{
  unused, runnable, running, zombie, is_state, no_chan, Proc, Table, put_proc, nproc, find_unused,
  fill_entry, allocproc,
}
use oshard.Proc.Sleep.{wakeup, wakeup_loop, kill}
use oshard.Proc.Life.{
  fork, fork_into, raise_child, dup_files, close_files, bury, reparent, reparent_loop, exit, wait,
}
use oshard.Proc.Tree.{IsTree}
use oshard.Proc.Wait.{WaitEnds, wait-WaitEnds}
use oshard.Proc.Steps.{here, onward, forks, kills, InPids, Reach-IsTree}
use oshard.Proc.Killed.{kill_zero-allocproc}

abbrev blank_proc : Proc
blank_proc = record {
  state = unused;
  chan = no_chan;
  killed = false;
  xstate = 0;
  pid = 0;
  parent = none;
  kstack = 0;
  sz = 0;
  pagetable = none;
  trapframe = none;
  saved = [];
  context = (0, 0);
  ofile = [];
  cwd = none;
  name = [];
}

abbrev init_proc : Proc
init_proc = record blank_proc {
  state = running;
  pid = 1;
  sz = 4096;
  pagetable = some 7;
  trapframe = some 8;
}

-- `initproc` alone
abbrev booted : Table
booted = record {
  proc = λ a. if a == 0 then init_proc else blank_proc;
  nextpid = 2;
  initproc = some 0;
  file_ref = λ f. 0;
  inode_ref = λ f. 0;
}

booted-IsTree : IsTree booted
booted-IsTree = record {
  init = 0;
  is_init = refl;
  init_alive = refl;
  bound = λ a h. ground arith;
  parents = λ a j e. absurd (ground arith);
  raised = λ a l ne e. ground arith;
  blank = λ a f. ground arith;
  numbered = λ a l. ground arith;
  different = λ a b l m e. ground arith;
}

first_free : find_unused nproc booted 0 ≡ some 1
unfolding find_unused
first_free = refl

wait-WaitEnds_example : WaitEnds booted 0 true (wait booted 0 true)
wait-WaitEnds_example = wait-WaitEnds booted 0 true

-- entry 1 is the child of `initproc`
abbrev child : Proc
child = record init_proc {
  state = runnable;
  pid = 2;
  parent = some 0;
  trapframe = some 5;
  pagetable = some 6;
  context = (99, 4096);
}

abbrev family : Table
family = put_proc (allocproc booted 99 (some 5) (some 6)).1 1 child

forked : fork booted 0 99 (some 5) (some 6) true ≡ ok (some 2, family)
unfolding fork fork_into raise_child dup_files allocproc fill_entry find_unused
forked = refl

-- the child exits, and its parent is not asleep
abbrev is_dead : Result Table → Bool
is_dead (ok t) = is_state (t.proc 1).state zombie
is_dead (panic s) = false
is_dead loops = false

exited : is_dead (exit family 1 3) ≡ true
unfolding allocproc fill_entry find_unused exit bury close_files reparent reparent_loop wakeup
    wakeup_loop
exited = refl

alone : exit family 0 0 ≡ panic "init exiting"
unfolding exit allocproc fill_entry find_unused
alone = refl

way-InPids : InPids (onward (onward here (forks 0 99 (some 5) (some 6) true refl forked)) (kills 2))
unfolding InPids allocproc fill_entry find_unused
way-InPids = (omega arith, (omega arith, tt))

Reach-IsTree_example : IsTree (kill family 2).1
Reach-IsTree_example =
    Reach-IsTree booted-IsTree
      (onward (onward here (forks 0 99 (some 5) (some 6) true refl forked)) (kills 2)) way-InPids

kill_zero-allocproc_example :
    let t1 = (kill booted 0).1 in
    ((kill booted 0).0 ≡ true)
    × ((allocproc t1 99 (some 5) (some 6)).0 ≡ some 1)
    × (((allocproc t1 99 (some 5) (some 6)).1.proc 1).killed ≡ true)
kill_zero-allocproc_example = kill_zero-allocproc booted 1 99 5 6 booted-IsTree first_free
