-- ===== src/Proc/Steps.antt =====
-- The calls of kernel/proc.c as steps of the process table, and the tree that they keep.
use oshard.Common.{ℕ, ◌+◌, ◌^◌, ◌<◌, ◌≡◌, Bool, Option, some, ok}
use oshard.Proc.Table.{Chan, no_chan, Table}
use oshard.Proc.Sleep.{scheduler, yield, sleep, sleep_back, wakeup, kill, setkilled}
use oshard.Proc.Life.{fork, exit, wait, returns}
use oshard.Proc.Tree.{
  alive, life_of, IsTree, IsTree-IsAlike, wakeup-IsAlike, kill-IsAlike, scheduler-IsAlike,
  sleep-IsAlike,
}
use oshard.Proc.Exit.{exit-IsTree}
use oshard.Proc.Fork.{fork-IsTree}
use oshard.Proc.Wait.{wait-IsTree}

-- What the kernel can do to the table next; `me` is the living process that does it.
pub data Step : Table → Table → Type 0 where
  forks :
      {t t' : Table} {pid : Option ℕ} (me forkret : ℕ) (frame pages : Option ℕ) (copied : Bool)
      → life_of t me ≡ alive
      → fork t me forkret frame pages copied ≡ ok (pid, t')
      → Step t t'
  exits :
      {t t' : Table} (me status : ℕ) → life_of t me ≡ alive → exit t me status ≡ ok t' → Step t t'
  reaps :
      {t t' : Table} {pid : ℕ} (me : ℕ) (copied : Bool)
      → wait t me copied ≡ returns pid t'
      → Step t t'
  runs : {t t' : Table} {j : ℕ} (rounds i : ℕ) → scheduler rounds t i ≡ some (j, t') → Step t t'
  yields : {t : Table} (me : ℕ) → life_of t me ≡ alive → Step t (yield t me)
  falls_asleep :
      {t : Table} (me : ℕ) (chan : Chan) → life_of t me ≡ alive → Step t (sleep t me chan)
  goes_on : {t : Table} (me : ℕ) → life_of t me ≡ alive → Step t (sleep_back t me)
  wakes : {t : Table} (me : ℕ) (chan : Chan) → Step t (wakeup t me chan)
  kills : {t : Table} (pid : ℕ) → Step t (kill t pid).1
  dooms : {t : Table} (me : ℕ) → life_of t me ≡ alive → Step t (setkilled t me)

pub data Reach (s : Table) : Table → Type 0 where
  here : Reach s s
  onward : {t u : Table} → Reach s t → Step t u → Reach s u

Step-IsTree : {t u : Table} → Step t u → t.nextpid + 1 < 2 ^ 31 → IsTree t → IsTree u
Step-IsTree (forks {t} {t'} {pid} me forkret frame pages copied l e) room w =
    fork-IsTree t me forkret frame pages copied pid t' room w l e
Step-IsTree (exits {t} {t'} me status l e) room w = exit-IsTree t me status t' w l e
Step-IsTree (reaps {t} {t'} {pid} me copied e) room w = wait-IsTree t me copied pid t' w e
Step-IsTree (runs {t} {t'} {j} rounds i e) room w =
    IsTree-IsAlike (scheduler-IsAlike rounds t i j t' e) w
Step-IsTree (yields {t} me l) room w =
    let (a, b, c, d) = sleep-IsAlike t me no_chan l in IsTree-IsAlike c w
Step-IsTree (falls_asleep {t} me chan l) room w =
    let (a, b, c, d) = sleep-IsAlike t me chan l in IsTree-IsAlike a w
Step-IsTree (goes_on {t} me l) room w =
    let (a, b, c, d) = sleep-IsAlike t me no_chan l in IsTree-IsAlike b w
Step-IsTree (wakes {t} me chan) room w = IsTree-IsAlike (wakeup-IsAlike t me chan) w
Step-IsTree (kills {t} pid) room w = IsTree-IsAlike (kill-IsAlike t pid) w
Step-IsTree (dooms {t} me l) room w =
    let (a, b, c, d) = sleep-IsAlike t me no_chan l in IsTree-IsAlike d w

-- In every table on the way, one more pid can be given before `nextpid` passes the largest `int`.
unfoldable pub InPids : {s t : Table} → Reach s t → Type 0
InPids here = Unit
InPids (onward {t} r st) = (t.nextpid + 1 < 2 ^ 31) × InPids r

-- In every table that forks, exits, waits, sleeps, wakeups, kills and turns of the scheduler lead
-- to from one that is in order, on a run in whose tables nextpid + 1 stays below 2 ^ 31, each
-- process but initproc has a living parent, free entries are blank, and the pids of the others are
-- different and below nextpid.
pub Reach-IsTree : {s t : Table} → IsTree s → (r : Reach s t) → InPids r → IsTree t
unfolding InPids
Reach-IsTree w here fits = w
Reach-IsTree w (onward r st) (room, fits) = Step-IsTree st room (Reach-IsTree w r fits)
