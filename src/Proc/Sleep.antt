-- ===== src/Proc/Sleep.antt =====
-- kernel/proc.c: `sched`, `scheduler`, `yield`, `sleep`, `wakeup`, `kill`, `setkilled`, `killed`.
use oshard.Common.{
  ℕ, zero, suc, ◌+◌, Bool, true, false, not, ◌&&◌, Option, none, some, Result, ok, panic, ◌==◌,
  if◌then◌else◌,
}
use oshard.Spinlock.{Cpu, Spinlock, holding}
use oshard.Proc.Table.{
  sleeping, runnable, running, is_state, Chan, no_chan, is_chan, Proc, Table, put_proc, nproc,
}

-- `sched` up to `swtch`: the `intena` that it keeps for afterwards.
unfoldable pub sched : Cpu → Spinlock → Proc → Result Bool
unfolding holding
sched c lock p =
    if not (holding c lock)
    then panic "sched p->lock"
    else if not (c.noff == 1)
    then panic "sched locks"
    else if is_state p.state running
    then panic "sched running"
    else if c.intr
    then panic "sched interruptible"
    else ok c.intena

-- behind `swtch`, on the cpu that runs the process again
unfoldable pub sched_back : Cpu → Bool → Cpu
sched_back c intena = record c { intena = intena }

-- The loop of `scheduler` from entry `i` on, up to the `swtch` to a process, which is `c->proc` then.
unfoldable pub scheduler : ℕ → Table → ℕ → Option (ℕ × Table)
scheduler zero t i = none
scheduler (suc rounds) t i =
    let rest = scheduler rounds t (i + 1) in
    if is_state (t.proc i).state runnable
    then some (i, put_proc t i (record (t.proc i) { state = running }))
    else rest

-- `yield` up to `sched`
unfoldable pub yield : Table → ℕ → Table
yield t me = put_proc t me (record (t.proc me) { state = runnable })

-- `sleep` up to `sched`, and behind it
unfoldable pub sleep : Table → ℕ → Chan → Table
sleep t me chan = put_proc t me (record (t.proc me) { chan = chan; state = sleeping })

unfoldable pub sleep_back : Table → ℕ → Table
sleep_back t me = put_proc t me (record (t.proc me) { chan = no_chan })

-- one round of the loop of `wakeup`
abbrev pub wake_one : Table → ℕ → Chan → ℕ → Table
wake_one t me chan i =
    let p = t.proc i in
    if not (i == me) && (is_state p.state sleeping && is_chan p.chan chan)
    then put_proc t i (record p { state = runnable })
    else t

unfoldable pub wakeup_loop : ℕ → Table → ℕ → Chan → ℕ → Table
wakeup_loop zero t me chan i = t
wakeup_loop (suc rounds) t me chan i = wakeup_loop rounds (wake_one t me chan i) me chan (i + 1)

unfoldable pub wakeup : Table → ℕ → Chan → Table
unfolding wakeup_loop
wakeup t me chan = wakeup_loop nproc t me chan 0

-- The search of `kill`, with the rounds left: whether the pid is found.
unfoldable pub kill_loop : ℕ → Table → ℕ → ℕ → Bool × Table
kill_loop zero t pid i = (false, t)
kill_loop (suc rounds) t pid i =
    let p = record (t.proc i) { killed = true } in
    let rest = kill_loop rounds t pid (i + 1) in
    if p.pid == pid
    then (
      true,
      put_proc t i (if is_state p.state sleeping then record p { state = runnable } else p),
    )
    else rest

unfoldable pub kill : Table → ℕ → Bool × Table
unfolding kill_loop
kill t pid = kill_loop nproc t pid 0

unfoldable pub setkilled : Table → ℕ → Table
setkilled t i = put_proc t i (record (t.proc i) { killed = true })

unfoldable pub killed : Table → ℕ → Bool
killed t i = (t.proc i).killed
