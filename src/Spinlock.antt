-- ===== src/Spinlock.antt =====
-- kernel/spinlock.c and kernel/spinlock.h: spin locks, and the nesting of interrupt-off sections,
-- as one cpu runs them. A cpu is the part of `struct cpu` (kernel/proc.h) that these functions use,
-- with its interrupt-enable bit; the lock's name is for debugging and is left out.
pub mod Nesting
mod Held
mod Tests
use oshard.Common.{
  ℕ, ◌+◌, ◌-◌, ◌%◌, ◌^◌, Bool, true, false, not, ◌&&◌, ◌||◌, leb, Option, none, some, Result, ok,
  panic, loops, ◌>>=◌, ◌==◌, ltb, if◌then◌else◌,
}

pub record Cpu : Type 0 where
  pub id : ℕ
  pub noff : ℕ
  pub intena : Bool
  pub intr : Bool

pub record Spinlock : Type 0 where
  pub locked : Bool
  pub cpu : Option ℕ

unfoldable pub initlock : Spinlock → Spinlock
initlock lk = record { locked = false; cpu = none }

-- `noff` is an `int`: it wraps, and from 2 ^ 31 on it is below 0.
unfoldable pub push_off : Cpu → Cpu
push_off c =
    let off = record c { intr = false } in
    let saved = if c.noff == 0 then record off { intena = c.intr } else off in
    record saved { noff = (saved.noff + 1) % 2 ^ 32 }

unfoldable pub pop_off : Cpu → Result Cpu
pop_off c =
    if c.intr
    then panic "pop_off - interruptible"
    else if ltb c.noff 1 || leb (2 ^ 31) c.noff
    then panic "pop_off"
    else ok (
        let c' = record c { noff = c.noff - 1 } in
        if (c'.noff == 0) && c'.intena then record c' { intr = true } else c')

abbrev pub is_cpu : Option ℕ → ℕ → Bool
is_cpu none n = false
is_cpu (some m) n = m == n

unfoldable pub holding : Cpu → Spinlock → Bool
holding c lk = lk.locked && is_cpu lk.cpu c.id

-- While another cpu holds the lock, the loop on `__sync_lock_test_and_set` goes round.
unfoldable pub acquire : Cpu → Spinlock → Result (Cpu × Spinlock)
unfolding push_off holding
acquire c lk =
    let c' = push_off c in
    if holding c' lk
    then panic "acquire"
    else if lk.locked
    then loops
    else ok (c', record { locked = true; cpu = some c'.id })

unfoldable pub release : Cpu → Spinlock → Result (Cpu × Spinlock)
unfolding pop_off holding
release c lk =
    if not (holding c lk)
    then panic "release"
    else do c' ← pop_off c; ok (c', record { locked = false; cpu = none })
