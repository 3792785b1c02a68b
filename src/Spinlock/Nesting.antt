-- ===== src/Spinlock/Nesting.antt =====
-- Interrupt-off sections nest, and a critical section leaves its cpu and its lock as they were.
use oshard.Common.{
  ℕ, zero, suc, ◌+◌, ◌^◌, ◌<◌, ◌≡◌, true, false, none, some, Result, ok, panic, ◌>>=◌, arith, ◌==◌,
  if◌then◌else◌,
}
use oshard.Spinlock.{Cpu, Spinlock, push_off, pop_off, acquire, release}

-- Interrupts are on only outside of every section, and one more section can be counted.
pub record IsNested (c : Cpu) : Type 0 where
  pub off_inside : c.intr ≡ true → c.noff ≡ 0
  pub shallow : c.noff + 1 < 2 ^ 31

-- The cpu after the outermost section: only the saved state of interrupts may differ.
abbrev pub saved : Cpu → Cpu
saved c = record c { intena = if c.noff == 0 then c.intr else c.intena }

abbrev pub pushes : ℕ → Cpu → Cpu
pushes zero c = c
pushes (suc n) c = push_off (pushes n c)

abbrev pub pops : ℕ → Cpu → Result Cpu
pops zero c = ok c
pops (suc n) c = pop_off c >>= pops n

-- `push_off` opens a section, in which interrupts are off.
pub push_off-IsNested :
    (c : Cpu)
    → IsNested c
    → c.noff + 2 < 2 ^ 31
    → IsNested (push_off c) × ((push_off c).intr ≡ false) × ((push_off c).noff ≡ c.noff + 1)
unfolding push_off
push_off-IsNested c w room = ground (arith, w.off_inside, w.shallow)

-- One `pop_off` undoes one `push_off`.
pub pop_off-push_off : (c : Cpu) → IsNested c → pop_off (push_off c) ≡ ok (saved c)
unfolding push_off pop_off
pop_off-push_off c w = ground (arith, w.off_inside, w.shallow)

pushes-noff :
    (n : ℕ) (c : Cpu)
    → IsNested c
    → c.noff + n + 1 < 2 ^ 31
    → IsNested (pushes n c) × ((pushes n c).noff ≡ c.noff + n)
pushes-noff zero c w room = (w, omega arith)
pushes-noff (suc n) c w room =
    let (w', depth) = pushes-noff n c w (omega arith) in
    let (a, b, d) = push_off-IsNested (pushes n c) w' (omega (arith, depth)) in
    (a, omega (arith, d, depth))

-- From a cpu whose interrupts are off inside a section, any positive number of push_offs that keep
-- the depth below 2 ^ 31, and as many pop_offs, run without a panic and restore the interrupt state
-- and the depth.
pub pops-pushes :
    (n : ℕ) (c : Cpu)
    → IsNested c
    → c.noff + suc n < 2 ^ 31
    → pops (suc n) (pushes (suc n) c) ≡ ok (saved c)
pops-pushes zero c w room = rw (pop_off-push_off c w)
pops-pushes (suc n) c w room =
    let (w', depth) = pushes-noff (suc n) c w (omega arith) in
    rw (pop_off-push_off (pushes (suc n) c) w', same depth) (pops-pushes n c w (omega arith))
  where
    same : (pushes (suc n) c).noff ≡ c.noff + suc n → saved (pushes (suc n) c) ≡ pushes (suc n) c
    same e = ground arith

-- With interrupts on inside a section, or with no section open, `pop_off` panics.
pub pop_off-panic :
    (c : Cpu)
    → (c.intr ≡ true → pop_off c ≡ panic "pop_off - interruptible")
      × (c.intr ≡ false → c.noff ≡ 0 → pop_off c ≡ panic "pop_off")
unfolding pop_off
pop_off-panic c = (λ e. ground arith, λ e f. ground arith)

abbrev pub unlocked : Spinlock
unlocked = record { locked = false; cpu = none }

abbrev pub locked_by : ℕ → Spinlock
locked_by n = record { locked = true; cpu = some n }

-- `acquire` of a free lock takes it for this cpu and turns interrupts off.
pub acquire-free :
    (c : Cpu) (lk : Spinlock) → lk.locked ≡ false → acquire c lk ≡ ok (push_off c, locked_by c.id)
unfolding acquire
acquire-free c lk e = ground arith

-- From a cpu whose interrupts are off inside a section, release by the holder, after the push_off
-- that acquire made, frees the lock and restores the interrupt state and the depth.
pub release-acquire :
    (c : Cpu) → IsNested c → release (push_off c) (locked_by c.id) ≡ ok (saved c, unlocked)
unfolding release push_off pop_off
release-acquire c w = ground (arith, w.off_inside, w.shallow)
