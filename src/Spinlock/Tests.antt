-- ===== src/Spinlock/Tests.antt =====
-- Runs of kernel/spinlock.c, and the theorems of `Nesting` at a cpu with interrupts on.
use oshard.Common.{ℕ, List, [], ◌∷◌, arith, ◌≡◌, refl, true, false, ok, panic}
use oshard.Spinlock.{Cpu, Spinlock, push_off, holding, acquire, release}
use oshard.Spinlock.Held.{
  Machine, Turns, Reach, here, there, acquires, start, after, held, set_cpu, IsGuarded,
  Reach-IsGuarded,
}
use oshard.Spinlock.Nesting.{IsNested, pushes, pops, unlocked, locked_by, pops-pushes}

abbrev hart : Cpu
hart = record { id = 1; noff = 0; intena = false; intr = true }

hart-IsNested : IsNested hart
hart-IsNested = record { off_inside = λ e. refl; shallow = omega arith }

taken_twice : acquire (push_off hart) (locked_by 1) ≡ panic "acquire"
unfolding acquire
taken_twice = refl

pops-pushes_example : pops 3 (pushes 3 hart) ≡ ok (record hart { intena = true })
pops-pushes_example = pops-pushes 2 hart hart-IsNested (omega arith)

-- Cpus 1 and 2 take a lock each, and cpu 1 gives its lock back.
abbrev idle : Machine
idle = record {
  cpu = λ h. record { id = h; noff = 0; intena = false; intr = true };
  locks = unlocked ∷ unlocked ∷ [];
}

idle-IsGuarded : IsGuarded idle
unfolding held
idle-IsGuarded = record {
  ids = λ h. refl;
  depth = λ h. refl;
  quiet = λ h p. absurd (omega (arith, p));
  few = omega arith;
}

abbrev one_taken : Machine
one_taken = record {
  cpu = set_cpu idle.cpu 1 (push_off (idle.cpu 1));
  locks = locked_by 1 ∷ unlocked ∷ [];
}

abbrev two_taken : Machine
two_taken = record {
  cpu = set_cpu one_taken.cpu 2 (push_off (one_taken.cpu 2));
  locks = locked_by 1 ∷ locked_by 2 ∷ [];
}

run : Reach idle two_taken
unfolding acquire push_off holding
run = after (after start (acquires 1 here refl)) (acquires 2 (there here) refl)

Reach-IsGuarded_example :
    IsGuarded two_taken
    × ((h : ℕ) (lk : Spinlock) (ls : List Spinlock)
        → Turns lk unlocked two_taken.locks ls
        → holding (two_taken.cpu h) lk ≡ true
        → (c : Cpu) × (release (two_taken.cpu h) lk ≡ ok (c, unlocked)))
Reach-IsGuarded_example = Reach-IsGuarded run idle-IsGuarded
