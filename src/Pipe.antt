-- ===== src/Pipe.antt =====
-- kernel/pipe.c: the ring of bytes of a pipe, `pipewrite`, `piperead` and `pipeclose`, from when
-- `pi->lock` is taken to when it is given up, by a return or by `sleep`. What `killed`, `copyin` and
-- `copyout` answer in each round is an argument. `sleep` ends a run, and the round is then run again.
pub mod Queue
pub mod Transfer
mod Tests
use oshard.Common.{
  ℕ, zero, suc, ◌+◌, ◌-◌, ◌%◌, ◌^◌, Bool, true, false, not, ◌&&◌, ◌||◌, List, [], ◌∷◌, Option, none,
  some, ◌==◌, if◌then◌else◌, store_byte,
}

-- `struct pipe`; `data` has 512 bytes, of which only those below 512 are used here.
pub record Pipe : Type 0 where
  pub data_at : ℕ → ℕ
  pub nread : ℕ
  pub nwrite : ℕ
  pub readopen : Bool
  pub writeopen : Bool

-- what `pipealloc` makes of a page
unfoldable pub pipe_init : (ℕ → ℕ) → Pipe
pipe_init page = record { data_at = page; nread = 0; nwrite = 0; readopen = true; writeopen = true }

-- the channels that are woken, and that a process sleeps on
pub data Channel : Type 0 where
  on_nread : Channel
  on_nwrite : Channel

-- How a run ends: with a result and the channels woken, with -1, or asleep on a channel in round `i`
-- with the channels woken before.
pub data Ending : Type 0 where
  returns : ℕ → List Channel → Ending
  fails : Ending
  sleeps : Channel → ℕ → List Channel → Ending

-- `pi->nwrite == pi->nread + PIPESIZE`
abbrev pub is_full : Pipe → Bool
is_full p = p.nwrite == (p.nread + 512) % 2 ^ 32

abbrev pub is_empty : Pipe → Bool
is_empty p = p.nread == p.nwrite

-- `pi->data[pi->nwrite++ % PIPESIZE] = ch`
unfoldable pub put : Pipe → ℕ → Pipe
put p ch = record p {
  data_at = store_byte p.data_at (p.nwrite % 512) ch;
  nwrite = (p.nwrite + 1) % 2 ^ 32;
}

-- `ch = pi->data[pi->nread++ % PIPESIZE]`
unfoldable pub get : Pipe → ℕ × Pipe
get p = (p.data_at (p.nread % 512), record p { nread = (p.nread + 1) % 2 ^ 32 })

-- The rounds left of `while (i < n)`, and the `wakeup` behind it.
unfoldable pub write_loop : ℕ → (ℕ → Bool) → (ℕ → Option ℕ) → Pipe → ℕ → Ending × Pipe
write_loop zero killed copyin p i = (returns i (on_nread ∷ []), p)
write_loop (suc rounds) killed copyin p i =
    if not p.readopen || killed i
    then (fails, p)
    else if is_full p
    then (sleeps on_nwrite i (on_nread ∷ []), p)
    else elim (copyin i) [
      | none ↦ (returns i (on_nread ∷ []), p)
      | some ch ↦ write_loop rounds killed copyin (put p ch) (i + 1)
    ]

-- `n` rounds from the first
unfoldable pub pipewrite : (ℕ → Bool) → (ℕ → Option ℕ) → Pipe → ℕ → Ending × Pipe
unfolding write_loop put
pipewrite killed copyin p n = write_loop n killed copyin p 0

-- The rounds left of `for (i = 0; i < n; i++)`: the number of bytes counted, the bytes that `copyout`
-- put into the reader's memory, and the pipe.
unfoldable pub read_loop : ℕ → (ℕ → ℕ → Bool) → Pipe → ℕ → ℕ × List ℕ × Pipe
unfolding get
read_loop zero copyout p i = (i, [], p)
read_loop (suc rounds) copyout p i =
    let (ch, p') = get p in
    let (j, bytes, p'') = read_loop rounds copyout p' (i + 1) in
    if is_empty p then (i, [], p) else if copyout i ch then (j, ch ∷ bytes, p'') else (i, [], p')

unfoldable pub piperead : Bool → (ℕ → ℕ → Bool) → Pipe → ℕ → Ending × List ℕ × Pipe
unfolding read_loop
piperead killed copyout p n =
    let (i, bytes, p') = read_loop n copyout p 0 in
    if is_empty p && p.writeopen
    then (if killed then (fails, [], p) else (sleeps on_nread 0 [], [], p))
    else (returns i (on_nwrite ∷ []), bytes, p')

-- the pipe, the channel woken, and whether its page is freed
unfoldable pub pipeclose : Pipe → Bool → Pipe × Channel × Bool
pipeclose p writable =
    let p' = if writable then record p { writeopen = false } else record p { readopen = false } in
    (p', if writable then on_nread else on_nwrite, not p'.readopen && not p'.writeopen)
