-- ===== src/Pipe/Transfer.antt =====
-- `pipewrite` and `piperead` of kernel/pipe.c on the queue of the pipe.
use oshard.Common.{
  append_nil, append_assoc, ℕ, zero, suc, ◌+◌, ◌<◌, ◌≡◌, refl, ap, sym, ◌∙◌, Bool, true, false, not,
  ◌&&◌, ◌||◌, List, [], ◌∷◌, ◌++◌, arith, if◌then◌else◌, Bool-cases, inl, inr, length, Option, none,
  some, min, ◌⊎◌, length-items,
}
use oshard.Pipe.{
  Pipe, Channel, on_nread, on_nwrite, Ending, returns, fails, sleeps, put, get, is_full, is_empty,
  write_loop, pipewrite, read_loop, piperead, pipeclose,
}
use oshard.Pipe.Queue.{count, contents, IsPipe, is_full_lem, is_empty_lem, put_lem, get_lem}

-- `copyin` gives these bytes in the rounds from `i` on.
pub IsSupplied : (ℕ → Option ℕ) → ℕ → List ℕ → Type 0
IsSupplied copyin i [] = Unit
IsSupplied copyin i (b ∷ bs) = (copyin i ≡ some b) × IsSupplied copyin (i + 1) bs

-- Why a writer stops that had `rounds` rounds to go from `i` on, and moved `moved` bytes: all are
-- written or `copyin` fails; the reader is gone or the process is killed; or the pipe is full.
pub EndsWrite : ℕ → (ℕ → Bool) → (ℕ → Option ℕ) → ℕ → ℕ → Pipe → Ending → Type 0
EndsWrite rounds killed copyin i moved p (returns j woken) =
    (j ≡ i + moved) × (woken ≡ on_nread ∷ []) × ((moved ≡ rounds) ⊎ (copyin j ≡ none))
EndsWrite rounds killed copyin i moved p fails = (p.readopen ≡ false) ⊎ (killed (i + moved) ≡ true)
EndsWrite rounds killed copyin i moved p (sleeps c j woken) =
    (c ≡ on_nwrite) × (j ≡ i + moved) × (moved < rounds) × (count p ≡ 512) × (woken ≡ on_nread ∷ [])

pub record IsWritten (rounds : ℕ) (killed : ℕ → Bool) (copyin : ℕ → Option ℕ) (p : Pipe) (i : ℕ)
    (r : Ending × Pipe) : Type 0 where
  pub bytes : List ℕ
  pub copied : IsSupplied copyin i bytes
  pub queue : contents r.1 ≡ contents p ++ bytes
  pub keeps : IsPipe r.1
  pub ending : EndsWrite rounds killed copyin i (length bytes) r.1 r.0

EndsWrite-suc :
    (rounds : ℕ) (killed : ℕ → Bool) (copyin : ℕ → Option ℕ) (i moved : ℕ) (p : Pipe) (e : Ending)
    → EndsWrite rounds killed copyin (i + 1) moved p e
    → EndsWrite (suc rounds) killed copyin i (suc moved) p e
unfolding EndsWrite
EndsWrite-suc rounds killed copyin i moved p (returns j woken) (at, w, why) =
    (omega arith, w, elim why [ inl all ↦ inl (omega arith) | inr bad ↦ inr bad ])
EndsWrite-suc rounds killed copyin i moved p fails why =
    let e : i + 1 + moved ≡ i + suc moved = omega arith in
    elim why [ inl gone ↦ inl gone | inr dead ↦ inr (sym (ap killed e) ∙ dead) ]
EndsWrite-suc rounds killed copyin i moved p (sleeps c j woken) (at, place, more, full, w) =
    (at, omega arith, omega arith, full, w)

-- a run that stops in its first round
stopped :
    (rounds : ℕ) (killed : ℕ → Bool) (copyin : ℕ → Option ℕ) (p : Pipe) (i : ℕ) (e : Ending)
    → IsPipe p
    → EndsWrite rounds killed copyin i 0 p e
    → IsWritten rounds killed copyin p i (e, p)
unfolding IsSupplied
stopped rounds killed copyin p i e w why = record {
  bytes = [];
  copied = tt;
  queue = sym (append_nil (contents p));
  keeps = w;
  ending = why;
}

-- a round that is neither refused nor put to sleep, before the others
write_round :
    (rounds : ℕ) (killed : ℕ → Bool) (copyin : ℕ → Option ℕ) (p : Pipe) (i : ℕ)
    → IsPipe p
    → is_full p ≡ false
    → (read : Option ℕ) → copyin i ≡ read
    → ((ch : ℕ)
        → IsWritten rounds killed copyin
            (put p ch)
            (i + 1)
            (write_loop rounds killed copyin (put p ch) (i + 1)))
    → IsWritten (suc rounds) killed copyin p i (elim read [
      | none ↦ (returns i (on_nread ∷ []), p)
      | some ch ↦ write_loop rounds killed copyin (put p ch) (i + 1)
    ])
unfolding EndsWrite IsSupplied
write_round rounds killed copyin p i w room none e rest =
    stopped (suc rounds) killed copyin p i (returns i (on_nread ∷ [])) w (omega arith, refl, inr e)
write_round rounds killed copyin p i w room (some ch) e rest =
    let r = rest ch in
    let (end, p') = write_loop rounds killed copyin (put p ch) (i + 1) in
    record {
      bytes = ch ∷ r.bytes;
      copied = (e, r.copied);
      queue =
          r.queue
          ∙ ap (λ xs. xs ++ r.bytes) (put_lem p ch w room).1
          ∙ append_assoc (contents p) (ch ∷ []) r.bytes;
      keeps = r.keeps;
      ending = EndsWrite-suc rounds killed copyin i (length r.bytes) p' end r.ending;
    }

write_loop-IsWritten :
    (rounds : ℕ) (killed : ℕ → Bool) (copyin : ℕ → Option ℕ) (p : Pipe) (i : ℕ)
    → IsPipe p
    → IsWritten rounds killed copyin p i (write_loop rounds killed copyin p i)
unfolding write_loop EndsWrite IsSupplied
write_loop-IsWritten zero killed copyin p i w =
    stopped zero killed copyin p i (returns i (on_nread ∷ [])) w (omega arith, refl, inl refl)
write_loop-IsWritten (suc rounds) killed copyin p i w =
    elim (Bool-cases (not p.readopen || killed i)) [
      | inl bad ↦ rw bad (
          stopped (suc rounds) killed copyin p i fails w
            let e : i + 0 ≡ i = omega arith in
              elim (Bool-cases p.readopen) [
                | inl open_still ↦ inr (ap killed e ∙ (let b = bad in ground arith))
                | inr gone ↦ inl gone
              ])
      | inr good ↦ elim (Bool-cases (is_full p)) [
        | inl full ↦
            rw (good, full)
              (stopped (suc rounds) killed copyin p i (sleeps on_nwrite i (on_nread ∷ [])) w
                (refl, omega arith, omega arith, (let e = is_full_lem p w in ground arith), refl))
        | inr room ↦
            rw (good, room)
              (write_round rounds killed copyin p i w room (copyin i) refl λ ch.
                write_loop-IsWritten rounds killed copyin (put p ch) (i + 1)
                  (put_lem p ch w room).0)
      ]
    ]

-- The queue that a run of `piperead` leaves: the bytes read were its first, as many as were asked
-- for or all of them.
pub record IsRead (rounds : ℕ) (p : Pipe) (i : ℕ) (r : ℕ × List ℕ × Pipe) : Type 0 where
  pub counted : r.0 ≡ i + length r.1
  pub queue : contents p ≡ r.1 ++ contents r.2
  pub amount : length r.1 ≡ min rounds (count p)
  pub keeps : IsPipe r.2

read_loop-IsRead :
    (rounds : ℕ) (copyout : ℕ → ℕ → Bool) (p : Pipe) (i : ℕ)
    → ((j ch : ℕ) → copyout j ch ≡ true)
    → IsPipe p
    → IsRead rounds p i (read_loop rounds copyout p i)
unfolding read_loop
read_loop-IsRead zero copyout p i good w = record {
  counted = omega arith;
  queue = refl;
  amount = omega arith;
  keeps = w;
}
read_loop-IsRead (suc rounds) copyout p i good w =
    let (ch, p') = get p in
    elim (Bool-cases (is_empty p)) [
      | inl none_left ↦
          let e = is_empty_lem p w in
          let z : count p ≡ 0 = ground arith in
          rw none_left
            (record { counted = omega arith; queue = refl; amount = omega (arith, z); keeps = w })
      | inr some_wait ↦
          let (w', queue) = get_lem p w some_wait in
          let r = read_loop-IsRead rounds copyout p' (i + 1) good w' in
          let one : count p ≡ suc (count p') =
            sym (length-items 512 (count p) p.data_at p.nread)
            ∙ ap length queue
            ∙ ap suc (length-items 512 (count p') p'.data_at p'.nread) in
          let least : suc (min rounds (count p')) ≡ min (suc rounds) (count p) =
            omega (arith, one) in
          rw (some_wait, good i ch)
            (record {
              counted = omega (arith, r.counted);
              queue = queue ∙ ap (λ xs. ch ∷ xs) r.queue;
              amount = ap suc r.amount ∙ least;
              keeps = r.keeps;
            })
    ]

-- However killed and copyin answer, pipewrite of n bytes keeps the pipe in order and adds to its
-- queue the bytes that copyin gave, in their order. It returns their number, and fewer than n only
-- when copyin fails; it fails only with the reader gone or the process killed; it sleeps only on a
-- full pipe, with bytes to go and readers woken.
pub pipewrite_lem :
    (killed : ℕ → Bool) (copyin : ℕ → Option ℕ) (p : Pipe) (n : ℕ)
    → IsPipe p
    → IsWritten n killed copyin p 0 (pipewrite killed copyin p n)
unfolding pipewrite
pipewrite_lem killed copyin p n w = write_loop-IsWritten n killed copyin p 0 w

-- When every copyout succeeds, piperead of an empty pipe that can still be written to sleeps, or
-- fails when the process is killed; any other pipe gives the first bytes of its queue, n of them or
-- all, whose number is returned and which leave the queue, with writers woken.
pub piperead_lem :
    (killed : Bool) (copyout : ℕ → ℕ → Bool) (p : Pipe) (n : ℕ)
    → ((j ch : ℕ) → copyout j ch ≡ true)
    → IsPipe p
    → (is_empty p && p.writeopen ≡ true
        → piperead killed copyout p n
          ≡ (if killed then (fails, [], p) else (sleeps on_nread 0 [], [], p)))
      × (is_empty p && p.writeopen ≡ false
          → (bytes : List ℕ) × (p' : Pipe) × (piperead killed copyout p n
              ≡ (returns (length bytes) (on_nwrite ∷ []), bytes, p'))
            × (contents p ≡ bytes ++ contents p')
            × (length bytes ≡ min n (count p))
            × IsPipe p')
unfolding piperead
piperead_lem killed copyout p n good w =
    let r = read_loop-IsRead n copyout p 0 good w in
    let (i, bytes, p') = read_loop n copyout p 0 in
    let number : i ≡ length bytes = omega (arith, r.counted) in
    (
      λ waits. rw waits,
      λ goes. (
        bytes,
        p',
        rw goes (ap (λ j. (returns j (on_nwrite ∷ []), bytes, p')) number),
        r.queue,
        r.amount,
        r.keeps,
      ),
    )

-- When copyout fails for the first byte of a pipe that is not empty, piperead of a positive number
-- of bytes returns 0 with nothing read, and the byte has left the queue.
pub piperead_fault :
    (killed : Bool) (copyout : ℕ → ℕ → Bool) (p : Pipe) (n : ℕ)
    → IsPipe p
    → is_empty p ≡ false
    → copyout 0 (get p).0 ≡ false
    → (piperead killed copyout p (suc n) ≡ (returns 0 (on_nwrite ∷ []), [], (get p).1))
      × (contents p ≡ (get p).0 ∷ contents (get p).1)
unfolding piperead read_loop
piperead_fault killed copyout p n w some_wait bad = (rw (some_wait, bad), (get_lem p w some_wait).1)

abbrev pub woken_by : Bool → Channel
woken_by writable = if writable then on_nread else on_nwrite

-- Two calls of pipeclose, one for each end, on a pipe with both ends open leave both ends closed in
-- either order; only the second frees the page, and each wakes those who wait for the end that it
-- closes.
pub pipeclose_twice :
    (p : Pipe) (writable : Bool)
    → p.readopen ≡ true
    → p.writeopen ≡ true
    → (pipeclose p writable ≡ ((pipeclose p writable).0, woken_by writable, false))
      × (pipeclose (pipeclose p writable).0 (not writable)
          ≡ (record p { readopen = false; writeopen = false }, woken_by (not writable), true))
unfolding pipeclose
pipeclose_twice p true r w = (rw r, refl)
pipeclose_twice p false r w = (rw w, refl)
