-- ===== src/Pipe/Queue.antt =====
-- The ring of kernel/pipe.c as a queue of at most 512 bytes, whose counters wrap at 2 ^ 32.
use oshard.Common.{
  ℕ, suc, ◌+◌, ◌-◌, ◌%◌, ◌^◌, ◌≤◌, ◌<◌, ◌≡◌, ap, ap₂, ◌∙◌, false, List, [], ◌∷◌, ◌++◌, arith, ◌==◌,
  store_byte, items, items_wrapped, items-snoc, items_kept,
}
use oshard.Pipe.{Pipe, put, get, is_full, is_empty, pipe_init}

-- how many bytes wait: `nwrite - nread` as a `uint`
abbrev pub count : Pipe → ℕ
count p = (p.nwrite + 2 ^ 32 - p.nread) % 2 ^ 32

abbrev pub contents : Pipe → List ℕ
contents p = items 512 (count p) p.data_at p.nread

pub record IsPipe (p : Pipe) : Type 0 where
  pub read_small : p.nread < 2 ^ 32
  pub write_small : p.nwrite < 2 ^ 32
  pub fits : count p ≤ 512

-- A pipe is full when 512 bytes wait, and empty when none does.
pub is_full_lem : (p : Pipe) → IsPipe p → is_full p ≡ (count p == 512)
is_full_lem p w = ground (arith, w.read_small, w.write_small, w.fits)

pub is_empty_lem : (p : Pipe) → IsPipe p → is_empty p ≡ (count p == 0)
is_empty_lem p w = ground (arith, w.read_small, w.write_small, w.fits)

pub pipe_init-IsPipe : (page : ℕ → ℕ) → IsPipe (pipe_init page)
unfolding pipe_init
pipe_init-IsPipe page = record {
  read_small = omega arith;
  write_small = omega arith;
  fits = omega arith;
}

-- A byte written to a pipe that is not full is the last of the queue.
pub put_lem :
    (p : Pipe) (ch : ℕ)
    → IsPipe p
    → is_full p ≡ false
    → IsPipe (put p ch) × (contents (put p ch) ≡ contents p ++ (ch ∷ []))
unfolding put
put_lem p ch w room =
    let lt : count p < 512 = (let e = is_full_lem p w in let f = w.fits in ground arith) in
    let one : count (put p ch) ≡ suc (count p) =
      (let a = w.read_small in let b = w.write_small in omega arith) in
    let place : p.nwrite % 512 ≡ (p.nread + count p) % 512 =
      (let a = w.read_small in let b = w.write_small in omega arith) in
    (
      record {
        read_small = w.read_small;
        write_small = omega arith;
        fits = omega (arith, one, lt);
      },
      queue one place,
    )
  where
    d : ℕ → ℕ
    d = store_byte p.data_at (p.nwrite % 512) ch

    queue :
        count (put p ch) ≡ suc (count p)
        → p.nwrite % 512 ≡ (p.nread + count p) % 512
        → contents (put p ch) ≡ contents p ++ (ch ∷ [])
    queue one place =
        let lt : count p < 512 = (let e = is_full_lem p w in let f = w.fits in ground arith) in
        let last : d ((p.nread + count p) % 512) ≡ ch = ground arith in
        ap (λ c. items 512 c d p.nread) one
        ∙ items-snoc 512 (count p) d p.nread
        ∙ ap₂ (λ xs c. xs ++ (c ∷ []))
            (items_kept 512 (count p) p.data_at p.nread (p.nwrite % 512) ch
              λ j h e. absurd (omega (arith, place, lt)))
            last

-- A byte read from a pipe that is not empty is the first of the queue.
pub get_lem :
    (p : Pipe)
    → IsPipe p
    → is_empty p ≡ false
    → IsPipe (get p).1 × (contents p ≡ (get p).0 ∷ contents (get p).1)
unfolding get items
get_lem p w some_wait =
    let one : count p ≡ suc (count (get p).1) =
      (let e = is_empty_lem p w in let a = w.read_small in let b = w.write_small in ground arith) in
    (
      record {
        read_small = omega arith;
        write_small = w.write_small;
        fits = omega (arith, one, w.fits);
      },
      ap (λ c. items 512 c p.data_at p.nread) one
          ∙ ap (λ xs. p.data_at (p.nread % 512) ∷ xs)
              (items_wrapped 512 (count (get p).1) p.data_at (p.nread + 1) ((p.nread + 1) % 2 ^ 32)
                (λ a b e. omega arith) (omega arith)),
    )
