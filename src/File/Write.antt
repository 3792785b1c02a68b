-- ===== src/File/Write.antt =====
-- `filewrite` of kernel/file.c on a file of the file system, in transactions of a bounded size.
use oshard.Common.{ℕ, ◌+◌, ◌≤◌, ◌<◌, ◌≡◌, false, ok, Result, ◌==◌, ◌-◌}
use oshard.File.{File, Below, max_write, advance, write_chunk}

module _ {S : Type 0} (sys : Below S) (Good : S → File → Type 0) (room : S → File → ℕ) where
  -- How transactions of at most `max_write` bytes go while the file is good: one for which there is
  -- room at the offset writes all its bytes and takes their room, any other comes back with a
  -- number that is not the one asked for.
  pub record IsRoomy : Type 0 where
    pub whole :
        (s : S) (f : File) (addr n1 : ℕ)
        → Good s f
        → n1 ≤ max_write
        → n1 ≤ room s f
        → (s' : S) × (write_chunk sys s f addr n1 ≡ ok (n1, advance f n1, s'))
          × Good s' (advance f n1)
          × (room s' (advance f n1) + n1 ≡ room s f)
    pub short :
        (s : S) (f : File) (addr n1 : ℕ)
        → Good s f
        → n1 ≤ max_write
        → room s f < n1
        → (r : ℕ) × (s' : S) × (write_chunk sys s f addr n1 ≡ ok (r, advance f r, s'))
          × ((r == n1) ≡ false)

  -- what the loop for `n` bytes does from byte `i` on
  abbrev LoopEnds : S → File → ℕ → ℕ → Result (ℕ × File × S) → Type 0
  LoopEnds s f n i res =
      (n - i ≤ room s f
        → (f' : File) × (s' : S) × (res ≡ ok (n, f', s'))
          × (f'.off ≡ f.off + (n - i))
          × (room s' f' + (n - i) ≡ room s f))
      × (room s f < n - i → (i' : ℕ) × (f' : File) × (s' : S) × (res ≡ ok (i', f', s')) × (i' < n))
