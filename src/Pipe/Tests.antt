-- ===== src/Pipe/Tests.antt =====
-- Runs of kernel/pipe.c, and the theorems of `Transfer` at a pipe whose counters are about to wrap.
use oshard.Common.{
  ℕ, zero, suc, ◌-◌, ◌^◌, ◌≡◌, refl, Bool, true, false, ◌&&◌, List, [], ◌∷◌, ◌++◌, arith, items,
  if◌then◌else◌, length, Option, none, some, min,
}
use oshard.Pipe.{
  Pipe, on_nread, on_nwrite, returns, fails, sleeps, put, get, is_empty, write_loop, pipewrite,
  piperead,
}
use oshard.Pipe.Queue.{count, contents, IsPipe}
use oshard.Pipe.Transfer.{IsWritten, pipewrite_lem, piperead_lem, piperead_fault}

-- two bytes wait, and the next one wraps `nwrite`
abbrev waiting : Pipe
waiting = record {
  data_at = λ a. a;
  nread = 2 ^ 32 - 3;
  nwrite = 2 ^ 32 - 1;
  readopen = true;
  writeopen = true;
}

waiting-IsPipe : IsPipe waiting
waiting-IsPipe = record { read_small = omega arith; write_small = omega arith; fits = omega arith }

abbrev alive : ℕ → Bool
alive i = false

-- 70, 71, and then a bad address
abbrev two_bytes : ℕ → Option ℕ
two_bytes zero = some 70
two_bytes (suc zero) = some 71
two_bytes (suc (suc i)) = none

abbrev to_memory : ℕ → ℕ → Bool
to_memory i ch = true

abbrev bad_address : ℕ → ℕ → Bool
bad_address i ch = false

written : (pipewrite alive two_bytes waiting 3).0 ≡ returns 2 (on_nread ∷ [])
unfolding pipewrite write_loop put
written = refl

queued : contents (pipewrite alive two_bytes waiting 2).1 ≡ 509 ∷ 510 ∷ 70 ∷ 71 ∷ []
unfolding pipewrite write_loop put items
queued = refl

slept :
    (pipewrite alive two_bytes (record waiting { nread = 2 ^ 32 - 512 }) 2).0
    ≡ sleeps on_nwrite 1 (on_nread ∷ [])
unfolding pipewrite write_loop put
slept = refl

pipewrite_lem_example : IsWritten 3 alive two_bytes waiting 0 (pipewrite alive two_bytes waiting 3)
pipewrite_lem_example = pipewrite_lem alive two_bytes waiting 3 waiting-IsPipe

piperead_lem_example :
    (is_empty waiting && waiting.writeopen ≡ true
      → piperead false to_memory waiting 5
        ≡ (if false then (fails, [], waiting) else (sleeps on_nread 0 [], [], waiting)))
    × (is_empty waiting && waiting.writeopen ≡ false
        → (bytes : List ℕ) × (p' : Pipe) × (piperead false to_memory waiting 5
            ≡ (returns (length bytes) (on_nwrite ∷ []), bytes, p'))
          × (contents waiting ≡ bytes ++ contents p')
          × (length bytes ≡ min 5 (count waiting))
          × IsPipe p')
piperead_lem_example = piperead_lem false to_memory waiting 5 (λ j ch. refl) waiting-IsPipe

piperead_fault_example :
    (piperead false bad_address waiting 5 ≡ (returns 0 (on_nwrite ∷ []), [], (get waiting).1))
    × (contents waiting ≡ (get waiting).0 ∷ contents (get waiting).1)
piperead_fault_example = piperead_fault false bad_address waiting 4 waiting-IsPipe refl refl
