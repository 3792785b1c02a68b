-- ===== src/Log/Reserve.antt =====
-- The reservation of log space in kernel/log.c: each operation may log `MAXOPBLOCKS` blocks.
use oshard.Common.{
  ℕ, suc, ◌+◌, ◌-◌, ◌*◌, ◌≤◌, ◌<◌, ◌≡◌, refl, ap, subst, Bool, true, false, ◌||◌, List, [], ◌∷◌,
  none, some, ok, panic, ◌⊎◌, arith, ◌==◌, ltb, leb, Bool-cases, inl, inr, length,
}
use oshard.Log.{Log, begin_op, absorb, log_write, end_op, end_commit, log_size, max_op_blocks}

-- A log, and for each operation that runs, how many blocks it may still log.
pub record Running : Type 0 where
  pub log : Log
  pub left : List ℕ

unfoldable pub sum : List ℕ → ℕ
sum [] = 0
sum (n ∷ ns) = n + sum ns

-- One operation logs a block.
pub data Spends : List ℕ → List ℕ → Type 0 where
  here : {n : ℕ} {ns : List ℕ} → Spends (suc n ∷ ns) (n ∷ ns)
  there : {n : ℕ} {ns ms : List ℕ} → Spends ns ms → Spends (n ∷ ns) (n ∷ ms)

-- One operation ends.
pub data Leaves : List ℕ → List ℕ → Type 0 where
  here : {n : ℕ} {ns : List ℕ} → Leaves (n ∷ ns) ns
  there : {n : ℕ} {ns ms : List ℕ} → Leaves ns ms → Leaves (n ∷ ns) (n ∷ ms)

-- What the kernel can do next, each operation within its reservation.
pub data Step : Running → Running → Type 0 where
  begins :
      {l l' : Log} {ns : List ℕ}
      → begin_op l ≡ some l'
      → Step (record { log = l; left = ns }) (record { log = l'; left = max_op_blocks ∷ ns })
  writes :
      {l l' : Log} {ns ms : List ℕ} {new : Bool} (blockno : ℕ)
      → Spends ns ms
      → log_write l blockno ≡ ok (l', new)
      → Step (record { log = l; left = ns }) (record { log = l'; left = ms })
  ends :
      {l l' : Log} {ns ms : List ℕ} {do_commit : Bool}
      → Leaves ns ms
      → end_op l ≡ ok (l', do_commit)
      → Step (record { log = l; left = ns }) (record { log = l'; left = ms })
  commits :
      {l : Log} {ns : List ℕ}
      → l.committing ≡ true
      → Step (record { log = l; left = ns }) (record { log = end_commit l; left = ns })

-- No operation may log more than its reservation.
unfoldable pub IsWithin : List ℕ → Type 0
IsWithin [] = Unit
IsWithin (n ∷ ns) = (n ≤ max_op_blocks) × IsWithin ns

-- Every operation is counted, what is logged fits with what may still be, and none runs in a commit.
pub record IsReserved (r : Running) : Type 0 where
  pub counted : r.log.outstanding ≡ length r.left
  pub each : IsWithin r.left
  pub room : length r.log.blocks + sum r.left ≤ log_size
  pub alone : r.log.committing ≡ true → r.left ≡ []

Spends-sum : {ns ms : List ℕ} → Spends ns ms → (sum ns ≡ suc (sum ms)) × (length ns ≡ length ms)
unfolding sum
Spends-sum here = (omega arith, refl)
Spends-sum (there s) = let (e, f) = Spends-sum s in (omega (arith, e), omega (arith, f))

Spends-some : {ns ms : List ℕ} → Spends ns ms → 0 < length ns
Spends-some here = omega arith
Spends-some (there s) = omega arith

Leaves-sum : {ns ms : List ℕ} → Leaves ns ms → (sum ms ≤ sum ns) × (length ns ≡ suc (length ms))
unfolding sum
Leaves-sum here = (omega arith, refl)
Leaves-sum (there s) = let (e, f) = Leaves-sum s in (omega (arith, e), omega (arith, f))

IsWithin-sum : (ns : List ℕ) → IsWithin ns → sum ns ≤ length ns * max_op_blocks
unfolding IsWithin sum
IsWithin-sum [] w = omega arith
IsWithin-sum (n ∷ ns) (h, w) = omega (arith, h, IsWithin-sum ns w)

IsWithin-Spends : {ns ms : List ℕ} → Spends ns ms → IsWithin ns → IsWithin ms
unfolding IsWithin
IsWithin-Spends here (h, w) = (omega arith, w)
IsWithin-Spends (there s) (h, w) = (h, IsWithin-Spends s w)

IsWithin-Leaves : {ns ms : List ℕ} → Leaves ns ms → IsWithin ns → IsWithin ms
unfolding IsWithin
IsWithin-Leaves here (h, w) = w
IsWithin-Leaves (there s) (h, w) = (h, IsWithin-Leaves s w)

length-zero : (ns : List ℕ) → length ns ≡ 0 → ns ≡ []
length-zero [] e = refl
length-zero (n ∷ ns) e = absurd (omega (arith, e))

absorb-length :
    (xs : List ℕ) (b : ℕ)
    → (length xs ≤ length (absorb xs b).0) × (length (absorb xs b).0 ≤ suc (length xs))
unfolding absorb
absorb-length [] b = (omega arith, omega arith)
absorb-length (x ∷ xs) b = let (lo, hi) = absorb-length xs b in (ground arith, ground arith)

-- What log_write of `blockno` comes to, in a state where it may be logged: it panics when the log on
-- the disk, whose first block is the header, is full, and else the header has the block.
pub WritesLog : Log → ℕ → Type 0
WritesLog l blockno =
    ((suc (length l.blocks) < l.size)
      × (log_write l blockno
          ≡ ok (record l { blocks = (absorb l.blocks blockno).0 }, (absorb l.blocks blockno).1)))
    ⊎ ((l.size ≤ suc (length l.blocks)) × (log_write l blockno ≡ panic "too big a transaction"))

-- An operation that may still log a block has it logged, unless the log's blocks but one, which the
-- header takes, are full.
pub log_write-WritesLog :
    (r : Running) (ms : List ℕ) (blockno : ℕ)
    → IsReserved r
    → Spends r.left ms
    → WritesLog r.log blockno
unfolding log_write WritesLog
log_write-WritesLog r ms blockno w s =
    let (total, same) = Spends-sum s in
    let room = w.room in
    let some_run : 0 < length r.left = Spends-some s in
    let fits : leb log_size (length r.log.blocks) ≡ false = ground arith in
    let inside : ltb r.log.outstanding 1 ≡ false = (let c = w.counted in ground arith) in
    elim (Bool-cases (leb (r.log.size - 1) (length r.log.blocks))) [
      | inl full ↦ inr (ground arith, rw (fits, full) refl)
      | inr free ↦ inl (ground arith, rw (fits, free, inside) refl)
    ]

-- On the log of LOGSIZE disk blocks that mkfs makes, in a state that respects the reservations with
-- an operation that may still log a block, log_write of any block goes through while fewer than
-- LOGSIZE - 1 blocks are logged; and when it is not so LOGSIZE - 1 blocks are logged, one block is
-- left to all the operations together, and log_write panics, whatever the block.
pub log_write_short :
    (r : Running) (ms : List ℕ) (blockno : ℕ)
    → r.log.size ≡ log_size
    → IsReserved r
    → Spends r.left ms
    → ((length r.log.blocks < 29)
        × (log_write r.log blockno
            ≡ ok (
              record r.log { blocks = (absorb r.log.blocks blockno).0 },
              (absorb r.log.blocks blockno).1,
            )))
      ⊎ ((length r.log.blocks ≡ 29)
          × (sum r.left ≡ 1)
          × (log_write r.log blockno ≡ panic "too big a transaction"))
unfolding WritesLog
log_write_short r ms blockno size w s =
    let (total, same) = Spends-sum s in
    let room = w.room in
    elim (log_write-WritesLog r ms blockno w s) [
      | inl (lt, runs) ↦ inl (omega (arith, lt, size), runs)
      | inr (le, bad) ↦
          inr (omega (arith, le, size, room, total), omega (arith, le, size, room, total), bad)
    ]

begins-IsReserved :
    (l : Log) (ns : List ℕ) (l' : Log)
    → IsReserved (record { log = l; left = ns })
    → begin_op l ≡ some l'
    → IsReserved (record { log = l'; left = max_op_blocks ∷ ns })
unfolding begin_op sum IsWithin
begins-IsReserved l ns l' w e = elim (Bool-cases l.committing) [
  | inl busy ↦ absurd (let f : none ≡ some l' = rw busy at e in cc f)
  | inr idle ↦
      elim (Bool-cases (ltb log_size (length l.blocks + (l.outstanding + 1) * max_op_blocks))) [
        | inl full ↦ absurd (let f : none ≡ some l' = rw (idle, full) at e in cc f)
        | inr room ↦
            let f : some (record l { outstanding = l.outstanding + 1; committing = false })
                ≡ some l' =
              rw (idle, room) at e in
            let g : record l { outstanding = l.outstanding + 1; committing = false } ≡ l' = cc f in
            let c = w.counted in
            let s = IsWithin-sum ns w.each in
            let small : length l.blocks + (l.outstanding + 1) * max_op_blocks ≤ log_size =
              ground arith in
            subst (λ l. IsReserved (record { log = l; left = max_op_blocks ∷ ns })) g
              (record {
                counted = omega (arith, c);
                each = (omega arith, w.each);
                room = omega (arith, c, s, small);
                alone = λ b. absurd (cc b);
              })
      ]
]

writes-IsReserved :
    (l : Log) (ns ms : List ℕ) (l' : Log) (new : Bool) (blockno : ℕ)
    → IsReserved (record { log = l; left = ns })
    → Spends ns ms
    → log_write l blockno ≡ ok (l', new)
    → IsReserved (record { log = l'; left = ms })
unfolding log_write
writes-IsReserved l ns ms l' new blockno w s e =
    let (total, same) = Spends-sum s in
    let c = w.counted in
    let room = w.room in
    let (lo, hi) = absorb-length l.blocks blockno in
    let some_run = Spends-some s in
    let inside : ltb l.outstanding 1 ≡ false = ground arith in
    elim (Bool-cases (leb log_size (length l.blocks) || leb (l.size - 1) (length l.blocks))) [
      | inl full ↦
          absurd (let f : panic "too big a transaction" ≡ ok (l', new) = rw full at e in cc f)
      | inr small ↦
          let f : ok
                (record l { blocks = (absorb l.blocks blockno).0 }, (absorb l.blocks blockno).1)
              ≡ ok (l', new) =
            rw (small, inside) at e in
          let g : record l { blocks = (absorb l.blocks blockno).0 } ≡ l' = cc f in
          subst (λ l. IsReserved (record { log = l; left = ms })) g
            (record {
              counted = omega (arith, c, same);
              each = IsWithin-Spends s w.each;
              room = omega (arith, room, total, hi);
              alone = λ b.
                  absurd (let z = w.alone b in let n = ap length z in omega (arith, n, some_run));
            })
    ]

ends-IsReserved :
    (l : Log) (ns ms : List ℕ) (l' : Log) (do_commit : Bool)
    → IsReserved (record { log = l; left = ns })
    → Leaves ns ms
    → end_op l ≡ ok (l', do_commit)
    → IsReserved (record { log = l'; left = ms })
unfolding end_op
ends-IsReserved l ns ms l' do_commit w s e =
    let (total, same) = Leaves-sum s in
    let c = w.counted in
    let room = w.room in
    elim (Bool-cases l.committing) [
      | inl busy ↦
          absurd (let f : panic "log.committing" ≡ ok (l', do_commit) = rw busy at e in cc f)
      | inr idle ↦ elim (Bool-cases (l.outstanding - 1 == 0)) [
        | inl last ↦
            let f : ok (record l { outstanding = l.outstanding - 1; committing = true }, true)
                ≡ ok (l', do_commit) =
              rw (idle, last) at e in
            let g : record l { outstanding = l.outstanding - 1; committing = true } ≡ l' = cc f in
            let gone : length ms ≡ 0 = ground arith in
            subst (λ l. IsReserved (record { log = l; left = ms })) g
              (record {
                counted = omega (arith, c, same);
                each = IsWithin-Leaves s w.each;
                room = omega (arith, room, total);
                alone = λ b. length-zero ms gone;
              })
        | inr others ↦
            let f : ok (record l { outstanding = l.outstanding - 1; committing = false }, false)
                ≡ ok (l', do_commit) =
              rw (idle, others) at e in
            let g : record l { outstanding = l.outstanding - 1; committing = false } ≡ l' = cc f in
            subst (λ l. IsReserved (record { log = l; left = ms })) g
              (record {
                counted = omega (arith, c, same);
                each = IsWithin-Leaves s w.each;
                room = omega (arith, room, total);
                alone = λ b. absurd (cc b);
              })
      ]
    ]

-- A begin_op, a log_write by an operation that may still log a block, an end_op of a running
-- operation and the end of a commit each keep to the reservations: outstanding counts the
-- operations, the blocks logged with those that may still be logged fit in LOGSIZE, and none runs
-- in a commit.
pub Step-IsReserved : {r r' : Running} → Step r r' → IsReserved r → IsReserved r'
unfolding end_commit
Step-IsReserved (begins {l} {l'} {ns} e) w = begins-IsReserved l ns l' w e
Step-IsReserved (writes {l} {l'} {ns} {ms} {new} blockno s e) w =
    writes-IsReserved l ns ms l' new blockno w s e
Step-IsReserved (ends {l} {l'} {ns} {ms} {do_commit} s e) w =
    ends-IsReserved l ns ms l' do_commit w s e
Step-IsReserved (commits {l} {ns} b) w =
    let room = w.room in
    let none_left = w.alone b in
    record {
      counted = w.counted;
      each = w.each;
      room = omega (arith, room);
      alone = λ b. none_left;
    }
