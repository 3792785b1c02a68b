-- ===== src/Log/Tests.antt =====
-- Runs of kernel/log.c, and the theorems of `Reserve` at a log with one operation.
use oshard.Common.{
  ◌+◌, ℕ, ◌≡◌, refl, true, false, List, [], ◌∷◌, some, ok, panic, arith, ◌⊎◌, inr, ◌<◌, length,
  ◌==◌, if◌then◌else◌,
}
use oshard.Log.{begin_op, absorb, log_write, end_op}
use oshard.Log.Disk.{
  Store, Block, bwrite, write_head, write_log, install_trans, commit, reboot, recover_from_log,
}
use oshard.LinkedList.Ring.{has}
use oshard.Log.Disk.Crash.{IsHome, IsSettled, installed, restarts, commit_atomic}
use oshard.Log.Reserve.{
  Running, IsReserved, IsWithin, begins, here, sum, log_write_short, Step-IsReserved,
}

-- one operation has logged block 40 and may log nine more
abbrev busy : Running
busy = record {
  log = record { size = 30; outstanding = 1; committing = false; blocks = 40 ∷ [] };
  left = 9 ∷ [];
}

busy-IsReserved : IsReserved busy
unfolding IsWithin sum
busy-IsReserved = record {
  counted = refl;
  each = (omega arith, tt);
  room = omega arith;
  alone = λ e. absurd (cc e);
}

-- A second write of a block takes no room in the log.
absorbed : log_write busy.log 40 ≡ ok (busy.log, false)
unfolding log_write absorb
absorbed = refl

committed :
    end_op busy.log
    ≡ ok (record { size = 30; outstanding = 0; committing = true; blocks = 40 ∷ [] }, true)
unfolding end_op
committed = refl

-- the first 29 numbers
abbrev full_header : List ℕ
full_header =
    1 ∷ 2 ∷ 3 ∷ 4 ∷ 5 ∷ 6 ∷ 7 ∷ 8 ∷ 9 ∷ 10 ∷ 11 ∷ 12 ∷ 13 ∷ 14 ∷ 15 ∷ 16 ∷ 17 ∷ 18 ∷ 19 ∷ 20 ∷ 21
    ∷ 22 ∷ 23 ∷ 24 ∷ 25 ∷ 26 ∷ 27 ∷ 28 ∷ 29 ∷ []

-- On a log of 30 disk blocks three operations cannot log 30 blocks, which they may.
short_log :
    log_write (record { size = 30; outstanding = 3; committing = false; blocks = full_header }) 30
    ≡ panic "too big a transaction"
unfolding log_write
short_log = refl

-- the log that mkfs lays out, with one operation that has logged block 40
abbrev laid_out : Running
laid_out = record {
  log = record { size = 30; outstanding = 1; committing = false; blocks = 40 ∷ [] };
  left = 9 ∷ [];
}

laid_out-IsReserved : IsReserved laid_out
unfolding IsWithin sum
laid_out-IsReserved = record {
  counted = refl;
  each = (omega arith, tt);
  room = omega arith;
  alone = λ e. absurd (cc e);
}

log_write_short_example :
    ((length laid_out.log.blocks < 29)
      × (log_write laid_out.log 41
          ≡ ok (
            record laid_out.log { blocks = (absorb laid_out.log.blocks 41).0 },
            (absorb laid_out.log.blocks 41).1,
          )))
    ⊎ ((length laid_out.log.blocks ≡ 29)
        × (sum laid_out.left ≡ 1)
        × (log_write laid_out.log 41 ≡ panic "too big a transaction"))
log_write_short_example = log_write_short laid_out (8 ∷ []) 41 refl laid_out-IsReserved here

begun :
    begin_op busy.log
    ≡ some (record { size = 30; outstanding = 2; committing = false; blocks = 40 ∷ [] })
unfolding begin_op
begun = refl

Step-IsReserved_example : IsReserved (record {
  log = record { size = 30; outstanding = 2; committing = false; blocks = 40 ∷ [] };
  left = 10 ∷ 9 ∷ [];
})
Step-IsReserved_example = Step-IsReserved (begins begun) busy-IsReserved

-- A block of the disk holds its number, and block 50 has been given the byte 99 in the cache.
abbrev numbered : ℕ → Block
numbered a = a ∷ []

abbrev changed : ℕ → Block
changed a = if a == 50 then 99 ∷ [] else a ∷ []

-- a transaction of one block, and power for the disk writes before the last but one
abbrev fading : Store
fading = record { disk = numbered; head = []; cache = changed; power = 2 }

lost :
    ((commit fading 2 (50 ∷ [])).0.disk 50 ≡ 50 ∷ [])
    × ((commit fading 2 (50 ∷ [])).0.head ≡ 50 ∷ [])
unfolding commit write_log install_trans write_head bwrite
lost = (refl, refl)

recovered : (recover_from_log (reboot (commit fading 2 (50 ∷ [])).0 9) 2).0.disk 50 ≡ 99 ∷ []
unfolding recover_from_log commit write_log install_trans write_head bwrite
recovered = refl

home : (a : ℕ) → has a (50 ∷ []) ≡ true → IsHome 2 (50 ∷ []) a
home a i = inr (ground arith)

commit_atomic_example :
    let s' = (commit fading 2 (50 ∷ [])).0 in
    let after = (recover_from_log (reboot (restarts 2 (1 ∷ 0 ∷ []) s') 9) 2).0 in
    (IsSettled 2 (50 ∷ []) numbered after
      ⊎ IsSettled 2 (50 ∷ []) (installed changed numbered (50 ∷ [])) after)
    × (length {A = ℕ} (50 ∷ []) + length {A = ℕ} (50 ∷ []) + 1 < 2
        → IsSettled 2 (50 ∷ []) (installed changed numbered (50 ∷ [])) s')
commit_atomic_example = commit_atomic fading 2 50 [] (1 ∷ 0 ∷ []) 9 refl home (omega arith)
