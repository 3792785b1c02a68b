-- ===== src/SleepLock.antt =====
-- kernel/sleeplock.c and kernel/sleeplock.h: locks that are waited for asleep. `pid` is that of the
-- process that calls. The spin lock inside is held through each function and is not part of the
-- state. While another process holds the lock, the loop of `acquiresleep` sleeps and tests again.
mod Tests
use oshard.Common.{ℕ, Bool, true, false, ◌&&◌, Result, ok, loops, ◌==◌, if◌then◌else◌}

pub record SleepLock : Type 0 where
  pub locked : Bool
  pub pid : ℕ

unfoldable pub initsleeplock : SleepLock → SleepLock
initsleeplock lk = record { locked = false; pid = 0 }

unfoldable pub acquiresleep : ℕ → SleepLock → Result SleepLock
acquiresleep pid lk = if lk.locked then loops else ok (record { locked = true; pid = pid })

unfoldable pub releasesleep : SleepLock → SleepLock
releasesleep lk = record { locked = false; pid = 0 }

unfoldable pub holdingsleep : ℕ → SleepLock → Bool
holdingsleep pid lk = lk.locked && (lk.pid == pid)
