-- ===== src/SleepLock/Tests.antt =====
-- Runs of kernel/sleeplock.c.
use oshard.Common.{◌≡◌, refl, true, false, ok, loops}
use oshard.SleepLock.{SleepLock, initsleeplock, acquiresleep, releasesleep, holdingsleep}

abbrev taken : SleepLock
taken = record { locked = true; pid = 3 }

takes : acquiresleep 3 (initsleeplock taken) ≡ ok taken
unfolding acquiresleep initsleeplock
takes = refl

waits : acquiresleep 4 taken ≡ loops
unfolding acquiresleep
waits = refl

holds :
    (holdingsleep 3 taken ≡ true)
    × (holdingsleep 4 taken ≡ false)
    × (holdingsleep 3 (releasesleep taken) ≡ false)
unfolding holdingsleep releasesleep
holds = (refl, refl, refl)
