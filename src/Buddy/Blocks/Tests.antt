-- ===== src/Buddy/Blocks/Tests.antt =====
-- Runs of the block arithmetic of kernel/buddy.c, and its theorems at concrete sizes.
use oshard.Common.{ℕ, ◌+◌, ◌^◌, ◌≡◌, refl, none, some, arith}
use oshard.Buddy.Blocks.{leaf_size, firstk_loop, firstk, log2}
use oshard.Buddy.Blocks.Sizes.{IsFirst, firstk-IsFirst, firstk_loop_endless}

-- a page is a block of level 8
page_level : firstk 4096 ≡ some 8
unfolding firstk
page_level = refl

log2_runs : (log2 8388607 ≡ some 22) × (log2 1 ≡ some 0)
unfolding log2
log2_runs = (refl, refl)

firstk-IsFirst_example : (k : ℕ) × (firstk 4096 ≡ some k) × IsFirst 4096 k
firstk-IsFirst_example = firstk-IsFirst 4096 (omega arith)

firstk_loop_endless_example : firstk_loop 64 (2 ^ 63 + 1) 0 leaf_size ≡ none
firstk_loop_endless_example = firstk_loop_endless 64 (2 ^ 63 + 1) (omega arith)
