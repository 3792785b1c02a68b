-- ===== src/Fs/Inode/Transfer.antt =====
-- kernel/fs.c: `readi` and `writei`. `either_copyout` and `either_copyin` of kernel/proc.c are
-- arguments: with the memory, an address and the bytes to put there, or the buffer, the place in it,
-- the address and the count, they say whether the copy succeeded and what it left.
use oshard.Common.{
  ℕ, zero, suc, ◌+◌, ◌-◌, ◌*◌, ◌/◌, ◌%◌, ◌^◌, Bool, not, ◌||◌, List, Result, ok, loops, ◌>>=◌, ◌==◌,
  ltb, if◌then◌else◌, take, drop, min,
}
use oshard.Fs.{bsize, Fs, put_block}
use oshard.Fs.Inode.{Inode, maxfile, bmap, iupdate}

-- what a transfer ends with: `tot`, the memory, the blocks and the inode
abbrev pub Moved : Type 0 → Type 0
Moved M = ℕ × M × Fs × Inode

abbrev pub block_rest : ℕ → ℕ → ℕ
block_rest left off = min left (bsize - off % bsize)

module _ {M : Type 0} (either_copyout : M → ℕ → List ℕ → Bool × M) where
  -- The loop of `readi`, with the rounds left.
  unfoldable pub readi_loop : ℕ → M → Fs → Inode → ℕ → ℕ → ℕ → ℕ → Result (Moved M)
  unfolding bmap
  readi_loop zero mem fs ip dst off n tot = loops
  readi_loop (suc rounds) mem fs ip dst off n tot =
      if not (ltb tot n) then ok (tot, mem, fs, ip) else (do
        (addr, fs1, ip1) ← bmap fs ip (off / bsize)
        let m = block_rest (n - tot) off
        let copy = either_copyout mem dst (take m (drop (off % bsize) (fs1.block addr)))
        if addr == 0
            then ok (tot, mem, fs1, ip1)
            else if not copy.0
            then ok (2 ^ 32 - 1, copy.1, fs1, ip1)
            else readi_loop rounds copy.1 fs1 ip1 ((dst + m) % 2 ^ 64) (off + m) n (tot + m))

  unfoldable pub readi : M → Fs → Inode → ℕ → ℕ → ℕ → Result (Moved M)
  unfolding readi_loop
  readi mem fs ip dst off n =
      let end = (off + n) % 2 ^ 32 in
      if ltb ip.size off || ltb end off
      then ok (0, mem, fs, ip)
      else (let n1 = if ltb ip.size end then ip.size - off else n in
          readi_loop (n1 + 1) mem fs ip dst off n1 0)

module _ {M : Type 0} (either_copyin : M → List ℕ → ℕ → ℕ → ℕ → Bool × List ℕ) where
  -- The loop of `writei`, which ends with the offset in place of the memory.
  unfoldable pub writei_loop : ℕ → M → Fs → Inode → ℕ → ℕ → ℕ → ℕ → Result (Moved ℕ)
  unfolding bmap
  writei_loop zero mem fs ip src off n tot = loops
  writei_loop (suc rounds) mem fs ip src off n tot =
      if not (ltb tot n) then ok (tot, off, fs, ip) else (do
        (addr, fs1, ip1) ← bmap fs ip (off / bsize)
        let m = block_rest (n - tot) off
        let copy = either_copyin mem (fs1.block addr) (off % bsize) src m
        if addr == 0
            then ok (tot, off, fs1, ip1)
            else if not copy.0
            then ok (tot, off, put_block fs1 addr copy.1, ip1)
            else writei_loop rounds mem (put_block fs1 addr copy.1) ip1 ((src + m) % 2 ^ 64)
                (off + m) n (tot + m))

  unfoldable pub writei : M → Fs → Inode → ℕ → ℕ → ℕ → Result (ℕ × Fs × Inode)
  unfolding writei_loop iupdate
  writei mem fs ip src off n =
      let end = (off + n) % 2 ^ 32 in
      if ltb ip.size off || ltb end off
      then ok (2 ^ 32 - 1, fs, ip)
      else if ltb (maxfile * bsize) end
      then ok (2 ^ 32 - 1, fs, ip)
      else (do
        (tot, off1, fs1, ip1) ← writei_loop (n + 1) mem fs ip src off n 0
        let ip2 = if ltb ip1.size off1 then record ip1 { size = off1 } else ip1
        ok (tot, iupdate fs1 ip2, ip2))
