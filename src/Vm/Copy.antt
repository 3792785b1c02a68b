-- ===== src/Vm/Copy.antt =====
-- kernel/vm.c: `copyout`, `copyin` and `copyinstr`, with the rounds of their loops: each moves one
-- byte at least. A result is true for 0 and false for -1.
use oshard.Common.{
  ℕ, zero, suc, ◌+◌, ◌-◌, Bool, true, false, not, ◌||◌, Result, ok, loops, ◌==◌, leb, min,
  if◌then◌else◌,
}
use oshard.Strings.{Memory, store}
use oshard.Vm.{
  pgsize, maxva, pte_v, pte_w, pte_u, has_bit, pte2pa, pgrounddown, Allocator, Vm, walk_loop,
  walkaddr,
}
use oshard.Vm.User.{move}

-- how much of the page at `va` the next round moves
abbrev pub chunk : ℕ → ℕ → ℕ
chunk va len = min (pgsize - (va - pgrounddown va)) len

module _ {A : Type 0} (heap : Allocator A) where
  -- the entry that `copyout` may write through, or 0
  unfoldable pub writable_pte : Vm A → ℕ → ℕ → ℕ
  unfolding walk_loop
  writable_pte s table va0 =
      let pte = (walk_loop heap 2 s table va0 false).0 in
      if leb maxva va0
      then 0
      else if (pte == 0)
          || not (has_bit (s.word pte) pte_v)
          || not (has_bit (s.word pte) pte_u)
          || not (has_bit (s.word pte) pte_w)
      then 0
      else pte

  unfoldable pub copyout_loop : ℕ → Vm A → ℕ → ℕ → ℕ → ℕ → Result (Bool × Vm A)
  unfolding writable_pte
  copyout_loop zero s table dstva src len = if len == 0 then ok (true, s) else loops
  copyout_loop (suc rounds) s table dstva src len =
      let va0 = pgrounddown dstva in
      let pte = writable_pte s table va0 in
      let n = chunk dstva len in
      let s1 = move s (pte2pa (s.word pte) + (dstva - va0)) src n in
      let rest = copyout_loop rounds s1 table (va0 + pgsize) (src + n) (len - n) in
      if len == 0 then ok (true, s) else if pte == 0 then ok (false, s) else rest

  unfoldable pub copyout : Vm A → ℕ → ℕ → ℕ → ℕ → Result (Bool × Vm A)
  unfolding copyout_loop
  copyout s table dstva src len = copyout_loop len s table dstva src len

  unfoldable pub copyin_loop : ℕ → Vm A → ℕ → ℕ → ℕ → ℕ → Result (Bool × Vm A)
  unfolding walkaddr
  copyin_loop zero s table dst srcva len = if len == 0 then ok (true, s) else loops
  copyin_loop (suc rounds) s table dst srcva len =
      let va0 = pgrounddown srcva in
      let pa0 = walkaddr heap s table va0 in
      let n = chunk srcva len in
      let s1 = move s dst (pa0 + (srcva - va0)) n in
      let rest = copyin_loop rounds s1 table (dst + n) (va0 + pgsize) (len - n) in
      if len == 0 then ok (true, s) else if pa0 == 0 then ok (false, s) else rest

  unfoldable pub copyin : Vm A → ℕ → ℕ → ℕ → ℕ → Result (Bool × Vm A)
  unfolding copyin_loop
  copyin s table dst srcva len = copyin_loop len s table dst srcva len

  -- The inner loop of `copyinstr` with `n` bytes left: whether it met the 0.
  unfoldable pub copy_until_nul : ℕ → Memory → ℕ → ℕ → Bool × Memory
  copy_until_nul zero m dst p = (false, m)
  copy_until_nul (suc n) m dst p =
      let rest = copy_until_nul n (store m dst (m p)) (dst + 1) (p + 1) in
      if m p == 0 then (true, store m dst 0) else rest

  unfoldable pub copyinstr_loop : ℕ → Vm A → ℕ → ℕ → ℕ → ℕ → Result (Bool × Vm A)
  unfolding walkaddr copy_until_nul
  copyinstr_loop zero s table dst srcva max = if max == 0 then ok (false, s) else loops
  copyinstr_loop (suc rounds) s table dst srcva max =
      let va0 = pgrounddown srcva in
      let pa0 = walkaddr heap s table va0 in
      let n = chunk srcva max in
      let (got_null, bytes) = copy_until_nul n s.byte dst (pa0 + (srcva - va0)) in
      let s1 = record s { byte = bytes } in
      let rest = copyinstr_loop rounds s1 table (dst + n) (va0 + pgsize) (max - n) in
      if max == 0
      then ok (false, s)
      else if pa0 == 0
      then ok (false, s)
      else if got_null
      then ok (true, s1)
      else rest

  unfoldable pub copyinstr : Vm A → ℕ → ℕ → ℕ → ℕ → Result (Bool × Vm A)
  unfolding copyinstr_loop
  copyinstr s table dst srcva max = copyinstr_loop max s table dst srcva max

  -- `either_copyout` and `either_copyin` of kernel/proc.c, with the table of the process
  unfoldable pub either_copyout : Vm A → ℕ → Bool → ℕ → ℕ → ℕ → Result (Bool × Vm A)
  unfolding copyout
  either_copyout s table user_dst dst src len =
      if user_dst then copyout s table dst src len else ok (true, move s dst src len)

  unfoldable pub either_copyin : Vm A → ℕ → ℕ → Bool → ℕ → ℕ → Result (Bool × Vm A)
  unfolding copyin
  either_copyin s table dst user_src src len =
      if user_src then copyin s table dst src len else ok (true, move s dst src len)
