-- ===== src/Vm/Kernel.antt =====
-- kernel/vm.c and kernel/proc.c: the page table of the kernel, and the empty table of a process.
-- `etext` and `trampoline` are where the linker puts the end of the code and the trap code.
use oshard.Common.{
  ℕ, zero, suc, ◌+◌, ◌-◌, ◌*◌, false, not, Result, ok, panic, ◌>>=◌, ◌==◌, if◌then◌else◌,
}
use oshard.Vm.{
  pgsize, maxva, pte_r, pte_w, pte_x, Allocator, Vm, zero_page, get_page, mappages, uvmunmap,
}
use oshard.Vm.User.{uvmcreate, uvmfree}

-- kernel/memlayout.h
abbrev pub trampoline_va : ℕ
trampoline_va = maxva - pgsize

abbrev pub trapframe_va : ℕ
trapframe_va = trampoline_va - pgsize

abbrev pub kernbase : ℕ
kernbase = 2147483648

abbrev pub phystop : ℕ
phystop = kernbase + 128 * 1024 * 1024

module _ {A : Type 0} (heap : Allocator A) where
  unfoldable pub kvmmap : Vm A → ℕ → ℕ → ℕ → ℕ → ℕ → Result (Vm A)
  unfolding mappages
  kvmmap s table va pa sz perm = do
    (mapped, s1) ← mappages heap s table va sz pa perm
    if mapped then ok s1 else panic "kvmmap"

  -- `proc_mapstacks` from entry `p` of the table on, with the entries left
  unfoldable pub proc_mapstacks : ℕ → Vm A → ℕ → ℕ → Result (Vm A)
  unfolding kvmmap
  proc_mapstacks zero s table p = ok s
  proc_mapstacks (suc entries) s table p =
      let (pa, s1) = get_page heap s in
      if pa == 0 then panic "kalloc" else (do
        s2 ← kvmmap s1 table (trampoline_va - (p + 1) * 2 * pgsize) pa pgsize (pte_r + pte_w)
        proc_mapstacks entries s2 table (p + 1))

  -- the new table and the state; `nproc` is NPROC
  unfoldable pub kvmmake : ℕ → ℕ → ℕ → Vm A → Result (ℕ × Vm A)
  unfolding kvmmap proc_mapstacks
  kvmmake nproc etext trampoline s =
      let (t, s1) = get_page heap s in
      if t == 0 then panic "kerneltrap" else (do
        s2 ← kvmmap (zero_page s1 t) t 268435456 268435456 pgsize (pte_r + pte_w)
        s3 ← kvmmap s2 t 268439552 268439552 pgsize (pte_r + pte_w)
        s4 ← kvmmap s3 t 201326592 201326592 4194304 (pte_r + pte_w)
        s5 ← kvmmap s4 t kernbase kernbase (etext - kernbase) (pte_r + pte_x)
        s6 ← kvmmap s5 t etext etext (phystop - etext) (pte_r + pte_w)
        s7 ← kvmmap s6 t trampoline_va trampoline pgsize (pte_r + pte_x)
        s8 ← proc_mapstacks nproc s7 t 0
        ok (t, s8))

  -- the table, or 0
  unfoldable pub proc_pagetable : ℕ → ℕ → Vm A → Result (ℕ × Vm A)
  unfolding uvmcreate mappages uvmfree uvmunmap
  proc_pagetable trampoline trapframe s =
      let (t, s1) = uvmcreate heap s in
      if t == 0 then ok (0, s1) else (do
        (code, s2) ← mappages heap s1 t trampoline_va pgsize trampoline (pte_r + pte_x)
        if not code then (uvmfree heap s2 t 0 >>= λ s3. ok (0, s3)) else (do
          (frame, s3) ← mappages heap s2 t trapframe_va pgsize trapframe (pte_r + pte_w)
          if frame then ok (t, s3) else (do
            s4 ← uvmunmap heap s3 t trampoline_va 1 false
            s5 ← uvmfree heap s4 t 0
            ok (0, s5))))

  unfoldable pub proc_freepagetable : Vm A → ℕ → ℕ → Result (Vm A)
  unfolding uvmunmap uvmfree
  proc_freepagetable s t sz = do
    s1 ← uvmunmap heap s t trampoline_va 1 false
    s2 ← uvmunmap heap s1 t trapframe_va 1 false
    uvmfree heap s2 t sz
