-- ===== src/Vm/Unmap.antt =====
-- `uvmunmap` of kernel/vm.c against the mapping that a page table stands for.
use oshard.Common.{
  ℕ, ◌<◌, ◌≡◌, Bool, true, false, not, ◌&&◌, none, Result, ok, panic, loops, ◌==◌, if◌then◌else◌,
}
use oshard.Vm.{maxva, pte_v, has_bit, pte_flags, pte2pa, Allocator, Vm}
use oshard.Vm.Path.{mapping, Places, IsTable}
use oshard.Vm.Walk.{IsAllocator}
use oshard.Vm.Leaf.{same_vpn}
use oshard.Vm.Map.{in_pages}

-- an entry that `uvmunmap` may clear
abbrev pub is_leaf : ℕ → Bool
is_leaf v = has_bit v pte_v && not (pte_flags v == pte_v)

module _ {A : Type 0} (heap : Allocator A) (Free : A → ℕ → Type 0) (law : IsAllocator heap Free)
    (root : ℕ) (own : Places) where
  -- How the unmapping of `n` pages from `va` on ends.
  abbrev pub UnmapEnds : Vm A → ℕ → ℕ → Result (Vm A) → Type 0
  UnmapEnds s va n (ok s') =
      IsTable Free s' root own
      × ((b : ℕ)
          → b < maxva
          → mapping s'.word root b ≡ (if in_pages va n b then 0 else mapping s.word root b))
  UnmapEnds s va n (panic e) =
      (b : ℕ) × (in_pages va n b ≡ true) × (is_leaf (mapping s.word root b) ≡ false)
  UnmapEnds s va n loops = ⊥

  -- No page mapped in the range is one of the table.
  abbrev pub DataPages : Vm A → ℕ → ℕ → Type 0
  DataPages s va n = (b : ℕ) → in_pages va n b ≡ true → own (pte2pa (mapping s.word root b)) ≡ none

  abbrev PageEnds : Vm A → ℕ → Result (Vm A) → Type 0
  PageEnds s va (ok s') =
      IsTable Free s' root own
      × ((b : ℕ)
          → b < maxva
          → mapping s'.word root b ≡ (if same_vpn b va then 0 else mapping s.word root b))
  PageEnds s va (panic e) = is_leaf (mapping s.word root va) ≡ false
  PageEnds s va loops = ⊥
