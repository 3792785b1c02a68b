-- ===== src/Vm/Map.antt =====
-- `mappages` and `uvmunmap` of kernel/vm.c against the mapping that a page table stands for.
use oshard.Common.{
  ℕ, suc, ◌+◌, ◌-◌, ◌*◌, ◌/◌, ◌%◌, ◌<◌, ◌≤◌, ◌≡◌, ◌≢◌, ◌⊎◌, Bool, true, false, ◌&&◌, Result, ok,
  panic, loops, ◌==◌, ltb, leb, if◌then◌else◌, arith, Bool-cases, inl, inr,
}
use oshard.Vm.{maxva, pte_v, has_bit, Allocator, Vm}
use oshard.Vm.Bits.{page_entry}
use oshard.Vm.Path.{IsPage, mapping, Places, IsTable}
use oshard.Vm.Walk.{IsAllocator}
use oshard.Vm.Leaf.{same_vpn}

pub nonzero : (pte c i : ℕ) → IsPage c → pte ≡ c + 8 * i → (pte == 0) ≡ false
nonzero pte c i page e = let pos : 0 < c = page.0 in ground arith

abbrev pub in_pages : ℕ → ℕ → ℕ → Bool
in_pages va n b = leb va b && ltb b (va + n * 4096)

pub if_true {ℓ} : {A : Type ℓ} {t : Bool} (x y : A) → t ≡ true → (if t then x else y) ≡ x
if_true x y e = rw e

pub if_false {ℓ} : {A : Type ℓ} {t : Bool} (x y : A) → t ≡ false → (if t then x else y) ≡ y
if_false x y e = rw e

pub empty_range : (va b : ℕ) → in_pages va 0 b ≡ false
empty_range va b = ground arith

pub in_range_lt :
    (va n b : ℕ) → va + 4096 + n * 4096 ≤ maxva → in_pages (va + 4096) n b ≡ true → b < maxva
in_range_lt va n b fits i = ground arith

-- an address is in the first page, or in the others exactly when it is in the range
pub range-cases :
    (va n b : ℕ)
    → va % 4096 ≡ 0
    → ((same_vpn b va ≡ true)
        × (in_pages (va + 4096) n b ≡ false)
        × (in_pages va (suc n) b ≡ true)
        × (b / 4096 * 4096 ≡ va))
      ⊎ ((same_vpn b va ≡ false) × (in_pages va (suc n) b ≡ in_pages (va + 4096) n b))
range-cases va n b al = elim (Bool-cases (same_vpn b va)) [
  | inl t ↦
      let e : b / 4096 ≡ va / 4096 = ground arith in
      inl (t, ground arith, ground arith, omega arith)
  | inr f ↦
      let e : b / 4096 ≢ va / 4096 = ground arith in
      let side : (b < va) ⊎ (va + 4096 ≤ b) = omega arith in inr (f, ground arith)
]

module _ {A : Type 0} (heap : Allocator A) (Free : A → ℕ → Type 0) (law : IsAllocator heap Free)
    (root : ℕ) where
  -- a well-formed page table that maps what is said
  abbrev pub Maps : Vm A → (ℕ → ℕ) → Type 0
  Maps s f =
      (own : Places) × IsTable Free s root own × ((b : ℕ) → b < maxva → mapping s.word root b ≡ f b)

  -- What the mapping of one page, with an entry `v`, ends with.
  abbrev pub MapEnds : Vm A → ℕ → ℕ → Result (Bool × Vm A) → Type 0
  MapEnds s a v (ok (true, s')) = Maps s' (λ b. if same_vpn b a then v else mapping s.word root b)
  MapEnds s a v (ok (false, s')) = Maps s' (λ b. mapping s.word root b)
  MapEnds s a v (panic e) = has_bit (mapping s.word root a) pte_v ≡ true
  MapEnds s a v loops = ⊥

  -- the entry for `b` when the pages from `va` on are mapped to those from `pa` on
  abbrev pub target : ℕ → ℕ → ℕ → ℕ → ℕ
  target va pa perm b = page_entry (pa + (b / 4096 * 4096 - va)) perm

  -- How the mapping of `n` pages from `va` on ends.
  abbrev pub RangeEnds : Vm A → ℕ → ℕ → ℕ → ℕ → Result (Bool × Vm A) → Type 0
  RangeEnds s va n pa perm (ok (true, s')) =
      Maps s' (λ b. if in_pages va n b then target va pa perm b else mapping s.word root b)
  RangeEnds s va n pa perm (ok (false, s')) =
      (own : Places) × IsTable Free s' root own
      × ((b : ℕ)
          → b < maxva
          → in_pages va n b ≡ false
          → mapping s'.word root b ≡ mapping s.word root b)
  RangeEnds s va n pa perm (panic e) =
      (b : ℕ) × (in_pages va n b ≡ true) × (has_bit (mapping s.word root b) pte_v ≡ true)
  RangeEnds s va n pa perm loops = ⊥
