-- ===== src/Vm/Path.antt =====
-- What a page table of kernel/vm.c maps, and the well-formedness of one in memory: each page of the
-- table has one place in it, its level with the bits of the addresses that lead there.
use oshard.Common.{
  ℕ, zero, suc, ◌+◌, ◌*◌, ◌%◌, ◌^◌, ◌<◌, ◌≤◌, ◌≡◌, ◌≢◌, refl, ap, sym, ◌∙◌, true, false, Option,
  none, some, ◌==◌, if◌then◌else◌, arith, Bool-cases, inl, inr,
}
use oshard.Vm.{pte_v, has_bit, pte2pa, pa2pte, px, entry, in_page, Vm, put_word, zero_page}

abbrev pub IsPage : ℕ → Type 0
IsPage p = (0 < p) × (p % 4096 ≡ 0) × (p < 2 ^ 56)

-- the entry for `va` below the table `p` of a level, or 0 when a table is missing
unfoldable pub leaf_from : ℕ → (ℕ → ℕ) → ℕ → ℕ → ℕ
leaf_from zero w p va = w (entry p 0 va)
leaf_from (suc level) w p va =
    let pte = w (entry p (suc level) va) in
    let down = leaf_from level w (pte2pa pte) va in if has_bit pte pte_v then down else 0

pub leaf_from-valid :
    (m : ℕ) (w : ℕ → ℕ) (p va : ℕ)
    → has_bit (w (entry p (suc m) va)) pte_v ≡ true
    → leaf_from (suc m) w p va ≡ leaf_from m w (pte2pa (w (entry p (suc m) va))) va
unfolding leaf_from
leaf_from-valid m w p va t = rw t

pub leaf_from-invalid :
    (m : ℕ) (w : ℕ → ℕ) (p va : ℕ)
    → has_bit (w (entry p (suc m) va)) pte_v ≡ false
    → leaf_from (suc m) w p va ≡ 0
unfolding leaf_from
leaf_from-invalid m w p va f = rw f

-- what the table at `root` has for an address
abbrev pub mapping : (ℕ → ℕ) → ℕ → ℕ → ℕ
mapping w root va = leaf_from 2 w root va

-- the table of level 0 for `va`, when there is one
unfoldable pub descend : ℕ → (ℕ → ℕ) → ℕ → ℕ → Option ℕ
descend zero w p va = some p
descend (suc level) w p va =
    let pte = w (entry p (suc level) va) in
    let down = descend level w (pte2pa pte) va in if has_bit pte pte_v then down else none

pub descend-valid :
    (m : ℕ) (w : ℕ → ℕ) (p va : ℕ)
    → has_bit (w (entry p (suc m) va)) pte_v ≡ true
    → descend (suc m) w p va ≡ descend m w (pte2pa (w (entry p (suc m) va))) va
unfolding descend
descend-valid m w p va t = rw t

pub descend-invalid :
    (m : ℕ) (w : ℕ → ℕ) (p va : ℕ)
    → has_bit (w (entry p (suc m) va)) pte_v ≡ false
    → descend (suc m) w p va ≡ none
unfolding descend
descend-invalid m w p va f = rw f

-- what the entry in a table of level 0 holds
abbrev pub read_leaf : (ℕ → ℕ) → ℕ → Option ℕ → ℕ
read_leaf w va none = 0
read_leaf w va (some c) = w (entry c 0 va)

pub leaf_from-descend :
    (m : ℕ) (w : ℕ → ℕ) (p va : ℕ) → leaf_from m w p va ≡ read_leaf w va (descend m w p va)
unfolding leaf_from descend
leaf_from-descend zero w p va = refl
leaf_from-descend (suc m) w p va = elim (Bool-cases (has_bit (w (entry p (suc m) va)) pte_v)) [
  | inl t ↦
      leaf_from-valid m w p va t
      ∙ leaf_from-descend m w _ va
      ∙ ap (read_leaf w va) (sym (descend-valid m w p va t))
  | inr f ↦ leaf_from-invalid m w p va f ∙ ap (read_leaf w va) (sym (descend-invalid m w p va f))
]

-- The pages of the table, with their places.
abbrev pub Places : Type 0
Places = ℕ → Option (ℕ × ℕ)

-- `Free h p`: the allocator in state `h` may hand out the page `p`.
pub record IsTable {A : Type 0} (Free : A → ℕ → Type 0) (s : Vm A) (root : ℕ) (own : Places)
    : Type 0 where
  pub root_place : own root ≡ some (2, 0)
  pub child_place :
      (p l x i : ℕ)
      → own p ≡ some (suc l, x)
      → i < 512
      → has_bit (s.word (p + 8 * i)) pte_v ≡ true
      → own (pte2pa (s.word (p + 8 * i))) ≡ some (l, x * 512 + i)
  pub page : (p l x : ℕ) → own p ≡ some (l, x) → IsPage p
  pub taken : (p l x : ℕ) → own p ≡ some (l, x) → Free s.heap p → ⊥

pub px_lt : (level va : ℕ) → px level va < 512
px_lt level va = omega arith

-- Entries of different pages stand at different addresses.
pub entry_ne :
    (p q i j : ℕ) → IsPage p → IsPage q → p ≢ q → i < 512 → j < 512 → p + 8 * i ≢ q + 8 * j
entry_ne p q i j a b ne hi hj e = ne (omega arith)

pub table_pte :
    (q : ℕ) → IsPage q → (has_bit (pa2pte q + 1) pte_v ≡ true) × (pte2pa (pa2pte q + 1) ≡ q)
table_pte q k = (ground arith, omega arith)

in_own_page : (q i : ℕ) → i < 512 → in_page q (q + 8 * i) ≡ true
in_own_page q i h = ground arith

page_of : (p q i : ℕ) → IsPage p → IsPage q → i < 512 → in_page q (p + 8 * i) ≡ true → p ≡ q
page_of p q i a b h t =
    let lo : q ≤ p + 8 * i = ground arith in
    let hi : p + 8 * i < q + 4096 = ground arith in omega arith

in_other_page : (p q i : ℕ) → IsPage p → IsPage q → p ≢ q → i < 512 → in_page q (p + 8 * i) ≡ false
in_other_page p q i a b ne h = elim (Bool-cases (in_page q (p + 8 * i))) [
  | inr f ↦ f
  | inl t ↦ absurd (ne (page_of p q i a b h t))
]

-- One table more: the page `q`, for the entry `i` of the page `p`.
module _ {A : Type 0} (s : Vm A) (p i q : ℕ) (hp : IsPage p) (hi : i < 512) (hq : IsPage q)
    (ne : p ≢ q) where
  abbrev pub grown : Vm A
  grown = put_word (zero_page s q) (p + 8 * i) (pa2pte q + 1)

  pub grown-new : (j : ℕ) → j < 512 → grown.word (q + 8 * j) ≡ 0
  grown-new j h =
      let other : (q + 8 * j == p + 8 * i) ≡ false =
        let d = entry_ne p q i j hp hq ne hi h in ground arith in
      rw (other, in_own_page q j h)

  pub grown-entry : grown.word (p + 8 * i) ≡ pa2pte q + 1
  grown-entry = let same : (p + 8 * i == p + 8 * i) ≡ true = ground arith in rw same

  pub grown-other :
      (r j : ℕ)
      → IsPage r
      → r ≢ q
      → j < 512
      → r + 8 * j ≢ p + 8 * i
      → grown.word (r + 8 * j) ≡ s.word (r + 8 * j)
  grown-other r j hr nr h d =
      let other : (r + 8 * j == p + 8 * i) ≡ false = ground arith in
      rw (other, in_other_page r q j hr hq nr h)
