-- ===== src/Vm/Chunk.antt =====
-- The rounds of the copies of kernel/vm.c: a chunk within a page, and regions within regions.
use oshard.Common.{
  ℕ, suc, ◌+◌, ◌-◌, ◌*◌, ◌/◌, ◌%◌, ◌<◌, ◌≤◌, ◌≡◌, ◌≢◌, refl, ap₂, Bool, true, false, not, ◌&&◌,
  ◌==◌, leb, if◌then◌else◌, arith,
}
use oshard.Strings.Copy.{within}
use oshard.Vm.{maxva, pte_v, pte_u, has_bit, pte2pa, pgrounddown}
use oshard.Vm.Copy.{chunk}
use oshard.Vm.Path.{mapping}
use oshard.Vm.Leaf.{same_vpn, mapping_same}

-- the page that a user may use through an entry, or 0
abbrev pub user_page : ℕ → ℕ
user_page v = if has_bit v pte_v && has_bit v pte_u then pte2pa v else 0

-- the page behind an address, and the physical address
abbrev pub page_at : (ℕ → ℕ) → ℕ → ℕ → ℕ
page_at w root va = if leb maxva va then 0 else user_page (mapping w root va)

abbrev pub phys : (ℕ → ℕ) → ℕ → ℕ → ℕ
phys w root va = page_at w root va + va % 4096

pub either_small : (t : Bool) (a b : ℕ) → a < 256 → b < 256 → (if t then a else b) < 256
either_small true a b h k = h
either_small false a b h k = k

-- a byte of the chunk is in the page of its first one
pub in_chunk :
    (src len dst x : ℕ) → within dst (chunk src len) x ≡ true → src % 4096 + (x - dst) < 4096
in_chunk src len dst x i =
    let hi : x < dst + chunk src len = ground arith in
    let lo : dst ≤ x = ground arith in
    let whole : chunk src len ≤ 4096 - (src - src / 4096 * 4096) = omega arith in omega arith

-- after a chunk that was not the last, the source goes on at the next page
pub next_va :
    (src len i : ℕ)
    → i < len - chunk src len
    → src + (chunk src len + i) ≡ pgrounddown src + 4096 + i
next_va src len i h = omega arith

pub page_at_same :
    (w : ℕ → ℕ) (root a b : ℕ) → same_vpn a b ≡ true → page_at w root a ≡ page_at w root b
page_at_same w root a b t =
    let both_in : leb maxva a ≡ leb maxva b =
      let e : a / 4096 ≡ b / 4096 = ground arith in ground arith in
    ap₂ (λ u v. if u then 0 else user_page v) both_in (mapping_same w root a b t)

-- regions within regions
pub shrink : (d n len y : ℕ) → n ≤ len → within d len y ≡ false → within d n y ≡ false
shrink d n len y h f = ground arith

pub grow : (d n len y : ℕ) → n ≤ len → within d n y ≡ true → within d len y ≡ true
grow d n len y h f = ground arith

pub widen : (d n len y : ℕ) → n ≤ len → within (d + n) (len - n) y ≡ true → within d len y ≡ true
widen d n len y h f = ground arith

pub neither :
    (d n len y : ℕ)
    → within (d + n) (len - n) y ≡ false
    → within d n y ≡ false
    → within d len y ≡ false
neither d n len y f g = ground arith

pub still_apart :
    (d n len y : ℕ) → n ≤ len → within d len y ≡ false → within (d + n) (len - n) y ≡ false
still_apart d n len y h f = ground arith

pub nowhere : (d len x : ℕ) → (len == 0) ≡ true → within d len x ≡ false
nowhere d len x t = ground arith

pub fewer_left :
    (src len rounds : ℕ) → (len == 0) ≡ false → len ≤ suc rounds → len - chunk src len ≤ rounds
fewer_left src len rounds f le = let pos : 0 < len = ground arith in omega arith

pub zero_of_test : (x : ℕ) → (x == 0) ≡ true → x ≡ 0
zero_of_test x t = ground arith

pub nonzero_of_test : (x : ℕ) → (x == 0) ≡ false → x ≢ 0
nonzero_of_test x f z = ground arith

pub both :
    (t u : Bool) (x : ℕ) → (if not t then 0 else if not u then 0 else x) ≡ (if t && u then x else 0)
both true true x = refl
both true false x = refl
both false u x = refl
