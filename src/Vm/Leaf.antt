-- ===== src/Vm/Leaf.antt =====
-- A write to an entry of level 0 of a page table changes what it maps for one page of addresses.
use oshard.Common.{
  ℕ, zero, suc, ◌+◌, ◌*◌, ◌/◌, ◌<◌, ◌≤◌, ◌≡◌, ◌≢◌, refl, ap, ap₂, sym, ◌∙◌, Bool, true, false,
  Option, none, some, ◌==◌, if◌then◌else◌, arith, Bool-cases, inl, inr,
}
use oshard.Vm.{maxva, pte_v, has_bit, pte2pa, px, entry, Vm, put_word}
use oshard.Vm.Path.{
  mapping, Places, IsTable, px_lt, entry_ne, descend, descend-valid, descend-invalid, read_leaf,
  leaf_from-descend,
}
use oshard.Vm.Grow.{some_inj}

-- the place of the table of level 0 for `va`, below the place `y` of a level
abbrev place_below : ℕ → ℕ → ℕ → ℕ
place_below zero y va = y
place_below (suc m) y va = place_below m (y * 512 + px (suc m) va) va

-- the same page of addresses
abbrev pub same_vpn : ℕ → ℕ → Bool
same_vpn a b = a / 4096 == b / 4096

px_same : (a b l : ℕ) → same_vpn a b ≡ true → l ≤ 2 → px l a ≡ px l b
px_same a b zero t h = let e : a / 4096 ≡ b / 4096 = ground arith in omega arith
px_same a b (suc zero) t h = let e : a / 4096 ≡ b / 4096 = ground arith in omega arith
px_same a b (suc (suc zero)) t h = let e : a / 4096 ≡ b / 4096 = ground arith in omega arith
px_same a b (suc (suc (suc l))) t h = absurd (omega arith)

descend_same :
    (m : ℕ) (w : ℕ → ℕ) (p a b : ℕ)
    → m ≤ 2
    → same_vpn a b ≡ true
    → descend m w p a ≡ descend m w p b
unfolding descend
descend_same zero w p a b h t = refl
descend_same (suc m) w p a b h t =
    let here : entry p (suc m) a ≡ entry p (suc m) b =
      ap (λ i. p + 8 * i) (px_same a b (suc m) t h) in
    elim (Bool-cases (has_bit (w (entry p (suc m) b)) pte_v)) [
      | inl v ↦
          descend-valid m w p a (ap (λ i. has_bit (w i) pte_v) here ∙ v)
          ∙ ap (λ i. descend m w (pte2pa (w i)) a) here
          ∙ descend_same m w _ a b (omega arith) t
          ∙ sym (descend-valid m w p b v)
      | inr f ↦
          descend-invalid m w p a (ap (λ i. has_bit (w i) pte_v) here ∙ f)
          ∙ sym (descend-invalid m w p b f)
    ]

same_offset : (c d i j : ℕ) → c ≡ d → c + 8 * i ≡ d + 8 * j → i ≡ j
same_offset c d i j e f = omega arith

eq_test : (x y : ℕ) → x ≡ y → (x == y) ≡ true
eq_test x y e = ground arith

ne_test : (x y : ℕ) → x ≢ y → (x == y) ≡ false
ne_test x y e = ground arith

vpn_ne : (a b : ℕ) → same_vpn a b ≡ false → a / 4096 ≢ b / 4096
vpn_ne a b f e = ground arith

-- The bits of an address, put together.
vpn_eq :
    (a b : ℕ)
    → a < maxva
    → b < maxva
    → place_below 2 0 a ≡ place_below 2 0 b
    → px 0 a ≡ px 0 b
    → a / 4096 ≡ b / 4096
vpn_eq a b ha hb e f = omega arith

read_leaf_same :
    (w : ℕ → ℕ) (a b : ℕ) → same_vpn a b ≡ true → (o : Option ℕ) → read_leaf w a o ≡ read_leaf w b o
read_leaf_same w a b t none = refl
read_leaf_same w a b t (some c) = ap (λ i. w (c + 8 * i)) (px_same a b 0 t (omega arith))

-- One page of addresses is mapped by one entry.
pub mapping_same :
    (w : ℕ → ℕ) (root a b : ℕ) → same_vpn a b ≡ true → mapping w root a ≡ mapping w root b
mapping_same w root a b t =
    leaf_from-descend 2 w root a
    ∙ ap (read_leaf w a) (descend_same 2 w root a b (omega arith) t)
    ∙ read_leaf_same w a b t (descend 2 w root b)
    ∙ sym (leaf_from-descend 2 w root b)

module _ {A : Type 0} {Free : A → ℕ → Type 0} (s : Vm A) (root : ℕ) (own : Places)
    (k : IsTable Free s root own) where
  pub descend_place :
      (m r y va c : ℕ)
      → own r ≡ some (m, y)
      → descend m s.word r va ≡ some c
      → own c ≡ some (0, place_below m y va)
  unfolding descend
  descend_place zero r y va c e d = let r_c : r ≡ c = (cc d) in ap own (sym r_c) ∙ e
  descend_place (suc m) r y va c e d =
      elim (Bool-cases (has_bit (s.word (entry r (suc m) va)) pte_v)) [
        | inl t ↦
            descend_place m _ (y * 512 + px (suc m) va) va c
              (k.child_place r m y (px (suc m) va) e (px_lt (suc m) va) t)
              (sym (descend-valid m s.word r va t) ∙ d)
        | inr f ↦ absurd (cc (sym (descend-invalid m s.word r va f) ∙ d))
      ]

  module _ (c z i v : ℕ) (at_c : own c ≡ some (0, z)) (hi : i < 512) where
    abbrev set_leaf : Vm A
    set_leaf = put_word s (c + 8 * i) v

    -- Other pages, and so the tables above level 0, are as they were.
    beside_leaf :
        (r l y j : ℕ)
        → own r ≡ some (suc l, y)
        → j < 512
        → set_leaf.word (r + 8 * j) ≡ s.word (r + 8 * j)
    beside_leaf r l y j e hj =
        let r_c : r ≢ c =
          λ d. absurd (omega (arith, (some_inj (suc l) y 0 z (sym e ∙ ap own d ∙ at_c)).0)) in
        let d = entry_ne r c j i (k.page r (suc l) y e) (k.page c 0 z at_c) r_c hj hi in
        let f : (r + 8 * j == c + 8 * i) ≡ false = ground arith in rw f

    pub set_leaf-IsTable : IsTable Free set_leaf root own
    set_leaf-IsTable = record {
      root_place = k.root_place;
      child_place = λ p l x j e hj t.
          let same = beside_leaf p l x j e hj in
          ap (λ w. own (pte2pa w)) same
          ∙ k.child_place p l x j e hj (ap (λ w. has_bit w pte_v) (sym same) ∙ t);
      page = k.page;
      taken = k.taken;
    }

    descend-set_leaf :
        (m r y va : ℕ) → own r ≡ some (m, y) → descend m set_leaf.word r va ≡ descend m s.word r va
    unfolding descend
    descend-set_leaf zero r y va e = refl
    descend-set_leaf (suc m) r y va e =
        let same = beside_leaf r m y (px (suc m) va) e (px_lt (suc m) va) in
        elim (Bool-cases (has_bit (s.word (entry r (suc m) va)) pte_v)) [
          | inl t ↦
              descend-valid m set_leaf.word r va (ap (λ w. has_bit w pte_v) same ∙ t)
              ∙ ap (λ w. descend m set_leaf.word (pte2pa w) va) same
              ∙ descend-set_leaf m _ (y * 512 + px (suc m) va) va
                  (k.child_place r m y (px (suc m) va) e (px_lt (suc m) va) t)
              ∙ sym (descend-valid m s.word r va t)
          | inr f ↦
              descend-invalid m set_leaf.word r va (ap (λ w. has_bit w pte_v) same ∙ f)
              ∙ sym (descend-invalid m s.word r va f)
        ]

  -- two addresses whose entries are one
  one_page :
      (a b c d : ℕ)
      → a < maxva
      → b < maxva
      → descend 2 s.word root a ≡ some c
      → descend 2 s.word root b ≡ some d
      → entry c 0 a ≡ entry d 0 b
      → a / 4096 ≡ b / 4096
  one_page a b c d ha hb ea eb same =
      let pa = descend_place 2 root 0 a c k.root_place ea in
      let pb = descend_place 2 root 0 b d k.root_place eb in
      let c_d : c ≡ d = let kc = k.page c 0 _ pa in let kd = k.page d 0 _ pb in omega arith in
      let places = (some_inj 0 _ 0 _ (sym pa ∙ ap own c_d ∙ pb)).1 in
      vpn_eq a b ha hb places (same_offset c d (px 0 a) (px 0 b) c_d same)

  read_written :
      (va c v : ℕ)
      → va < maxva
      → descend 2 s.word root va ≡ some c
      → (b : ℕ) → b < maxva
      → (o : Option ℕ) → descend 2 s.word root b ≡ o
      → read_leaf (put_word s (entry c 0 va) v).word b o
        ≡ (if same_vpn b va then v else read_leaf s.word b o)
  read_written va c v h d b hb none e = elim (Bool-cases (same_vpn b va)) [
    | inl t ↦ absurd (cc (sym d ∙ sym (descend_same 2 s.word root b va (omega arith) t) ∙ e))
    | inr f ↦ rw f
  ]
  read_written va c v h d b hb (some r) e = elim (Bool-cases (same_vpn b va)) [
    | inl t ↦
        let r_c : ◌≡◌ {A = Option ℕ} (some r) (some c) =
          sym e ∙ descend_same 2 s.word root b va (omega arith) t ∙ d in
        let same : r + 8 * px 0 b ≡ c + 8 * px 0 va =
          ap₂ (λ x i. x + 8 * i) (cc r_c) (px_same b va 0 t (omega arith)) in
        let hit : (entry r 0 b == entry c 0 va) ≡ true = eq_test _ _ same in rw (t, hit)
    | inr f ↦
        let other : (entry r 0 b == entry c 0 va) ≡ false =
          ne_test _ _ (λ z. absurd (vpn_ne b va f (one_page b va r c hb h e d z))) in
        rw (f, other)
  ]

  pub mapping-put_word :
      (va c v : ℕ)
      → va < maxva
      → descend 2 s.word root va ≡ some c
      → (b : ℕ) → b < maxva
      → mapping (put_word s (entry c 0 va) v).word root b
        ≡ (if same_vpn b va then v else mapping s.word root b)
  mapping-put_word va c v h d b hb =
      let at_c = descend_place 2 root 0 va c k.root_place d in
      let hi = px_lt 0 va in
      let s1 = put_word s (entry c 0 va) v in
      let path = descend-set_leaf c _ (px 0 va) v at_c hi 2 root 0 b k.root_place in
      let before = leaf_from-descend 2 s.word root b in
      let now = leaf_from-descend 2 s1.word root b ∙ ap (read_leaf s1.word b) path in
      now
      ∙ read_written va c v h d b hb (descend 2 s.word root b) refl
      ∙ ap (λ o. if same_vpn b va then v else o) (sym before)
