-- ===== src/Vm/Grow.antt =====
-- A table that `walk` of kernel/vm.c adds leaves what the page table maps as it was.
use oshard.Common.{
  ℕ, zero, suc, ◌+◌, ◌*◌, ◌<◌, ◌≡◌, ◌≢◌, ◌⊎◌, ap, ap₂, sym, subst, ◌∙◌, true, false, Option, none,
  some, ◌==◌, if◌then◌else◌, arith, Bool-cases, inl, inr,
}
use oshard.Vm.{pte_v, has_bit, pte2pa, pa2pte, px, entry, Vm}
use oshard.Vm.Path.{
  IsPage, leaf_from, leaf_from-valid, leaf_from-invalid, Places, IsTable, px_lt, entry_ne,
  table_pte, grown, grown-new, grown-entry, grown-other,
}

pub some_inj :
    (a b c d : ℕ) → ◌≡◌ {A = Option (ℕ × ℕ)} (some (a, b)) (some (c, d)) → (a ≡ c) × (b ≡ d)
some_inj a b c d e = (cc, cc)

abbrev pub add_place : Places → ℕ → ℕ × ℕ → Places
add_place own q place r = if r == q then some place else own r

pub add_place_self : (own : Places) (q : ℕ) (y : ℕ × ℕ) → add_place own q y q ≡ some y
add_place_self own q y = let t : (q == q) ≡ true = ground arith in rw t

add_place_other : (own : Places) (q r : ℕ) (y : ℕ × ℕ) → r ≢ q → add_place own q y r ≡ own r
add_place_other own q r y ne = let t : (r == q) ≡ false = ground arith in rw t

-- a page with a place is not one without
pub placed_ne : (own : Places) (p q l x : ℕ) → own p ≡ some (l, x) → own q ≡ none → p ≢ q
placed_ne own p q l x e f d = absurd (cc (sym e ∙ ap own d ∙ f))

-- A missing table, put in.
module _ {A : Type 0} {Free : A → ℕ → Type 0} (s : Vm A) (root : ℕ) (own : Places)
    (k : IsTable Free s root own) (p l x i : ℕ) (at_p : own p ≡ some (suc l, x)) (hi : i < 512)
    (missing : has_bit (s.word (p + 8 * i)) pte_v ≡ false) (q : ℕ) (hq : IsPage q)
    (new : own q ≡ none) (h : A) (fewer : (r : ℕ) → Free h r → Free s.heap r × (r ≢ q)) where
  abbrev pub after : Vm A
  after =
      grown (record s { heap = h }) p i q (k.page p (suc l) x at_p) hi hq
        (placed_ne own p q (suc l) x at_p new)

  abbrev pub places : Places
  places = add_place own q (l, x * 512 + i)

  pub ne_p : p ≢ q
  ne_p = placed_ne own p q (suc l) x at_p new

  pub same_word :
      (r j : ℕ)
      → IsPage r
      → r ≢ q
      → j < 512
      → r + 8 * j ≢ p + 8 * i
      → after.word (r + 8 * j) ≡ s.word (r + 8 * j)
  same_word = grown-other (record s { heap = h }) p i q (k.page p (suc l) x at_p) hi hq ne_p

  new_word : (j : ℕ) → j < 512 → after.word (q + 8 * j) ≡ 0
  new_word = grown-new (record s { heap = h }) p i q (k.page p (suc l) x at_p) hi hq ne_p

  pub entry_word : after.word (p + 8 * i) ≡ pa2pte q + 1
  entry_word = grown-entry (record s { heap = h }) p i q (k.page p (suc l) x at_p) hi hq ne_p

  -- the pages that had a place keep it
  pub kept_place : (r m y : ℕ) → own r ≡ some (m, y) → places r ≡ some (m, y)
  kept_place r m y e = add_place_other own q r _ (placed_ne own r q m y e new) ∙ e

  -- a page with a place is the new one, or had it
  place-cases :
      (r m y : ℕ)
      → places r ≡ some (m, y)
      → ((r ≡ q) × (m ≡ l) × (y ≡ x * 512 + i)) ⊎ ((r ≢ q) × (own r ≡ some (m, y)))
  place-cases r m y e = elim (Bool-cases (r == q)) [
    | inl t ↦
        let r_q : r ≡ q = ground arith in
        let (u, v) =
          some_inj l (x * 512 + i) m y (sym (add_place_self own q _) ∙ ap places (sym r_q) ∙ e) in
        inl (r_q, sym u, sym v)
    | inr f ↦ let d : r ≢ q = ground arith in inr (d, sym (add_place_other own q r _ d) ∙ e)
  ]

  invalid_zero : (v : ℕ) → v ≡ 0 → has_bit v pte_v ≢ true
  invalid_zero v z t = ground arith

  old_child :
      (r m y j : ℕ)
      → own r ≡ some (suc m, y)
      → j < 512
      → has_bit (after.word (r + 8 * j)) pte_v ≡ true
      → places (pte2pa (after.word (r + 8 * j))) ≡ some (m, y * 512 + j)
  old_child r m y j e hj v = elim (Bool-cases (r + 8 * j == p + 8 * i)) [
    | inl t ↦
        let hr = k.page r (suc m) y e in
        let hp = k.page p (suc l) x at_p in
        let same : r + 8 * j ≡ p + 8 * i = ground arith in
        let r_p : r ≡ p = omega arith in
        let j_i : j ≡ i = omega arith in
        let (m_l, y_x) = some_inj (suc m) y (suc l) x (sym e ∙ ap own r_p ∙ at_p) in
        let m_l' : m ≡ l = omega arith in
        let child : pte2pa (after.word (r + 8 * j)) ≡ q =
          ap (λ a. pte2pa (after.word a)) same ∙ ap pte2pa entry_word ∙ (table_pte q hq).1 in
        ap places child ∙ add_place_self own q _ ∙ ap₂ (λ a b. some (a, b)) (sym m_l') (omega arith)
    | inr f ↦
        let hr = k.page r (suc m) y e in
        let d : r + 8 * j ≢ p + 8 * i = ground arith in
        let w = same_word r j hr (placed_ne own r q (suc m) y e new) hj d in
        let old = k.child_place r m y j e hj (ap (λ a. has_bit a pte_v) (sym w) ∙ v) in
        ap (λ a. places (pte2pa a)) w ∙ kept_place _ m (y * 512 + j) old
  ]

  pub after-IsTable : IsTable Free after root places
  after-IsTable = record {
    root_place = kept_place root 2 0 k.root_place;
    child_place = λ r m y j e hj v. elim (place-cases r (suc m) y e) [
      | inl (r_q, _, _) ↦
          absurd (invalid_zero _ (ap (λ a. after.word (a + 8 * j)) r_q ∙ new_word j hj) v)
      | inr (_, old) ↦ old_child r m y j old hj v
    ];
    page = λ r m y e. elim (place-cases r m y e) [
      | inl (r_q, _, _) ↦ subst IsPage (sym r_q) hq
      | inr (_, old) ↦ k.page r m y old
    ];
    taken = λ r m y e free. elim (place-cases r m y e) [
      | inl (r_q, _, _) ↦ (fewer r free).1 r_q
      | inr (_, old) ↦ k.taken r m y old (fewer r free).0
    ];
  }

  zero_ne : 0 ≢ suc l
  zero_ne e = omega arith

  -- An empty table maps nothing.
  leaf_from-new : (m va : ℕ) → leaf_from m after.word q va ≡ 0
  unfolding leaf_from
  leaf_from-new zero va = new_word (px 0 va) (px_lt 0 va)
  leaf_from-new (suc m) va =
      let z = new_word (px (suc m) va) (px_lt (suc m) va) in
      let none_there : has_bit (after.word (entry q (suc m) va)) pte_v ≡ false =
        ap (λ a. has_bit a pte_v) z in
      rw none_there

  -- through the new entry there was nothing, and there is an empty table
  at_new :
      (m r va : ℕ)
      → entry r (suc m) va ≡ p + 8 * i
      → leaf_from (suc m) after.word r va ≡ leaf_from (suc m) s.word r va
  at_new m r va same =
      let now : after.word (entry r (suc m) va) ≡ pa2pte q + 1 = ap after.word same ∙ entry_word in
      leaf_from-valid m after.word r va (ap (λ a. has_bit a pte_v) now ∙ (table_pte q hq).0)
      ∙ ap (λ c. leaf_from m after.word c va) (ap pte2pa now ∙ (table_pte q hq).1)
      ∙ leaf_from-new m va
      ∙ sym (leaf_from-invalid m s.word r va (ap (λ a. has_bit (s.word a) pte_v) same ∙ missing))

  -- through any other entry it is as before, when it is so for the table below
  beside :
      (m r y va : ℕ)
      → own r ≡ some (suc m, y)
      → entry r (suc m) va ≢ p + 8 * i
      → ((c z : ℕ) → own c ≡ some (m, z) → leaf_from m after.word c va ≡ leaf_from m s.word c va)
      → leaf_from (suc m) after.word r va ≡ leaf_from (suc m) s.word r va
  beside m r y va e d below =
      let j = px (suc m) va in
      let w =
        same_word r j (k.page r (suc m) y e) (placed_ne own r q (suc m) y e new) (px_lt (suc m) va)
          d in
      elim (Bool-cases (has_bit (s.word (entry r (suc m) va)) pte_v)) [
        | inr f ↦
            leaf_from-invalid m after.word r va (ap (λ a. has_bit a pte_v) w ∙ f)
            ∙ sym (leaf_from-invalid m s.word r va f)
        | inl t ↦
            leaf_from-valid m after.word r va (ap (λ a. has_bit a pte_v) w ∙ t)
            ∙ ap (λ a. leaf_from m after.word (pte2pa a) va) w
            ∙ below (pte2pa (s.word (entry r (suc m) va))) (y * 512 + j)
                (k.child_place r m y j e (px_lt (suc m) va) t)
            ∙ sym (leaf_from-valid m s.word r va t)
      ]

  pub leaf_from-after :
      (m r y va : ℕ) → own r ≡ some (m, y) → leaf_from m after.word r va ≡ leaf_from m s.word r va
  unfolding leaf_from
  leaf_from-after zero r y va e =
      let hr = k.page r zero y e in
      let hp = k.page p (suc l) x at_p in
      let level_ne : r ≢ p =
        λ d. absurd (zero_ne (sym (some_inj (suc l) x zero y (sym at_p ∙ ap own (sym d) ∙ e)).0)) in
      same_word r (px 0 va) hr (placed_ne own r q zero y e new) (px_lt 0 va)
        (entry_ne r p (px 0 va) i hr hp level_ne (px_lt 0 va) hi)
  leaf_from-after (suc m) r y va e = elim (Bool-cases (entry r (suc m) va == p + 8 * i)) [
    | inl t ↦ at_new m r va (ground arith)
    | inr f ↦ beside m r y va e (ground arith) (λ c z o. leaf_from-after m c z va o)
  ]
