-- ===== src/Vm/Walk.antt =====
-- `walk` of kernel/vm.c: the entry that it finds, and the tables that it adds on the way.
use oshard.Common.{
  ℕ, zero, suc, ◌+◌, ◌*◌, ◌<◌, ◌≡◌, ◌≢◌, ◌⊎◌, refl, ap, sym, subst, ◌∙◌, Bool, true, false, Option,
  none, some, Option-cases, ◌==◌, arith, Bool-cases, inl, inr,
}
use oshard.Vm.{
  pte_v, has_bit, pte2pa, pa2pte, px, entry, Allocator, Vm, get_page, add_table, walk_loop,
}
use oshard.Vm.Path.{
  IsPage, leaf_from, Places, IsTable, px_lt, table_pte, descend, descend-valid, descend-invalid,
}
use oshard.Vm.Grow.{
  places, after-IsTable, kept_place, leaf_from-after, same_word, entry_word, placed_ne,
  add_place_self,
}

-- What is relied on of the allocator: `kalloc` gives a page that it may hand out, and no longer may
-- after that; `kfree` makes no other page one that may be handed out.
pub record IsAllocator {A : Type 0} (heap : Allocator A) (Free : A → ℕ → Type 0) : Type 0 where
  pub gives :
      (a : A) → ((heap.kalloc a).0 ≡ 0) ⊎ (Free a (heap.kalloc a).0 × IsPage (heap.kalloc a).0)
  pub keeps : (a : A) (r : ℕ) → Free (heap.kalloc a).1 r → Free a r × (r ≢ (heap.kalloc a).0)
  pub returns : (a : A) (p r : ℕ) → Free (heap.kfree a p) r → Free a r ⊎ (r ≡ p)

-- A later state of the page table, which maps the same.
pub record Extends {A : Type 0} (s : Vm A) (own : Places) (s' : Vm A) (own' : Places) : Type 0 where
  pub place : (r m y : ℕ) → own r ≡ some (m, y) → own' r ≡ some (m, y)
  pub valid_entry :
      (r m y j : ℕ)
      → own r ≡ some (suc m, y)
      → j < 512
      → has_bit (s.word (r + 8 * j)) pte_v ≡ true
      → s'.word (r + 8 * j) ≡ s.word (r + 8 * j)
  pub same_leaf :
      (m r y va : ℕ) → own r ≡ some (m, y) → leaf_from m s'.word r va ≡ leaf_from m s.word r va

module _ {A : Type 0} (heap : Allocator A) where
  -- Without `alloc`, `walk` finds the entry in the table of level 0, when there is one.
  abbrev pub entry_of : ℕ → Option ℕ → ℕ
  entry_of va none = 0
  entry_of va (some c) = entry c 0 va

  walk_loop-valid :
      (l : ℕ) (s : Vm A) (p va : ℕ) (b : Bool)
      → has_bit (s.word (entry p (suc l) va)) pte_v ≡ true
      → walk_loop heap (suc l) s p va b
        ≡ walk_loop heap l s (pte2pa (s.word (entry p (suc l) va))) va b
  unfolding walk_loop
  walk_loop-valid l s p va b t = rw t

  walk_loop-stop :
      (l : ℕ) (s : Vm A) (p va : ℕ)
      → has_bit (s.word (entry p (suc l) va)) pte_v ≡ false
      → walk_loop heap (suc l) s p va false ≡ (0, s)
  unfolding walk_loop
  walk_loop-stop l s p va f = rw f

  pub walk_loop-descend :
      (l : ℕ) (s : Vm A) (p va : ℕ)
      → walk_loop heap l s p va false ≡ (entry_of va (descend l s.word p va), s)
  unfolding walk_loop descend
  walk_loop-descend zero s p va = refl
  walk_loop-descend (suc l) s p va =
      elim (Bool-cases (has_bit (s.word (entry p (suc l) va)) pte_v)) [
        | inl t ↦
            walk_loop-valid l s p va false t
            ∙ walk_loop-descend l s _ va
            ∙ ap (λ o. (entry_of va o, s)) (sym (descend-valid l s.word p va t))
        | inr f ↦
            walk_loop-stop l s p va f
            ∙ ap (λ o. (entry_of va o, s)) (sym (descend-invalid l s.word p va f))
      ]

  walk_loop-out :
      (l : ℕ) (s : Vm A) (p va : ℕ)
      → has_bit (s.word (entry p (suc l) va)) pte_v ≡ false
      → (heap.kalloc s.heap).0 ≡ 0
      → walk_loop heap (suc l) s p va true ≡ (0, (get_page heap s).1)
  unfolding walk_loop
  walk_loop-out l s p va f z =
      let t : ((heap.kalloc s.heap).0 == 0) ≡ true = ground arith in rw (f, t)

  walk_loop-add :
      (l : ℕ) (s : Vm A) (p va : ℕ)
      → has_bit (s.word (entry p (suc l) va)) pte_v ≡ false
      → (heap.kalloc s.heap).0 ≢ 0
      → walk_loop heap (suc l) s p va true
        ≡ walk_loop heap l
            (add_table heap (get_page heap s).1 (entry p (suc l) va) (get_page heap s).0)
            (get_page heap s).0
            va
            true
  unfolding walk_loop
  walk_loop-add l s p va f z =
      let t : ((heap.kalloc s.heap).0 == 0) ≡ false = ground arith in rw (f, t)

module _ {A : Type 0} (heap : Allocator A) (Free : A → ℕ → Type 0) (law : IsAllocator heap Free)
    (root : ℕ) where
  -- What `walk` with `alloc` leaves: 0 when there was no memory, or the entry for the address.
  abbrev pub Walked : ℕ → Vm A → Places → ℕ → ℕ → ℕ × Vm A → Type 0
  Walked level s own p va (a, s') =
      (own' : Places) × IsTable Free s' root own'
      × Extends s own s' own'
      × ((a ≡ 0) ⊎ ((c : ℕ) × (descend level s'.word p va ≡ some c) × (a ≡ entry c 0 va)))

  Extends-refl : (s : Vm A) (own : Places) → Extends s own s own
  Extends-refl s own = record {
    place = λ r m y e. e;
    valid_entry = λ r m y j e h v. refl;
    same_leaf = λ m r y va e. refl;
  }

  Extends-trans :
      {s t u : Vm A} {a b c : Places} → Extends s a t b → Extends t b u c → Extends s a u c
  Extends-trans f g = record {
    place = λ r m y e. g.place r m y (f.place r m y e);
    valid_entry = λ r m y j e h v.
        let same = f.valid_entry r m y j e h v in
        g.valid_entry r m y j (f.place r (suc m) y e) h (ap (λ w. has_bit w pte_v) same ∙ v) ∙ same;
    same_leaf = λ m r y va e. g.same_leaf m r y va (f.place r m y e) ∙ f.same_leaf m r y va e;
  }

  -- Memory for no page: only the allocator has changed.
  out_of_memory :
      (s : Vm A) (own : Places)
      → IsTable Free s root own
      → IsTable Free (get_page heap s).1 root own
  out_of_memory s own k = record {
    root_place = k.root_place;
    child_place = k.child_place;
    page = k.page;
    taken = λ p l x e free. k.taken p l x e (law.keeps s.heap p free).0;
  }

  -- a page that may be handed out has no place
  unplaced :
      (s : Vm A) (own : Places) (q : ℕ) → IsTable Free s root own → Free s.heap q → own q ≡ none
  unplaced s own q k free = elim (Option-cases (own q)) [
    | inl e ↦ e
    | inr ((l, x), e) ↦ absurd (k.taken q l x e free)
  ]

  page_ne : (q : ℕ) → IsPage q → q ≢ 0
  page_ne q h z = omega (arith, h.0)

  -- One level up: the table `t` leads through a valid entry to `child`, and from there on.
  through :
      (l : ℕ) (s t : Vm A) (own own_t : Places) (p x va child : ℕ) (r : ℕ × Vm A)
      → Extends s own t own_t
      → own_t p ≡ some (suc l, x)
      → has_bit (t.word (entry p (suc l) va)) pte_v ≡ true
      → pte2pa (t.word (entry p (suc l) va)) ≡ child
      → Walked l t own_t child va r
      → Walked (suc l) s own p va r
  through l s t own own_t p x va child (a, s') ext e v leads (own', k', ext', out) =
      let same = ext'.valid_entry p l x (px (suc l) va) e (px_lt (suc l) va) v in
      let still = ap (λ w. has_bit w pte_v) same ∙ v in
      let down =
        descend-valid l s'.word p va still
        ∙ ap (λ c. descend l s'.word c va) (ap pte2pa same ∙ leads) in
      (
        own',
        k',
        Extends-trans ext ext',
        elim out [ inl z ↦ inl z | inr (c, d, a_c) ↦ inr (c, down ∙ d, a_c) ],
      )

  -- the table that `walk` adds, as `Grow` has it
  module _ (l : ℕ) (s : Vm A) (own : Places) (p x va : ℕ) (k : IsTable Free s root own)
      (e : own p ≡ some (suc l, x)) (f : has_bit (s.word (entry p (suc l) va)) pte_v ≡ false)
      (free : Free s.heap (heap.kalloc s.heap).0) (page : IsPage (heap.kalloc s.heap).0) where
    abbrev q : ℕ
    q = (heap.kalloc s.heap).0

    new : own q ≡ none
    new = unplaced s own q k free

    abbrev more : Vm A
    more = add_table heap (get_page heap s).1 (entry p (suc l) va) q

    abbrev own_more : Places
    own_more =
        places s root own k p l x (px (suc l) va) e (px_lt (suc l) va) f q page new
          (heap.kalloc s.heap).1 (law.keeps s.heap)

    more-Extends : Extends s own more own_more
    more-Extends = record {
      place =
          kept_place s root own k p l x (px (suc l) va) e (px_lt (suc l) va) f q page new
            (heap.kalloc s.heap).1 (law.keeps s.heap);
      valid_entry = λ r m y j o h v.
          same_word s root own k p l x (px (suc l) va) e (px_lt (suc l) va) f q page new
            (heap.kalloc s.heap).1 (law.keeps s.heap) r j (k.page r (suc m) y o)
            (placed_ne own r q (suc m) y o new) h
            (λ d. absurd (cc (sym v ∙ ap (λ a. has_bit (s.word a) pte_v) d ∙ f)));
      same_leaf =
          leaf_from-after s root own k p l x (px (suc l) va) e (px_lt (suc l) va) f q page new
            (heap.kalloc s.heap).1 (law.keeps s.heap);
    }

    more-IsTable : IsTable Free more root own_more
    more-IsTable =
        after-IsTable s root own k p l x (px (suc l) va) e (px_lt (suc l) va) f q page new
          (heap.kalloc s.heap).1 (law.keeps s.heap)

    more-entry : more.word (entry p (suc l) va) ≡ pa2pte q + 1
    more-entry =
        entry_word s root own k p l x (px (suc l) va) e (px_lt (suc l) va) f q page new
          (heap.kalloc s.heap).1 (law.keeps s.heap)

    q_place : own_more q ≡ some (l, x * 512 + px (suc l) va)
    q_place = add_place_self own q (l, x * 512 + px (suc l) va)

    through_more : (r : ℕ × Vm A) → Walked l more own_more q va r → Walked (suc l) s own p va r
    through_more r w =
        through l s more own own_more p x va q r more-Extends (more-Extends.place p (suc l) x e)
          (ap (λ v. has_bit v pte_v) more-entry ∙ (table_pte q page).0)
          (ap pte2pa more-entry ∙ (table_pte q page).1) w

  pub walk_loop-Walked :
      (level : ℕ) (s : Vm A) (own : Places) (p x va : ℕ)
      → IsTable Free s root own
      → own p ≡ some (level, x)
      → Walked level s own p va (walk_loop heap level s p va true)
  unfolding walk_loop descend
  walk_loop-Walked zero s own p x va k e = (own, k, Extends-refl s own, inr (p, refl, refl))
  walk_loop-Walked (suc l) s own p x va k e =
      elim (Bool-cases (has_bit (s.word (entry p (suc l) va)) pte_v)) [
        | inl t ↦
            let child = pte2pa (s.word (entry p (suc l) va)) in
            let at_child = k.child_place p l x (px (suc l) va) e (px_lt (suc l) va) t in
            let ih = walk_loop-Walked l s own child (x * 512 + px (suc l) va) va k at_child in
            subst (Walked (suc l) s own p va) (sym (walk_loop-valid heap l s p va true t))
              (through l s s own own p x va child _ (Extends-refl s own) e t refl ih)
        | inr f ↦ elim (law.gives s.heap) [
          | inl z ↦ subst (Walked (suc l) s own p va) (sym (walk_loop-out heap l s p va f z)) (
            own,
            out_of_memory s own k,
            record {
              place = λ r m y o. o;
              valid_entry = λ r m y j o h v. refl;
              same_leaf = λ r m y a o. refl;
            },
            inl refl,
          )
          | inr (free, page) ↦
              subst (Walked (suc l) s own p va)
                (sym (walk_loop-add heap l s p va f (λ z. page_ne (heap.kalloc s.heap).0 page z)))
                (through_more l s own p x va k e f free page _ (
                  walk_loop-Walked l (more l s own p x va k e f free page)
                    (own_more l s own p x va k e f free page) (heap.kalloc s.heap).0
                    (x * 512 + px (suc l) va) va (more-IsTable l s own p x va k e f free page)
                    (q_place l s own p x va k e f free page)))
        ]
      ]
