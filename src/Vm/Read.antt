-- ===== src/Vm/Read.antt =====
-- `walkaddr` and `copyin` of kernel/vm.c against the mapping that a page table stands for.
use oshard.Common.{
  ℕ, zero, suc, ◌+◌, ◌-◌, ◌/◌, ◌%◌, ◌<◌, ◌≤◌, ◌≡◌, ◌≢◌, refl, ap, sym, subst, ◌∙◌, Bool, true,
  false, Option, none, some, Result, ok, panic, loops, ◌==◌, ltb, leb, if◌then◌else◌, arith,
  Bool-cases, inl, inr,
}
use oshard.Strings.Copy.{AreBytes, within, memmove_lem}
use oshard.Vm.{
  maxva, pte_v, pte_u, has_bit, pte2pa, px, entry, pgrounddown, Allocator, Vm, user_pa, walkaddr,
}
use oshard.Vm.User.{move}
use oshard.Vm.Copy.{chunk, copyin_loop, copyin}
use oshard.Vm.Path.{Places, IsTable, descend, read_leaf, leaf_from-descend}
use oshard.Vm.Walk.{walk_loop-descend, entry_of}
use oshard.Vm.Leaf.{same_vpn, descend_place}
use oshard.Vm.Map.{if_true, if_false, nonzero}
use oshard.Vm.Chunk.{
  user_page, page_at, phys, either_small, in_chunk, next_va, page_at_same, shrink, grow, widen,
  neither, still_apart, nowhere, fewer_left, zero_of_test, nonzero_of_test, both,
}

module _ {A : Type 0} (heap : Allocator A) (Free : A → ℕ → Type 0) (root : ℕ) (own : Places) where
  walkaddr_found :
      (s : Vm A) (va : ℕ) (o : Option ℕ)
      → IsTable Free s root own
      → descend 2 s.word root va ≡ o
      → user_pa heap s (entry_of heap va o) ≡ user_page (read_leaf s.word va o)
  walkaddr_found s va none k d = refl
  walkaddr_found s va (some c) k d =
      let page = k.page c 0 _ (descend_place s root own k 2 root 0 va c k.root_place d) in
      let t : (entry c 0 va == 0) ≡ false = nonzero (entry c 0 va) c (px 0 va) page refl in
      rw t (
        both (has_bit (s.word (entry c 0 va)) pte_v) (has_bit (s.word (entry c 0 va)) pte_u)
          (pte2pa (s.word (entry c 0 va))))

  pub walkaddr_lem :
      (s : Vm A) (va : ℕ)
      → IsTable Free s root own
      → walkaddr heap s root va ≡ page_at s.word root va
  unfolding walkaddr
  walkaddr_lem s va k = elim (Bool-cases (leb maxva va)) [
    | inl t ↦ if_true _ _ t ∙ sym (if_true _ _ t)
    | inr f ↦
        if_false _ _ f
        ∙ ap (λ r. user_pa heap s r.0) (walk_loop-descend heap 2 s root va)
        ∙ walkaddr_found s va (descend 2 s.word root va) k refl
        ∙ ap user_page (sym (leaf_from-descend 2 s.word root va))
        ∙ sym (if_false _ _ f)
  ]

  -- the bytes of data pages are no part of the table
  pub move-IsTable :
      (s : Vm A) (dst src n : ℕ)
      → IsTable Free s root own
      → IsTable Free (move s dst src n) root own
  move-IsTable s dst src n k = record {
    root_place = k.root_place;
    child_place = k.child_place;
    page = k.page;
    taken = k.taken;
  }

  -- How `copyin` of `len` bytes ends.
  abbrev pub CopiesIn : Vm A → ℕ → ℕ → ℕ → Result (Bool × Vm A) → Type 0
  CopiesIn s dst src len (ok (true, s')) =
      (s'.word ≡ s.word)
      × ((x : ℕ)
          → s'.byte x
            ≡ (if within dst len x then s.byte (phys s.word root (src + (x - dst))) else s.byte x))
      × ((i : ℕ) → i < len → page_at s.word root (src + i) ≢ 0)
  CopiesIn s dst src len (ok (false, s')) =
      (s'.word ≡ s.word) × ((i : ℕ) × (i < len) × (page_at s.word root (src + i) ≡ 0))
  CopiesIn s dst src len (panic e) = ⊥
  CopiesIn s dst src len loops = ⊥

  -- The destination is none of the pages of the user.
  abbrev pub Apart : Vm A → ℕ → ℕ → Type 0
  Apart s dst len =
      (va i : ℕ)
      → page_at s.word root va ≢ 0
      → i < 4096
      → within dst len (page_at s.word root va + i) ≡ false

  module _ (s : Vm A) (dst src len : ℕ) (bytes : AreBytes s.byte) (apart : Apart s dst len)
      (readable : page_at s.word root src ≢ 0) (some_left : (len == 0) ≡ false) where
    abbrev n : ℕ
    n = chunk src len

    abbrev moved : Vm A
    moved = move s dst (page_at s.word root src + src % 4096) n

    moved-byte :
        (x : ℕ)
        → moved.byte x ≡ (
            if within dst n x
            then s.byte (page_at s.word root src + src % 4096 + (x - dst))
            else s.byte x)
    moved-byte x = memmove_lem s.byte dst (page_at s.word root src + src % 4096) n x bytes

    moved-AreBytes : AreBytes moved.byte
    moved-AreBytes x =
        subst (λ v. v < 256) (sym (moved-byte x))
          (either_small (within dst n x) _ _ (bytes _) (bytes x))

    -- the first page
    first_page :
        (x : ℕ)
        → within dst n x ≡ true
        → phys s.word root (src + (x - dst)) ≡ page_at s.word root src + src % 4096 + (x - dst)
    first_page x i =
        let small : src % 4096 + (x - dst) < 4096 = in_chunk src len dst x i in
        let vpn : same_vpn (src + (x - dst)) src ≡ true = ground arith in
        ap (λ p. p + (src + (x - dst)) % 4096) (page_at_same s.word root (src + (x - dst)) src vpn)
        ∙ omega arith

    -- the readable pages after the first
    abbrev Rest : Type 0
    Rest = (i : ℕ) → i < len - n → page_at s.word root (pgrounddown src + 4096 + i) ≢ 0

    rest_byte :
        (x : ℕ)
        → Rest
        → within (dst + n) (len - n) x ≡ true
        → moved.byte (phys s.word root (pgrounddown src + 4096 + (x - (dst + n))))
          ≡ s.byte (phys s.word root (src + (x - dst)))
    rest_byte x all t =
        let i = x - (dst + n) in
        let h : i < len - n = ground arith in
        let va = pgrounddown src + 4096 + i in
        let out = apart va (va % 4096) (all i h) (omega arith) in
        let out_n : within dst n (phys s.word root va) ≡ false =
          shrink dst n len (phys s.word root va) (omega arith) out in
        let same : va ≡ src + (x - dst) = sym (next_va src len i h) ∙ ground arith in
        moved-byte (phys s.word root va)
        ∙ if_false _ _ out_n
        ∙ ap (λ a. s.byte (phys s.word root a)) same

    whole_byte :
        (x : ℕ)
        → Rest
        → (if within (dst + n) (len - n) x
            then moved.byte (phys s.word root (pgrounddown src + 4096 + (x - (dst + n))))
            else moved.byte x)
          ≡ (if within dst len x then s.byte (phys s.word root (src + (x - dst))) else s.byte x)
    whole_byte x all = elim (Bool-cases (within (dst + n) (len - n) x)) [
      | inl t ↦
          let inside : within dst len x ≡ true = widen dst n len x (omega arith) t in
          if_true _ _ t ∙ rest_byte x all t ∙ sym (if_true _ _ inside)
      | inr f ↦ elim (Bool-cases (within dst n x)) [
        | inl i ↦
            let inside : within dst len x ≡ true = grow dst n len x (omega arith) i in
            if_false _ _ f
            ∙ moved-byte x
            ∙ if_true _ _ i
            ∙ ap s.byte (sym (first_page x i))
            ∙ sym (if_true _ _ inside)
        | inr o ↦
            let outside : within dst len x ≡ false = neither dst n len x f o in
            if_false _ _ f ∙ moved-byte x ∙ if_false _ _ o ∙ sym (if_false _ _ outside)
      ]
    ]

    whole_range : (i : ℕ) → i < len → Rest → page_at s.word root (src + i) ≢ 0
    whole_range i h all z = elim (Bool-cases (ltb i n)) [
      | inl t ↦
          let vpn : same_vpn (src + i) src ≡ true =
            let lt : i < n = ground arith in
            let e : (src + i) / 4096 ≡ src / 4096 = omega arith in ground arith in
          readable (sym (page_at_same s.word root (src + i) src vpn) ∙ z)
      | inr f ↦
          let j = i - n in
          let lt : j < len - n = let ge : n ≤ i = ground arith in omega arith in
          let same : src + i ≡ pgrounddown src + 4096 + j =
            let ge : n ≤ i = ground arith in omega (arith, next_va src len j lt) in
          all j lt (ap (page_at s.word root) (sym same) ∙ z)
    ]

    combined :
        (r : Result (Bool × Vm A))
        → CopiesIn moved (dst + n) (pgrounddown src + 4096) (len - n) r
        → CopiesIn s dst src len r
    combined loops e = e
    combined (panic x) e = e
    combined (ok (false, s')) (w, (i, h, z)) =
        (w, (n + i, omega arith, ap (page_at s.word root) (next_va src len i h) ∙ z))
    combined (ok (true, s')) (w, f, all) =
        (w, λ x. f x ∙ whole_byte x all, λ i h. whole_range i h all)

  nothing_left :
      (s : Vm A) (dst src len : ℕ) → (len == 0) ≡ true → CopiesIn s dst src len (ok (true, s))
  nothing_left s dst src len t =
      (refl, λ x. sym (if_false _ _ (nowhere dst len x t)), λ i h. absurd (ground arith))

  copyin_loop-CopiesIn :
      (rounds : ℕ) (s : Vm A) (dst src len : ℕ)
      → IsTable Free s root own
      → len ≤ rounds
      → AreBytes s.byte
      → Apart s dst len
      → CopiesIn s dst src len (copyin_loop heap rounds s root dst src len)
  unfolding copyin_loop
  copyin_loop-CopiesIn zero s dst src len k le w apart =
      let t : (len == 0) ≡ true = ground arith in
      subst (CopiesIn s dst src len) (sym (if_true _ _ t)) (nothing_left s dst src len t)
  copyin_loop-CopiesIn (suc rounds) s dst src len k le w apart = elim (Bool-cases (len == 0)) [
    | inl t ↦ subst (CopiesIn s dst src len) (sym (if_true _ _ t)) (nothing_left s dst src len t)
    | inr f ↦
        let pa = walkaddr heap s root (pgrounddown src) in
        let vpn : same_vpn (pgrounddown src) src ≡ true = ground arith in
        let pa_page : pa ≡ page_at s.word root src =
          walkaddr_lem s (pgrounddown src) k ∙ page_at_same s.word root (pgrounddown src) src vpn in
        let from : pa + (src - pgrounddown src) ≡ page_at s.word root src + src % 4096 =
          omega (arith, pa_page) in
        elim (Bool-cases (pa == 0)) [
          | inl z ↦
              let out : page_at s.word root src ≡ 0 = sym pa_page ∙ zero_of_test pa z in
              subst (CopiesIn s dst src len) (sym (if_false _ _ f ∙ if_true _ _ z))
                (refl, (0, ground arith, ap (page_at s.word root) (omega arith) ∙ out))
          | inr nz ↦
              let readable : page_at s.word root src ≢ 0 =
                λ z. nonzero_of_test pa nz (pa_page ∙ z) in
              subst (CopiesIn s dst src len) (sym (if_false _ _ f ∙ if_false _ _ nz)) (
                subst
                  (λ a. CopiesIn s dst src len (
                    copyin_loop heap rounds (move s dst a (chunk src len)) root
                      (dst + chunk src len) (pgrounddown src + 4096) (len - chunk src len)))
                  (sym from)
                  (combined s dst src len w apart readable f _ (
                    copyin_loop-CopiesIn rounds (moved s dst src len w apart readable f)
                      (dst + chunk src len) (pgrounddown src + 4096) (len - chunk src len)
                      (move-IsTable s dst (page_at s.word root src + src % 4096) (chunk src len) k)
                      (fewer_left src len rounds f le)
                      (moved-AreBytes s dst src len w apart readable f)
                      (λ va i p h.
                        still_apart dst (chunk src len) len _ (omega arith) (apart va i p h)))))
        ]
  ]

  -- On a well-formed page table, with a destination that is in no page of the user, copyin changes
  -- no entry, and puts each byte that the mapping has at the source into the destination and
  -- changes no other byte, when every page of the source is mapped for the user; it fails exactly
  -- when one of them is not.
  pub copyin-CopiesIn :
      (s : Vm A) (dst src len : ℕ)
      → IsTable Free s root own
      → AreBytes s.byte
      → Apart s dst len
      → CopiesIn s dst src len (copyin heap s root dst src len)
  unfolding copyin
  copyin-CopiesIn s dst src len k w apart =
      copyin_loop-CopiesIn len s dst src len k (omega arith) w apart
