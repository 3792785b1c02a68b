-- ===== src/Proc/Born.antt =====
-- What `allocproc` of kernel/proc.c does to the tree of processes.
use oshard.Common.{
  ℕ, zero, suc, ◌+◌, ◌%◌, ◌^◌, ◌<◌, ◌≡◌, ◌≢◌, refl, ap, sym, ◌∙◌, Option, none, some, Bool-cases,
  inl, inr, arith,
}
use oshard.Proc.Table.{
  unused, used, is_state, Proc, Table, put_proc, nproc, find_unused, fill_entry, allocproc,
  freeproc,
}
use oshard.Proc.Tree.{
  free, alive, life, life_of, IsTree, IsTree-IsAlike, IsAlike-put, is_state_eq, number_cases,
  alive-free,
}

-- The free entry that `allocproc` takes.
find_unused_lem :
    (rounds : ℕ) (t : Table) (i j : ℕ)
    → find_unused rounds t i ≡ some j
    → (life_of t j ≡ free) × (j < i + rounds)
unfolding find_unused
find_unused_lem zero t i j e = absurd (cc e)
find_unused_lem (suc rounds) t i j e = elim (Bool-cases (is_state (t.proc i).state unused)) [
  | inl h ↦
      let f : some i ≡ some j = rw h at e in
      let g : i ≡ j = cc f in
      let s = is_state_eq (t.proc i).state unused h in
      (ap (life_of t) (sym g) ∙ ap life s, omega (arith, g))
  | inr h ↦
      let f : find_unused rounds t (i + 1) ≡ some j = rw h at e in
      let (l, lt) = find_unused_lem rounds t (i + 1) j f in (l, omega (arith, lt))
]

-- A free entry becomes a process with a new pid, the child of a living one.
pub born :
    (t t' : Table) (me i : ℕ)
    → IsTree t
    → life_of t me ≡ alive
    → life_of t i ≡ free
    → i < nproc
    → t'.initproc ≡ t.initproc
    → t'.nextpid ≡ t.nextpid + 1
    → ((a : ℕ)
        → a ≢ i
        → (life_of t' a ≡ life_of t a)
          × ((t'.proc a).pid ≡ (t.proc a).pid)
          × ((t'.proc a).parent ≡ (t.proc a).parent))
    → (life_of t' i ≡ alive) × ((t'.proc i).pid ≡ t.nextpid) × ((t'.proc i).parent ≡ some me)
    → IsTree t'
born t t' me i w l f lt same_init next others (l', pid, parent) = record {
  init = w.init;
  is_init = same_init ∙ w.is_init;
  init_alive = stays w.init w.init_alive;
  bound = λ a h. (others a (λ e. absurd (omega (arith, e, h, lt)))).0 ∙ w.bound a h;
  parents = λ a j e. elim (number_cases a i) [
    | inl at_i ↦
        let g : some me ≡ some j = sym parent ∙ ap (λ x. (t'.proc x).parent) (sym at_i) ∙ e in
        let k : me ≡ j = cc g in stays j (ap (life_of t) (sym k) ∙ l)
    | inr away ↦ stays j (w.parents a j (sym (others a away).2 ∙ e))
  ];
  raised = λ a n ne e. elim (number_cases a i) [
    | inl at_i ↦
        (let g : some me ≡ none = sym parent ∙ ap (λ x. (t'.proc x).parent) (sym at_i) ∙ e in cc g)
    | inr away ↦ w.raised a (λ z. n ((others a away).0 ∙ z)) ne (sym (others a away).2 ∙ e)
  ];
  blank = λ a z. elim (number_cases a i) [
    | inl at_i ↦ absurd (let g : alive ≡ free = sym l' ∙ ap (life_of t') (sym at_i) ∙ z in cc g)
    | inr away ↦
        let (p, q) = w.blank a (sym (others a away).0 ∙ z) in
        ((others a away).1 ∙ p, (others a away).2 ∙ q)
  ];
  numbered = λ a n. elim (number_cases a i) [
    | inl at_i ↦
        let e : (t'.proc a).pid ≡ t.nextpid = ap (λ x. (t'.proc x).pid) at_i ∙ pid in
        let pos = (w.numbered w.init (alive-free _ w.init_alive)) in
        let (p, q) = pos in (omega (arith, e, p, q), omega (arith, e, next))
    | inr away ↦
        let (p, q) = w.numbered a (λ z. n ((others a away).0 ∙ z)) in
        let e = (others a away).1 in (omega (arith, e, p), omega (arith, e, q, next))
  ];
  different = λ a b n m e. elim (number_cases a i) [
    | inl a_i ↦ elim (number_cases b i) [
      | inl b_i ↦ a_i ∙ sym b_i
      | inr away ↦
          let ea : (t'.proc a).pid ≡ t.nextpid = ap (λ x. (t'.proc x).pid) a_i ∙ pid in
          let eb = (others b away).1 in
          let (p, q) = w.numbered b (λ z. m ((others b away).0 ∙ z)) in
          absurd (omega (arith, e, ea, eb, q))
    ]
    | inr a_away ↦ elim (number_cases b i) [
      | inl b_i ↦
          let eb : (t'.proc b).pid ≡ t.nextpid = ap (λ x. (t'.proc x).pid) b_i ∙ pid in
          let ea = (others a a_away).1 in
          let (p, q) = w.numbered a (λ z. n ((others a a_away).0 ∙ z)) in
          absurd (omega (arith, e, ea, eb, q))
      | inr b_away ↦
          w.different a b (λ z. n ((others a a_away).0 ∙ z)) (λ z. m ((others b b_away).0 ∙ z))
            (sym (others a a_away).1 ∙ e ∙ (others b b_away).1)
    ]
  ];
}
  where
    stays : (j : ℕ) → life_of t j ≡ alive → life_of t' j ≡ alive
    stays j al = (others j (λ e. alive-free _ al (ap (life_of t) e ∙ f))).0 ∙ al

pub bumped :
    (t : Table)
    → t.nextpid + 1 < 2 ^ 31
    → IsTree t
    → IsTree (record t { nextpid = (t.nextpid + 1) % 2 ^ 32 })
bumped t room w = record {
  init = w.init;
  is_init = w.is_init;
  init_alive = w.init_alive;
  bound = w.bound;
  parents = w.parents;
  raised = w.raised;
  blank = w.blank;
  numbered = λ a n. let (p, q) = w.numbered a n in (p, omega (arith, q, room));
  different = w.different;
}

-- What `allocproc` leaves: a table with the same tree, or a new entry that is not yet in it.
unfoldable pub IsAllocated : Table → Option ℕ → Table → Type 0
IsAllocated t none t1 = IsTree t1
IsAllocated t (some i) t1 =
    (life_of t i ≡ free)
    × (i < nproc)
    × (t1.initproc ≡ t.initproc)
    × (t1.nextpid ≡ t.nextpid + 1)
    × ((a : ℕ) → a ≢ i → t1.proc a ≡ t.proc a)
    × ((t1.proc i).pid ≡ t.nextpid)

-- an entry given back
given_back :
    (t : Table) (i : ℕ) (p : Proc)
    → t.nextpid + 1 < 2 ^ 31
    → IsTree t
    → life_of t i ≡ free
    → life p.state ≡ free
    → p.pid ≡ 0
    → p.parent ≡ none
    → IsTree (put_proc (record t { nextpid = (t.nextpid + 1) % 2 ^ 32 }) i p)
given_back t i p room w f l e g =
    let t1 = record t { nextpid = (t.nextpid + 1) % 2 ^ 32 } in
    let (z, o) = w.blank i f in
    IsTree-IsAlike (IsAlike-put t1 i p (l ∙ sym f) (e ∙ sym z) (g ∙ sym o)) (bumped t room w)

fill_entry-IsAllocated :
    (t : Table) (forkret : ℕ) (frame pages found : Option ℕ)
    → t.nextpid + 1 < 2 ^ 31
    → IsTree t
    → find_unused nproc t 0 ≡ found
    → let r = fill_entry t forkret frame pages found in IsAllocated t r.0 r.1
unfolding fill_entry IsAllocated
fill_entry-IsAllocated t forkret frame pages none room w e = w
fill_entry-IsAllocated t forkret none pages (some i) room w e =
    let (f, lt) = find_unused_lem nproc t 0 i e in
    given_back t i
      (freeproc (record (t.proc i) { pid = t.nextpid; state = used; trapframe = none })) room w f
      refl refl refl
fill_entry-IsAllocated t forkret (some b) none (some i) room w e =
    let (f, lt) = find_unused_lem nproc t 0 i e in
    given_back t i
      (freeproc
        (record (t.proc i) { pid = t.nextpid; state = used; trapframe = some b; pagetable = none }))
      room w f refl refl refl
fill_entry-IsAllocated t forkret (some b) (some g) (some i) room w e =
    let (f, lt) = find_unused_lem nproc t 0 i e in
    (f, lt, refl, omega (arith, room), λ a ne. ground arith, ground arith)

pub allocproc-IsAllocated :
    (t : Table) (forkret : ℕ) (frame pages : Option ℕ)
    → t.nextpid + 1 < 2 ^ 31
    → IsTree t
    → IsAllocated t (allocproc t forkret frame pages).0 (allocproc t forkret frame pages).1
unfolding allocproc
allocproc-IsAllocated t forkret frame pages room w =
    fill_entry-IsAllocated t forkret frame pages (find_unused nproc t 0) room w refl
