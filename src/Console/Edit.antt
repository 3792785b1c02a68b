-- ===== src/Console/Edit.antt =====
-- The console of kernel/console.c as two queues: `ready`, the bytes a reader may take, and `line`, the
-- bytes that can still be edited; and what storing and rubbing out a character do to them.
use oshard.Common.{
  ℕ, suc, ◌+◌, ◌-◌, ◌%◌, ◌^◌, ◌≤◌, ◌<◌, ◌≡◌, ◌≢◌, refl, sym, ap, ap₂, subst, ◌∙◌, List, [], ◌∷◌,
  ◌++◌, arith, items, items_wrapped, items-append, items-snoc, items_kept, store_byte,
}
use oshard.Console.{Console, line_feed, ctrl_d, rub, store_char, held_count}

-- how many bytes are ready, and how many stand in the line
abbrev pub ready_count : Console → ℕ
ready_count s = (s.write_index + 2 ^ 32 - s.read_index) % 2 ^ 32

abbrev pub line_count : Console → ℕ
line_count s = (s.edit_index + 2 ^ 32 - s.write_index) % 2 ^ 32

abbrev pub ready : Console → List ℕ
ready s = items 128 (ready_count s) s.buf_at s.read_index

abbrev pub line : Console → List ℕ
line s = items 128 (line_count s) s.buf_at s.write_index

-- a list with no end of line in it
unfoldable pub IsUnended : List ℕ → Type 0
IsUnended [] = Unit
IsUnended (c ∷ cs) = (c ≢ line_feed) × (c ≢ ctrl_d) × IsUnended cs

pub record IsConsole (s : Console) : Type 0 where
  pub read_small : s.read_index < 2 ^ 32
  pub write_small : s.write_index < 2 ^ 32
  pub edit_small : s.edit_index < 2 ^ 32
  pub fits : ready_count s + line_count s ≤ 128
  pub unended : IsUnended (line s)

pub IsUnended-snoc :
    (cs : List ℕ) (c : ℕ) → IsUnended cs → c ≢ line_feed → c ≢ ctrl_d → IsUnended (cs ++ (c ∷ []))
unfolding IsUnended
IsUnended-snoc [] c w a b = (a, b, tt)
IsUnended-snoc (x ∷ xs) c (p, q, w) a b = (p, q, IsUnended-snoc xs c w a b)

-- all but the last
abbrev pub init : List ℕ → List ℕ
init [] = []
init (x ∷ []) = []
init (x ∷ y ∷ ys) = x ∷ init (y ∷ ys)

pub init-snoc : (cs : List ℕ) (c : ℕ) → init (cs ++ (c ∷ [])) ≡ cs
init-snoc [] c = refl
init-snoc (x ∷ []) c = refl
init-snoc (x ∷ y ∷ ys) c = ap (λ zs. x ∷ zs) (init-snoc (y ∷ ys) c)

pub init-IsUnended :
    (cs : List ℕ) (c : ℕ) → IsUnended (cs ++ (c ∷ [])) → IsUnended cs × (c ≢ line_feed)
unfolding IsUnended
init-IsUnended [] c (a, b, w) = (tt, a)
init-IsUnended (x ∷ xs) c (p, q, w) = let r = init-IsUnended xs c w in ((p, q, r.0), r.1)

-- Both queues are one run of the ring.
pub held_lem : (s : Console) → IsConsole s → held_count s ≡ ready_count s + line_count s
held_lem s w =
    let a = w.read_small in
    let b = w.write_small in let c = w.edit_small in let d = w.fits in omega arith

pub held_items :
    (s : Console)
    → s.read_index < 2 ^ 32
    → s.write_index < 2 ^ 32
    → items 128 (ready_count s + line_count s) s.buf_at s.read_index ≡ ready s ++ line s
held_items s a b =
    let wraps : (s.read_index + ready_count s) % 128 ≡ s.write_index % 128 = omega arith in
    items-append 128 (ready_count s) (line_count s) s.buf_at s.read_index
    ∙ ap (λ xs. ready s ++ xs)
        (items_wrapped 128 (line_count s) s.buf_at (s.read_index + ready_count s) s.write_index
          (λ a b e. omega arith) wraps)

-- A character stored is the last of the line.
pub record IsStored (s : Console) (c : ℕ) (s' : Console) : Type 0 where
  pub ready_kept : ready s' ≡ ready s
  pub line_more : line s' ≡ line s ++ (c ∷ [])
  pub ready_counted : ready_count s' ≡ ready_count s
  pub line_counted : line_count s' ≡ suc (line_count s)
  pub edit_fits : s'.edit_index < 2 ^ 32

pub store_char-IsStored :
    (s : Console) (c : ℕ)
    → IsConsole s
    → ready_count s + line_count s < 128
    → IsStored s c (store_char s c)
unfolding store_char
store_char-IsStored s c w room =
    let a = w.read_small in
    let b = w.write_small in
    let e = w.edit_small in
    let one : line_count (store_char s c) ≡ suc (line_count s) = omega arith in
    let place : s.edit_index % 128 ≡ (s.write_index + line_count s) % 128 = omega arith in
    let last : store_byte s.buf_at (s.edit_index % 128) c ((s.write_index + line_count s) % 128)
        ≡ c =
      ground arith in
    record {
      ready_kept =
          items_kept 128 (ready_count s) s.buf_at s.read_index (s.edit_index % 128) c
            (λ j h same. absurd (omega (arith, room)));
      line_more =
          ap (λ k. items 128 k (store_char s c).buf_at s.write_index) one
          ∙ items-snoc 128 (line_count s) (store_char s c).buf_at s.write_index
          ∙ ap₂ (λ xs x. xs ++ (x ∷ []))
              (items_kept 128 (line_count s) s.buf_at s.write_index (s.edit_index % 128) c
                (λ j h same. absurd (omega (arith, place, room))))
              last;
      ready_counted = refl;
      line_counted = one;
      edit_fits = omega arith;
    }

-- The line before a character is rubbed out, where it has one.
pub rub_last :
    (s : Console)
    → IsConsole s
    → s.edit_index ≢ s.write_index
    → (line_count s ≡ suc (line_count (rub s)))
      × (line s ≡ line (rub s) ++ (s.buf_at ((s.edit_index + 2 ^ 32 - 1) % 2 ^ 32 % 128) ∷ []))
rub_last s w some_typed =
    let a = w.read_small in
    let b = w.write_small in
    let e = w.edit_small in
    let one : line_count s ≡ suc (line_count (rub s)) = omega arith in
    let place : (s.write_index + line_count (rub s)) % 128
        ≡ (s.edit_index + 2 ^ 32 - 1) % 2 ^ 32 % 128 =
      omega arith in
    (
      one,
      ap (λ k. items 128 k s.buf_at s.write_index) one
          ∙ items-snoc 128 (line_count (rub s)) s.buf_at s.write_index
          ∙ ap (λ k. line (rub s) ++ (s.buf_at k ∷ [])) place,
    )

-- Rubbing a character out takes the last off the line, which was no newline.
pub rub_lem :
    (s : Console)
    → IsConsole s
    → s.edit_index ≢ s.write_index
    → IsConsole (rub s)
      × (line (rub s) ≡ init (line s))
      × (s.buf_at ((s.edit_index + 2 ^ 32 - 1) % 2 ^ 32 % 128) ≢ line_feed)
      × (line_count s ≡ suc (line_count (rub s)))
rub_lem s w some_typed =
    let (one, more) = rub_last s w some_typed in
    let (plain, no_end) =
      init-IsUnended (line (rub s)) (s.buf_at ((s.edit_index + 2 ^ 32 - 1) % 2 ^ 32 % 128))
        (subst IsUnended more w.unended) in
    (
      record {
        read_small = w.read_small;
        write_small = w.write_small;
        edit_small = omega arith;
        fits = let f = w.fits in omega (arith, one);
        unended = plain;
      },
      sym (init-snoc (line (rub s)) (s.buf_at ((s.edit_index + 2 ^ 32 - 1) % 2 ^ 32 % 128)))
          ∙ ap init (sym more),
      no_end,
      one,
    )
