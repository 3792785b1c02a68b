-- ===== src/Console/Typing.antt =====
-- `consoleintr` of kernel/console.c does to the console what `View.typed` says.
use oshard.Common.{
  ℕ, suc, ◌+◌, ◌^◌, ◌<◌, ◌≡◌, ◌≢◌, refl, sym, ap, ap₂, subst, ◌∙◌, Bool, true, false, not, ◌&&◌,
  ◌||◌, [], ◌∷◌, ◌++◌, arith, length, ◌==◌, ltb, if◌then◌else◌, Bool-cases, inl, inr, length-items,
  items,
}
use oshard.Console.{
  Console, Handled, consputc, rub, held_count, store_char, take_char, unechoed, consoleintr,
  backspace, line_feed, carriage_return, ctrl_d, ctrl_h, ctrl_p, ctrl_u, delete_key,
}
use oshard.Console.Edit.{
  ready_count, line_count, ready, line, IsUnended, IsConsole, IsUnended-snoc, init, held_lem,
  held_items, IsStored, store_char-IsStored, rub_lem,
}
use oshard.Console.View.{Typed, rubs, keep, typed}
use oshard.Console.Kill.{cleared, kill_line_lem}

-- a run of the handler on a console does what a character does to its queues
pub record IsHandled (t : Typed) (h : Handled) : Type 0 where
  pub keeps : IsConsole h.console
  pub ready_same : ready h.console ≡ t.ready_after
  pub line_same : line h.console ≡ t.line_after
  pub echo_same : h.echo ≡ t.echoed
  pub woken_same : h.woken ≡ t.wakes
  pub dumped_same : h.dumped ≡ t.dumps

cleared-IsConsole : (s : Console) → IsConsole s → IsConsole (cleared s) × (line (cleared s) ≡ [])
unfolding IsUnended items
cleared-IsConsole s w =
    let b = w.write_small in
    let none_left : line_count (cleared s) ≡ 0 = omega arith in
    let gone : line (cleared s) ≡ [] = ap (λ k. items 128 k s.buf_at s.write_index) none_left in
    (
      record {
        read_small = w.read_small;
        write_small = b;
        edit_small = b;
        fits = let f = w.fits in omega (arith, none_left);
        unended = subst IsUnended (sym gone) tt;
      },
      gone,
    )

-- the line handed over, with the character just stored
commit : Console → Console
commit s = record s { write_index = s.edit_index }

commit_lem :
    (s s' : Console) (c : ℕ)
    → IsConsole s
    → IsStored s c s'
    → s'.read_index < 2 ^ 32
    → s'.write_index < 2 ^ 32
    → ready_count s + line_count s < 128
    → IsConsole (commit s')
      × (ready (commit s') ≡ ready s ++ (line s ++ (c ∷ [])))
      × (line (commit s') ≡ [])
unfolding IsUnended items commit
commit_lem s s' c w st a b room =
    let e = st.edit_fits in
    let rc = st.ready_counted in
    let lc = st.line_counted in
    let none_left : line_count (commit s') ≡ 0 = omega arith in
    let gone : line (commit s') ≡ [] = ap (λ k. items 128 k s'.buf_at s'.edit_index) none_left in
    let whole : ready_count (commit s') ≡ ready_count s' + line_count s' =
      omega (arith, rc, lc, room) in
    (
      record {
        read_small = a;
        write_small = e;
        edit_small = e;
        fits = omega (arith, none_left, whole, rc, lc, room);
        unended = subst IsUnended (sym gone) tt;
      },
      ap (λ k. items 128 k s'.buf_at s'.read_index) whole
          ∙ held_items s' a b
          ∙ ap₂ (λ xs ys. xs ++ ys) st.ready_kept st.line_more,
      gone,
    )

take_char-IsHandled :
    (s : Console) (c : ℕ)
    → IsConsole s
    → c < 256
    → ready_count s + line_count s < 128
    → IsHandled (keep c (ready s) (line s)) (take_char s c)
unfolding take_char consputc commit store_char
take_char-IsHandled s c w small room =
    let a = w.read_small in
    let b = w.write_small in
    let st = store_char-IsStored s c w room in
    let lr = length-items 128 (ready_count s) s.buf_at s.read_index in
    let ll = length-items 128 (line_count s) s.buf_at s.write_index in
    let rc = st.ready_counted in
    let lc = st.line_counted in
    let e = st.edit_fits in
    let total : held_count (store_char s c) ≡ suc (length (ready s) + length (line s)) =
      omega (arith, lr, ll, rc, lc, room) in
    let typed_char : (c == backspace) ≡ false = ground arith in
    rw (total, typed_char)
      (elim (Bool-cases
        (c == line_feed || c == ctrl_d || suc (length (ready s) + length (line s)) == 128)) [
          | inl ends ↦
              let (w', more, gone) = commit_lem s (store_char s c) c w st a b room in
              rw ends (record {
                keeps = w';
                ready_same = more;
                line_same = gone;
                echo_same = refl;
                woken_same = refl;
                dumped_same = refl;
              })
          | inr goes_on ↦ rw goes_on (record {
            keeps = record {
              read_small = a;
              write_small = b;
              edit_small = e;
              fits = omega (arith, rc, lc, room);
              unended =
                  subst IsUnended (sym st.line_more)
                    (IsUnended-snoc (line s) c w.unended (ground arith) (ground arith));
            };
            ready_same = st.ready_kept;
            line_same = st.line_more;
            echo_same = refl;
            woken_same = refl;
            dumped_same = refl;
          })
        ])

no_items : (s : Console) → line_count s ≡ 0 → line s ≡ []
unfolding items
no_items s z = ap (λ k. items 128 k s.buf_at s.write_index) z

unchanged :
    (s : Console)
    → IsConsole s
    → (dumps : Bool)
    → IsHandled
        (record {
          ready_after = ready s;
          line_after = line s;
          echoed = [];
          wakes = false;
          dumps = dumps;
        })
        (record { console = s; echo = []; woken = false; dumped = dumps })
unchanged s w dumps = record {
  keeps = w;
  ready_same = refl;
  line_same = refl;
  echo_same = refl;
  woken_same = refl;
  dumped_same = refl;
}

rubbed-IsHandled :
    (s : Console)
    → IsConsole s
    → IsHandled
        (record {
          ready_after = ready s;
          line_after = init (line s);
          echoed = if length (line s) == 0 then [] else rubs 1;
          wakes = false;
          dumps = false;
        })
        (if s.edit_index == s.write_index
          then unechoed s
          else record { console = rub s; echo = consputc backspace; woken = false; dumped = false })
unfolding consputc
rubbed-IsHandled s w =
    let b = w.write_small in
    let e = w.edit_small in
    let ll = length-items 128 (line_count s) s.buf_at s.write_index in
    elim (Bool-cases (s.edit_index == s.write_index)) [
      | inl same ↦
          let gone : s.edit_index ≡ s.write_index = ground arith in
          let empty : line s ≡ [] = (let z : line_count s ≡ 0 = omega arith in no_items s z) in
          rw same (record {
            keeps = w;
            ready_same = refl;
            line_same = empty ∙ sym (ap init empty);
            echo_same = rw empty;
            woken_same = refl;
            dumped_same = refl;
          })
      | inr differ ↦
          let apart : s.edit_index ≢ s.write_index = ground arith in
          let (w', shorter, no_end, one) = rub_lem s w apart in
          let some_left : (length (line s) == 0) ≡ false = ground (arith, ll, one) in
          rw (differ, some_left)
            (record {
              keeps = w';
              ready_same = refl;
              line_same = shorter;
              echo_same = refl;
              woken_same = refl;
              dumped_same = refl;
            })
    ]

-- On a console in order, consoleintr of a character keeps it in order and does to the ready bytes, to
-- the line, to the screen and to the sleepers what the terminal promises.
pub consoleintr_lem :
    (s : Console) (c : ℕ)
    → IsConsole s
    → c < 256
    → IsHandled (typed c (ready s) (line s)) (consoleintr s c)
unfolding consoleintr typed
consoleintr_lem s c w small =
    let lr = length-items 128 (ready_count s) s.buf_at s.read_index in
    let ll = length-items 128 (line_count s) s.buf_at s.write_index in
    let f = w.fits in
    let size : held_count s ≡ length (ready s) + length (line s) =
      held_lem s w ∙ sym (ap₂ (λ a b. a + b) lr ll) in
    elim (Bool-cases (c == ctrl_p)) [
      | inl p ↦ rw p (unchanged s w true)
      | inr not_p ↦ elim (Bool-cases (c == ctrl_u)) [
        | inl u ↦
            let (w', gone) = cleared-IsConsole s w in
            rw (not_p, u, kill_line_lem (line_count s) s w (omega arith))
              (record {
                keeps = w';
                ready_same = refl;
                line_same = gone;
                echo_same = ap rubs (sym ll);
                woken_same = refl;
                dumped_same = refl;
              })
        | inr not_u ↦ elim (Bool-cases (c == ctrl_h || c == delete_key)) [
          | inl h ↦ rw (not_p, not_u, h) (rubbed-IsHandled s w)
          | inr not_h ↦
              rw (not_p, not_u, not_h, size)
                (elim (Bool-cases (not (c == 0) && ltb (length (ready s) + length (line s)) 128)) [
                  | inl fits ↦ rw fits (
                      take_char-IsHandled s (if c == carriage_return then line_feed else c) w
                        (ground arith) (ground (arith, lr, ll)))
                  | inr full ↦ rw full (unchanged s w false)
                ])
        ]
      ]
    ]
