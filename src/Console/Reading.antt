-- ===== src/Console/Reading.antt =====
-- `consoleread` of kernel/console.c takes from the ready bytes what `View.taken` says.
use oshard.Common.{
  ℕ, zero, suc, ◌+◌, ◌-◌, ◌%◌, ◌^◌, ◌≡◌, ◌≢◌, refl, ap, ◌∙◌, Bool, List, [], ◌∷◌, arith, ◌==◌, ltb,
  Bool-cases, inl, inr, items, items_wrapped,
}
use oshard.Console.{
  Console, ReadEnd, returns, fails, sleeps, past_char, unread, wake, consoleread, line_feed, ctrl_d,
}
use oshard.Console.Edit.{ready_count, ready, line, IsConsole}
use oshard.Console.View.{taken}

-- the ready bytes before one is taken
past_char_lem :
    (s : Console)
    → IsConsole s
    → s.read_index ≢ s.write_index
    → IsConsole (past_char s)
      × (ready s ≡ s.buf_at (s.read_index % 128) ∷ ready (past_char s))
      × (unread (past_char s) ≡ s)
unfolding items
past_char_lem s w apart =
    let a = w.read_small in
    let b = w.write_small in
    let one : ready_count s ≡ suc (ready_count (past_char s)) = omega arith in
    let back : ((s.read_index + 1) % 2 ^ 32 + 2 ^ 32 - 1) % 2 ^ 32 ≡ s.read_index = omega arith in
    (
      record {
        read_small = omega arith;
        write_small = b;
        edit_small = w.edit_small;
        fits = let f = w.fits in omega (arith, one);
        unended = w.unended;
      },
      ap (λ k. items 128 k s.buf_at s.read_index) one
          ∙ ap (λ xs. s.buf_at (s.read_index % 128) ∷ xs)
              (items_wrapped 128 (ready_count (past_char s)) s.buf_at (s.read_index + 1)
                ((s.read_index + 1) % 2 ^ 32) (λ a b e. omega arith) (omega arith)),
      ap (λ k. record s { read_index = k }) back,
    )

none_ready : (s : Console) → ready_count s ≡ 0 → ready s ≡ []
unfolding items
none_ready s z = ap (λ k. items 128 k s.buf_at s.read_index) z

-- A run of a reader, as a run on the ready bytes: the bytes taken and those that stay are the same,
-- the run ends alike, and the line is left alone.
pub record IsTaken (s : Console) (queue : ReadEnd × List ℕ × List ℕ)
    (r : ReadEnd × List ℕ × Console) : Type 0 where
  pub ends_same : r.0 ≡ queue.0
  pub bytes_same : r.1 ≡ queue.1
  pub ready_same : ready r.2 ≡ queue.2
  pub line_kept : line r.2 ≡ line s
  pub keeps : IsConsole r.2

stops :
    (s : Console) (end : ReadEnd) (bytes : List ℕ) (s' : Console)
    → IsConsole s'
    → line s' ≡ line s
    → (queue : List ℕ) → ready s' ≡ queue
    → IsTaken s (end, bytes, queue) (end, bytes, s')
stops s end bytes s' w same queue e = record {
  ends_same = refl;
  bytes_same = refl;
  ready_same = e;
  line_kept = same;
  keeps = w;
}

wake-IsTaken :
    (n target : ℕ) (killed : Bool) (copyout : ℕ → ℕ → Bool) (s : Console)
    → IsConsole s
    → IsTaken s (taken n target killed copyout (ready s)) (wake n target killed copyout s)
unfolding taken wake
wake-IsTaken zero target killed copyout s w = stops s (returns target) [] s w refl (ready s) refl
wake-IsTaken (suc n) target killed copyout s w =
    let a = w.read_small in
    let b = w.write_small in
    elim (Bool-cases (s.read_index == s.write_index)) [
      | inl same ↦
          let e : s.read_index ≡ s.write_index = ground arith in
          let empty = none_ready s (omega arith) in
          rw (same, empty)
            (elim (Bool-cases killed) [
              | inl dead ↦ rw dead (stops s fails [] s w refl [] empty)
              | inr alive ↦ rw alive (stops s (sleeps (suc n)) [] s w refl [] empty)
            ])
      | inr differ ↦
          let c = s.buf_at (s.read_index % 128) in
          let (w', more, back) = past_char_lem s w (ground arith) in
          let ih = wake-IsTaken n target killed copyout (past_char s) w' in
          rw (differ, more)
            (elim (Bool-cases (c == ctrl_d)) [
              | inl eof ↦ rw eof (elim (Bool-cases (ltb (suc n) target)) [
                | inl later ↦
                    rw (later, back)
                      (stops s (returns (target - suc n)) [] s w refl (c ∷ ready (past_char s))
                        more)
                | inr first ↦ rw first (
                    stops s (returns (target - suc n)) [] (past_char s) w' refl
                      (ready (past_char s)) refl)
              ])
              | inr goes_on ↦ elim (Bool-cases (copyout (target - suc n) c)) [
                | inr bad ↦
                    rw (goes_on, bad)
                      (stops s (returns (target - suc n)) [] (past_char s) w' refl
                        (ready (past_char s)) refl)
                | inl good ↦ elim (Bool-cases (c == line_feed)) [
                  | inl end ↦
                      rw (goes_on, good, end)
                        (stops s (returns (target - n)) (c ∷ []) (past_char s) w' refl
                          (ready (past_char s)) refl)
                  | inr on ↦
                      rw (goes_on, good, on)
                        (record {
                          ends_same = ih.ends_same;
                          bytes_same = ap (λ xs. c ∷ xs) ih.bytes_same;
                          ready_same = ih.ready_same;
                          line_kept = ih.line_kept;
                          keeps = ih.keeps;
                        })
                ]
              ]
            ])
    ]

-- On a console in order, consoleread ends the way, gives the bytes and leaves the bytes that the
-- terminal promises, leaves the line alone and keeps the console in order.
pub consoleread_lem :
    (killed : Bool) (copyout : ℕ → ℕ → Bool) (s : Console) (n : ℕ)
    → IsConsole s
    → IsTaken s (taken n n killed copyout (ready s)) (consoleread killed copyout s n)
unfolding consoleread
consoleread_lem killed copyout s n w = wake-IsTaken n n killed copyout s w
