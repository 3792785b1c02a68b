-- ===== src/Console/Line.antt =====
-- Lines that are typed at the console and read back: `consoleintr` and `consoleread` together.
use oshard.Common.{
  ℕ, zero, suc, ◌+◌, ◌-◌, ◌≤◌, ◌<◌, ◌≡◌, refl, ap, ap₂, ◌∙◌, Bool, true, false, List, [], ◌∷◌, ◌++◌,
  arith, ◌==◌, ltb, inl, inr, length, lt→ltb,
}
use oshard.Console.{Console, ReadEnd, returns, consoleread, line_feed, carriage_return, ctrl_d}
use oshard.Console.Edit.{ready, line, IsConsole}
use oshard.Console.View.{taken}
use oshard.Console.Reading.{consoleread_lem}
use oshard.Console.Typed.{type_all, AllOrdinary, IsEnd, type_line}

-- A reader with room for the line takes all of it up to the newline.
taken_line :
    (body : List ℕ) (n target : ℕ) (killed : Bool) (copyout : ℕ → ℕ → Bool) (rest : List ℕ)
    → ((i c : ℕ) → copyout i c ≡ true)
    → AllOrdinary body
    → length body < n
    → n ≤ target
    → taken n target killed copyout (body ++ (line_feed ∷ rest))
      ≡ (returns (target - (n - suc (length body))), body ++ (line_feed ∷ []), rest)
unfolding taken
taken_line [] zero target killed copyout rest good plain lt le = absurd (omega arith)
taken_line [] (suc n) target killed copyout rest good plain lt le =
    let e : suc n - 1 ≡ n = omega arith in rw (good (target - suc n) line_feed, e) refl
taken_line (c ∷ body) zero target killed copyout rest good plain lt le = absurd (omega arith)
taken_line (c ∷ body) (suc n) target killed copyout rest good (o, plain) lt le =
    let d : (c == ctrl_d) ≡ false = (let a = o.not_ctrl_d in ground arith) in
    let l : (c == line_feed) ≡ false = (let a = o.not_line_feed in ground arith) in
    let e : suc n - suc (suc (length body)) ≡ n - suc (length body) = omega arith in
    rw
      (
        d,
        good (target - suc n) c,
        l,
        taken_line body n target killed copyout rest good plain (omega arith) (omega arith),
        e,
      )
      refl

-- A reader takes what stands before ^D, and leaves ^D.
taken_eof :
    (body : List ℕ) (n target : ℕ) (killed : Bool) (copyout : ℕ → ℕ → Bool)
    → ((i c : ℕ) → copyout i c ≡ true)
    → AllOrdinary body
    → length body ≤ n
    → n < target + length body
    → taken n target killed copyout (body ++ (ctrl_d ∷ []))
      ≡ (returns (target - (n - length body)), body, ctrl_d ∷ [])
unfolding taken
taken_eof [] zero target killed copyout good plain le lt =
    let e : target ≡ target - 0 = omega arith in ap (λ k. (returns k, [], ctrl_d ∷ [])) e
taken_eof [] (suc n) target killed copyout good plain le lt =
    let later = lt→ltb (suc n) target (omega arith) in
    let e : suc n - 0 ≡ suc n = omega arith in rw (later, e) refl
taken_eof (c ∷ body) zero target killed copyout good plain le lt = absurd (omega arith)
taken_eof (c ∷ body) (suc n) target killed copyout good (o, plain) le lt =
    let d : (c == ctrl_d) ≡ false = (let a = o.not_ctrl_d in ground arith) in
    let l : (c == line_feed) ≡ false = (let a = o.not_line_feed in ground arith) in
    let e : suc n - suc (length body) ≡ n - length body = omega arith in
    rw
      (
        d,
        good (target - suc n) c,
        l,
        taken_eof body n target killed copyout good plain (omega arith) (omega arith),
        e,
      )
      refl

-- A run of a reader, from what it takes from the ready bytes.
consoleread_run :
    (killed : Bool) (copyout : ℕ → ℕ → Bool) (s : Console) (n : ℕ) (queue : List ℕ) (end : ReadEnd)
    (bytes rest : List ℕ)
    → IsConsole s
    → ready s ≡ queue
    → taken n n killed copyout queue ≡ (end, bytes, rest)
    → (s' : Console) × (consoleread killed copyout s n ≡ (end, bytes, s'))
      × (ready s' ≡ rest)
      × (line s' ≡ line s)
      × IsConsole s'
consoleread_run killed copyout s n queue end bytes rest w all run =
    let r = consoleread_lem killed copyout s n w in
    let run' = ap (λ q. taken n n killed copyout q) all ∙ run in
    let s' = (consoleread killed copyout s n).2 in
    (
      s',
      ap₂ (λ e bs. (e, bs, s')) (r.ends_same ∙ ap (λ t. t.0) run')
          (r.bytes_same ∙ ap (λ t. t.1) run'),
      r.ready_same ∙ ap (λ t. t.2) run',
      r.line_kept,
      r.keeps,
    )

-- A line of ordinary characters typed at a console in order that holds none, and ended by return, is
-- read back whole, with the newline for the return, by a reader that asks for enough bytes and can
-- be given them; the console is then in order and holds nothing.
pub read_back :
    (body : List ℕ) (s : Console) (n : ℕ) (killed : Bool) (copyout : ℕ → ℕ → Bool)
    → IsConsole s
    → ready s ≡ []
    → line s ≡ []
    → AllOrdinary body
    → length body < 128
    → length body < n
    → ((i c : ℕ) → copyout i c ≡ true)
    → (s' : Console) × (consoleread killed copyout (type_all s (body ++ (carriage_return ∷ []))) n
        ≡ (returns (suc (length body)), body ++ (line_feed ∷ []), s'))
      × (ready s' ≡ [])
      × (line s' ≡ [])
      × IsConsole s'
unfolding IsEnd
read_back body s n killed copyout w no_ready no_line plain fits asked good =
    let a = ap length no_ready in
    let b = ap length no_line in
    let (w', queue, gone) =
      type_line body s carriage_return line_feed w plain (inl (refl, refl)) (omega (arith, a, b)) in
    let count : n - (n - suc (length body)) ≡ suc (length body) = omega arith in
    let (s', run, empty, same, keeps) =
      consoleread_run killed copyout (type_all s (body ++ (carriage_return ∷ []))) n
        (body ++ (line_feed ∷ [])) (returns (suc (length body))) (body ++ (line_feed ∷ [])) [] w'
        (queue ∙ ap₂ (λ q t. q ++ (t ++ (body ++ (line_feed ∷ [])))) no_ready no_line)
        (taken_line body n n killed copyout [] good plain asked (omega arith)
          ∙ ap (λ k. (returns k, body ++ (line_feed ∷ []), [])) count) in
    (s', run, empty, same ∙ gone, keeps)

-- Ordinary characters, at least one, typed at a console in order that holds none, and ended by ^D,
-- are given without ^D to a reader that asks for as many bytes; the next reader, of any number of
-- bytes but none, returns 0, and the console is then in order and holds nothing.
pub read_eof :
    (c : ℕ) (cs : List ℕ) (s : Console) (n m : ℕ) (killed : Bool) (copyout : ℕ → ℕ → Bool)
    → IsConsole s
    → ready s ≡ []
    → line s ≡ []
    → AllOrdinary (c ∷ cs)
    → length (c ∷ cs) < 128
    → length (c ∷ cs) ≤ n
    → ((i b : ℕ) → copyout i b ≡ true)
    → (s1 s2 : Console) × (consoleread killed copyout (type_all s ((c ∷ cs) ++ (ctrl_d ∷ []))) n
        ≡ (returns (length (c ∷ cs)), c ∷ cs, s1))
      × (consoleread killed copyout s1 (suc m) ≡ (returns 0, [], s2))
      × (ready s2 ≡ [])
      × (line s2 ≡ [])
      × IsConsole s2
unfolding IsEnd taken
read_eof c cs s n m killed copyout w no_ready no_line plain fits asked good =
    let a = ap length no_ready in
    let b = ap length no_line in
    let body = c ∷ cs in
    let (w', queue, gone) =
      type_line body s ctrl_d ctrl_d w plain (inr (refl, refl)) (omega (arith, a, b)) in
    let count : n - (n - length body) ≡ length body = omega arith in
    let (s1, run, left, same, w1) =
      consoleread_run killed copyout (type_all s (body ++ (ctrl_d ∷ []))) n (body ++ (ctrl_d ∷ []))
        (returns (length body)) body (ctrl_d ∷ []) w'
        (queue ∙ ap₂ (λ q t. q ++ (t ++ (body ++ (ctrl_d ∷ [])))) no_ready no_line)
        (taken_eof body n n killed copyout good plain asked (omega arith)
          ∙ ap (λ k. (returns k, body, ctrl_d ∷ [])) count) in
    let first : ltb (suc m) (suc m) ≡ false = ground arith in
    let none_given : suc m - suc m ≡ 0 = omega arith in
    let (s2, run2, empty, same2, w2) =
      consoleread_run killed copyout s1 (suc m) (ctrl_d ∷ []) (returns 0) [] [] w1 left
        (rw (first, none_given) refl) in
    (s1, s2, run, run2, empty, same2 ∙ same ∙ gone, w2)
