-- ===== src/Console/Tests.antt =====
-- Runs of kernel/console.c, and its theorems at a console whose indices are about to wrap.
use oshard.Common.{
  ℕ, suc, ◌-◌, ◌^◌, ◌≡◌, refl, ap, inl, true, false, List, [], ◌∷◌, ◌++◌, arith, items, length,
  none, some, ◌==◌, if◌then◌else◌,
}
use oshard.Console.{
  Console, returns, sleeps, take_char, store_char, consputc, kill_line, wake, consoleintr,
  consoleread, consolewrite, consolewrite_loop, line_feed, carriage_return, ctrl_d,
}
use oshard.Console.Edit.{ready, line, IsUnended, IsConsole}
use oshard.Console.View.{typed, taken}
use oshard.Console.Typing.{IsHandled, consoleintr_lem}
use oshard.Console.Reading.{IsTaken, consoleread_lem}
use oshard.Console.Typed.{type_all, IsOrdinary, AllOrdinary, IsEnd, type_line}
use oshard.Console.Line.{read_back, read_eof}

-- nothing held, two bytes before the indices wrap
abbrev fresh : Console
fresh = record {
  buf_at = λ a. 0;
  read_index = 2 ^ 32 - 2;
  write_index = 2 ^ 32 - 2;
  edit_index = 2 ^ 32 - 2;
}

fresh-IsConsole : IsConsole fresh
unfolding items IsUnended
fresh-IsConsole = record {
  read_small = omega arith;
  write_small = omega arith;
  edit_small = omega arith;
  fits = omega arith;
  unended = tt;
}

-- "l", "s" and another "s" that is rubbed out
abbrev edited : Console
edited = type_all fresh (108 ∷ 115 ∷ 115 ∷ 127 ∷ [])

typed_two : (ready edited ≡ []) × (line edited ≡ 108 ∷ 115 ∷ [])
unfolding type_all consoleintr take_char store_char consputc kill_line items
typed_two = (refl, refl)

killed_line : (consoleintr edited 21).echo ≡ 8 ∷ 32 ∷ 8 ∷ 8 ∷ 32 ∷ 8 ∷ []
unfolding type_all consoleintr take_char store_char consputc kill_line
killed_line = refl

asleep : (consoleread false (λ i c. true) edited 5).0 ≡ sleeps 5
unfolding type_all consoleintr take_char store_char consputc kill_line consoleread wake
asleep = refl

one_by_one : consolewrite (λ i. if i == 2 then none else some (i - 0)) 5 ≡ (2, 0 ∷ 1 ∷ [])
unfolding consolewrite consolewrite_loop
one_by_one = refl

abbrev ell : ℕ
ell = 108

ell-IsOrdinary : IsOrdinary ell
ell-IsOrdinary = record {
  is_char = omega arith;
  not_nul = omega arith;
  not_ctrl_d = omega arith;
  not_ctrl_h = omega arith;
  not_line_feed = omega arith;
  not_return = omega arith;
  not_ctrl_p = omega arith;
  not_ctrl_u = omega arith;
  not_delete = omega arith;
}

abbrev ls : List ℕ
ls = ell ∷ ell ∷ ell ∷ []

ls-AllOrdinary : AllOrdinary ls
ls-AllOrdinary = (ell-IsOrdinary, (ell-IsOrdinary, (ell-IsOrdinary, tt)))

ready-fresh : ready fresh ≡ []
unfolding items
ready-fresh = refl

line-fresh : line fresh ≡ []
unfolding items
line-fresh = refl

-- the console with a line ready
abbrev entered : Console
entered = type_all fresh (ls ++ (carriage_return ∷ []))

entered-IsConsole : IsConsole entered
unfolding IsEnd
entered-IsConsole =
    (type_line ls fresh carriage_return line_feed fresh-IsConsole ls-AllOrdinary (inl (refl, refl))
      (omega (arith, ap length ready-fresh, ap length line-fresh))).0

consoleintr_lem_example :
    IsHandled (typed 108 (ready entered) (line entered)) (consoleintr entered 108)
consoleintr_lem_example = consoleintr_lem entered 108 entered-IsConsole (omega arith)

consoleread_lem_example :
    IsTaken entered
      (taken 5 5 false (λ i c. true) (ready entered))
      (consoleread false (λ i c. true) entered 5)
consoleread_lem_example = consoleread_lem false (λ i c. true) entered 5 entered-IsConsole

read_back_example :
    (s' : Console) × (consoleread false
        (λ i c. true)
        (type_all fresh (ls ++ (carriage_return ∷ [])))
        100
      ≡ (returns 4, ls ++ (line_feed ∷ []), s'))
    × (ready s' ≡ [])
    × (line s' ≡ [])
    × IsConsole s'
read_back_example =
    read_back ls fresh 100 false (λ i c. true) fresh-IsConsole ready-fresh line-fresh ls-AllOrdinary
      (omega arith) (omega arith) (λ i c. refl)

read_eof_example :
    (s1 s2 : Console) × (consoleread false (λ i c. true) (type_all fresh (ls ++ (ctrl_d ∷ []))) 3
      ≡ (returns 3, ls, s1))
    × (consoleread false (λ i c. true) s1 (suc 9) ≡ (returns 0, [], s2))
    × (ready s2 ≡ [])
    × (line s2 ≡ [])
    × IsConsole s2
read_eof_example =
    read_eof 108 (108 ∷ 108 ∷ []) fresh 3 9 false (λ i c. true) fresh-IsConsole ready-fresh
      line-fresh ls-AllOrdinary (omega arith) (omega arith) (λ i c. refl)
