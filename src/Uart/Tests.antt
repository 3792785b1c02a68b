-- ===== src/Uart/Tests.antt =====
-- Runs of kernel/uart.c, and its theorems at a buffer whose indices are about to wrap.
use oshard.Common.{
  ℕ, ◌-◌, ◌^◌, ◌≡◌, refl, Bool, false, List, [], ◌∷◌, ◌++◌, arith, items, ltb, ◌==◌, if◌then◌else◌,
}
use oshard.Console.{Console, consoleintr, take_char, store_char, consputc, kill_line}
use oshard.Console.Edit.{ready, line, IsUnended, IsConsole}
use oshard.Uart.{Uart, start_loop, uartstart, buffer_char, uartputc, intr_loop, uartintr}
use oshard.Uart.Fifo.{
  waiting, IsUart, IsStarted, PutEnds, uartputc-PutEnds, Event, put_event, start_event, run,
  run_fifo,
}
use oshard.Uart.Intr.{AllChars, typed_all, uartintr_lem}

-- "a" and "b" wait, and the next index wraps
abbrev two_wait : Uart
two_wait = record {
  tx_buf_at = λ a. if a == 29 then 97 else 98;
  tx_w = 2 ^ 64 - 1;
  tx_r = 2 ^ 64 - 3;
}

two_wait-IsUart : IsUart two_wait
two_wait-IsUart = record { w_small = omega arith; r_small = omega arith; fits = omega arith }

-- the register is free for one more character, for two, always
abbrev once : ℕ → Bool
once i = ltb i 1

abbrev runs : List Event
runs = put_event false once 99 ∷ start_event once ∷ put_event false once 100 ∷ []

in_turn : (run runs two_wait).1 ≡ 97 ∷ 98 ∷ 99 ∷ []
unfolding run uartputc uartstart start_loop buffer_char
in_turn = refl

uartputc-PutEnds_example :
    PutEnds false once two_wait 99
      (uartputc false once two_wait 99).0
      (uartputc false once two_wait 99).1
uartputc-PutEnds_example = uartputc-PutEnds false once two_wait 99 two_wait-IsUart

run_fifo_example :
    IsUart (run runs two_wait).2
    × ((run runs two_wait).1 ++ waiting (run runs two_wait).2
        ≡ waiting two_wait ++ (run runs two_wait).0)
run_fifo_example = run_fifo runs two_wait two_wait-IsUart

-- a console with nothing typed
abbrev cleared : Console
cleared = record { buf_at = λ a. 0; read_index = 7; write_index = 7; edit_index = 7 }

cleared-IsConsole : IsConsole cleared
unfolding items IsUnended
cleared-IsConsole = record {
  read_small = omega arith;
  write_small = omega arith;
  edit_small = omega arith;
  fits = omega arith;
  unended = tt;
}

abbrev keys : List ℕ
keys = 108 ∷ 115 ∷ 13 ∷ []

keys-AllChars : AllChars keys
unfolding AllChars
keys-AllChars = omega arith

echoed_first : (uartintr keys once cleared two_wait).0 ≡ 108 ∷ 115 ∷ 10 ∷ 97 ∷ []
unfolding uartintr intr_loop consoleintr take_char store_char consputc kill_line uartstart
    start_loop
echoed_first = refl

uartintr_lem_example :
    (sent : List ℕ) × (s' : Console) × (u' : Uart) × (uartintr keys once cleared two_wait
      ≡ ((typed_all keys (ready cleared) (line cleared)).0 ++ sent, s', u'))
    × (ready s' ≡ (typed_all keys (ready cleared) (line cleared)).1)
    × (line s' ≡ (typed_all keys (ready cleared) (line cleared)).2)
    × IsConsole s'
    × IsStarted once 0 (waiting two_wait) (sent, u')
uartintr_lem_example =
    uartintr_lem keys once cleared two_wait cleared-IsConsole two_wait-IsUart keys-AllChars
