-- ===== src/Uart.antt =====
-- kernel/uart.c: the transmit buffer of the serial port, and the handler of its interrupt. Each
-- function is one run, from where it takes `uart_tx_lock` to where it gives it up, by a return or by
-- `sleep`. What the status register says at each reading of a run, and the characters that the
-- receive register holds, are arguments.
mod Fifo
mod Intr
mod Tests
use oshard.Common.{
  ℕ, zero, suc, ◌+◌, ◌-◌, ◌%◌, ◌^◌, Bool, true, false, not, ◌&&◌, ◌||◌, List, [], ◌∷◌, ◌++◌, ◌==◌,
  if◌then◌else◌, store_byte,
}
use oshard.Console.{Console, consoleintr}

-- `uart_tx_buf`, of which only the places below 32 are used, `uart_tx_w` and `uart_tx_r`
pub record Uart : Type 0 where
  pub tx_buf_at : ℕ → ℕ
  pub tx_w : ℕ
  pub tx_r : ℕ

-- `uart_tx_w == uart_tx_r`
abbrev pub tx_empty : Uart → Bool
tx_empty u = u.tx_w == u.tx_r

-- `uart_tx_w == uart_tx_r + UART_TX_BUF_SIZE`
abbrev pub tx_full : Uart → Bool
tx_full u = u.tx_w == (u.tx_r + 32) % 2 ^ 64

-- The rounds left of the loop of `uartstart`, the next of them the `i`th: the characters written to
-- the transmit register. `idle i` tells whether it is free at the `i`th reading of the status.
-- Each of them wakes those that sleep on `uart_tx_r`.
unfoldable pub start_loop : ℕ → (ℕ → Bool) → ℕ → Uart → List ℕ × Uart
start_loop zero idle i u = ([], u)
start_loop (suc rounds) idle i u =
    let rest = start_loop rounds idle (i + 1) (record u { tx_r = (u.tx_r + 1) % 2 ^ 64 }) in
    if tx_empty u || not (idle i) then ([], u) else (u.tx_buf_at (u.tx_r % 32) ∷ rest.0, rest.1)

-- A round for each character that waits: after that many the buffer is empty.
unfoldable pub uartstart : (ℕ → Bool) → Uart → List ℕ × Uart
unfolding start_loop
uartstart idle u = start_loop ((u.tx_w + 2 ^ 64 - u.tx_r) % 2 ^ 64) idle 0 u

-- How a run of `uartputc` ends: done, with the characters written to the register, asleep on
-- `uart_tx_r`, or spinning after a panic.
pub data PutEnd : Type 0 where
  puts : List ℕ → PutEnd
  sleeps : PutEnd
  spins : PutEnd

-- `uart_tx_buf[uart_tx_w % UART_TX_BUF_SIZE] = c`, of which a `char` is kept, and the index after it
unfoldable pub buffer_char : Uart → ℕ → Uart
buffer_char u c = record u {
  tx_buf_at = store_byte u.tx_buf_at (u.tx_w % 32) (c % 256);
  tx_w = (u.tx_w + 1) % 2 ^ 64;
}

unfoldable pub uartputc : Bool → (ℕ → Bool) → Uart → ℕ → PutEnd × Uart
unfolding uartstart buffer_char
uartputc panicked idle u c =
    let started = uartstart idle (buffer_char u c) in
    if panicked then (spins, u) else if tx_full u then (sleeps, u) else (puts started.0, started.1)

-- The loop of `uartintr` over the characters received: the console after them, and their echo.
unfoldable pub intr_loop : List ℕ → Console → List ℕ × Console
unfolding consoleintr
intr_loop [] s = ([], s)
intr_loop (c ∷ cs) s =
    let h = consoleintr s c in let rest = intr_loop cs h.console in (h.echo ++ rest.0, rest.1)

-- the characters written to the register in the order of the code, the console and the buffer
unfoldable pub uartintr : List ℕ → (ℕ → Bool) → Console → Uart → List ℕ × Console × Uart
unfolding intr_loop uartstart
uartintr received idle s u =
    let handled = intr_loop received s in
    let started = uartstart idle u in (handled.0 ++ started.0, handled.1, started.1)
