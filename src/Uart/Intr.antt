-- ===== src/Uart/Intr.antt =====
-- The interrupt handler of kernel/uart.c with the console of kernel/console.c.
use oshard.Common.{ℕ, ◌<◌, ◌≡◌, refl, ap, ap₂, ◌∙◌, Bool, List, [], ◌∷◌, ◌++◌}
use oshard.Console.{Console, consoleintr}
use oshard.Console.Edit.{ready, line, IsConsole}
use oshard.Console.View.{typed}
use oshard.Console.Typing.{consoleintr_lem}
use oshard.Uart.{Uart, uartstart, intr_loop, uartintr}
use oshard.Uart.Fifo.{IsUart, IsStarted, waiting, uartstart-IsStarted}

unfoldable pub AllChars : List ℕ → Type 0
AllChars [] = Unit
AllChars (c ∷ cs) = (c < 256) × AllChars cs

-- What the terminal promises for several characters: the echo, the ready bytes and the line.
unfoldable pub typed_all : List ℕ → List ℕ → List ℕ → List ℕ × List ℕ × List ℕ
unfolding typed
typed_all [] queue typing = ([], queue, typing)
typed_all (c ∷ cs) queue typing =
    let t = typed c queue typing in
    let rest = typed_all cs t.ready_after t.line_after in (t.echoed ++ rest.0, rest.1, rest.2)

intr_loop_lem :
    (received : List ℕ) (s : Console)
    → IsConsole s
    → AllChars received
    → ((intr_loop received s).0 ≡ (typed_all received (ready s) (line s)).0)
      × (ready (intr_loop received s).1 ≡ (typed_all received (ready s) (line s)).1)
      × (line (intr_loop received s).1 ≡ (typed_all received (ready s) (line s)).2)
      × IsConsole (intr_loop received s).1
unfolding intr_loop typed_all AllChars
intr_loop_lem [] s w small = (refl, refl, refl, w)
intr_loop_lem (c ∷ cs) s w (lt, small) =
    let h = consoleintr_lem s c w lt in
    let (echo, queue, typing, w') = intr_loop_lem cs (consoleintr s c).console h.keeps small in
    let same = ap₂ (λ q t. typed_all cs q t) h.ready_same h.line_same in
    (
      ap₂ (λ xs ys. xs ++ ys) h.echo_same (echo ∙ ap (λ t. t.0) same),
      queue ∙ ap (λ t. t.1) same,
      typing ∙ ap (λ t. t.2) same,
      w',
    )

-- From a console and a transmit buffer in order, uartintr keeps both in order, does to the console
-- what the terminal promises for the characters received, in their order, and writes to the device
-- their echo and then the front of the buffer, until none is left or the register is not free.
pub uartintr_lem :
    (received : List ℕ) (idle : ℕ → Bool) (s : Console) (u : Uart)
    → IsConsole s
    → IsUart u
    → AllChars received
    → (sent : List ℕ) × (s' : Console) × (u' : Uart) × (uartintr received idle s u
        ≡ ((typed_all received (ready s) (line s)).0 ++ sent, s', u'))
      × (ready s' ≡ (typed_all received (ready s) (line s)).1)
      × (line s' ≡ (typed_all received (ready s) (line s)).2)
      × IsConsole s'
      × IsStarted idle 0 (waiting u) (sent, u')
unfolding uartintr
uartintr_lem received idle s u w v small =
    let (echo, queue, typing, w') = intr_loop_lem received s w small in
    let s' = (intr_loop received s).1 in
    let started = uartstart idle u in
    (
      started.0,
      s',
      started.1,
      ap (λ e. (e ++ started.0, s', started.1)) echo,
      queue,
      typing,
      w',
      uartstart-IsStarted idle u v,
    )
