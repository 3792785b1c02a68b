-- ===== src/Uart/Fifo.antt =====
-- The transmit buffer of kernel/uart.c as a queue: what is written to the device is what was put,
-- in the order in which it was put.
use oshard.Common.{
  append_nil, append_assoc, ℕ, zero, suc, ◌+◌, ◌-◌, ◌%◌, ◌^◌, ◌≤◌, ◌<◌, ◌≡◌, ◌≢◌, refl, sym, ap,
  ap₂, subst, ◌∙◌, Bool, true, false, ◌⊎◌, inl, inr, List, [], ◌∷◌, ◌++◌, arith, Bool-cases, length,
  items, items_wrapped, items-snoc, items_kept, store_byte,
}
use oshard.Uart.{
  Uart, tx_empty, tx_full, start_loop, uartstart, PutEnd, puts, sleeps, spins, buffer_char,
  uartputc,
}

-- how many characters wait, and the characters
abbrev pub tx_count : Uart → ℕ
tx_count u = (u.tx_w + 2 ^ 64 - u.tx_r) % 2 ^ 64

abbrev pub waiting : Uart → List ℕ
waiting u = items 32 (tx_count u) u.tx_buf_at u.tx_r

pub record IsUart (u : Uart) : Type 0 where
  pub w_small : u.tx_w < 2 ^ 64
  pub r_small : u.tx_r < 2 ^ 64
  pub fits : tx_count u ≤ 32

-- the buffer without its first character
abbrev after_first : Uart → Uart
after_first u = record u { tx_r = (u.tx_r + 1) % 2 ^ 64 }

after_first_lem :
    (u : Uart)
    → IsUart u
    → u.tx_w ≢ u.tx_r
    → IsUart (after_first u)
      × (waiting u ≡ u.tx_buf_at (u.tx_r % 32) ∷ waiting (after_first u))
      × (tx_count u ≡ suc (tx_count (after_first u)))
unfolding items
after_first_lem u w apart =
    let a = w.w_small in
    let b = w.r_small in
    let one : tx_count u ≡ suc (tx_count (after_first u)) = omega arith in
    (
      record { w_small = a; r_small = omega arith; fits = let f = w.fits in omega (arith, one) },
      ap (λ k. items 32 k u.tx_buf_at u.tx_r) one
          ∙ ap (λ xs. u.tx_buf_at (u.tx_r % 32) ∷ xs)
              (items_wrapped 32 (tx_count (after_first u)) u.tx_buf_at (u.tx_r + 1)
                ((u.tx_r + 1) % 2 ^ 64) (λ a b e. omega arith) (omega arith)),
      one,
    )

-- What a run writes is the front of the queue, and it stops only at an empty queue or when the
-- register is not free.
pub record IsStarted (idle : ℕ → Bool) (i : ℕ) (queue : List ℕ) (r : List ℕ × Uart) : Type 0 where
  pub in_order : r.0 ++ waiting r.1 ≡ queue
  pub stops : (waiting r.1 ≡ []) ⊎ (idle (i + length r.0) ≡ false)
  pub keeps : IsUart r.1

none_waiting : (u : Uart) → tx_count u ≡ 0 → waiting u ≡ []
unfolding items
none_waiting u z = ap (λ k. items 32 k u.tx_buf_at u.tx_r) z

start_loop-IsStarted :
    (rounds : ℕ) (idle : ℕ → Bool) (i : ℕ) (u : Uart)
    → IsUart u
    → tx_count u ≤ rounds
    → IsStarted idle i (waiting u) (start_loop rounds idle i u)
unfolding start_loop
start_loop-IsStarted zero idle i u w few = record {
  in_order = refl;
  stops = inl (none_waiting u (omega arith));
  keeps = w;
}
start_loop-IsStarted (suc rounds) idle i u w few = elim (Bool-cases (tx_empty u)) [
  | inl none_left ↦
      let e : u.tx_w ≡ u.tx_r = ground arith in
      let r = w.r_small in
      rw none_left
        (record { in_order = refl; stops = inl (none_waiting u (omega arith)); keeps = w })
  | inr some_left ↦
      let (w', more, one) = after_first_lem u w (ground arith) in
      let ih = start_loop-IsStarted rounds idle (i + 1) (after_first u) w' (omega (arith, one)) in
      elim (Bool-cases (idle i)) [
        | inr busy ↦
            let here : i + 0 ≡ i = omega arith in
            rw (some_left, busy)
              (record { in_order = refl; stops = inr (ap idle here ∙ busy); keeps = w })
        | inl free ↦
            let sent = (start_loop rounds idle (i + 1) (after_first u)).0 in
            let at : i + suc (length sent) ≡ i + 1 + length sent = omega arith in
            rw (some_left, free)
              (record {
                in_order = ap (λ xs. u.tx_buf_at (u.tx_r % 32) ∷ xs) ih.in_order ∙ sym more;
                stops = elim ih.stops [ inl gone ↦ inl gone | inr busy ↦ inr (ap idle at ∙ busy) ];
                keeps = ih.keeps;
              })
      ]
]

-- A character put into a buffer that is not full is the last of the queue.
buffer_char_lem :
    (u : Uart) (c : ℕ)
    → IsUart u
    → tx_full u ≡ false
    → IsUart (buffer_char u c) × (waiting (buffer_char u c) ≡ waiting u ++ ((c % 256) ∷ []))
unfolding buffer_char
buffer_char_lem u c w room =
    let a = w.w_small in
    let b = w.r_small in
    let f = w.fits in
    let apart : u.tx_w ≢ (u.tx_r + 32) % 2 ^ 64 = ground arith in
    let lt : tx_count u < 32 = omega arith in
    let one : tx_count (buffer_char u c) ≡ suc (tx_count u) = omega arith in
    let place : u.tx_w % 32 ≡ (u.tx_r + tx_count u) % 32 = omega arith in
    let last : store_byte u.tx_buf_at (u.tx_w % 32) (c % 256) ((u.tx_r + tx_count u) % 32)
        ≡ c % 256 =
      ground arith in
    (
      record { w_small = omega arith; r_small = b; fits = omega (arith, one, lt) },
      ap (λ k. items 32 k (buffer_char u c).tx_buf_at u.tx_r) one
          ∙ items-snoc 32 (tx_count u) (buffer_char u c).tx_buf_at u.tx_r
          ∙ ap₂ (λ xs x. xs ++ (x ∷ []))
              (items_kept 32 (tx_count u) u.tx_buf_at u.tx_r (u.tx_w % 32) (c % 256)
                (λ j h e. absurd (omega (arith, place, lt))))
              last,
    )

pub uartstart-IsStarted :
    (idle : ℕ → Bool) (u : Uart) → IsUart u → IsStarted idle 0 (waiting u) (uartstart idle u)
unfolding uartstart
uartstart-IsStarted idle u w = start_loop-IsStarted (tx_count u) idle 0 u w (omega arith)

-- How a run of `uartputc` of `c` ends on a buffer.
pub PutEnds : Bool → (ℕ → Bool) → Uart → ℕ → PutEnd → Uart → Type 0
PutEnds panicked idle u c (puts sent) u' =
    IsStarted idle 0 (waiting u ++ ((c % 256) ∷ [])) (sent, u')
PutEnds panicked idle u c sleeps u' = (u' ≡ u) × (tx_count u ≡ 32)
PutEnds panicked idle u c spins u' = (u' ≡ u) × (panicked ≡ true)

-- On a buffer in order, uartputc puts the character behind those that wait and writes the first of
-- them to the device, in order, until none is left or the register is not free; it sleeps only on a
-- buffer of 32 characters, and spins only after a panic, with the buffer left alone.
pub uartputc-PutEnds :
    (panicked : Bool) (idle : ℕ → Bool) (u : Uart) (c : ℕ)
    → IsUart u
    → PutEnds panicked idle u c (uartputc panicked idle u c).0 (uartputc panicked idle u c).1
unfolding uartputc PutEnds
uartputc-PutEnds panicked idle u c w =
    let a = w.w_small in
    let b = w.r_small in
    elim (Bool-cases panicked) [
      | inl dead ↦ rw dead (refl, refl)
      | inr alive ↦ elim (Bool-cases (tx_full u)) [
        | inl full ↦
            let e : u.tx_w ≡ (u.tx_r + 32) % 2 ^ 64 = ground arith in
            rw (alive, full) (refl, omega arith)
        | inr room ↦
            let (w', longer) = buffer_char_lem u c w room in
            let r = uartstart-IsStarted idle (buffer_char u c) w' in
            rw (alive, room)
              (record { in_order = r.in_order ∙ longer; stops = r.stops; keeps = r.keeps })
      ]
    ]

-- what the kernel does with the buffer, one run after the other
pub data Event : Type 0 where
  put_event : Bool → (ℕ → Bool) → ℕ → Event
  start_event : (ℕ → Bool) → Event

abbrev pub accepted : PutEnd → ℕ → List ℕ
accepted (puts sent) c = (c % 256) ∷ []
accepted sleeps c = []
accepted spins c = []

abbrev pub sent_by : PutEnd → List ℕ
sent_by (puts sent) = sent
sent_by sleeps = []
sent_by spins = []

-- the characters that the runs accept, those that they write to the device, and the buffer
unfoldable pub run : List Event → Uart → List ℕ × List ℕ × Uart
run [] u = ([], [], u)
run (put_event panicked idle c ∷ es) u =
    let r = uartputc panicked idle u c in
    let rest = run es r.1 in (accepted r.0 c ++ rest.0, sent_by r.0 ++ rest.1, rest.2)
run (start_event idle ∷ es) u =
    let r = uartstart idle u in let rest = run es r.1 in (rest.0, r.0 ++ rest.1, rest.2)

-- One run, before the others: what was sent, what waits and what was accepted.
then_rest :
    (q0 q1 q2 s0 s1 a0 a1 : List ℕ)
    → s0 ++ q1 ≡ q0 ++ a0
    → s1 ++ q2 ≡ q1 ++ a1
    → (s0 ++ s1) ++ q2 ≡ q0 ++ (a0 ++ a1)
then_rest q0 q1 q2 s0 s1 a0 a1 e f =
    append_assoc s0 s1 q2
    ∙ ap (λ l. s0 ++ l) f
    ∙ sym (append_assoc s0 q1 a1)
    ∙ ap (λ l. l ++ a1) e
    ∙ append_assoc q0 a0 a1

put_queue :
    (panicked : Bool) (idle : ℕ → Bool) (u : Uart) (c : ℕ) (end : PutEnd) (u' : Uart)
    → IsUart u
    → PutEnds panicked idle u c end u'
    → IsUart u' × (sent_by end ++ waiting u' ≡ waiting u ++ accepted end c)
unfolding PutEnds
put_queue panicked idle u c (puts sent) u' w r = (r.keeps, r.in_order)
put_queue panicked idle u c sleeps u' w (same, full) =
    (subst IsUart (sym same) w, ap waiting same ∙ sym (append_nil (waiting u)))
put_queue panicked idle u c spins u' w (same, dead) =
    (subst IsUart (sym same) w, ap waiting same ∙ sym (append_nil (waiting u)))

-- Over any runs of uartputc and uartstart from a buffer in order, the buffer stays in order, and
-- the characters written to the device, with those that still wait behind them, are those that
-- waited with those accepted, each cut to a char, behind them: none is lost, made up or passed by
-- another.
pub run_fifo :
    (es : List Event) (u : Uart)
    → IsUart u
    → IsUart (run es u).2 × ((run es u).1 ++ waiting (run es u).2 ≡ waiting u ++ (run es u).0)
unfolding run
run_fifo [] u w = (w, sym (append_nil (waiting u)))
run_fifo (put_event panicked idle c ∷ es) u w =
    let r = uartputc panicked idle u c in
    let (w1, queue) =
      put_queue panicked idle u c r.0 r.1 w (uartputc-PutEnds panicked idle u c w) in
    let (w2, rest) = run_fifo es r.1 w1 in
    let t = run es r.1 in
    (
      w2,
      then_rest (waiting u) (waiting r.1) (waiting t.2) (sent_by r.0) t.1 (accepted r.0 c) t.0 queue
          rest,
    )
run_fifo (start_event idle ∷ es) u w =
    let r = uartstart idle u in
    let st = uartstart-IsStarted idle u w in
    let (w2, rest) = run_fifo es r.1 st.keeps in
    let t = run es r.1 in
    (
      w2,
      then_rest (waiting u) (waiting r.1) (waiting t.2) r.0 t.1 [] t.0
          (st.in_order ∙ sym (append_nil (waiting u))) rest,
    )
