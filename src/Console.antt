-- ===== src/Console.antt =====
-- kernel/console.c: the line discipline of the console. `consoleintr` is one run of the handler,
-- `consoleread` one run from when `cons.lock` is taken to when it is given up, by a return or by
-- `sleep`; `wake` runs the sleeper on. What `killed` and `either_copyout` answer is an argument.
pub mod Edit
pub mod View
mod Kill
pub mod Typing
mod Reading
mod Typed
mod Line
mod Tests
use oshard.Common.{
  ℕ, zero, suc, ◌+◌, ◌-◌, ◌%◌, ◌^◌, Bool, true, false, not, ◌&&◌, ◌||◌, List, [], ◌∷◌, ◌++◌, Option,
  none, some, ◌==◌, ltb, if◌then◌else◌, store_byte,
}

-- `cons`: the 128 bytes of `buf`, of which only those below 128 are used here, and the three indices
pub record Console : Type 0 where
  pub buf_at : ℕ → ℕ
  pub read_index : ℕ
  pub write_index : ℕ
  pub edit_index : ℕ

-- `BACKSPACE` and the control characters
abbrev pub backspace : ℕ
backspace = 256

abbrev pub ctrl_d : ℕ
ctrl_d = 4

abbrev pub ctrl_h : ℕ
ctrl_h = 8

abbrev pub line_feed : ℕ
line_feed = 10

abbrev pub carriage_return : ℕ
carriage_return = 13

abbrev pub ctrl_p : ℕ
ctrl_p = 16

abbrev pub ctrl_u : ℕ
ctrl_u = 21

abbrev pub delete_key : ℕ
delete_key = 127

-- the characters that `consputc` hands to `uartputc_sync`
unfoldable pub consputc : ℕ → List ℕ
consputc c = if c == backspace then ctrl_h ∷ 32 ∷ ctrl_h ∷ [] else c ∷ []

-- What a run of the handler did: the console after it, the characters echoed, and whether it woke
-- the readers and printed the process list.
pub record Handled : Type 0 where
  pub console : Console
  pub echo : List ℕ
  pub woken : Bool
  pub dumped : Bool

-- `cons.e--`
abbrev pub rub : Console → Console
rub s = record s { edit_index = (s.edit_index + 2 ^ 32 - 1) % 2 ^ 32 }

-- the condition of the loop under `C('U')`
abbrev pub kills : Console → Bool
kills s =
    not (s.edit_index == s.write_index)
    && not (s.buf_at ((s.edit_index + 2 ^ 32 - 1) % 2 ^ 32 % 128) == line_feed)

-- The loop under `C('U')`, in `rounds` rounds at most.
unfoldable pub kill_line : ℕ → Console → Console × List ℕ
unfolding consputc
kill_line zero s = (s, [])
kill_line (suc rounds) s =
    let rest = kill_line rounds (rub s) in
    if kills s then (rest.0, consputc backspace ++ rest.1) else (s, [])

-- `cons.e - cons.r`
abbrev pub held_count : Console → ℕ
held_count s = (s.edit_index + 2 ^ 32 - s.read_index) % 2 ^ 32

-- `cons.buf[cons.e++ % INPUT_BUF_SIZE] = c`
unfoldable pub store_char : Console → ℕ → Console
store_char s c = record s {
  buf_at = store_byte s.buf_at (s.edit_index % 128) c;
  edit_index = (s.edit_index + 1) % 2 ^ 32;
}

-- the `default` of the switch for a character `c` that is kept
unfoldable pub take_char : Console → ℕ → Handled
unfolding consputc store_char
take_char s c =
    let s' = store_char s c in
    let ends = c == line_feed || c == ctrl_d || held_count s' == 128 in
    record {
      console = if ends then record s' { write_index = s'.edit_index } else s';
      echo = consputc c;
      woken = ends;
      dumped = false;
    }

abbrev pub unechoed : Console → Handled
unechoed s = record { console = s; echo = []; woken = false; dumped = false }

-- The rounds of the loop under `C('U')` are as many as `cons.e` is past `cons.w`.
unfoldable pub consoleintr : Console → ℕ → Handled
unfolding kill_line take_char consputc
consoleintr s c =
    if c == ctrl_p
    then record { console = s; echo = []; woken = false; dumped = true }
    else if c == ctrl_u
    then (let killed = kill_line ((s.edit_index + 2 ^ 32 - s.write_index) % 2 ^ 32) s in
        record { console = killed.0; echo = killed.1; woken = false; dumped = false })
    else if c == ctrl_h || c == delete_key
    then (if s.edit_index == s.write_index
        then unechoed s
        else record { console = rub s; echo = consputc backspace; woken = false; dumped = false })
    else if not (c == 0) && ltb (held_count s) 128
    then take_char s (if c == carriage_return then line_feed else c)
    else unechoed s

-- How a run of `consoleread` ends: with a result, with -1, or asleep with `n` bytes to go.
pub data ReadEnd : Type 0 where
  returns : ℕ → ReadEnd
  fails : ReadEnd
  sleeps : ℕ → ReadEnd

-- `cons.r++`
abbrev pub past_char : Console → Console
past_char s = record s { read_index = (s.read_index + 1) % 2 ^ 32 }

-- `cons.r--`
abbrev pub unread : Console → Console
unread s = record s { read_index = (s.read_index + 2 ^ 32 - 1) % 2 ^ 32 }

-- The loop `while (n > 0)` of a reader who asked for `target` bytes: the bytes that reached its
-- buffer in this run, and the console. `copyout i c` tells whether byte `c` could be put at `dst + i`.
unfoldable pub wake : ℕ → ℕ → Bool → (ℕ → ℕ → Bool) → Console → ReadEnd × List ℕ × Console
wake zero target killed copyout s = (returns target, [], s)
wake (suc n) target killed copyout s =
    let c = s.buf_at (s.read_index % 128) in
    let rest = wake n target killed copyout (past_char s) in
    if s.read_index == s.write_index
    then (if killed then (fails, [], s) else (sleeps (suc n), [], s))
    else if c == ctrl_d
    then (
      returns (target - suc n),
      [],
      if ltb (suc n) target then unread (past_char s) else past_char s,
    )
    else if not (copyout (target - suc n) c)
    then (returns (target - suc n), [], past_char s)
    else if c == line_feed
    then (returns (target - n), c ∷ [], past_char s)
    else (rest.0, c ∷ rest.1, rest.2)

unfoldable pub consoleread : Bool → (ℕ → ℕ → Bool) → Console → ℕ → ReadEnd × List ℕ × Console
unfolding wake
consoleread killed copyout s n = wake n n killed copyout s

-- `consolewrite` from byte `i` on: the number of bytes written, and those given to `uartputc`
unfoldable pub consolewrite_loop : ℕ → (ℕ → Option ℕ) → ℕ → ℕ × List ℕ
consolewrite_loop zero copyin i = (i, [])
consolewrite_loop (suc rounds) copyin i = elim (copyin i) [
  | none ↦ (i, [])
  | some c ↦ (let rest = consolewrite_loop rounds copyin (i + 1) in (rest.0, c ∷ rest.1))
]

unfoldable pub consolewrite : (ℕ → Option ℕ) → ℕ → ℕ × List ℕ
unfolding consolewrite_loop
consolewrite copyin n = consolewrite_loop n copyin 0
