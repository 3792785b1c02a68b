-- ===== src/Console/Kill.antt =====
-- The loop of kernel/console.c that kills a line.
use oshard.Common.{
  ℕ, zero, suc, ◌≤◌, ◌≡◌, ◌≢◌, refl, sym, ap₂, true, arith, ◌==◌, Bool-cases, inl, inr,
}
use oshard.Console.{Console, consputc, rub, kills, kill_line}
use oshard.Console.Edit.{line_count, IsConsole, rub_lem}
use oshard.Console.View.{rubs}

-- the console with its line gone
abbrev pub cleared : Console → Console
cleared s = record s { edit_index = s.write_index }

-- With a round for each character of the line, the whole line is killed.
pub kill_line_lem :
    (rounds : ℕ) (s : Console)
    → IsConsole s
    → line_count s ≤ rounds
    → kill_line rounds s ≡ (cleared s, rubs (line_count s))
unfolding kill_line consputc
kill_line_lem zero s w few =
    let b = w.write_small in
    let e = w.edit_small in
    let gone : s.edit_index ≡ s.write_index = omega arith in
    let none_left : line_count s ≡ 0 = omega arith in
    ap₂ (λ j k. (record s { edit_index = j }, rubs k)) gone (sym none_left)
kill_line_lem (suc rounds) s w few =
    let b = w.write_small in
    let e = w.edit_small in
    elim (Bool-cases (s.edit_index == s.write_index)) [
      | inl same ↦
          let gone : s.edit_index ≡ s.write_index = ground arith in
          let none_left : line_count s ≡ 0 = omega arith in
          rw same (ap₂ (λ j k. (record s { edit_index = j }, rubs k)) gone (sym none_left))
      | inr differ ↦
          let apart : s.edit_index ≢ s.write_index = ground arith in
          let (w', shorter, no_end, one) = rub_lem s w apart in
          let ih = kill_line_lem rounds (rub s) w' (omega (arith, one)) in
          let goes : kills s ≡ true = ground arith in rw (goes, ih, one) refl
    ]
