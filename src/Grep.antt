-- ===== src/Grep.antt =====
-- user/grep.c: the matcher of patterns with `^`, `.`, `*` and `$`, and the reading of lines. A
-- 0-terminated string is the list of the bytes before its 0.
pub mod Pattern
pub mod Correct
mod Tests
use oshard.Common.{
  ℕ, zero, suc, ◌+◌, ◌-◌, Bool, true, false, ◌||◌, List, [], ◌∷◌, ◌++◌, ◌-◌, ◌==◌, if◌then◌else◌,
  length, take, drop, min,
}

abbrev pub caret : ℕ
caret = 94

abbrev pub dollar : ℕ
dollar = 36

abbrev pub dot : ℕ
dot = 46

abbrev pub star : ℕ
star = 42

abbrev pub newline : ℕ
newline = 10

-- `re[0] == '.' || re[0] == *text`
abbrev pub accepts : ℕ → ℕ → Bool
accepts c x = (c == dot) || (c == x)

abbrev pub is_end : List ℕ → Bool
is_end [] = true
is_end (x ∷ xs) = false

-- The loop of `matchstar`, where `matchhere` is the call of `matchhere` on the rest of the pattern.
unfoldable pub matchstar : (List ℕ → Bool) → ℕ → List ℕ → Bool
matchstar matchhere c [] = matchhere []
matchstar matchhere c (x ∷ text) =
    let rest = matchstar matchhere c text in
    if matchhere (x ∷ text) then true else if accepts c x then rest else false

-- one byte of the text, and the rest of the pattern on the rest of it
abbrev pub match_byte : (List ℕ → Bool) → ℕ → List ℕ → Bool
match_byte matchhere c [] = false
match_byte matchhere c (x ∷ text) = let rest = matchhere text in if accepts c x then rest else false

unfoldable pub matchhere : List ℕ → List ℕ → Bool
unfolding matchstar
matchhere [] text = true
matchhere (c ∷ []) text = if c == dollar then is_end text else match_byte (matchhere []) c text
matchhere (c ∷ d ∷ re) text =
    let starred = matchstar (matchhere re) c text in
    let next = match_byte (matchhere (d ∷ re)) c text in if d == star then starred else next

-- the `do` loop of `match`
unfoldable pub search_text : List ℕ → List ℕ → Bool
unfolding matchhere
search_text re [] = matchhere re []
search_text re (x ∷ text) =
    let rest = search_text re text in if matchhere re (x ∷ text) then true else rest

unfoldable pub match : List ℕ → List ℕ → Bool
unfolding matchhere search_text
match [] text = search_text [] text
match (c ∷ re) text = if c == caret then matchhere re text else search_text (c ∷ re) text

-- The inner loop of `grep` from the line `line` on, of which `strchr` has passed these bytes: the
-- lines that are written, and the bytes that `memmove` keeps. A 0 byte stops `strchr`.
unfoldable pub print_lines : List ℕ → List ℕ → List ℕ → List (List ℕ) × List ℕ
unfolding match
print_lines re line [] = ([], line)
print_lines re line (x ∷ text) =
    let (out, left) = print_lines re [] text in
    let (more, kept) = print_lines re (line ++ (x ∷ [])) text in
    if x == 0
    then ([], line ++ (x ∷ text))
    else if x == newline
    then ((if match re line then line ∷ out else out), left)
    else (more, kept)

-- The outer loop: `m` bytes are in the buffer of 1024, the file still has `input`, and `reads` says
-- how many bytes each `read` gives at most. The lines written, without their newlines.
unfoldable pub grep : List ℕ → List ℕ → List ℕ → List ℕ → List (List ℕ)
unfolding print_lines
grep re [] m input = []
grep re (n ∷ reads) m input =
    let k = min n (min (1024 - length m - 1) (length input)) in
    let (out, left) = print_lines re [] (m ++ take k input) in
    let more = grep re reads left (drop k input) in if k == 0 then [] else out ++ more
