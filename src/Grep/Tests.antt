-- ===== src/Grep/Tests.antt =====
-- Runs of user/grep.c, and `match_iff` at a pattern with `^` and `*`.
use oshard.Common.{ℕ, ◌≡◌, refl, ◌↔◌, true, false, List, [], ◌∷◌}
use oshard.Grep.{matchstar, matchhere, search_text, match, print_lines, grep}
use oshard.Grep.Pattern.{Means}
use oshard.Grep.Correct.{match_iff}

-- `^ab*.$`
abbrev pattern_text : List ℕ
pattern_text = 94 ∷ 97 ∷ 98 ∷ 42 ∷ 46 ∷ 36 ∷ []

found : match pattern_text (97 ∷ 98 ∷ 98 ∷ 99 ∷ []) ≡ true
unfolding match search_text matchhere matchstar
found = refl

missed : match pattern_text (98 ∷ 97 ∷ 98 ∷ []) ≡ false
unfolding match search_text matchhere matchstar
missed = refl

-- `b` in "ab\nca\nbb\n" read in pieces of two bytes
printed :
    grep (98 ∷ []) (2 ∷ 2 ∷ 2 ∷ 2 ∷ 2 ∷ 2 ∷ []) [] (97 ∷ 98 ∷ 10 ∷ 99 ∷ 97 ∷ 10 ∷ 98 ∷ 98 ∷ 10 ∷ [])
    ≡ (97 ∷ 98 ∷ []) ∷ (98 ∷ 98 ∷ []) ∷ []
unfolding grep print_lines match search_text matchhere
printed = refl

match_iff_example : (match pattern_text (97 ∷ 120 ∷ []) ≡ true) ↔ Means pattern_text (97 ∷ 120 ∷ [])
match_iff_example = match_iff pattern_text (97 ∷ 120 ∷ [])
