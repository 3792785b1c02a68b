-- ===== src/Grep/Pattern.antt =====
-- What the patterns of user/grep.c mean: a pattern is parsed into items, and the items spell words.
use oshard.Common.{ℕ, ◌≡◌, Bool, true, false, List, [], ◌∷◌, ◌++◌, ◌==◌, if◌then◌else◌}
use oshard.Grep.{caret, dollar, star, accepts}

-- One byte, or any number of them.
pub data Item : Type 0 where
  one : ℕ → Item
  many : ℕ → Item

-- the items, and whether the pattern ends in `$`
unfoldable pub parse_items : List ℕ → List Item × Bool
parse_items [] = ([], false)
parse_items (c ∷ []) = if c == dollar then ([], true) else (one c ∷ [], false)
parse_items (c ∷ d ∷ re) =
    let (starred, e) = parse_items re in
    let (next, f) = parse_items (d ∷ re) in
    if d == star then (many c ∷ starred, e) else (one c ∷ next, f)

-- every byte of a word is one that `c` accepts
unfoldable pub AllAccepted : ℕ → List ℕ → Type 0
AllAccepted c [] = Unit
AllAccepted c (x ∷ xs) = (accepts c x ≡ true) × AllAccepted c xs

-- The items spell exactly the word.
unfoldable pub Spells : List Item → List ℕ → Type 0
unfolding AllAccepted
Spells [] w = w ≡ []
Spells (one c ∷ items) w =
    (x : ℕ) × (v : List ℕ) × (w ≡ x ∷ v) × (accepts c x ≡ true) × Spells items v
Spells (many c ∷ items) w =
    (u : List ℕ) × (v : List ℕ) × (w ≡ u ++ v) × AllAccepted c u × Spells items v

-- The items spell the first bytes of the text, or with `$` all of it.
pub record StartsWith (items : List Item) (anchored : Bool) (text : List ℕ) : Type 0 where
  pub word : List ℕ
  pub after : List ℕ
  pub split : text ≡ word ++ after
  pub spelt : Spells items word
  pub at_end : anchored ≡ true → after ≡ []

-- A pattern occurs in a text: at its start when it begins with `^`, and else anywhere.
pub record OccursIn (items : List Item) (anchored : Bool) (text : List ℕ) : Type 0 where
  pub before : List ℕ
  pub rest : List ℕ
  pub split : text ≡ before ++ rest
  pub found : StartsWith items anchored rest

unfoldable pub Means : List ℕ → List ℕ → Type 0
Means [] text = OccursIn (parse_items []).0 (parse_items []).1 text
Means (c ∷ re) text =
    if c == caret
    then StartsWith (parse_items re).0 (parse_items re).1 text
    else OccursIn (parse_items (c ∷ re)).0 (parse_items (c ∷ re)).1 text
