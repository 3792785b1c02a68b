-- ===== src/Grep/Correct.antt =====
-- `match` of user/grep.c finds a pattern exactly where it occurs.
use oshard.Common.{
  append_assoc, ℕ, ◌≡◌, refl, ap, sym, ◌∙◌, ◌↔◌, inl, inr, Bool, true, false, false≢true, List, [],
  ◌∷◌, ◌++◌, ◌==◌, if◌then◌else◌, Bool-cases,
}
use oshard.Grep.{
  caret, dollar, star, accepts, is_end, matchstar, match_byte, matchhere, search_text, match,
}
use oshard.Grep.Pattern.{
  Item, one, many, parse_items, AllAccepted, Spells, StartsWith, OccursIn, Means,
}

-- The matcher on items.
run : List Item → Bool → List ℕ → Bool
run [] anchored text = if anchored then is_end text else true
run (one c ∷ items) anchored text = match_byte (run items anchored) c text
run (many c ∷ items) anchored text = matchstar (run items anchored) c text

matchstar_cong :
    (m m' : List ℕ → Bool) (c : ℕ) (text : List ℕ)
    → ((t : List ℕ) → m t ≡ m' t)
    → matchstar m c text ≡ matchstar m' c text
unfolding matchstar
matchstar_cong m m' c [] e = e []
matchstar_cong m m' c (x ∷ text) e = rw (e (x ∷ text), matchstar_cong m m' c text e)

match_byte_cong :
    (m m' : List ℕ → Bool) (c : ℕ) (text : List ℕ)
    → ((t : List ℕ) → m t ≡ m' t)
    → match_byte m c text ≡ match_byte m' c text
match_byte_cong m m' c [] e = refl
match_byte_cong m m' c (x ∷ text) e = rw (e text)

matchhere-run :
    (re text : List ℕ) → matchhere re text ≡ run (parse_items re).0 (parse_items re).1 text
unfolding matchhere parse_items run
matchhere-run [] text = refl
matchhere-run (c ∷ []) text = elim (Bool-cases (c == dollar)) [
  | inl e ↦ rw e
  | inr e ↦ rw e (match_byte_cong (matchhere []) (run [] false) c text λ t. refl)
]
matchhere-run (c ∷ d ∷ re) text = elim (Bool-cases (d == star)) [
  | inl e ↦ rw e (
      matchstar_cong (matchhere re) (run (parse_items re).0 (parse_items re).1) c text
        (matchhere-run re))
  | inr e ↦ rw e (
      match_byte_cong (matchhere (d ∷ re)) (run (parse_items (d ∷ re)).0 (parse_items (d ∷ re)).1) c
        text (matchhere-run (d ∷ re)))
]

-- Where `matchstar` succeeds, the text starts with accepted bytes and the rest matches.
record Repeats (m : List ℕ → Bool) (c : ℕ) (text : List ℕ) : Type 0 where
  run_of : List ℕ
  rest : List ℕ
  split : text ≡ run_of ++ rest
  accepted : AllAccepted c run_of
  matched : m rest ≡ true

matchstar-Repeats :
    (m : List ℕ → Bool) (c : ℕ) (text : List ℕ) → matchstar m c text ≡ true → Repeats m c text
unfolding matchstar AllAccepted
matchstar-Repeats m c [] h = record {
  run_of = [];
  rest = [];
  split = refl;
  accepted = tt;
  matched = h;
}
matchstar-Repeats m c (x ∷ text) h = elim (Bool-cases (m (x ∷ text))) [
  | inl now ↦ record { run_of = []; rest = x ∷ text; split = refl; accepted = tt; matched = now }
  | inr later ↦ elim (Bool-cases (accepts c x)) [
    | inl a ↦
        let r = matchstar-Repeats m c text (rw (later, a) at h) in
        record {
          run_of = x ∷ r.run_of;
          rest = r.rest;
          split = ap (λ t. x ∷ t) r.split;
          accepted = (a, r.accepted);
          matched = r.matched;
        }
    | inr a ↦ absurd (false≢true (rw (later, a) at h))
  ]
]

Repeats-matchstar :
    (m : List ℕ → Bool) (c : ℕ) (u v : List ℕ)
    → AllAccepted c u
    → m v ≡ true
    → matchstar m c (u ++ v) ≡ true
unfolding matchstar AllAccepted
Repeats-matchstar m c [] [] a h = h
Repeats-matchstar m c [] (x ∷ v) a h = rw h
Repeats-matchstar m c (x ∷ u) v (here, a) h = elim (Bool-cases (m (x ∷ (u ++ v)))) [
  | inl now ↦ rw now
  | inr later ↦ rw (later, here) (Repeats-matchstar m c u v a h)
]

run-StartsWith :
    (items : List Item) (anchored : Bool) (text : List ℕ)
    → run items anchored text ≡ true
    → StartsWith items anchored text
unfolding run Spells
run-StartsWith [] true [] h = record {
  word = [];
  after = [];
  split = refl;
  spelt = refl;
  at_end = λ e. refl;
}
run-StartsWith [] true (x ∷ text) h = absurd (false≢true h)
run-StartsWith [] false text h = record {
  word = [];
  after = text;
  split = refl;
  spelt = refl;
  at_end = λ e. absurd (false≢true e);
}
run-StartsWith (one c ∷ items) anchored [] h = absurd (false≢true h)
run-StartsWith (one c ∷ items) anchored (x ∷ text) h = elim (Bool-cases (accepts c x)) [
  | inl a ↦
      let r = run-StartsWith items anchored text (rw a at h) in
      record {
        word = x ∷ r.word;
        after = r.after;
        split = ap (λ t. x ∷ t) r.split;
        spelt = (x, r.word, refl, a, r.spelt);
        at_end = r.at_end;
      }
  | inr a ↦ absurd (false≢true (rw a at h))
]
run-StartsWith (many c ∷ items) anchored text h =
    let s = matchstar-Repeats (run items anchored) c text h in
    let r = run-StartsWith items anchored s.rest s.matched in
    record {
      word = s.run_of ++ r.word;
      after = r.after;
      split =
          s.split ∙ ap (λ t. s.run_of ++ t) r.split ∙ sym (append_assoc s.run_of r.word r.after);
      spelt = (s.run_of, r.word, refl, s.accepted, r.spelt);
      at_end = r.at_end;
    }

spelt-run :
    (items : List Item) (anchored : Bool) (word after : List ℕ)
    → Spells items word
    → (anchored ≡ true → after ≡ [])
    → run items anchored (word ++ after) ≡ true
unfolding run Spells
spelt-run [] true word after e last = rw (e, last refl)
spelt-run [] false word after e last = refl
spelt-run (one c ∷ items) anchored word after (x, v, e, a, s) last =
    rw (e, a) (spelt-run items anchored v after s last)
spelt-run (many c ∷ items) anchored word after (u, v, e, a, s) last =
    rw (e, append_assoc u v after)
      (Repeats-matchstar (run items anchored) c u (v ++ after) a
        (spelt-run items anchored v after s last))

matchhere_iff :
    (re text : List ℕ)
    → (matchhere re text ≡ true) ↔ StartsWith (parse_items re).0 (parse_items re).1 text
matchhere_iff re text = (
  λ h. run-StartsWith (parse_items re).0 (parse_items re).1 text (sym (matchhere-run re text) ∙ h),
  λ s.
      matchhere-run re text
      ∙ ap (run (parse_items re).0 (parse_items re).1) s.split
      ∙ spelt-run (parse_items re).0 (parse_items re).1 s.word s.after s.spelt s.at_end,
)

search_text-OccursIn :
    (re text : List ℕ)
    → search_text re text ≡ true
    → OccursIn (parse_items re).0 (parse_items re).1 text
unfolding search_text
search_text-OccursIn re [] h = record {
  before = [];
  rest = [];
  split = refl;
  found = (matchhere_iff re []).0 h;
}
search_text-OccursIn re (x ∷ text) h = elim (Bool-cases (matchhere re (x ∷ text))) [
  | inl now ↦ record {
    before = [];
    rest = x ∷ text;
    split = refl;
    found = (matchhere_iff re (x ∷ text)).0 now;
  }
  | inr later ↦
      let r = search_text-OccursIn re text (rw later at h) in
      record {
        before = x ∷ r.before;
        rest = r.rest;
        split = ap (λ t. x ∷ t) r.split;
        found = r.found;
      }
]

found-search_text :
    (re before rest : List ℕ) → matchhere re rest ≡ true → search_text re (before ++ rest) ≡ true
unfolding search_text
found-search_text re [] [] h = h
found-search_text re [] (x ∷ rest) h = rw h
found-search_text re (x ∷ before) rest h = elim (Bool-cases (matchhere re (x ∷ (before ++ rest)))) [
  | inl now ↦ rw now
  | inr later ↦ rw later (found-search_text re before rest h)
]

search_text_iff :
    (re text : List ℕ)
    → (search_text re text ≡ true) ↔ OccursIn (parse_items re).0 (parse_items re).1 text
search_text_iff re text = (
  search_text-OccursIn re text,
  λ o.
      ap (search_text re) o.split
      ∙ found-search_text re o.before o.rest ((matchhere_iff re o.rest).1 o.found),
)

-- match finds a pattern in a text exactly when the pattern, parsed into items, occurs there: at the
-- start of the text when the pattern begins with ^, and up to its end when it ends in $.
pub match_iff : (re text : List ℕ) → (match re text ≡ true) ↔ Means re text
unfolding match Means
match_iff [] text = search_text_iff [] text
match_iff (c ∷ re) text = elim (Bool-cases (c == caret)) [
  | inl e ↦ rw e (matchhere_iff re text)
  | inr e ↦ rw e (search_text_iff (c ∷ re) text)
]
