-- ===== src/Fs/Path/Split.antt =====
-- `skipelem` of kernel/fs.c against the elements of a path.
use oshard.Common.{
  ℕ, ◌≡◌, refl, ap, sym, subst, ◌∙◌, false, List, [], ◌∷◌, Option, none, some, ◌==◌, if◌then◌else◌,
  Bool-cases, ◌⊎◌, inl, inr, take,
}
use oshard.Fs.Path.{dirsiz, slash, skip_slashes, span_elem, next_elem, skipelem}

abbrev onto_first : ℕ → List (List ℕ) → List (List ℕ)
onto_first b [] = (b ∷ []) ∷ []
onto_first b (w ∷ ws) = (b ∷ w) ∷ ws

-- what stands between the slashes, empty pieces included
unfoldable pub pieces : List ℕ → List (List ℕ)
pieces [] = [] ∷ []
pieces (b ∷ path) = let rest = pieces path in if b == slash then [] ∷ rest else onto_first b rest

unfoldable pub nonempty : List (List ℕ) → List (List ℕ)
nonempty [] = []
nonempty ([] ∷ ws) = nonempty ws
nonempty ((b ∷ w) ∷ ws) = (b ∷ w) ∷ nonempty ws

-- the elements of a path
abbrev pub elems : List ℕ → List (List ℕ)
elems path = nonempty (pieces path)

-- the first element, cut to DIRSIZ bytes, with a path of the others; or nothing when there is none
abbrev pub SplitsOff : List (List ℕ) → Option (List ℕ × List ℕ) → Type 0
SplitsOff [] split = split ≡ none
SplitsOff (elem ∷ others) split =
    (rest : List ℕ) × (split ≡ some (take dirsiz elem, rest)) × (elems rest ≡ others)

elems-skip_slashes : (path : List ℕ) → elems (skip_slashes path) ≡ elems path
unfolding pieces nonempty skip_slashes
elems-skip_slashes [] = refl
elems-skip_slashes (b ∷ path) = elim (Bool-cases (b == slash)) [
  | inl t ↦ rw t (elems-skip_slashes path)
  | inr f ↦ rw (f, f)
]

-- the pieces after the first, when the first ends where `rest` begins
abbrev after : List ℕ → List (List ℕ)
after [] = []
after (b ∷ rest) = pieces rest

pieces-span_elem : (path : List ℕ) → pieces path ≡ (span_elem path).0 ∷ after (span_elem path).1
unfolding pieces span_elem
pieces-span_elem [] = refl
pieces-span_elem (b ∷ path) = elim (Bool-cases (b == slash)) [
  | inl t ↦ rw t
  | inr f ↦ rw f (ap (onto_first b) (pieces-span_elem path))
]

elems-span_elem : (path : List ℕ) → elems (span_elem path).1 ≡ nonempty (after (span_elem path).1)
unfolding pieces nonempty span_elem
elems-span_elem [] = refl
elems-span_elem (b ∷ path) = elim (Bool-cases (b == slash)) [
  | inl t ↦ rw (t, t)
  | inr f ↦ rw f (elems-span_elem path)
]

elems_first :
    (b : ℕ) (path : List ℕ)
    → (b == slash) ≡ false
    → elems (b ∷ path) ≡ (b ∷ (span_elem path).0) ∷ nonempty (after (span_elem path).1)
unfolding pieces nonempty
elems_first b path other = rw other (ap (λ ws. nonempty (onto_first b ws)) (pieces-span_elem path))

next_elem_lem :
    (b : ℕ) (path : List ℕ)
    → (b == slash) ≡ false
    → next_elem (b ∷ path)
      ≡ some (take dirsiz (b ∷ (span_elem path).0), skip_slashes (span_elem path).1)
unfolding span_elem
next_elem_lem b path other = rw other

-- A path that does not begin with a slash begins with an element.
SplitsOff-next_elem :
    (b : ℕ) (path : List ℕ)
    → (b == slash) ≡ false
    → SplitsOff (elems (b ∷ path)) (next_elem (b ∷ path))
SplitsOff-next_elem b path other =
    subst (λ ws. SplitsOff ws (next_elem (b ∷ path))) (sym (elems_first b path other))
      (
        skip_slashes (span_elem path).1,
        next_elem_lem b path other,
        elems-skip_slashes (span_elem path).1 ∙ elems-span_elem path,
      )

SplitsOff-nil : SplitsOff (elems []) (next_elem [])
unfolding pieces nonempty
SplitsOff-nil = refl

skip_slashes-cases :
    (path : List ℕ)
    → (skip_slashes path ≡ [])
      ⊎ ((b : ℕ) × (rest : List ℕ) × (skip_slashes path ≡ b ∷ rest) × ((b == slash) ≡ false))
unfolding skip_slashes
skip_slashes-cases [] = inl refl
skip_slashes-cases (b ∷ path) = elim (Bool-cases (b == slash)) [
  | inl t ↦ rw t (skip_slashes-cases path)
  | inr f ↦ inr (b, path, rw f, f)
]

-- skipelem gives the first of the elements of a path between its slashes, cut to DIRSIZ bytes, with
-- a path of the other elements, or nothing when the path has no element.
pub skipelem-SplitsOff : (path : List ℕ) → SplitsOff (elems path) (skipelem path)
unfolding skipelem
skipelem-SplitsOff path = elim (skip_slashes-cases path) [
  | inl e ↦
      subst (λ ws. SplitsOff ws (next_elem (skip_slashes path))) (elems-skip_slashes path)
        (subst (λ p. SplitsOff (elems p) (next_elem p)) (sym e) SplitsOff-nil)
  | inr (b, rest, e, other) ↦
      subst (λ ws. SplitsOff ws (next_elem (skip_slashes path))) (elems-skip_slashes path)
        (subst (λ p. SplitsOff (elems p) (next_elem p)) (sym e) (SplitsOff-next_elem b rest other))
]
