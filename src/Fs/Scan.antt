-- ===== src/Fs/Scan.antt =====
-- The search of `balloc` of kernel/fs.c through the free bit map.
use oshard.Common.{
  ℕ, zero, suc, ◌+◌, ◌-◌, ◌/◌, ◌%◌, ◌<◌, ◌≤◌, ◌≡◌, refl, ap, sym, subst, ◌∙◌, Bool, true, false,
  Option, none, some, arith, ◌==◌, ltb, if◌then◌else◌, Bool-cases, inl, inr,
}
use oshard.Fs.{bpb, Fs, bblock, is_free, scan_bits, scan_blocks, or_scan}

-- a result of the search: a block that is free, and each one before it is not
abbrev free_at : Fs → ℕ → ℕ → Bool
free_at fs b bi = is_free (fs.block (bblock fs b)) bi

abbrev BitsEnd : ℕ → Fs → ℕ → ℕ → Option (ℕ × ℕ) → Type 0
BitsEnd rounds fs b bi none =
    (y : ℕ) → bi ≤ y → y < bi + rounds → b + y < fs.sb.size → free_at fs b y ≡ false
BitsEnd rounds fs b bi (some (x, y)) =
    (x ≡ b) × (y < bi + rounds) × (x + y < fs.sb.size) × (free_at fs x y ≡ true)

later :
    (rounds : ℕ) (fs : Fs) (b bi : ℕ)
    → free_at fs b bi ≡ false
    → (found : Option (ℕ × ℕ)) → BitsEnd rounds fs b (bi + 1) found
    → BitsEnd (suc rounds) fs b bi found
later rounds fs b bi taken none end = λ y l h i. elim (Bool-cases (y == bi)) [
  | inl t ↦ let e : bi ≡ y = ground arith in subst (λ z. free_at fs b z ≡ false) e taken
  | inr f ↦ end y (ground arith) (omega arith) i
]
later rounds fs b bi taken (some (x, y)) (e, h, i, free) = (e, omega arith, i, free)

scan_bits-BitsEnd :
    (rounds : ℕ) (fs : Fs) (b bi : ℕ) → BitsEnd rounds fs b bi (scan_bits rounds fs b bi)
unfolding scan_bits
scan_bits-BitsEnd zero fs b bi = λ y l h. absurd (omega arith)
scan_bits-BitsEnd (suc rounds) fs b bi = elim (Bool-cases (ltb (b + bi) fs.sb.size)) [
  | inr past ↦ rw past (λ y l h i. absurd (ground arith))
  | inl within ↦ elim (Bool-cases (free_at fs b bi)) [
    | inl free ↦ rw (within, free) ((refl, omega arith, ground arith, free))
    | inr taken ↦
        rw (within, taken)
          (later rounds fs b bi taken (scan_bits rounds fs b (bi + 1))
            (scan_bits-BitsEnd rounds fs b (bi + 1)))
  ]
]

-- whether the map has the block free
abbrev pub is_free_block : Fs → ℕ → Bool
is_free_block fs n = is_free (fs.block (bblock fs n)) (n % bpb)

-- How the outer loop ends from block `b` on.
abbrev pub ScanEnds : Fs → ℕ → Option (ℕ × ℕ) → Type 0
ScanEnds fs b none = (n : ℕ) → b ≤ n → n < fs.sb.size → is_free_block fs n ≡ false
ScanEnds fs b (some (x, y)) =
    (x % bpb ≡ 0) × (y < bpb) × (x + y < fs.sb.size) × (is_free_block fs (x + y) ≡ true)

-- the bit of a block in the part of the map that begins with a block
free_at-eq : (fs : Fs) (b y : ℕ) → b % bpb ≡ 0 → y < bpb → free_at fs b y ≡ is_free_block fs (b + y)
free_at-eq fs b y m h =
    let q : b / bpb ≡ (b + y) / bpb = omega arith in
    let r : y ≡ (b + y) % bpb = omega arith in
    ap (λ k. is_free (fs.block (k + fs.sb.bmapstart)) y) q
    ∙ ap (λ j. is_free (fs.block (bblock fs (b + y))) j) r

either :
    (fs : Fs) (b : ℕ) (first rest : Option (ℕ × ℕ))
    → b % bpb ≡ 0
    → BitsEnd bpb fs b 0 first
    → ScanEnds fs (b + bpb) rest
    → ScanEnds fs b (or_scan first rest)
either fs b none none m end rest = λ n l i. elim (Bool-cases (ltb n (b + bpb))) [
  | inl here ↦
      let y : ℕ = n - b in
      let e : b + y ≡ n = ground arith in
      let h : y < bpb = ground arith in
      subst (λ z. is_free_block fs z ≡ false) e
        (sym (free_at-eq fs b y m h) ∙ end y (omega arith) h (ground arith))
  | inr there ↦ rest n (ground arith) i
]
either fs b none (some (x, y)) m end rest = rest
either fs b (some (x, y)) rest m (e, h, i, free) later_end =
    let m' : x % bpb ≡ 0 = ap (λ z. z % bpb) e ∙ m in
    (m', h, i, sym (free_at-eq fs x y m' h) ∙ free)

guarded :
    (fs : Fs) (b : ℕ) (t : Bool) (found : Option (ℕ × ℕ))
    → ltb b fs.sb.size ≡ t
    → ScanEnds fs b found
    → ScanEnds fs b (if t then found else none)
guarded fs b true found e end = end
guarded fs b false found e end = λ n l i. absurd (ground arith)

pub scan_blocks-ScanEnds :
    (rounds : ℕ) (fs : Fs) (b : ℕ)
    → b % bpb ≡ 0
    → fs.sb.size ≤ b + rounds
    → ScanEnds fs b (scan_blocks rounds fs b)
unfolding scan_blocks
scan_blocks-ScanEnds zero fs b m enough = λ n l i. absurd (omega arith)
scan_blocks-ScanEnds (suc rounds) fs b m enough = guarded fs b (ltb b fs.sb.size) _ refl (
    either fs b (scan_bits bpb fs b 0) (scan_blocks rounds fs (b + bpb)) m
      (scan_bits-BitsEnd bpb fs b 0)
      (scan_blocks-ScanEnds rounds fs (b + bpb) (omega arith) (omega arith)))
