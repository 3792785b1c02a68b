-- ===== src/Buddy/Bits/Laws.antt =====
-- The bit arrays of kernel/buddy.c as sets of indices: what each write does to every bit.
use Prim.Native.Nat.{bit_and, bit_or, bit_xor}
use oshard.Common.{
  ℕ, zero, suc, ◌-◌, ◌*◌, ◌/◌, ◌%◌, ◌^◌, ◌<◌, ◌≡◌, refl, ap, Bool, true, false, not, xor, ◌&&◌,
  ◌||◌, List, [], ◌∷◌, arith, ◌==◌, Bool-cases, inl, inr, length, length-set, get_or, set,
  get_or-set_self, get_or-set_ne, ◌∙◌,
}
use oshard.Buddy.Bits.{mask, bit_isset, bit_set, bit_clear, bit_invert}

-- every byte is below 256
abbrev pub IsBytes : List ℕ → Type 0
IsBytes [] = Unit
IsBytes (b ∷ bs) = (b < 256) × IsBytes bs

-- how many bits an array holds
abbrev pub capacity : List ℕ → ℕ
capacity bs = length bs * 8

IsBytes-set : (bs : List ℕ) (i v : ℕ) → IsBytes bs → v < 256 → IsBytes (set bs i v)
IsBytes-set [] i v w h = tt
IsBytes-set (b ∷ bs) zero v w h = (h, w.1)
IsBytes-set (b ∷ bs) (suc i) v w h = (w.0, IsBytes-set bs i v w.1 h)

pub IsBytes-get_or : (bs : List ℕ) (i : ℕ) → IsBytes bs → get_or bs i 0 < 256
IsBytes-get_or [] i w = omega arith
IsBytes-get_or (b ∷ bs) zero w = w.0
IsBytes-get_or (b ∷ bs) (suc i) w = IsBytes-get_or bs i w.1

-- the values of a Boolean function up to a bound, all true
unfoldable pub all_hold : (ℕ → Bool) → ℕ → Bool
all_hold f zero = true
all_hold f (suc size) = all_hold f size && f size

pub all_hold-entry : (f : ℕ → Bool) (size i : ℕ) → i < size → all_hold f size ≡ true → f i ≡ true
unfolding all_hold
all_hold-entry f zero i inside full = absurd (omega arith)
all_hold-entry f (suc size) i inside full = ground (arith, all_hold-entry f size i)

-- One byte: is bit `i` of `b` set?
abbrev test : ℕ → ℕ → Bool
test b i = let m = 2 ^ i % 256 in bit_and b m == m

abbrev pub iff : Bool → Bool → Bool
iff a b = not (xor a b)

-- a law of one byte under two bit positions
abbrev byte_agrees : (ℕ → ℕ → ℕ) → (Bool → Bool → Bool) → ℕ → Bool
byte_agrees op f b =
    all_hold
      (λ i. all_hold (λ j. iff (test (op b (2 ^ i % 256) % 256) j) (f (i == j) (test b j))) 8) 8

pub iff→eq : (a b : Bool) → iff a b ≡ true → a ≡ b
iff→eq a b h = ground arith

byte_law :
    (op : ℕ → ℕ → ℕ) (f : Bool → Bool → Bool)
    → all_hold (byte_agrees op f) 256 ≡ true
    → (b i j : ℕ) → b < 256
    → i < 8
    → j < 8
    → test (op b (2 ^ i % 256) % 256) j ≡ f (i == j) (test b j)
byte_law op f full b i j hb hi hj = iff→eq _ _ (
    all_hold-entry _ 8 j hj
      (all_hold-entry _ 8 i hi (all_hold-entry (byte_agrees op f) 256 b hb full)))

abbrev and_not : ℕ → ℕ → ℕ
and_not b m = bit_and b (2 ^ 32 - 1 - m)

or_table : all_hold (byte_agrees bit_or (λ e old. e || old)) 256 ≡ true
unfolding all_hold
or_table = refl

xor_table : all_hold (byte_agrees bit_xor xor) 256 ≡ true
unfolding all_hold
xor_table = refl

and_table : all_hold (byte_agrees and_not (λ e old. not e && old)) 256 ≡ true
unfolding all_hold
and_table = refl

-- What a write that works on one byte does to every bit.
module _ (op : ℕ → ℕ → ℕ) (f : Bool → Bool → Bool)
    (law : (b i j : ℕ)
      → b < 256
      → i < 8
      → j < 8
      → test (op b (2 ^ i % 256) % 256) j ≡ f (i == j) (test b j))
    (keeps : (old : Bool) → f false old ≡ old) where
  lookup-write :
      (bs : List ℕ) (i j : ℕ)
      → IsBytes bs
      → i < capacity bs
      → bit_isset (set bs (i / 8) (op (get_or bs (i / 8) 0) (mask i) % 256)) j
        ≡ f (i == j) (bit_isset bs j)
  unfolding bit_isset
  lookup-write bs i j w h = elim (Bool-cases (i / 8 == j / 8)) [
    | inl e ↦
        let q : j / 8 ≡ i / 8 = ground arith in
        let place : (i % 8 == j % 8) ≡ (i == j) = ground arith in
        rw (q, get_or-set_self bs (i / 8) _ 0 (omega arith))
          (law (get_or bs (i / 8) 0) (i % 8) (j % 8) (IsBytes-get_or bs (i / 8) w) (omega arith)
              (omega arith)
            ∙ ap (λ e. f e (test (get_or bs (i / 8) 0) (j % 8))) place)
    | inr ne ↦
        let apart : (i == j) ≡ false = ground arith in
        rw (get_or-set_ne bs (i / 8) (j / 8) _ 0 (ground arith), apart, keeps _)
  ]

module _ (bs : List ℕ) (i : ℕ) where
  -- The writes keep the size of the array and its elements bytes.
  pub bit_writes-IsBytes :
      IsBytes bs → IsBytes (bit_set bs i) × IsBytes (bit_clear bs i) × IsBytes (bit_invert bs i)
  unfolding bit_set bit_clear bit_invert
  bit_writes-IsBytes w = (
    IsBytes-set bs (i / 8) _ w (omega arith),
    IsBytes-set bs (i / 8) _ w (omega arith),
    IsBytes-set bs (i / 8) _ w (omega arith),
  )

  pub bit_writes-length :
      (length (bit_set bs i) ≡ length bs)
      × (length (bit_clear bs i) ≡ length bs)
      × (length (bit_invert bs i) ≡ length bs)
  unfolding bit_set bit_clear bit_invert
  bit_writes-length = (length-set bs (i / 8) _, length-set bs (i / 8) _, length-set bs (i / 8) _)

module _ (bs : List ℕ) (i j : ℕ) (w : IsBytes bs) (h : i < capacity bs) where
  -- Inside the array bit_set sets one bit and changes no other.
  pub bit_isset-bit_set : bit_isset (bit_set bs i) j ≡ ((i == j) || bit_isset bs j)
  unfolding bit_set
  bit_isset-bit_set =
      lookup-write bit_or (λ e old. e || old) (byte_law bit_or (λ e old. e || old) or_table)
        (λ old. refl) bs i j w h

  -- Inside the array bit_clear clears one bit and changes no other.
  pub bit_isset-bit_clear : bit_isset (bit_clear bs i) j ≡ (not (i == j) && bit_isset bs j)
  unfolding bit_clear
  bit_isset-bit_clear =
      lookup-write and_not (λ e old. not e && old)
        (byte_law and_not (λ e old. not e && old) and_table) (λ old. refl) bs i j w h

  -- Inside the array bit_invert changes one bit and no other.
  pub bit_isset-bit_invert : bit_isset (bit_invert bs i) j ≡ xor (i == j) (bit_isset bs j)
  unfolding bit_invert
  bit_isset-bit_invert =
      lookup-write bit_xor xor (byte_law bit_xor xor xor_table) (λ old. refl) bs i j w h
