-- ===== src/Common/Ring.antt =====
-- Rings of bytes: the characters between two counters that run past the ring's size.
use Prim.Native.Nat.{ℕ, zero, suc, ◌+◌, ◌%◌, ◌<◌}
use mathlib.Core.Path.{◌≡◌, refl, ap, ◌∙◌}
use mathlib.Core.Logic.{◌≢◌}
use mathlib.Core.Bool.{false}
use mathlib.Core.List.{List, [], ◌∷◌, ◌++◌}
use native.Mathlib.Omega.{arith}
use oshard.Common.Tests.{◌==◌, if◌then◌else◌}
use oshard.Common.Lists.{length}

-- an array in which place `s` has been written
abbrev pub store_byte : (ℕ → ℕ) → ℕ → ℕ → ℕ → ℕ
store_byte d s ch a = if a == s then ch else d a

-- `k` bytes of a ring of `q` places from counter `r` on
unfoldable pub items : ℕ → ℕ → (ℕ → ℕ) → ℕ → List ℕ
items q zero d r = []
items q (suc k) d r = d (r % q) ∷ items q k d (r + 1)

pub length-items : (q k : ℕ) (d : ℕ → ℕ) (r : ℕ) → length (items q k d r) ≡ k
unfolding items
length-items q zero d r = refl
length-items q (suc k) d r = ap suc (length-items q k d (r + 1))

-- Counters that agree on the ring read the same bytes.
pub items_wrapped :
    (q k : ℕ) (d : ℕ → ℕ) (r s : ℕ)
    → ((a b : ℕ) → a % q ≡ b % q → (a + 1) % q ≡ (b + 1) % q)
    → r % q ≡ s % q
    → items q k d r ≡ items q k d s
unfolding items
items_wrapped q zero d r s next e = refl
items_wrapped q (suc k) d r s next e =
    rw e (ap (λ xs. d (s % q) ∷ xs) (items_wrapped q k d (r + 1) (s + 1) next (next r s e)))

pub items-append :
    (q j k : ℕ) (d : ℕ → ℕ) (r : ℕ) → items q (j + k) d r ≡ items q j d r ++ items q k d (r + j)
unfolding items
items-append q zero k d r =
    let e : r + 0 ≡ r = omega arith in let z : 0 + k ≡ k = omega arith in rw (e, z)
items-append q (suc j) k d r =
    let e : r + 1 + j ≡ r + suc j = omega arith in
    let one : suc j + k ≡ suc (j + k) = omega arith in
    ap (λ n. items q n d r) one
    ∙ ap (λ xs. d (r % q) ∷ xs)
        (items-append q j k d (r + 1) ∙ ap (λ a. items q j d (r + 1) ++ items q k d a) e)

pub items-snoc :
    (q k : ℕ) (d : ℕ → ℕ) (r : ℕ) → items q (suc k) d r ≡ items q k d r ++ (d ((r + k) % q) ∷ [])
unfolding items
items-snoc q k d r =
    let e : suc k ≡ k + 1 = omega arith in ap (λ n. items q n d r) e ∙ items-append q k 1 d r

-- A write to a place outside the bytes changes none of them.
pub items_kept :
    (q k : ℕ) (d : ℕ → ℕ) (r s ch : ℕ)
    → ((j : ℕ) → j < k → (r + j) % q ≢ s)
    → items q k (store_byte d s ch) r ≡ items q k d r
unfolding items
items_kept q zero d r s ch away = refl
items_kept q (suc k) d r s ch away =
    let at_first : r % q ≢ s =
      (let e : r + 0 ≡ r = omega arith in λ h. away 0 (omega arith) (ap (λ n. n % q) e ∙ h)) in
    let first : (r % q == s) ≡ false = ground arith in
    rw first (
      ap (λ xs. d (r % q) ∷ xs)
        (items_kept q k d (r + 1) s ch
          λ j lt e. away (suc j) (omega arith) (ap (λ n. n % q) (shift j) ∙ e)))
  where
    shift : (j : ℕ) → r + suc j ≡ r + 1 + j
    shift j = omega arith
