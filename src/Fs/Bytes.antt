-- ===== src/Fs/Bytes.antt =====
-- Numbers in the bytes of a block, little-endian, as RISC-V keeps the fields of kernel/fs.h.
use oshard.Common.{
  ℕ, zero, suc, ◌+◌, ◌*◌, ◌/◌, ◌%◌, ◌≤◌, ◌<◌, ◌≡◌, ◌⊎◌, refl, ap₂, sym, ◌∙◌, List, [], ◌∷◌, arith,
  get_or, set, length, length-set, get_or-set_self, get_or-set_ne,
}

-- the bytes of a number
abbrev pub le_bytes : ℕ → ℕ → List ℕ
le_bytes zero v = []
le_bytes (suc n) v = v % 256 ∷ le_bytes n (v / 256)

-- the number in `n` bytes from `at` on
abbrev pub get_le : ℕ → List ℕ → ℕ → ℕ
get_le zero bytes at = 0
get_le (suc n) bytes at = get_or bytes at 0 + 256 * get_le n bytes (at + 1)

abbrev pub put_le : ℕ → List ℕ → ℕ → ℕ → List ℕ
put_le zero bytes at v = bytes
put_le (suc n) bytes at v = put_le n (set bytes at (v % 256)) (at + 1) (v / 256)

pub length-put_le :
    (n : ℕ) (bytes : List ℕ) (at v : ℕ) → length (put_le n bytes at v) ≡ length bytes
length-put_le zero bytes at v = refl
length-put_le (suc n) bytes at v =
    length-put_le n _ (at + 1) (v / 256) ∙ length-set bytes at (v % 256)

-- A write leaves the bytes before it and after it.
pub get_or-put_le :
    (n : ℕ) (bytes : List ℕ) (at v i : ℕ)
    → (i < at) ⊎ (at + n ≤ i)
    → get_or (put_le n bytes at v) i 0 ≡ get_or bytes i 0
get_or-put_le zero bytes at v i out = refl
get_or-put_le (suc n) bytes at v i out =
    get_or-put_le n (set bytes at (v % 256)) (at + 1) (v / 256) i (omega arith)
    ∙ get_or-set_ne bytes at i _ 0 (omega arith)

-- `v` has at most `n` bytes
abbrev pub Fits : ℕ → ℕ → Type 0
Fits zero v = v ≡ 0
Fits (suc n) v = Fits n (v / 256)

pub get_le-put_le :
    (n : ℕ) (bytes : List ℕ) (at v : ℕ)
    → at + n ≤ length bytes
    → Fits n v
    → get_le n (put_le n bytes at v) at ≡ v
get_le-put_le zero bytes at v inside small = sym small
get_le-put_le (suc n) bytes at v inside small =
    let same = length-set bytes at (v % 256) in
    let low =
      get_or-put_le n (set bytes at (v % 256)) (at + 1) (v / 256) at (omega arith)
      ∙ get_or-set_self bytes at (v % 256) 0 (omega arith) in
    let high =
      get_le-put_le n (set bytes at (v % 256)) (at + 1) (v / 256) (omega (arith, same)) small in
    rw (low, high) (omega arith)

pub get_le-put_le_other :
    (m n : ℕ) (bytes : List ℕ) (at v i : ℕ)
    → (i + m ≤ at) ⊎ (at + n ≤ i)
    → get_le m (put_le n bytes at v) i ≡ get_le m bytes i
get_le-put_le_other zero n bytes at v i out = refl
get_le-put_le_other (suc m) n bytes at v i out =
    ap₂ (λ low high. low + 256 * high) (get_or-put_le n bytes at v i (omega arith))
      (get_le-put_le_other m n bytes at v (i + 1) (omega arith))
