-- ===== src/Strings.antt =====
-- kernel/string.c: the memory and string functions. Memory is the byte at every address; a pointer
-- that runs over a region does not wrap. An `int` or `uint` count is the number of rounds (a count
-- below 0 makes none), and an `int` result is its 32-bit pattern.
pub mod Copy
pub mod Text
mod Tests
use oshard.Common.{
  ℕ, zero, suc, ◌+◌, ◌-◌, ◌%◌, ◌^◌, Bool, not, ◌&&◌, Option, none, some, ◌==◌, ltb, if◌then◌else◌,
}

abbrev pub Memory : Type 0
Memory = ℕ → ℕ

-- `*p = c` for a `char *p`
abbrev pub store : Memory → ℕ → ℕ → Memory
store m p c a = if a == p then c % 256 else m a

-- `for (i = 0; i < n; i++) cdst[i] = c;` with the rounds left
unfoldable pub memset_loop : ℕ → Memory → ℕ → ℕ → ℕ → Memory
memset_loop zero m dst i c = m
memset_loop (suc rounds) m dst i c = memset_loop rounds (store m (dst + i) c) dst (i + 1) c

unfoldable pub memset : Memory → ℕ → ℕ → ℕ → Memory
unfolding memset_loop
memset m dst c n = memset_loop n m dst 0 c

-- `(uchar)x - (uchar)y` as an `int`
abbrev pub difference : ℕ → ℕ → ℕ
difference x y = (x + 2 ^ 32 - y) % 2 ^ 32

unfoldable pub memcmp : Memory → ℕ → ℕ → ℕ → ℕ
memcmp m s1 s2 zero = 0
memcmp m s1 s2 (suc n) =
    let rest = memcmp m (s1 + 1) (s2 + 1) n in
    if not (m s1 == m s2) then difference (m s1) (m s2) else rest

-- `while (n-- > 0) *d++ = *s++;`
unfoldable pub copy_up : ℕ → Memory → ℕ → ℕ → Memory
copy_up zero m d s = m
copy_up (suc n) m d s = copy_up n (store m d (m s)) (d + 1) (s + 1)

-- `while (n-- > 0) *--d = *--s;`
unfoldable pub copy_down : ℕ → Memory → ℕ → ℕ → Memory
copy_down zero m d s = m
copy_down (suc n) m d s = copy_down n (store m (d - 1) (m (s - 1))) (d - 1) (s - 1)

unfoldable pub memmove : Memory → ℕ → ℕ → ℕ → Memory
unfolding copy_up copy_down
memmove m dst src n =
    if n == 0
    then m
    else if ltb src dst && ltb dst (src + n)
    then copy_down n m (dst + n) (src + n)
    else copy_up n m dst src

unfoldable pub memcpy : Memory → ℕ → ℕ → ℕ → Memory
unfolding memmove
memcpy = memmove

unfoldable pub strncmp : Memory → ℕ → ℕ → ℕ → ℕ
strncmp m p q zero = 0
strncmp m p q (suc n) =
    let rest = strncmp m (p + 1) (q + 1) n in
    if not (m p == 0) && (m p == m q) then rest else difference (m p) (m q)

-- `while (n-- > 0) *s++ = 0;`
unfoldable pub zeros : ℕ → Memory → ℕ → Memory
zeros zero m s = m
zeros (suc n) m s = zeros n (store m s 0) (s + 1)

unfoldable pub strncpy : Memory → ℕ → ℕ → ℕ → Memory
unfolding zeros
strncpy m s t zero = m
strncpy m s t (suc n) =
    let m' = store m s (m t) in
    let rest = strncpy m' (s + 1) (t + 1) n in if m' s == 0 then zeros n m' (s + 1) else rest

-- `while (--n > 0 && (*s++ = *t++) != 0) ; *s = 0;` with `n - 1` rounds at most
unfoldable pub safe_loop : ℕ → Memory → ℕ → ℕ → Memory
safe_loop zero m s t = store m s 0
safe_loop (suc n) m s t =
    let m' = store m s (m t) in
    let rest = safe_loop n m' (s + 1) (t + 1) in if m' s == 0 then store m' (s + 1) 0 else rest

unfoldable pub safestrcpy : Memory → ℕ → ℕ → ℕ → Memory
unfolding safe_loop
safestrcpy m s t zero = m
safestrcpy m s t (suc n) = safe_loop n m s t

-- `for (n = 0; s[n]; n++)`, `none` when the fuel is used up before a 0 byte
unfoldable pub strlen : ℕ → Memory → ℕ → ℕ → Option ℕ
strlen zero m s n = none
strlen (suc fuel) m s n =
    let rest = strlen fuel m s (n + 1) in if m (s + n) == 0 then some n else rest
