-- ===== src/LinkedList.antt =====
-- kernel/list.c and kernel/list.h: circular doubly linked lists threaded through memory. A
-- `struct list *` is the address of the element, and `Links` is what memory holds in the two fields
-- of every address. The children prove the operations against the sequence that a list stands for.
pub mod Ring
mod Tests
use oshard.Common.{ℕ, Bool, Result, ok, panic, ◌==◌, if◌then◌else◌}

-- `struct list`, at every address
pub record Links : Type 0 where
  pub next : ℕ → ℕ
  pub prev : ℕ → ℕ

abbrev pub update : (ℕ → ℕ) → ℕ → ℕ → ℕ → ℕ
update f a v x = if a == x then v else f x

-- `a->next = v`
abbrev pub set_next : Links → ℕ → ℕ → Links
set_next m a v = record m { next = update m.next a v }

-- `a->prev = v`
abbrev pub set_prev : Links → ℕ → ℕ → Links
set_prev m a v = record m { prev = update m.prev a v }

unfoldable pub lst_init : Links → ℕ → Links
lst_init m lst = let m1 = set_next m lst lst in set_prev m1 lst lst

unfoldable pub lst_empty : Links → ℕ → Bool
lst_empty m lst = m.next lst == lst

unfoldable pub lst_remove : Links → ℕ → Links
lst_remove m e = let m1 = set_next m (m.prev e) (m.next e) in set_prev m1 (m1.next e) (m1.prev e)

-- the popped element and the memory after it
unfoldable pub lst_pop : Links → ℕ → Result (ℕ × Links)
unfolding lst_remove
lst_pop m lst =
    if m.next lst == lst then panic "lst_pop" else (let p = m.next lst in ok (p, lst_remove m p))

unfoldable pub lst_push : Links → ℕ → ℕ → Links
lst_push m lst e =
    let m1 = set_next m e (m.next lst) in
    let m2 = set_prev m1 e lst in let m3 = set_prev m2 (m2.next lst) e in set_next m3 lst e
