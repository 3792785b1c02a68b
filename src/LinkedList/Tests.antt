-- ===== src/LinkedList/Tests.antt =====
-- Runs of kernel/list.c, and the theorems of `Ring` at lists in memory.
use oshard.Common.{◌≡◌, refl, [], ◌∷◌}
use oshard.LinkedList.{Links, lst_init, lst_remove, lst_push}
use oshard.LinkedList.Ring.{IsRing, SameOutside, lst_init_lem, lst_push_lem, lst_remove_lem}

-- no list yet
abbrev blank : Links
blank = record { next = λ a. 0; prev = λ a. 0 }

-- the list with head 100 that holds 7, then 9
abbrev two_items : Links
two_items = lst_push (lst_push (lst_init blank 100) 100 9) 100 7

two_items-IsRing : IsRing two_items 100 (7 ∷ 9 ∷ [])
two_items-IsRing =
    (lst_push_lem 7 (9 ∷ []) (lst_push_lem 9 [] (lst_init_lem blank 100).0 refl).0 refl).0

walk : (two_items.next 100 ≡ 7) × (two_items.next 9 ≡ 100) × (two_items.prev 100 ≡ 9)
unfolding lst_push lst_init
walk = (refl, refl, refl)

lst_remove_lem_example :
    IsRing (lst_remove two_items 9) 100 (7 ∷ [])
    × SameOutside (100 ∷ 7 ∷ 9 ∷ []) two_items (lst_remove two_items 9)
lst_remove_lem_example = lst_remove_lem 9 (7 ∷ 9 ∷ []) two_items-IsRing refl
