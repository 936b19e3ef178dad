-- ===== src/Tests/Lists.antt =====
-- The list functions on a list of three elements and on one with duplicates.
use tweaking_pintos.Prelude.{
  ℕ, zero, suc, ◌≡◌, refl, true, false, List, [], ◌∷◌, some, arith, ltb, ◌==◌, if◌then◌else◌,
}
use tweaking_pintos.Prelude.Partial.{◌>>=◌}
use tweaking_pintos.LinkedList.{
  Links, list_next, list_prev, list_begin, list_remove, list_empty, list_splice, reverse_from,
  swap_ends, list_reverse,
}
use tweaking_pintos.LinkedList.Sort.{
  sorted_from, is_sorted, find_end_of_run, merge_from, inplace_merge, sort_pass, sort_passes,
  list_sort, list_insert_ordered, unique_from, list_unique, max_from, list_max, min_from, list_min,
}
use tweaking_pintos.LinkedList.Rows.{KeepsOthers}
use tweaking_pintos.LinkedList.Ends.{IsList, nodes, list_remove-IsList}
use tweaking_pintos.LinkedList.Order.{IsSorted, list_insert_ordered-IsSorted}

-- The list at 100 has the elements 10, 30 and 20.
abbrev links : Links
links = record {
  next = λ p.
      if p == 100
      then 10
      else if p == 10
      then 30
      else if p == 30
      then 20
      else if p == 20
      then 108
      else 0;
  prev = λ p.
      if p == 10
      then 100
      else if p == 30
      then 10
      else if p == 20
      then 30
      else if p == 108
      then 20
      else 0;
}

abbrev elements : List ℕ
elements = 10 ∷ 30 ∷ 20 ∷ []

links-IsList : IsList links 100 elements
links-IsList = record {
  linked = (refl, refl, (refl, refl, (refl, refl, (refl, refl, tt))));
  front = refl;
  back = refl;
  distinct = (refl, (refl, (refl, (refl, (refl, tt)))));
  present = refl;
}

list_remove_example :
    (s' : Links) × (list_remove 30 links ≡ some (20, s'))
    × IsList s' 100 (10 ∷ 20 ∷ [])
    × KeepsOthers links s' (nodes 100 (10 ∷ 20 ∷ [])) 30
list_remove_example = list_remove-IsList (10 ∷ []) 30 (20 ∷ []) links-IsList

list_insert_ordered_example :
    (s' : Links) × (list_insert_ordered ltb 4 100 15 links ≡ some s')
    × IsList s' 100 (10 ∷ 15 ∷ 30 ∷ 20 ∷ [])
    × KeepsOthers links s' (nodes 100 elements) 15
    × (((a b : ℕ) → ltb a b ≡ true → ltb b a ≡ false)
        → IsSorted ltb elements
        → IsSorted ltb (10 ∷ 15 ∷ 30 ∷ 20 ∷ []))
list_insert_ordered_example =
    list_insert_ordered-IsSorted ltb 4 elements 15 links-IsList (omega arith) refl (omega arith)

-- The elements from an address on, by the `next` pointers.
walk : ℕ → ℕ → Links → List ℕ
walk zero p s = []
walk (suc n) p s = if s.next p == 108 then [] else s.next p ∷ walk n (s.next p) s

list_sort_run :
    (list_sort ltb 9 100 links >>= (λ s. some (walk 9 100 s))) ≡ some (10 ∷ 20 ∷ 30 ∷ [])
unfolding list_sort sort_passes sort_pass inplace_merge merge_from find_end_of_run is_sorted
    sorted_from list_splice list_begin list_next list_prev walk
list_sort_run = refl

list_reverse_run :
    (list_reverse 9 100 links >>= (λ s. some (walk 9 100 s))) ≡ some (20 ∷ 30 ∷ 10 ∷ [])
unfolding list_reverse swap_ends reverse_from list_empty list_begin walk
list_reverse_run = refl

-- All elements are equal, and the duplicates are not collected.
list_unique_run :
    (list_unique (λ a b. false) 9 100 0 links >>= (λ s. some (walk 9 100 s))) ≡ some (10 ∷ [])
unfolding list_unique unique_from list_empty list_begin list_next list_remove walk
list_unique_run = refl

list_max_run : (list_max ltb 9 100 links ≡ some 30) × (list_min ltb 9 100 links ≡ some 10)
unfolding list_max max_from list_min min_from list_begin list_next
list_max_run = (refl, refl)
