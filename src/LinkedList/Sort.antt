-- ===== src/LinkedList/Sort.antt =====
-- The functions of pintos/src/lib/kernel/list.c that compare elements: sorting, ordered insertion,
-- removal of duplicates, maximum and minimum. `less` is the caller's comparison of two elements.
use tweaking_pintos.Prelude.{
  ℕ, zero, suc, Bool, true, false, not, ◌&&◌, Option, none, some, ltb, ◌==◌, ◌!=◌, if◌then◌else◌,
}
use tweaking_pintos.Prelude.Partial.{◌>>=◌, ◌>>◌, assert}
use tweaking_pintos.LinkedList.{
  Links, null, list_begin, list_end, list_next, list_prev, list_insert, list_splice, list_remove,
  list_push_back, list_empty,
}

module _ (less : ℕ → ℕ → Bool) where
  -- The loop: `a` is the last element seen.
  unfoldable pub sorted_from : (fuel a b : ℕ) → Links → Option Bool
  sorted_from zero a b s = none
  sorted_from (suc fuel) a b s = do
    a' ← list_next a s
    if a' == b
        then some true
        else do p ← list_prev a' s; if less a' p then some false else sorted_from fuel a' b s

  unfoldable pub is_sorted : (fuel a b : ℕ) → Links → Option Bool
  is_sorted fuel a b s = if a != b then sorted_from fuel a b s else some true

  unfoldable pub find_end_of_run : (fuel a b : ℕ) → Links → Option ℕ
  find_end_of_run zero a b s = none
  find_end_of_run (suc fuel) a b s = do
    assert (a != null)
    assert (b != null)
    assert (a != b)
    a' ← list_next a s
    if a' == b
        then some a'
        else do p ← list_prev a' s; if less a' p then some a' else find_end_of_run fuel a' b s

  -- The loop of inplace_merge().
  unfoldable pub merge_from : (fuel a0 a1b0 b1 : ℕ) → Links → Option Links
  merge_from zero a0 a1b0 b1 s = none
  merge_from (suc fuel) a0 a1b0 b1 s =
      if a0 != a1b0 && a1b0 != b1
      then (if less a1b0 a0
          then (do
            a1b0' ← list_next a1b0 s
            p ← list_prev a1b0' s
            s' ← list_splice a0 p a1b0' s
            merge_from fuel a0 a1b0' b1 s')
          else (do a0' ← list_next a0 s; merge_from fuel a0' a1b0 b1 s))
      else some s

  unfoldable pub inplace_merge : (fuel a0 a1b0 b1 : ℕ) → Links → Option Links
  inplace_merge fuel a0 a1b0 b1 s = do
    assert (a0 != null)
    assert (a1b0 != null)
    assert (b1 != null)
    left ← is_sorted fuel a0 a1b0 s
    assert left
    right ← is_sorted fuel a1b0 b1 s
    assert right
    merge_from fuel a0 a1b0 b1 s

  -- One pass of list_sort(), which returns the number of runs it has left.
  unfoldable pub sort_pass : (fuel list a0 count : ℕ) → Links → Option (ℕ × Links)
  sort_pass zero list a0 count s = none
  sort_pass (suc fuel) list a0 count s = if a0 == list_end list then some (count, s) else (do
    a1b0 ← find_end_of_run (suc fuel) a0 (list_end list) s
    if a1b0 == list_end list then some (suc count, s) else do
      b1 ← find_end_of_run (suc fuel) a1b0 (list_end list) s
      s' ← inplace_merge (suc fuel) a0 a1b0 b1 s
      sort_pass fuel list b1 (suc count) s')

  -- The passes: `rounds` bounds their number, `fuel` each loop inside a pass.
  unfoldable pub sort_passes : (rounds fuel list : ℕ) → Links → Option Links
  sort_passes zero fuel list s = none
  sort_passes (suc rounds) fuel list s = do
    first ← list_begin list s
    done ← sort_pass fuel list first 0 s
    if ltb 1 done.0 then sort_passes rounds fuel list done.1 else some done.1

  unfoldable pub list_sort : (fuel list : ℕ) → Links → Option Links
  list_sort fuel list s = do
    s' ← sort_passes fuel fuel list s
    first ← list_begin list s'
    ok ← is_sorted fuel first (list_end list) s'
    assert ok
    some s'

  -- The loop of list_insert_ordered(): the first element from `e` on that is greater.
  unfoldable pub find_greater : (fuel e end elem : ℕ) → Links → Option ℕ
  find_greater zero e end elem s = none
  find_greater (suc fuel) e end elem s =
      if e == end
      then some e
      else (if less elem e
          then some e
          else (do e' ← list_next e s; find_greater fuel e' end elem s))

  unfoldable pub list_insert_ordered : (fuel list elem : ℕ) → Links → Option Links
  list_insert_ordered fuel list elem s = do
    assert (elem != null)
    first ← list_begin list s
    e ← find_greater fuel first (list_end list) elem s
    list_insert e elem s

  -- The loop of list_unique(). A NULL for `duplicates` is 0.
  unfoldable pub unique_from : (fuel list elem duplicates : ℕ) → Links → Option Links
  unique_from zero list elem duplicates s = none
  unique_from (suc fuel) list elem duplicates s = do
    next ← list_next elem s
    if next == list_end list
        then some s
        else if not (less elem next) && not (less next elem)
        then (do
          done ← list_remove next s
          s' ← if duplicates != null then list_push_back duplicates next done.1 else some done.1
          unique_from fuel list elem duplicates s')
        else unique_from fuel list next duplicates s

  unfoldable pub list_unique : (fuel list duplicates : ℕ) → Links → Option Links
  list_unique fuel list duplicates s = do
    empty ← list_empty list s
    if empty then some s else do first ← list_begin list s; unique_from fuel list first duplicates s

  -- The loop of list_max(): `max` is the largest so far, `e` the next element.
  unfoldable pub max_from : (fuel list max e : ℕ) → Links → Option ℕ
  max_from zero list max e s = none
  max_from (suc fuel) list max e s =
      if e == list_end list
      then some max
      else (do e' ← list_next e s; max_from fuel list (if less max e then e else max) e' s)

  unfoldable pub list_max : (fuel list : ℕ) → Links → Option ℕ
  list_max fuel list s = do
    max ← list_begin list s
    if max == list_end list then some max else do e ← list_next max s; max_from fuel list max e s

  unfoldable pub min_from : (fuel list min e : ℕ) → Links → Option ℕ
  min_from zero list min e s = none
  min_from (suc fuel) list min e s =
      if e == list_end list
      then some min
      else (do e' ← list_next e s; min_from fuel list (if less e min then e else min) e' s)

  unfoldable pub list_min : (fuel list : ℕ) → Links → Option ℕ
  list_min fuel list s = do
    min ← list_begin list s
    if min == list_end list then some min else do e ← list_next min s; min_from fuel list min e s
