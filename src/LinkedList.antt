-- ===== src/LinkedList.antt =====
-- Doubly linked lists: pintos/src/lib/kernel/list.c. An element is known by its address; `Links` has
-- the two pointers of each. A `struct list` is its head, and its tail 8 bytes further. A failed
-- ASSERT, or too little fuel for a loop, is `none`.
pub mod Sort
pub mod Linked
pub mod Changes
pub mod Remove
pub mod Rows
pub mod Ends
pub mod Order
use tweaking_pintos.Prelude.{
  ℕ, zero, suc, ◌+◌, Bool, true, false, not, ◌&&◌, ◌||◌, Option, none, some, ◌==◌, ◌!=◌,
  if◌then◌else◌,
}
use tweaking_pintos.Prelude.Partial.{◌>>=◌, ◌>>◌, assert}

pub record Links : Type 0 where
  pub prev : ℕ → ℕ
  pub next : ℕ → ℕ

abbrev pub null : ℕ
null = 0

abbrev pub upd : (ℕ → ℕ) → ℕ → ℕ → ℕ → ℕ
upd f p v q = if p == q then v else f q

abbrev pub set_prev : ℕ → ℕ → Links → Links
set_prev p v s = record s { prev = upd s.prev p v }

abbrev pub set_next : ℕ → ℕ → Links → Links
set_next p v s = record s { next = upd s.next p v }

abbrev pub is_head : ℕ → Links → Bool
is_head e s = e != null && s.prev e == null && s.next e != null

abbrev pub is_interior : ℕ → Links → Bool
is_interior e s = e != null && s.prev e != null && s.next e != null

abbrev pub is_tail : ℕ → Links → Bool
is_tail e s = e != null && s.prev e != null && s.next e == null

unfoldable pub list_head : (list : ℕ) → Option ℕ
list_head list = do assert (list != null); some list

-- The addresses only: the ASSERT of list_tail() and list_end() that the list is not NULL is that of
-- list_begin(), or is written out, where a function below uses them.

abbrev pub list_tail : (list : ℕ) → ℕ
list_tail list = list + 8

abbrev pub list_end : (list : ℕ) → ℕ
list_end list = list + 8

unfoldable pub list_rend : (list : ℕ) → Option ℕ
list_rend list = do assert (list != null); some list

unfoldable pub list_init : (list : ℕ) → Links → Option Links
list_init list s = do
  assert (list != null)
  let s1 = set_prev list null s
  let s2 = set_next list (list_tail list) s1
  let s3 = set_prev (list_tail list) list s2
  some (set_next (list_tail list) null s3)

unfoldable pub list_begin : (list : ℕ) → Links → Option ℕ
list_begin list s = do assert (list != null); some (s.next list)

unfoldable pub list_rbegin : (list : ℕ) → Links → Option ℕ
list_rbegin list s = do assert (list != null); some (s.prev (list_tail list))

unfoldable pub list_next : (elem : ℕ) → Links → Option ℕ
list_next elem s = do assert (is_head elem s || is_interior elem s); some (s.next elem)

unfoldable pub list_prev : (elem : ℕ) → Links → Option ℕ
list_prev elem s = do assert (is_interior elem s || is_tail elem s); some (s.prev elem)

unfoldable pub list_insert : (before elem : ℕ) → Links → Option Links
list_insert before elem s = do
  assert (is_interior before s || is_tail before s)
  assert (elem != null)
  let s1 = set_prev elem (s.prev before) s
  let s2 = set_next elem before s1
  let s3 = set_next (s2.prev before) elem s2
  some (set_prev before elem s3)

unfoldable pub list_splice : (before first last : ℕ) → Links → Option Links
list_splice before first last s = do
  assert (is_interior before s || is_tail before s)
  if first == last then some s else do
    last' ← list_prev last s
    assert (is_interior first s)
    assert (is_interior last' s)
    let s1 = set_next (s.prev first) (s.next last') s
    let s2 = set_prev (s1.next last') (s1.prev first) s1
    let s3 = set_prev first (s2.prev before) s2
    let s4 = set_next last' before s3
    let s5 = set_next (s4.prev before) first s4
    some (set_prev before last' s5)

unfoldable pub list_push_front : (list elem : ℕ) → Links → Option Links
list_push_front list elem s = do first ← list_begin list s; list_insert first elem s

unfoldable pub list_push_back : (list elem : ℕ) → Links → Option Links
list_push_back list elem s = do assert (list != null); list_insert (list_end list) elem s

unfoldable pub list_remove : (elem : ℕ) → Links → Option (ℕ × Links)
list_remove elem s = do
  assert (is_interior elem s)
  let s1 = set_next (s.prev elem) (s.next elem) s
  let s2 = set_prev (s1.next elem) (s1.prev elem) s1
  some (s2.next elem, s2)

unfoldable pub list_empty : (list : ℕ) → Links → Option Bool
list_empty list s = do first ← list_begin list s; some (first == list_end list)

unfoldable pub list_front : (list : ℕ) → Links → Option ℕ
list_front list s = do empty ← list_empty list s; assert (not empty); some (s.next list)

unfoldable pub list_back : (list : ℕ) → Links → Option ℕ
list_back list s = do empty ← list_empty list s; assert (not empty); some (s.prev (list_tail list))

unfoldable pub list_pop_front : (list : ℕ) → Links → Option (ℕ × Links)
list_pop_front list s = do
  front ← list_front list s
  done ← list_remove front s
  some (front, done.1)

unfoldable pub list_pop_back : (list : ℕ) → Links → Option (ℕ × Links)
list_pop_back list s = do back ← list_back list s; done ← list_remove back s; some (back, done.1)

-- The loop of list_size(), from `e` to `end`.
unfoldable pub count_from : (fuel e end : ℕ) → Links → Option ℕ
count_from zero e end s = none
count_from (suc fuel) e end s =
    if e == end then some 0 else (do e' ← list_next e s; n ← count_from fuel e' end s; some (suc n))

unfoldable pub list_size : (fuel list : ℕ) → Links → Option ℕ
list_size fuel list s = do first ← list_begin list s; count_from fuel first (list_end list) s

-- The loop of list_reverse(): swap() of the two pointers of each element.
unfoldable pub reverse_from : (fuel e end : ℕ) → Links → Option Links
reverse_from zero e end s = none
reverse_from (suc fuel) e end s =
    if e == end
    then some s
    else (let s1 = set_next e (s.prev e) (set_prev e (s.next e) s) in
        reverse_from fuel (s1.prev e) end s1)

-- swap() of `head.next` and `tail.prev`, and then of the pointers of the new ends.
unfoldable pub swap_ends : (list : ℕ) → Links → Links
swap_ends list s =
    let s1 = set_prev (list_tail list) (s.next list) (set_next list (s.prev (list_tail list)) s) in
    let first = s1.next list in
    let last = s1.prev (list_tail list) in
    set_next last (s1.prev first) (set_prev first (s1.next last) s1)

unfoldable pub list_reverse : (fuel list : ℕ) → Links → Option Links
list_reverse fuel list s = do
  empty ← list_empty list s
  if empty then some s else do
    first ← list_begin list s
    s' ← reverse_from fuel first (list_end list) s
    some (swap_ends list s')
