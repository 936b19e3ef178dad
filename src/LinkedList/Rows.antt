-- ===== src/LinkedList/Rows.antt =====
-- A whole list: a row of distinct nodes that are not NULL, with nothing before its first node and
-- nothing behind its last; insertion and removal keep it so.
use tweaking_pintos.Prelude.{
  ℕ, ◌≡◌, ◌≢◌, ap, true, false, some, List, ◌∷◌, ◌++◌, arith, elem, Distinct, elem-append,
}
use tweaking_pintos.LinkedList.{Links, null, list_insert, list_remove}
use tweaking_pintos.LinkedList.Linked.{
  Linked, last, last-append, elem-last, Apart, Distinct-split, Distinct-join,
}
use tweaking_pintos.LinkedList.Changes.{differs, inserted, Linked-inserted, list_insert-inserted}
use tweaking_pintos.LinkedList.Remove.{removed, Linked-removed, list_remove-removed}

pub record IsRow (s : Links) (a : ℕ) (nodes : List ℕ) : Type 0 where
  pub linked : Linked s a nodes
  pub front : s.prev a ≡ null
  pub back : s.next (last a nodes) ≡ null
  pub distinct : Distinct (a ∷ nodes)
  pub present : elem null (a ∷ nodes) ≡ false

-- Nodes outside the row, but perhaps `e`, keep their pointers.
abbrev pub KeepsOthers : Links → Links → (nodes : List ℕ) → (e : ℕ) → Type 0
KeepsOthers s s' nodes e =
    (q : ℕ) → elem q nodes ≡ false → q ≢ e → (s'.next q ≡ s.next q) × (s'.prev q ≡ s.prev q)

-- A node of a row is not NULL.
pub node-ne_null : (p : ℕ) (l : List ℕ) → elem p l ≡ true → elem null l ≡ false → p ≢ null
node-ne_null p l h k e = absurd (ground (arith, differs p null l h k, e))

module _ {s : Links} {a : ℕ} (ys : List ℕ) (n : ℕ) (rest : List ℕ)
    (row : IsRow s a (ys ++ (n ∷ rest))) where
  parts : Apart (a ∷ ys) (n ∷ rest)
  parts = Distinct-split (a ∷ ys) (n ∷ rest) row.distinct

  in_left : (p : ℕ) → elem p (a ∷ ys) ≡ true → elem p (a ∷ (ys ++ (n ∷ rest))) ≡ true
  in_left p h = ground (arith, h, elem-append p ys (n ∷ rest))

  in_right : (p : ℕ) → elem p (n ∷ rest) ≡ true → elem p (a ∷ (ys ++ (n ∷ rest))) ≡ true
  in_right p h = ground (arith, h, elem-append p ys (n ∷ rest))

  n-ne_null : n ≢ null
  n-ne_null = node-ne_null n (a ∷ (ys ++ (n ∷ rest))) (in_right n (ground arith)) row.present

  last-ne_null : last a ys ≢ null
  last-ne_null =
      node-ne_null (last a ys) (a ∷ (ys ++ (n ∷ rest))) (in_left (last a ys) (elem-last a ys))
        row.present

  end : last a (ys ++ (n ∷ rest)) ≡ last n rest
  end = last-append a ys n rest

  pub list_insert-IsRow :
      (e : ℕ)
      → e ≢ null
      → elem e (a ∷ (ys ++ (n ∷ rest))) ≡ false
      → (s' : Links) × (list_insert n e s ≡ some s')
        × IsRow s' a (ys ++ (e ∷ (n ∷ rest)))
        × KeepsOthers s s' (a ∷ (ys ++ (n ∷ rest))) e
  list_insert-IsRow e ne new = (
    inserted s a ys n e,
    list_insert-inserted s a ys n rest row.distinct row.linked e new n-ne_null last-ne_null ne,
    record {
      linked = Linked-inserted s a ys n rest row.distinct row.linked e new;
      front = ground (arith, new, parts.no_both a (ground arith), row.front);
      back = rw (last-append a ys e (n ∷ rest)) (
          ground (
            arith,
            differs (last n rest) e (a ∷ (ys ++ (n ∷ rest))) (in_right _ (elem-last n rest)) new,
            differs (last n rest) (last a ys) (n ∷ rest) (elem-last n rest)
                (parts.no_both (last a ys) (elem-last a ys)),
            row.back,
            ap s.next end,
          ));
      distinct = Distinct-join (a ∷ ys) (e ∷ (n ∷ rest)) (record {
        left = parts.left;
        right = (ground (arith, new, elem-append e ys (n ∷ rest)), parts.right);
        no_both = λ q h.
            ground
              (arith, parts.no_both q h, differs q e (a ∷ (ys ++ (n ∷ rest))) (in_left q h) new);
      });
      present = ground (
        arith,
        ne,
        row.present,
        elem-append null ys (n ∷ rest),
        elem-append null ys (e ∷ (n ∷ rest)),
      );
    },
    λ q out neq. (
      ground (
        arith,
        neq,
        differs (last a ys) q (a ∷ (ys ++ (n ∷ rest))) (in_left _ (elem-last a ys)) out,
      ),
      ground (arith, neq, differs n q (a ∷ (ys ++ (n ∷ rest))) (in_right n (ground arith)) out),
    ),
  )

module _ {s : Links} {a : ℕ} (ys : List ℕ) (e n : ℕ) (rest : List ℕ)
    (row : IsRow s a (ys ++ (e ∷ (n ∷ rest)))) where
  sides : Apart (a ∷ ys) (e ∷ (n ∷ rest))
  sides = Distinct-split (a ∷ ys) (e ∷ (n ∷ rest)) row.distinct

  from_left : (p : ℕ) → elem p (a ∷ ys) ≡ true → elem p (a ∷ (ys ++ (e ∷ (n ∷ rest)))) ≡ true
  from_left p h = ground (arith, h, elem-append p ys (e ∷ (n ∷ rest)))

  from_right :
      (p : ℕ) → elem p (e ∷ (n ∷ rest)) ≡ true → elem p (a ∷ (ys ++ (e ∷ (n ∷ rest)))) ≡ true
  from_right p h = ground (arith, h, elem-append p ys (e ∷ (n ∷ rest)))

  there : (p : ℕ) → elem p (a ∷ (ys ++ (e ∷ (n ∷ rest)))) ≡ true → p ≢ null
  there p h = node-ne_null p (a ∷ (ys ++ (e ∷ (n ∷ rest)))) h row.present

  pub list_remove-IsRow :
      (s' : Links) × (list_remove e s ≡ some (n, s'))
      × IsRow s' a (ys ++ (n ∷ rest))
      × KeepsOthers s s' (a ∷ (ys ++ (n ∷ rest))) e
  list_remove-IsRow = (
    removed s a ys n,
    list_remove-removed s a ys e n rest row.distinct row.linked
        (there _ (from_left _ (elem-last a ys))) (there e (from_right e (ground arith)))
        (there n (from_right n (ground arith))),
    record {
      linked = Linked-removed s a ys e n rest row.distinct row.linked;
      front = ground (arith, sides.no_both a (ground arith), row.front);
      back = rw (last-append a ys n rest) (
          ground (
            arith,
            differs (last n rest) (last a ys) (n ∷ rest) (elem-last n rest)
                (ground (arith, sides.no_both (last a ys) (elem-last a ys))),
            row.back,
            ap s.next (last-append a ys e (n ∷ rest)),
          ));
      distinct = Distinct-join (a ∷ ys) (n ∷ rest) (record {
        left = sides.left;
        right = sides.right.1;
        no_both = λ q h. ground (arith, sides.no_both q h);
      });
      present = ground (
        arith,
        row.present,
        elem-append null ys (n ∷ rest),
        elem-append null ys (e ∷ (n ∷ rest)),
      );
    },
    λ q out neq. (
      ground (
        arith,
        differs (last a ys) q (a ∷ ys) (elem-last a ys)
            (ground (arith, out, elem-append q ys (n ∷ rest))),
      ),
      ground (arith, out, elem-append q ys (n ∷ rest)),
    ),
  )
