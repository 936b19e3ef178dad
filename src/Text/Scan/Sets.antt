-- ===== src/Text/Scan/Sets.antt =====
-- Spans of a string over a set of bytes.
use tweaking_pintos.Prelude.{
  ℕ, zero, suc, ◌<◌, ◌≡◌, ◌≢◌, ◌∙◌, inl, inr, Bool, true, false, some, beq, ◌==◌, if◌then◌else◌,
  arith, Bool-cases, List, [], ◌∷◌, length, elem,
}
use tweaking_pintos.Memory.{Memory, null, IsString}
use tweaking_pintos.Text.Scan.{in_set, span, strcspn, strspn}
use tweaking_pintos.Text.Scan.Laws.{in_set_lem}

-- The number of bytes before the first one that is in the set, or that is not, as `stop` says.
abbrev pub spanned : (stop : Bool) → List ℕ → List ℕ → ℕ
spanned stop set [] = 0
spanned stop set (x ∷ xs) = if beq (elem x set) stop then 0 else suc (spanned stop set xs)

-- A string `set` of bytes, with fuel to search it.
pub record HoldsSet (limit p : ℕ) (m : Memory) (set : List ℕ) : Type 0 where
  pub ne_null : p ≢ null
  pub string : IsString m p set
  pub fuel : length set < limit
  pub bytes : (a : ℕ) → m a < 256

pub in_set-elem :
    (limit p : ℕ) (m : Memory) (set : List ℕ) (a x : ℕ)
    → HoldsSet limit p m set
    → m a ≡ x
    → x ≢ 0
    → in_set limit p (m a) m ≡ some (elem x set)
in_set-elem limit p m set a x s e ne =
    in_set_lem limit p (m a) m set s.string s.ne_null (s.bytes a) s.fuel ∙ ground (arith, e, ne)

span_lem :
    (stop : Bool) (limit fuel p q : ℕ) (m : Memory) (l set : List ℕ)
    → IsString m p l
    → length l < fuel
    → HoldsSet limit q m set
    → span limit stop fuel p q m ≡ some (spanned stop set l)
unfolding span
span_lem stop limit zero p q m l set h f s = absurd (omega arith)
span_lem stop limit (suc fuel) p q m [] set h f s = ground (arith, h)
span_lem stop limit (suc fuel) p q m (x ∷ xs) set (e, ne, h) f s =
    let on : (m p == 0) ≡ false = ground (arith, e, ne) in
    rw
      (
        on,
        in_set-elem limit q m set p x s e ne,
        span_lem stop limit fuel (suc p) q m xs set h (omega arith) s,
      )
      (elim (Bool-cases (beq (elem x set) stop)) [ inl e ↦ rw e | inr e ↦ rw e ])

-- strcspn() returns the number of bytes before the first one in the set, strspn() the number before
-- the first one outside it, and the length of the string if there is none.
pub strspn_lem :
    (limit p q : ℕ) (m : Memory) (l set : List ℕ)
    → IsString m p l
    → length l < limit
    → HoldsSet limit q m set
    → (strcspn limit p q m ≡ some (spanned true set l))
      × (strspn limit p q m ≡ some (spanned false set l))
unfolding strcspn strspn
strspn_lem limit p q m l set h f s =
    (span_lem true limit limit p q m l set h f s, span_lem false limit limit p q m l set h f s)
