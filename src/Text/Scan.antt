-- ===== src/Text/Scan.antt =====
-- The functions that read strings: strlen(), strnlen(), strcmp(), strchr(), strrchr(), strspn(),
-- strcspn(), strpbrk() and strstr(). A loop that runs to the end of a string has fuel, the number of
-- bytes that it may look at; `none` is a failed ASSERT or the end of the fuel.
pub mod Laws
pub mod Sets
pub mod Search
use tweaking_pintos.Prelude.{
  ℕ, zero, suc, ◌+◌, ◌-◌, ◌%◌, Bool, true, false, ◌||◌, ◌&&◌, Option, none, some, ltb, leb, beq,
  ◌==◌, ◌!=◌, if◌then◌else◌,
}
use tweaking_pintos.Prelude.Words.{minus_one}
use tweaking_pintos.Prelude.Partial.{◌>>=◌, ◌>>◌, assert}
use tweaking_pintos.Memory.{Memory, null}
use tweaking_pintos.Text.Block.{memcmp}

-- The address of the terminator.
unfoldable pub find_end : (fuel p : ℕ) → Memory → Option ℕ
find_end zero p m = none
find_end (suc fuel) p m = let rest = find_end fuel (suc p) m in if m p == 0 then some p else rest

unfoldable pub strlen : (fuel string : ℕ) → Memory → Option ℕ
unfolding find_end
strlen fuel string m = do assert (string != null); p ← find_end fuel string m; some (p - string)

-- The bound `maxlen` is fuel enough.
unfoldable pub strnlen : (string maxlen : ℕ) → Memory → ℕ
strnlen string zero m = 0
strnlen string (suc maxlen) m = if m string == 0 then 0 else suc (strnlen (suc string) maxlen m)

unfoldable pub compare_strings : (fuel a b : ℕ) → Memory → Option ℕ
compare_strings zero a b m = none
compare_strings (suc fuel) a b m =
    let rest = compare_strings fuel (suc a) (suc b) m in
    if m a != 0 && m a == m b
    then rest
    else some (if ltb (m a) (m b) then minus_one else if ltb (m b) (m a) then 1 else 0)

unfoldable pub strcmp : (fuel a b : ℕ) → Memory → Option ℕ
unfolding compare_strings
strcmp fuel a b m = do assert (a != null); assert (b != null); compare_strings fuel a b m

unfoldable pub find_char : (fuel string c : ℕ) → Memory → Option ℕ
find_char zero string c m = none
find_char (suc fuel) string c m =
    let rest = find_char fuel (suc string) c m in
    if m string == c then some string else if m string == 0 then some null else rest

unfoldable pub strchr : (fuel string c : ℕ) → Memory → Option ℕ
unfolding find_char
strchr fuel string c m = do assert (string != null); find_char fuel string (c % 256) m

-- Whether strchr() finds the byte in the set.
unfoldable pub in_set : (fuel set c : ℕ) → Memory → Option Bool
unfolding strchr
in_set fuel set c m = do p ← strchr fuel set c m; some (p != null)

-- `limit` is the fuel of each search in a set.
module _ (limit : ℕ) where
  -- The loops of strcspn() and strspn(): the number of bytes until one that is in the set, or that
  -- is not. `stop` says which of the two ends the loop.
  unfoldable pub span : (stop : Bool) (fuel string set : ℕ) → Memory → Option ℕ
  unfolding in_set
  span stop zero string set m = none
  span stop (suc fuel) string set m =
      let rest = (do n ← span stop fuel (suc string) set m; some (suc n)) in
      if m string == 0
      then some 0
      else (do found ← in_set limit set (m string) m; if beq found stop then some 0 else rest)

  unfoldable pub strcspn : (string stop : ℕ) → Memory → Option ℕ
  unfolding span
  strcspn string stop m = span true limit string stop m

  unfoldable pub strspn : (string skip : ℕ) → Memory → Option ℕ
  unfolding span
  strspn string skip m = span false limit string skip m

  unfoldable pub find_in_set : (fuel string stop : ℕ) → Memory → Option ℕ
  unfolding in_set
  find_in_set zero string stop m = none
  find_in_set (suc fuel) string stop m =
      let rest = find_in_set fuel (suc string) stop m in
      if m string == 0
      then some null
      else (do found ← in_set limit stop (m string) m; if found then some string else rest)

  unfoldable pub strpbrk : (string stop : ℕ) → Memory → Option ℕ
  unfolding find_in_set
  strpbrk string stop m = find_in_set limit string stop m

-- `p` is the last occurrence so far.
unfoldable pub last_char : (fuel string c p : ℕ) → Memory → Option ℕ
last_char zero string c p m = none
last_char (suc fuel) string c p m =
    let rest = last_char fuel (suc string) c (if m string == c then string else p) m in
    if m string == 0 then some p else rest

unfoldable pub strrchr : (fuel string c : ℕ) → Memory → Option ℕ
unfolding last_char
strrchr fuel string c m = last_char fuel string (c % 256) null m

-- The loop over the `n` possible places of the needle from `p` on.
unfoldable pub search_from : (n p needle needle_len : ℕ) → Memory → Option ℕ
unfolding memcmp
search_from zero p needle needle_len m = some null
search_from (suc n) p needle needle_len m =
    let rest = search_from n (suc p) needle needle_len m in
    do c ← memcmp p needle needle_len m; if c == 0 then some p else rest

unfoldable pub strstr : (fuel haystack needle : ℕ) → Memory → Option ℕ
unfolding strlen search_from
strstr fuel haystack needle m = do
  haystack_len ← strlen fuel haystack m
  needle_len ← strlen fuel needle m
  if leb needle_len haystack_len
      then search_from (haystack_len - needle_len + 1) haystack needle needle_len m
      else some null
