-- ===== src/Text/Token.antt =====
-- strtok_r(). `limit` is the fuel of each search in the set of delimiters.
pub mod Laws
use tweaking_pintos.Prelude.{
  ℕ, zero, suc, ◌+◌, Bool, true, false, Option, none, some, ◌==◌, ◌!=◌, if◌then◌else◌,
}
use tweaking_pintos.Prelude.Partial.{◌>>=◌, ◌>>◌, assert}
use tweaking_pintos.Memory.{Memory, null, write}
use tweaking_pintos.Text.Scan.{in_set}

-- The token, what `*save_ptr` is set to, and the memory.
pub record Tokenized : Type 0 where
  pub token : ℕ
  pub save_ptr : ℕ
  pub memory : Memory

-- From the token on, which ends at `s`.
unfoldable pub cut : (token s : ℕ) → Memory → Tokenized
cut token s m =
    if m s != 0
    then record { token = token; save_ptr = suc s; memory = write m s 0 }
    else record { token = token; save_ptr = s; memory = m }

module _ (limit : ℕ) where
  -- Past the delimiters. The test is whether the end of the string was met.
  unfoldable pub skip : (fuel s delimiters : ℕ) → Memory → Option (Bool × ℕ)
  skip zero s delimiters m = none
  skip (suc fuel) s delimiters m =
      let rest = skip fuel (suc s) delimiters m in
      do
        found ← in_set limit delimiters (m s) m
        if found then (if m s == 0 then some (true, s) else rest) else some (false, s)

  -- Past the other bytes.
  unfoldable pub token_end : (fuel s delimiters : ℕ) → Memory → Option ℕ
  token_end zero s delimiters m = none
  token_end (suc fuel) s delimiters m =
      let rest = token_end fuel (suc s) delimiters m in
      do found ← in_set limit delimiters (m s) m; if found then some s else rest

  unfoldable pub strtok_from : (s delimiters : ℕ) → Memory → Option Tokenized
  strtok_from s delimiters m = do
    start ← skip limit s delimiters m
    if start.0
        then some (record { token = null; save_ptr = start.1; memory = m })
        else do e ← token_end limit start.1 delimiters m; some (cut start.1 e m)

  -- `saved` is `*save_ptr`, read if `s` is NULL.
  unfoldable pub strtok_r : (s delimiters saved : ℕ) → Memory → Option Tokenized
  strtok_r s delimiters saved m = do
    assert (delimiters != null)
    let from = if s == null then saved else s
    assert (from != null)
    strtok_from from delimiters m
