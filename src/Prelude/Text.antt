-- ===== src/Prelude/Text.antt =====
-- The operations on Python strings that the code uses, over the library's texts.
use smmfalcron.Prelude.Tests.{if◌then◌else◌}
use mathlib.Core.Bool.{Bool, false, ◌||◌}
use Prim.Native.Char.{code}
use Prim.Native.Nat.{ℕ, zero, suc}
use Prim.Native.String.{String}
use mathlib.Core.List.{List, [], ◌∷◌}

-- s[:n]
unfoldable pub truncate : ℕ → String → String
truncate zero s = ""
truncate (suc n) String.[] = String.[]
truncate (suc n) (String.◌∷◌ c s) = String.◌∷◌ c (truncate n s)

unfoldable pub append : String → String → String
append String.[] t = t
append (String.◌∷◌ c s) t = String.◌∷◌ c (append s t)

-- The number of characters, `len(s)`.
unfoldable pub chars : String → ℕ
chars String.[] = 0
chars (String.◌∷◌ c s) = suc (chars s)

-- Is there a character whose code passes the test?
unfoldable pub any_char : (ℕ → Bool) → String → Bool
any_char p String.[] = false
any_char p (String.◌∷◌ c s) = p (code c) || any_char p s

-- s.lstrip(…), of the characters that pass the test
unfoldable pub strip_left : (ℕ → Bool) → String → String
strip_left p String.[] = String.[]
strip_left p (String.◌∷◌ c s) =
    let rest = strip_left p s in if p (code c) then rest else String.◌∷◌ c s

-- s.rstrip(…)
unfoldable pub strip_right : (ℕ → Bool) → String → String
strip_right p String.[] = String.[]
strip_right p (String.◌∷◌ c s) = elim (strip_right p s) [
  | String.[] ↦ if p (code c) then String.[] else String.◌∷◌ c String.[]
  | String.◌∷◌ d r ↦ String.◌∷◌ c (String.◌∷◌ d r)
]

-- s.strip()
unfoldable pub strip : (ℕ → Bool) → String → String
unfolding strip_left strip_right
strip p s = strip_right p (strip_left p s)

-- The pieces of a text between the characters that pass the test, empty ones included.
unfoldable pub split_at : (ℕ → Bool) → String → List String
split_at p String.[] = String.[] ∷ []
split_at p (String.◌∷◌ c s) =
    if p (code c)
    then String.[] ∷ split_at p s
    else elim (split_at p s) [ [] ↦ String.◌∷◌ c String.[] ∷ [] | w ∷ ws ↦ String.◌∷◌ c w ∷ ws ]

-- sep.join(parts)
unfoldable pub join_with : String → List String → String
unfolding append
join_with sep [] = ""
join_with sep (p ∷ []) = p
join_with sep (p ∷ q ∷ ps) = append p (append sep (join_with sep (q ∷ ps)))
