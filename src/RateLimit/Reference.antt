-- ===== src/RateLimit/Reference.antt =====
-- What the limiter of app/ratelimit.py promises, without its tables: a request is admitted while fewer
-- than `limit` of the key's admitted requests are in the window.
use smmfalcron.Prelude.{
  ℕ, String, Bool, List, [], ◌∷◌, ◌+◌, ◌≤◌, suc, string_eq, ◌==◌, ◌&&◌, ◌||◌, ltb, leb,
  if◌then◌else◌,
}

-- The key's requests in a log that are in the window at `now`.
abbrev pub in_window : ℕ → String → ℕ → List (String × ℕ) → ℕ
in_window window key now [] = 0
in_window window key now ((k, t) ∷ log) =
    let rest = in_window window key now log in
    if k == key && ltb now (t + window) then suc rest else rest

abbrev pub admissible : ℕ → ℕ → String → ℕ → List (String × ℕ) → Bool
admissible limit window key now log = leb limit 0 || ltb (in_window window key now log) limit

-- The answers to a run of requests, by the log of those admitted so far.
unfoldable pub reference : ℕ → ℕ → List (String × ℕ) → List (String × ℕ) → List Bool
reference limit window [] log = []
reference limit window ((key, now) ∷ requests) log =
    let ok = admissible limit window key now log in
    ok ∷ reference limit window requests (if ok then (key, now) ∷ log else log)

-- The instants do not go back.
abbrev pub InOrder : ℕ → List (String × ℕ) → Type 0
InOrder last [] = Unit
InOrder last ((key, now) ∷ requests) = (last ≤ now) × InOrder now requests
