-- ===== src/Tests/LimiterTests.antt =====
-- A witness for the rate limiter: two requests a minute, four requests of one user and one of another.
use smmfalcron.Prelude.{ℕ, ◌≡◌, String, List, [], ◌∷◌, arith}
use smmfalcron.RateLimit.{answers, new_limiter}
use smmfalcron.RateLimit.Reference.{reference}
use smmfalcron.RateLimit.Refines.{allow_refines}

abbrev burst : List (String × ℕ)
burst = ("1", 5) ∷ ("1", 6) ∷ ("1", 20) ∷ ("2", 21) ∷ ("1", 66) ∷ []

allow_refines_example : answers burst (new_limiter 2 60 50_000 1 0) ≡ reference 2 60 burst []
allow_refines_example =
    allow_refines 2 60 50_000 1 0 burst
      (omega arith, (omega arith, (omega arith, (omega arith, (omega arith, tt))))) (omega arith)
