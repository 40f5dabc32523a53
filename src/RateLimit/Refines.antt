-- ===== src/RateLimit/Refines.antt =====
-- The limiter of app/ratelimit.py does what its reference says.
use smmfalcron.Prelude.{
  ℕ, ◌≡◌, ◌∙◌, refl, ap, inl, inr, String, Bool, true, false, List, [], ◌∷◌, ◌++◌, ◌+◌, ◌*◌, ◌≤◌,
  suc, arith, string_eq, ◌&&◌, ltb, leb, length, Bool-cases,
}
use smmfalcron.Table.{Table, lookup, put}
use smmfalcron.RateLimit.{RateLimiter, drop_stale, maybe_gc, admit, allow, answers, new_limiter}
use smmfalcron.RateLimit.Reference.{in_window, reference, InOrder}
use smmfalcron.RateLimit.Tables.{
  Agrees, length-put, length-drop_stale, drop_stale-Agrees, later-Agrees, left, refused-Agrees,
  admitted-Agrees,
}

-- A limiter with its table and its clock of collections replaced.
abbrev with_table : RateLimiter → Table String (List ℕ) → ℕ → RateLimiter
with_table l t g = record l { hits = t; last_gc = g }

unlimited :
    (requests : List (String × ℕ)) (l : RateLimiter) (log : List (String × ℕ))
    → leb l.limit 0 ≡ true
    → answers requests l ≡ reference l.limit l.window requests log
unfolding answers reference allow
unlimited [] l log e = refl
unlimited ((key, now) ∷ requests) l log e =
    rw e (ap (λ r. true ∷ r) (unlimited requests l ((key, now) ∷ log) e))

-- What holds of the requests that come after a collection at `now`.
abbrev Follows : RateLimiter → List (String × ℕ) → ℕ → Type 0
Follows l requests now =
    (t : Table String (List ℕ)) (g : ℕ) (log : List (String × ℕ))
    → Agrees l.window t log now
    → length requests + length t ≤ l.max_keys
    → answers requests (with_table l t g) ≡ reference l.limit l.window requests log

-- The answers to a request and those after it, once the table is collected.
abbrev answered : String → ℕ → List (String × ℕ) → RateLimiter → List Bool
answered key now requests m = let (ok, after) = admit key now m in ok ∷ answers requests after

answers-limited :
    (key : String) (now : ℕ) (requests : List (String × ℕ)) (l : RateLimiter)
    → leb l.limit 0 ≡ false
    → answers ((key, now) ∷ requests) l ≡ answered key now requests (maybe_gc now l)
unfolding answers allow
answers-limited key now requests l limited = rw limited refl

module _ (l : RateLimiter) (key : String) (now : ℕ) (requests : List (String × ℕ))
    (limited : leb l.limit 0 ≡ false) (rest : Follows l requests now) where
  admit-reference :
      (t : Table String (List ℕ)) (g : ℕ) (log : List (String × ℕ))
      → Agrees l.window t log now
      → length requests + suc (length t) ≤ l.max_keys
      → answered key now requests (with_table l t g)
        ≡ reference l.limit l.window ((key, now) ∷ requests) log
  unfolding admit reference
  admit-reference t g log h room =
      elim (Bool-cases (leb l.limit (length (left l.window t log now h key)))) [
        | inl full ↦
            rw (full, limited, over full)
              (ap (λ r. false ∷ r)
                (rest (put key (left l.window t log now h key) t) g log
                  (refused-Agrees l.window t log now h key)
                  (omega (arith, room, length-put key (left l.window t log now h key) t))))
        | inr free ↦
            rw (free, limited, under free)
              (ap (λ r. true ∷ r)
                (rest (put key (left l.window t log now h key ++ (now ∷ [])) t) g ((key, now) ∷ log)
                  (admitted-Agrees l.window t log now h key)
                  (omega
                    (arith, room, length-put key (left l.window t log now h key ++ (now ∷ [])) t))))
      ]
    where
      same : length (left l.window t log now h key) ≡ in_window l.window key now log
      same = h.counts key now (omega arith)

      over :
          leb l.limit (length (left l.window t log now h key)) ≡ true
          → ltb (in_window l.window key now log) l.limit ≡ false
      over e = ground (arith, e, same)

      under :
          leb l.limit (length (left l.window t log now h key)) ≡ false
          → ltb (in_window l.window key now log) l.limit ≡ true
      under e = ground (arith, e, same)

Agrees-reference :
    (requests : List (String × ℕ)) (l : RateLimiter) (log : List (String × ℕ)) (last : ℕ)
    → leb l.limit 0 ≡ false
    → Agrees l.window l.hits log last
    → InOrder last requests
    → length requests + length l.hits ≤ l.max_keys
    → answers requests l ≡ reference l.limit l.window requests log
unfolding answers reference maybe_gc
Agrees-reference [] l log last limited h order room = refl
Agrees-reference ((key, now) ∷ requests) l log last limited h (le, order) room =
    let following : Follows l requests now = λ t g log' h' room'.
      Agrees-reference requests (with_table l t g) log' now limited h' order room' in
    answers-limited key now requests l limited
    ∙ elim (Bool-cases (ltb now (l.last_gc + 60 * l.second) && ltb (length l.hits) l.max_keys)) [
      | inl early ↦ rw early (
          admit-reference l key now requests limited following l.hits l.last_gc log
            (later-Agrees l.window l.hits log last now h le) (omega (arith, room)))
      | inr due ↦
          rw (due, calm)
            (admit-reference l key now requests limited following (drop_stale l.window now l.hits)
              now log (drop_stale-Agrees l.window l.hits log last now h le)
              (omega (arith, room, length-drop_stale l.window now l.hits)))
    ]
  where
    calm : leb l.max_keys (length (drop_stale l.window now l.hits)) ≡ false
    calm = ground (arith, room, length-drop_stale l.window now l.hits)

-- From a new limiter, for requests whose instants do not go back and that are not more than the
-- limiter may hold keys, the limiter answers as the log of admitted requests says: a request is
-- admitted while fewer than the limit of its key's admitted requests are in the window, or always
-- where the limit is zero. The table, its pruning and its collections do not show.
pub allow_refines :
    (limit window max_keys second start : ℕ) (requests : List (String × ℕ))
    → InOrder start requests
    → length requests ≤ max_keys
    → answers requests (new_limiter limit window max_keys second start)
      ≡ reference limit window requests []
unfolding lookup
allow_refines limit window max_keys second start requests order room =
    elim (Bool-cases (leb limit 0)) [
      | inl off ↦ unlimited requests (new_limiter limit window max_keys second start) [] off
      | inr on ↦
          Agrees-reference requests (new_limiter limit window max_keys second start) [] start on
            (record {
              distinct = tt;
              ascending = λ key. tt;
              past = λ key. tt;
              counts = λ key now e. refl;
            })
            order (omega (arith, room))
    ]
