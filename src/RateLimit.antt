-- ===== src/RateLimit.antt =====
-- app/ratelimit.py: a sliding window of hits per key, held in memory. Instants and spans are whole
-- numbers of the clock's unit, of which `second` make a second; their sums are exact.
pub mod Window
pub mod Reference
pub mod Tables
pub mod Refines
use smmfalcron.Prelude.{
  ℕ, String, Bool, true, false, not, Option, none, some, List, [], ◌∷◌, ◌++◌, ◌+◌, ◌-◌, ◌*◌, ◌/◌,
  ◌&&◌, ◌||◌, string_eq, ltb, leb, max, length, if◌then◌else◌,
}
use smmfalcron.Table.{Table, lookup, put}

-- A limit that is not positive is written 0, which the code treats alike.
pub record RateLimiter : Type 0 where
  pub limit : ℕ
  pub window : ℕ
  pub max_keys : ℕ
  pub second : ℕ
  pub hits : Table String (List ℕ)
  pub last_gc : ℕ

abbrev pub hits_of : Option (List ℕ) → List ℕ
hits_of none = []
hits_of (some q) = q

-- `while q and q[0] <= cutoff: q.popleft()`, the oldest hit first
abbrev pub drop_old : ℕ → ℕ → List ℕ → List ℕ
drop_old window now [] = []
drop_old window now (t ∷ q) =
    let rest = drop_old window now q in if leb (t + window) now then rest else t ∷ q

-- `not q or q[-1] <= cutoff`
abbrev pub is_stale : ℕ → ℕ → List ℕ → Bool
is_stale window now [] = true
is_stale window now (t ∷ []) = leb (t + window) now
is_stale window now (t ∷ s ∷ q) = is_stale window now (s ∷ q)

abbrev pub drop_stale : ℕ → ℕ → Table String (List ℕ) → Table String (List ℕ)
drop_stale window now [] = []
drop_stale window now ((k, q) ∷ t) =
    let rest = drop_stale window now t in if is_stale window now q then rest else (k, q) ∷ rest

-- `if len(self._hits) >= self.max_keys: self._hits.clear()`
abbrev pub clear_flood : ℕ → Table String (List ℕ) → Table String (List ℕ)
clear_flood max_keys t = if leb max_keys (length t) then [] else t

unfoldable pub maybe_gc : ℕ → RateLimiter → RateLimiter
maybe_gc now l =
    if ltb now (l.last_gc + 60 * l.second) && ltb (length l.hits) l.max_keys
    then l
    else record l { last_gc = now; hits = clear_flood l.max_keys (drop_stale l.window now l.hits) }

-- The key's hits that count at `now`.
abbrev pub recent : String → ℕ → RateLimiter → List ℕ
recent key now l = drop_old l.window now (hits_of (lookup key l.hits))

abbrev pub set_hits : String → List ℕ → RateLimiter → RateLimiter
set_hits key q l = record l { hits = put key q l.hits }

unfoldable pub admit : String → ℕ → RateLimiter → Bool × RateLimiter
admit key now l =
    if leb l.limit (length (recent key now l))
    then (false, set_hits key (recent key now l) l)
    else (true, set_hits key (recent key now l ++ (now ∷ [])) l)

unfoldable pub allow : String → ℕ → RateLimiter → Bool × RateLimiter
unfolding maybe_gc admit
allow key now l = if leb l.limit 0 then (true, l) else admit key now (maybe_gc now l)

-- `max(1, int(q[0] + self.window - now) + 1)`; before the oldest hit leaves the window the
-- difference is positive, and after that its whole part is at most 0.
abbrev wait : RateLimiter → ℕ → List ℕ → ℕ
wait l now [] = 0
wait l now (t ∷ q) = max 1 ((t + l.window - now) / l.second + 1)

unfoldable pub retry_after : String → ℕ → RateLimiter → ℕ
retry_after key now l = wait l now (hits_of (lookup key l.hits))

-- A limiter as it is made at `now`.
abbrev pub new_limiter : ℕ → ℕ → ℕ → ℕ → ℕ → RateLimiter
new_limiter limit window max_keys second now = record {
  limit = limit;
  window = window;
  max_keys = max_keys;
  second = second;
  hits = [];
  last_gc = now;
}

-- The answers to a run of requests, each a key and an instant.
unfoldable pub answers : List (String × ℕ) → RateLimiter → List Bool
unfolding allow
answers [] l = []
answers ((key, now) ∷ requests) l =
    let (admitted, after) = allow key now l in admitted ∷ answers requests after
