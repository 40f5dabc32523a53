-- ===== src/RateLimit/Window.antt =====
-- Lists of hits in the order of their instants, and what leaves the window.
use smmfalcron.Prelude.{
  ℕ, ◌≡◌, refl, inl, inr, true, List, [], ◌∷◌, ◌++◌, ◌+◌, ◌≤◌, arith, leb, length, All, suc,
  if◌then◌else◌, Bool-cases,
}
use smmfalcron.RateLimit.{drop_old, is_stale}

abbrev pub IsAscending : List ℕ → Type 0
IsAscending [] = Unit
IsAscending (t ∷ q) = All (λ s. t ≤ s) q × IsAscending q

module _ (window : ℕ) where
  -- Once the newest hit has left the window, all have.
  pub stale-drop_old :
      (now later : ℕ) (q : List ℕ)
      → IsAscending q
      → now ≤ later
      → is_stale window now q ≡ true
      → drop_old window later q ≡ []
  stale-drop_old now later [] h le e = refl
  stale-drop_old now later (t ∷ []) h le e = ground arith
  stale-drop_old now later (t ∷ s ∷ q) ((ts, rest), h) le e =
      ground (arith, ts, stale-drop_old now later (s ∷ q) h le e)

  -- What is dropped now would be dropped later too.
  pub drop_old-drop_old :
      (now later : ℕ) (q : List ℕ)
      → now ≤ later
      → drop_old window later (drop_old window now q) ≡ drop_old window later q
  drop_old-drop_old now later [] le = refl
  drop_old-drop_old now later (t ∷ q) le = ground (arith, drop_old-drop_old now later q le)

  pub All-drop_old :
      (P : ℕ → Type 0) (now : ℕ) (q : List ℕ) → All P q → All P (drop_old window now q)
  All-drop_old P now [] h = tt
  All-drop_old P now (t ∷ q) (p, h) = elim (Bool-cases (leb (t + window) now)) [
    | inl old ↦ rw old (All-drop_old P now q h)
    | inr new ↦ rw new (p, h)
  ]

  pub drop_old-IsAscending :
      (now : ℕ) (q : List ℕ) → IsAscending q → IsAscending (drop_old window now q)
  drop_old-IsAscending now [] h = tt
  drop_old-IsAscending now (t ∷ q) (ts, h) = elim (Bool-cases (leb (t + window) now)) [
    | inl old ↦ rw old (drop_old-IsAscending now q h)
    | inr new ↦ rw new (ts, h)
  ]

  length-append-one : (now : ℕ) (q : List ℕ) → length (q ++ (now ∷ [])) ≡ suc (length q)
  length-append-one now [] = refl
  length-append-one now (s ∷ q) = omega (arith, length-append-one now q)

  -- A new hit counts as long as it is in the window itself.
  pub length-drop_old-append :
      (now later : ℕ) (q : List ℕ)
      → All (λ s. s ≤ now) q
      → length (drop_old window later (q ++ (now ∷ [])))
        ≡ (if leb (now + window) later then 0 else suc (length (drop_old window later q)))
  length-drop_old-append now later [] h = ground arith
  length-drop_old-append now later (t ∷ q) (le, h) =
      ground (arith, length-drop_old-append now later q h, length-append-one now q)

  -- Hits up to `now` have all left the window when one at `now` has.
  pub none-left :
      (now later : ℕ) (q : List ℕ)
      → All (λ s. s ≤ now) q
      → leb (now + window) later ≡ true
      → length (drop_old window later q) ≡ 0
  none-left now later [] h e = refl
  none-left now later (t ∷ q) (le, h) e = ground (arith, none-left now later q h e)

pub append-IsAscending :
    (now : ℕ) (q : List ℕ) → IsAscending q → All (λ s. s ≤ now) q → IsAscending (q ++ (now ∷ []))
append-IsAscending now [] h le = (tt, tt)
append-IsAscending now (t ∷ q) (ts, h) (le, les) =
    (All-append q ts le, append-IsAscending now q h les)
  where
    All-append : (q : List ℕ) → All (λ s. t ≤ s) q → t ≤ now → All (λ s. t ≤ s) (q ++ (now ∷ []))
    All-append [] hs e = (e, tt)
    All-append (s ∷ q) (h, hs) e = (h, All-append q hs e)

pub append-All :
    (now : ℕ) (q : List ℕ) → All (λ s. s ≤ now) q → All (λ s. s ≤ now) (q ++ (now ∷ []))
append-All now [] h = (omega arith, tt)
append-All now (t ∷ q) (le, h) = (le, append-All now q h)

pub All-later :
    (now later : ℕ) (q : List ℕ) → now ≤ later → All (λ s. s ≤ now) q → All (λ s. s ≤ later) q
All-later now later [] le h = tt
All-later now later (t ∷ q) le (e, h) = (omega (arith, e, le), All-later now later q le h)
