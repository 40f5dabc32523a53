-- ===== src/RateLimit/Tables.antt =====
-- The table of the limiter of app/ratelimit.py next to a log of the admitted requests: each key's hits
-- count what the log counts.
use mathlib.Core.Path.{subst}
use smmfalcron.Prelude.{
  ℕ, ◌≡◌, refl, sym, ap, ◌∙◌, inl, inr, String, false, Option, none, some, List, [], ◌∷◌, ◌++◌, ◌+◌,
  ◌≤◌, suc, arith, string_eq, ◌==◌, ==_iff, ==_refl, ==_symm, leb, length, All, Bool-cases,
  if◌then◌else◌,
}
use smmfalcron.Table.{Table, lookup, put, lookup-put}
use smmfalcron.RateLimit.{hits_of, drop_old, is_stale, drop_stale}
use smmfalcron.RateLimit.Window.{
  IsAscending, stale-drop_old, drop_old-drop_old, All-drop_old, drop_old-IsAscending,
  length-drop_old-append, none-left, append-IsAscending, append-All, All-later,
}
use smmfalcron.RateLimit.Reference.{in_window}

-- No key has two rows.
abbrev Distinct : Table String (List ℕ) → Type 0
Distinct [] = Unit
Distinct ((k, q) ∷ t) = (lookup k t ≡ none) × Distinct t

-- The hits of each key are in order, and count what the log counts.
pub record Agrees (window : ℕ) (t : Table String (List ℕ)) (log : List (String × ℕ)) (last : ℕ)
    : Type 0 where
  pub distinct : Distinct t
  pub ascending : (key : String) → IsAscending (hits_of (lookup key t))
  pub past : (key : String) → All (λ s. s ≤ last) (hits_of (lookup key t))
  pub counts :
      (key : String) (now : ℕ)
      → last ≤ now
      → length (drop_old window now (hits_of (lookup key t))) ≡ in_window window key now log

put-Distinct :
    (k : String) (q : List ℕ) (t : Table String (List ℕ)) → Distinct t → Distinct (put k q t)
unfolding put lookup
put-Distinct k q [] h = (refl, tt)
put-Distinct k q ((j, r) ∷ t) (new, h) = elim (Bool-cases (j == k)) [
  | inl same ↦ rw same ((ap (λ x. lookup x t) (sym ((==_iff j k).0 same)) ∙ new), h)
  | inr other ↦ rw other (lookup-put k j q t ∙ rw (==_symm k j ∙ other) new, put-Distinct k q t h)
]

pub length-put :
    (k : String) (q : List ℕ) (t : Table String (List ℕ)) → length (put k q t) ≤ suc (length t)
unfolding put
length-put k q [] = omega arith
length-put k q ((j, r) ∷ t) = ground (arith, length-put k q t)

module _ (window now : ℕ) where
  abbrev unless_stale : Option (List ℕ) → Option (List ℕ)
  unless_stale none = none
  unless_stale (some q) = if is_stale window now q then none else some q

  lookup-drop_stale :
      (key : String) (t : Table String (List ℕ))
      → Distinct t
      → lookup key (drop_stale window now t) ≡ unless_stale (lookup key t)
  unfolding lookup
  lookup-drop_stale key [] h = refl
  lookup-drop_stale key ((k, q) ∷ t) (new, h) = elim (Bool-cases (is_stale window now q)) [
    | inl stale ↦ elim (Bool-cases (k == key)) [
      | inl same ↦
          rw (stale, same, stale)
            (lookup-drop_stale key t h
              ∙ ap unless_stale (ap (λ x. lookup x t) (sym ((==_iff k key).0 same)) ∙ new))
      | inr other ↦ rw (stale, other) (lookup-drop_stale key t h)
    ]
    | inr fresh ↦ elim (Bool-cases (k == key)) [
      | inl same ↦ rw (fresh, same, fresh) refl
      | inr other ↦ rw (fresh, other) (lookup-drop_stale key t h)
    ]
  ]

  pub length-drop_stale : (t : Table String (List ℕ)) → length (drop_stale window now t) ≤ length t
  length-drop_stale [] = omega arith
  length-drop_stale ((k, q) ∷ t) = ground (arith, length-drop_stale t)

  drop_stale-Distinct :
      (t : Table String (List ℕ)) → Distinct t → Distinct (drop_stale window now t)
  drop_stale-Distinct [] h = tt
  drop_stale-Distinct ((k, q) ∷ t) (new, h) = elim (Bool-cases (is_stale window now q)) [
    | inl stale ↦ rw stale (drop_stale-Distinct t h)
    | inr fresh ↦ rw fresh (lookup-drop_stale k t h ∙ ap unless_stale new, drop_stale-Distinct t h)
  ]

module _ (window : ℕ) (t : Table String (List ℕ)) (log : List (String × ℕ)) (last now : ℕ)
    (h : Agrees window t log last) (le : last ≤ now) where
  -- The rows that the collection drops count for nothing from now on.
  kept-counts :
      (q : Option (List ℕ)) (later : ℕ)
      → IsAscending (hits_of q)
      → now ≤ later
      → length (drop_old window later (hits_of (unless_stale window now q)))
        ≡ length (drop_old window later (hits_of q))
  kept-counts none later asc e = refl
  kept-counts (some q) later asc e = elim (Bool-cases (is_stale window now q)) [
    | inl stale ↦ rw (stale, stale-drop_old window now later q asc e stale) refl
    | inr fresh ↦ rw fresh refl
  ]

  kept-hits :
      (P : List ℕ → Type 0) (q : Option (List ℕ))
      → P []
      → P (hits_of q)
      → P (hits_of (unless_stale window now q))
  kept-hits P none empty p = p
  kept-hits P (some q) empty p = elim (Bool-cases (is_stale window now q)) [
    | inl stale ↦ rw stale empty
    | inr fresh ↦ rw fresh p
  ]

  pub drop_stale-Agrees : Agrees window (drop_stale window now t) log now
  drop_stale-Agrees = record {
    distinct = drop_stale-Distinct window now t h.distinct;
    ascending = λ key.
        subst (λ o. IsAscending (hits_of o)) (sym (lookup-drop_stale window now key t h.distinct))
          (kept-hits IsAscending (lookup key t) tt (h.ascending key));
    past = λ key.
        subst (λ o. All (λ s. s ≤ now) (hits_of o))
          (sym (lookup-drop_stale window now key t h.distinct))
          (kept-hits (All (λ s. s ≤ now)) (lookup key t) tt
            (All-later last now (hits_of (lookup key t)) le (h.past key)));
    counts = λ key later e.
        ap (λ o. length (drop_old window later (hits_of o)))
          (lookup-drop_stale window now key t h.distinct)
        ∙ kept-counts (lookup key t) later (h.ascending key) e
        ∙ h.counts key later (omega (arith, e, le));
  }

  pub later-Agrees : Agrees window t log now
  later-Agrees = record {
    distinct = h.distinct;
    ascending = h.ascending;
    past = λ key. All-later last now (hits_of (lookup key t)) le (h.past key);
    counts = λ key later e. h.counts key later (omega (arith, e, le));
  }

-- A row that is written again with what its key counts.
module _ (window : ℕ) (t : Table String (List ℕ)) (log log' : List (String × ℕ)) (now : ℕ)
    (h : Agrees window t log now) (key : String) (q : List ℕ) (asc : IsAscending q)
    (past : All (λ s. s ≤ now) q)
    (own : (later : ℕ)
      → now ≤ later
      → length (drop_old window later q) ≡ in_window window key later log')
    (others : (k : String) (later : ℕ)
      → (key == k) ≡ false
      → in_window window k later log ≡ in_window window k later log') where
  hits-put :
      (P : String → List ℕ → Type 0) (k : String)
      → P key q
      → ((key == k) ≡ false → P k (hits_of (lookup k t)))
      → P k (hits_of (lookup k (put key q t)))
  hits-put P k p rest =
      subst (λ o. P k (hits_of o)) (sym (lookup-put key k q t))
        (elim (Bool-cases (key == k)) [
          | inl same ↦ rw same (subst (λ j. P j q) ((==_iff key k).0 same) p)
          | inr other ↦ rw other (rest other)
        ])

  put-Agrees : Agrees window (put key q t) log' now
  put-Agrees = record {
    distinct = put-Distinct key q t h.distinct;
    ascending = λ k. hits-put (λ _ r. IsAscending r) k asc (λ _. h.ascending k);
    past = λ k. hits-put (λ _ r. All (λ s. s ≤ now) r) k past (λ _. h.past k);
    counts = λ k later e.
        hits-put (λ j r. length (drop_old window later r) ≡ in_window window j later log') k
          (own later e) (λ other. h.counts k later e ∙ others k later other);
  }

module _ (window : ℕ) (t : Table String (List ℕ)) (log : List (String × ℕ)) (now : ℕ)
    (h : Agrees window t log now) (key : String) where
  abbrev pub left : List ℕ
  left = drop_old window now (hits_of (lookup key t))

  left-IsAscending : IsAscending left
  left-IsAscending = drop_old-IsAscending window now (hits_of (lookup key t)) (h.ascending key)

  left-past : All (λ s. s ≤ now) left
  left-past = All-drop_old window (λ s. s ≤ now) now (hits_of (lookup key t)) (h.past key)

  left-counts :
      (later : ℕ)
      → now ≤ later
      → length (drop_old window later left) ≡ in_window window key later log
  left-counts later e =
      ap length (drop_old-drop_old window now later (hits_of (lookup key t)) e)
      ∙ h.counts key later e

  pub refused-Agrees : Agrees window (put key left t) log now
  refused-Agrees =
      put-Agrees window t log log now h key left left-IsAscending left-past left-counts
        (λ _ _ _. refl)

  admitted-counts :
      (later : ℕ)
      → now ≤ later
      → length (drop_old window later (left ++ (now ∷ [])))
        ≡ in_window window key later ((key, now) ∷ log)
  admitted-counts later e =
      length-drop_old-append window now later left left-past
      ∙ elim (Bool-cases (leb (now + window) later)) [
        | inl gone ↦ ground (
          arith,
          gone,
          ==_refl key,
          left-counts later e,
          none-left window now later left left-past gone,
        )
        | inr counted ↦ ground (arith, counted, ==_refl key, left-counts later e)
      ]

  pub admitted-Agrees : Agrees window (put key (left ++ (now ∷ [])) t) ((key, now) ∷ log) now
  admitted-Agrees =
      put-Agrees window t log ((key, now) ∷ log) now h key (left ++ (now ∷ []))
        (append-IsAscending now left left-IsAscending left-past) (append-All now left left-past)
        admitted-counts (λ k later other. rw other refl)
