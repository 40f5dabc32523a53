-- ===== src/Table.antt =====
-- A database table keyed by its primary key: rows in order of insertion (models.py).
-- `session.get(T, key)` is `lookup`; adding a row or writing back a changed one is `put`.
use smmfalcron.Prelude.{
  ◌≡◌, refl, Option, none, some, List, [], ◌∷◌, arith, Eq, ◌==◌, if◌then◌else◌,
}

abbrev pub Table {ℓ κ} : Type ℓ → Type κ → Type (ℓ ⊔ κ)
Table K V = List (K × V)

module _ {ℓ κ} {K : Type ℓ} {V : Type κ} ⦃e : Eq K⦄ where
  unfoldable pub lookup : K → Table K V → Option V
  lookup k [] = none
  lookup k ((j, v) ∷ t) = if j == k then some v else lookup k t

  unfoldable pub put : K → V → Table K V → Table K V
  put k v [] = (k, v) ∷ []
  put k v ((j, w) ∷ t) = if j == k then (k, v) ∷ t else (j, w) ∷ put k v t

  unfoldable pub erase : K → Table K V → Table K V
  erase k [] = []
  erase k ((j, w) ∷ t) = let rest = erase k t in if j == k then rest else (j, w) ∷ rest

  -- Assignments to the row of a key, where there is one.
  unfoldable pub adjust : K → (V → V) → Table K V → Table K V
  adjust k f [] = []
  adjust k f ((j, w) ∷ t) = if j == k then (j, f w) ∷ t else (j, w) ∷ adjust k f t

  pub lookup-put :
      (k j : K) (v : V) (t : Table K V)
      → lookup j (put k v t) ≡ (if k == j then some v else lookup j t)
  unfolding lookup put
  lookup-put k j v [] = refl
  lookup-put k j v ((i, w) ∷ t) =
      ground (arith, e.same_iff k j, e.same_iff i k, e.same_iff i j, lookup-put k j v t)

  pub lookup-adjust :
      (k j : K) (f : V → V) (t : Table K V)
      → lookup j (adjust k f t)
        ≡ (if k == j then elim (lookup j t) [ none ↦ none | some v ↦ some (f v) ] else lookup j t)
  unfolding lookup adjust
  lookup-adjust k j f [] = ground arith
  lookup-adjust k j f ((i, w) ∷ t) =
      ground (arith, e.same_iff k j, e.same_iff i k, e.same_iff i j, lookup-adjust k j f t)

  pub lookup-erase :
      (k j : K) (t : Table K V) → lookup j (erase k t) ≡ (if k == j then none else lookup j t)
  unfolding lookup erase
  lookup-erase k j [] = ground arith
  lookup-erase k j ((i, w) ∷ t) =
      ground (arith, e.same_iff k j, e.same_iff i k, e.same_iff i j, lookup-erase k j t)
