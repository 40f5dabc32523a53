-- ===== src/CatalogSync/Counts.antt =====
-- What `normalize_all` of a catalog sync comes to, counted from the provider's list: the different ids
-- of the rows that pass, and the number of those that do not.
use smmfalcron.Prelude.{
  ℕ, ◌≡◌, refl, inl, inr, sym, ap, ◌∙◌, String, Bool, true, false, Option, none, some, List, [],
  ◌∷◌, ◌+◌, ◌==◌, ◌||◌, suc, arith, string_eq, ==_iff, length, Bool-cases, Option-cases,
  if◌then◌else◌,
}
use smmfalcron.Table.{Table, lookup, put, lookup-put}
use smmfalcron.Models.{Float}
use smmfalcron.Env.{Env}
use smmfalcron.CatalogSync.Normalize.{ProviderService, NormalizedService, normalize_service}
use smmfalcron.CatalogSync.Provide.{has_row, normalize_all}

abbrev pub among : String → List String → Bool
among id [] = false
among id (k ∷ ks) = k == id || among id ks

-- How many ids there are that were not seen before, each counted once.
abbrev pub count_new : List String → List String → ℕ
count_new seen [] = 0
count_new seen (id ∷ ids) =
    let again = count_new seen ids in
    let first = count_new (id ∷ seen) ids in if among id seen then again else suc first

length-put :
    (id : String) (n : NormalizedService) (t : Table String NormalizedService)
    → length (put id n t) ≡ (if has_row (lookup id t) then length t else suc (length t))
unfolding put lookup
length-put id n [] = refl
length-put id n ((k, m) ∷ t) = elim (Bool-cases (k == id)) [
  | inl same ↦ rw same refl
  | inr other ↦
      rw (other, length-put id n t)
        (elim (Bool-cases (has_row (lookup id t))) [
          | inl old ↦ rw old refl
          | inr new ↦ rw new refl
        ])
]

-- The ids of a table's rows are those seen.
abbrev HasSeen : List String → Table String NormalizedService → Type 0
HasSeen seen t = (id : String) → has_row (lookup id t) ≡ among id seen

HasSeen-put :
    (id : String) (n : NormalizedService) (seen : List String) (t : Table String NormalizedService)
    → HasSeen seen t
    → HasSeen (id ∷ seen) (put id n t)
HasSeen-put id n seen t h j =
    rw (lookup-put id j n t)
      (elim (Bool-cases (id == j)) [ inl same ↦ rw same refl | inr other ↦ rw other (h j) ])

HasSeen-again :
    (id : String) (n : NormalizedService) (seen : List String) (t : Table String NormalizedService)
    → among id seen ≡ true
    → HasSeen seen t
    → HasSeen seen (put id n t)
HasSeen-again id n seen t old h j = rw (lookup-put id j n t) (elim (Bool-cases (id == j)) [
  | inl same ↦ rw same (sym old ∙ ap (λ k. among k seen) ((==_iff id j).0 same))
  | inr other ↦ rw other (h j)
])

module _ ⦃env : Env⦄ where
  abbrev id_of : Option NormalizedService → List String → List String
  id_of none ids = ids
  id_of (some n) ids = n.external_id ∷ ids

  abbrev one_refused : Option NormalizedService → ℕ → ℕ
  one_refused none n = suc n
  one_refused (some m) n = n

  -- The ids of the rows that `normalize_service` lets through, in the provider's order.
  unfoldable pub accepted_ids : Float → List ProviderService → List String
  accepted_ids fx [] = []
  accepted_ids fx (item ∷ items) =
      let rest = accepted_ids fx items in id_of (normalize_service item fx) rest

  -- How many rows it does not let through.
  unfoldable pub refused_count : Float → List ProviderService → ℕ
  refused_count fx [] = 0
  refused_count fx (item ∷ items) =
      let rest = refused_count fx items in one_refused (normalize_service item fx) rest

  -- The two counts, from a table and a number at which the loop stands.
  abbrev Counted :
      Float → List ProviderService → List String → Table String NormalizedService → ℕ → Type 0
  Counted fx items seen t invalid =
      (length (normalize_all fx items (t, invalid)).0
        ≡ length t + count_new seen (accepted_ids fx items))
      × ((normalize_all fx items (t, invalid)).1 ≡ invalid + refused_count fx items)

  step-Counted :
      (fx : Float) (n : NormalizedService) (items : List ProviderService) (seen : List String)
      (t : Table String NormalizedService) (invalid : ℕ)
      → HasSeen seen t
      → ((seen' : List String) (t' : Table String NormalizedService)
          → HasSeen seen' t'
          → Counted fx items seen' t' invalid)
      → (length (normalize_all fx items (put n.external_id n t, invalid)).0
          ≡ length t + count_new seen (n.external_id ∷ accepted_ids fx items))
        × ((normalize_all fx items (put n.external_id n t, invalid)).1
            ≡ invalid + refused_count fx items)
  step-Counted fx n items seen t invalid h rest =
      let id = n.external_id in
      let longer = length-put id n t in
      elim (Bool-cases (among id seen)) [
        | inl old ↦
            let (count, refused) = rest seen (put id n t) (HasSeen-again id n seen t old h) in
            let same : length (put id n t) ≡ length t = longer ∙ rw (h id, old) refl in
            (rw old (omega (arith, count, same)), refused)
        | inr new ↦
            let (count, refused) = rest (id ∷ seen) (put id n t) (HasSeen-put id n seen t h) in
            let more : length (put id n t) ≡ suc (length t) = longer ∙ rw (h id, new) refl in
            (rw new (omega (arith, count, more)), refused)
      ]

  normalize_all_refused :
      (fx : Float) (item : ProviderService) (items : List ProviderService)
      (t : Table String NormalizedService) (invalid : ℕ)
      → normalize_service item fx ≡ none
      → normalize_all fx (item ∷ items) (t, invalid) ≡ normalize_all fx items (t, suc invalid)
  unfolding normalize_all
  normalize_all_refused fx item items t invalid e = rw (normalize_all, e) refl

  normalize_all_fit :
      (fx : Float) (item : ProviderService) (items : List ProviderService)
      (t : Table String NormalizedService) (invalid : ℕ) (n : NormalizedService)
      → normalize_service item fx ≡ some n
      → normalize_all fx (item ∷ items) (t, invalid)
        ≡ normalize_all fx items (put n.external_id n t, invalid)
  unfolding normalize_all
  normalize_all_fit fx item items t invalid n e = rw (normalize_all, e) refl

  normalize_all-Counted :
      (fx : Float) (items : List ProviderService) (seen : List String)
      (t : Table String NormalizedService) (invalid : ℕ)
      → HasSeen seen t
      → Counted fx items seen t invalid
  unfolding accepted_ids refused_count
  normalize_all-Counted fx [] seen t invalid h = unfold normalize_all in (omega arith, omega arith)
  normalize_all-Counted fx (item ∷ items) seen t invalid h =
      elim (Option-cases (normalize_service item fx)) [
        | inl refused ↦
            let (count, more) = normalize_all-Counted fx items seen t (suc invalid) h in
            rw (normalize_all_refused fx item items t invalid refused, refused)
              (count, omega (arith, more))
        | inr (n, fit) ↦
            rw (normalize_all_fit fx item items t invalid n fit, fit)
              (step-Counted fx n items seen t invalid h
                (λ seen' t' h'. normalize_all-Counted fx items seen' t' invalid h'))
      ]

  -- From the start of the loop.
  pub normalize_all-counts :
      (fx : Float) (items : List ProviderService)
      → (length (normalize_all fx items ([], 0)).0 ≡ count_new [] (accepted_ids fx items))
        × ((normalize_all fx items ([], 0)).1 ≡ refused_count fx items)
  unfolding lookup
  normalize_all-counts fx items =
      let (count, refused) = normalize_all-Counted fx items [] [] 0 (λ id. refl) in
      (omega (arith, count), omega (arith, refused))
