-- ===== src/CatalogSync/Aborted.antt =====
-- Which answers a sync of app/sync.py takes over: those whose counts `looks_malformed` has nothing
-- against.
use smmfalcron.Prelude.{
  string_eq, ℕ, ◌≡◌, ◌≢◌, ◌↔◌, sym, ◌∙◌, ◌≤◌, ◌<◌, ◌⊎◌, ◌+◌, ◌*◌, refl, inl, inr, arith, String,
  true, false, Option, none, some, List, [], ◌∷◌, nat_eqb, length, select, Bool-cases,
}
use smmfalcron.Prelude.Int.{pos}
use smmfalcron.Table.{Table, lookup}
use smmfalcron.Models.{Db, Provider, Service}
use smmfalcron.Env.{Env}
use smmfalcron.Session.{Outcome, Ensures, returns, raises}
use smmfalcron.Session.Rules.{bind-Ensures}
use smmfalcron.Referrals.{rows}
use smmfalcron.Catalog.{audit}
use smmfalcron.CatalogSync.Normalize.{
  ProviderService, NormalizedService, category_id_for, service_id_for, looks_malformed,
  too_many_invalid, too_few,
}
use smmfalcron.CatalogSync.Counts.{count_new, accepted_ids, refused_count, normalize_all-counts}
use smmfalcron.CatalogSync.Provide.{
  report_refreshed, report_retired, take_row, take_rows, retire_all, add_service, add_new, has_row,
  refresh_service, activates, ensure_row, worth_noting, SyncReport, SyncStatus, aborted, ok, listed,
  is_live, fx_of, normalize_all, finish, take_listing, take_upstream, sync_provider,
}

module _ ⦃env : Env⦄ where
  -- The catalog is as before, and the sync has returned a report with the status.
  abbrev pub KeptCatalog : SyncStatus → Db → Outcome SyncReport × Db → Type 0
  KeptCatalog status db (returns report, after) =
      (report.status ≡ status) × (after.services ≡ db.services) × (after.categories ≡ db.categories)
  KeptCatalog status db (raises e, after) = ⊥

  -- Of a list of 10 rows or more, the share that is refused is above 0.30, as floats compare it.
  abbrev pub MostlyRefused : ℕ → ℕ → Type 0
  MostlyRefused fit refused =
      (10 ≤ fit + refused)
      × (env.le (env.div (env.of_int (pos refused)) (env.of_int (pos (fit + refused))))
            (env.div (env.of_int (pos 3)) (env.of_int (pos 10)))
          ≡ false)

  -- No row is fit, or too many are not, or of 20 services or more on offer less than half are left.
  abbrev pub IsDoubtful : ℕ → ℕ → ℕ → Type 0
  IsDoubtful live fit refused =
      (fit ≡ 0) ⊎ (MostlyRefused fit refused ⊎ ((20 ≤ live) × (2 * fit < live)))

  true_not_false : true ≢ false
  true_not_false e = ground (arith, e)

  too_many-MostlyRefused :
      (fit refused : ℕ) → (too_many_invalid fit refused ≡ true) ↔ MostlyRefused fit refused
  unfolding too_many_invalid
  too_many-MostlyRefused fit refused = ground arith

  too_few_iff : (live fit : ℕ) → (too_few live fit ≡ true) ↔ ((20 ≤ live) × (2 * fit < live))
  unfolding too_few
  too_few_iff live fit = ground arith

  some-none {ℓ} : {A : Type ℓ} {a : A} → some a ≢ none
  some-none {A} {a} e = ground (arith, e)

  looks_malformed-some :
      (live fit refused : ℕ) (reason : String)
      → looks_malformed live fit refused ≡ some reason
      → IsDoubtful live fit refused
  unfolding looks_malformed
  looks_malformed-some live fit refused reason e = elim (Bool-cases (nat_eqb fit 0)) [
    | inl nothing ↦ inl (ground (arith, nothing))
    | inr something ↦ elim (Bool-cases (too_many_invalid fit refused)) [
      | inl many ↦ inr (inl ((too_many-MostlyRefused fit refused).0 many))
      | inr few ↦ elim (Bool-cases (too_few live fit)) [
        | inl dropped ↦ inr (inr ((too_few_iff live fit).0 dropped))
        | inr kept ↦ absurd (some-none (sym (rw (something, few, kept) at e)))
      ]
    ]
  ]

  looks_malformed-none :
      (live fit refused : ℕ)
      → looks_malformed live fit refused ≡ none
      → ¬ IsDoubtful live fit refused
  unfolding looks_malformed
  looks_malformed-none live fit refused e doubtful = elim (Bool-cases (nat_eqb fit 0)) [
    | inl nothing ↦ some-none (rw nothing at e)
    | inr something ↦ elim (Bool-cases (too_many_invalid fit refused)) [
      | inl many ↦ some-none (rw (something, many) at e)
      | inr few ↦ elim (Bool-cases (too_few live fit)) [
        | inl dropped ↦ some-none (rw (something, few, dropped) at e)
        | inr kept ↦ elim doubtful [
          | inl none_fit ↦ ground (arith, something, none_fit)
          | inr (inl mostly) ↦
              true_not_false (sym ((too_many-MostlyRefused fit refused).1 mostly) ∙ few)
          | inr (inr halved) ↦ true_not_false (sym ((too_few_iff live fit).1 halved) ∙ kept)
        ]
      ]
    ]
  ]

module _ ⦃env : Env⦄ (provider : Provider) where
  -- Where it returns, the report has found nothing wrong.
  abbrev pub IsFine : Outcome SyncReport × Db → Type 0
  IsFine end = Ensures (λ report _. report.status ≡ ok) end

  refreshed_fine :
      (id : String) (n : NormalizedService) (before : Option Service) (report : SyncReport)
      → report.status ≡ ok
      → (report_refreshed id n before report).status ≡ ok
  refreshed_fine id n none report h = h
  refreshed_fine id n (some svc) report h = h

  retired_fine :
      (id : String) (before : Option Service) (report : SyncReport)
      → report.status ≡ ok
      → (report_retired id before report).status ≡ ok
  retired_fine id none report h = h
  retired_fine id (some svc) report h = elim (Bool-cases svc.is_removed_upstream) [
    | inl gone ↦ rw gone h
    | inr there ↦ rw there h
  ]

  take_row-IsFine :
      (n : NormalizedService) (known : Option String) (report : SyncReport) (db : Db)
      → report.status ≡ ok
      → IsFine (take_row provider n known report db)
  unfolding take_row add_service add_new refresh_service
  take_row-IsFine n none report db h =
      let cid = category_id_for n.category in
      let id = service_id_for provider.id n.external_id in
      let ready = ensure_row cid n.category (activates provider n) (lookup cid db.categories) db in
      elim (Bool-cases (has_row (lookup id ready.services))) [
        | inl taken ↦ rw taken tt
        | inr free ↦ rw free h
      ]
  take_row-IsFine n (some id) report db h = refreshed_fine id n (lookup id db.services) report h

  take_rows-IsFine :
      (known : Table String String) (listing : Table String NormalizedService) (report : SyncReport)
      (db : Db)
      → report.status ≡ ok
      → IsFine (take_rows provider known listing report db)
  unfolding take_rows
  take_rows-IsFine known [] report db h = h
  take_rows-IsFine known ((ext, n) ∷ listing) report db h =
      bind-Ensures (λ (r : SyncReport) _. r.status ≡ ok) (λ (r : SyncReport) _. r.status ≡ ok)
        (take_row provider n (lookup ext known) report) (take_rows provider known listing) db
        (take_row-IsFine n (lookup ext known) report db h)
        (λ further after fine. take_rows-IsFine known listing further after fine)

  retire_all-IsFine :
      (listing : Table String NormalizedService) (known : Table String String) (report : SyncReport)
      (db : Db)
      → report.status ≡ ok
      → IsFine (retire_all listing known report db)
  unfolding retire_all
  retire_all-IsFine listing [] report db h = h
  retire_all-IsFine listing ((ext, id) ∷ rest) report db h =
      elim (Bool-cases (has_row (lookup ext listing))) [
        | inl still ↦ rw still (retire_all-IsFine listing rest report db h)
        | inr gone ↦ rw gone (
            retire_all-IsFine listing rest (report_retired id (lookup id db.services) report) _
              (retired_fine id (lookup id db.services) report h))
      ]

  finish-IsFine :
      (report : SyncReport) (db : Db) → report.status ≡ ok → IsFine (finish provider report db)
  unfolding finish audit
  finish-IsFine report db h = elim (Bool-cases (worth_noting report)) [
    | inl noted ↦ rw noted h
    | inr silent ↦ rw silent h
  ]

  take_listing-IsFine :
      (listing : Table String NormalizedService) (known : Table String String) (report : SyncReport)
      (db : Db)
      → report.status ≡ ok
      → IsFine (take_listing provider listing known none report db)
  unfolding take_listing
  take_listing-IsFine listing known report db h =
      bind-Ensures (λ (r : SyncReport) _. r.status ≡ ok) (λ (r : SyncReport) _. r.status ≡ ok)
        (take_rows provider known listing report) _ db (take_rows-IsFine known listing report db h)
        (λ taken after fine.
          bind-Ensures (λ (r : SyncReport) _. r.status ≡ ok) (λ (r : SyncReport) _. r.status ≡ ok)
            (retire_all listing known taken) (finish provider) after
            (retire_all-IsFine listing known taken after fine)
            (λ done last fine'. finish-IsFine done last fine'))

  abbrev live_count : Db → ℕ
  live_count db = length (select (is_live provider.id) (rows db.services))

  -- The answer by its counts: how many different external ids pass `normalize_service`, and how many
  -- rows do not.
  abbrev pub IsMalformed : List ProviderService → Db → Type 0
  IsMalformed items db =
      IsDoubtful (live_count db) (count_new [] (accepted_ids (fx_of provider) items))
        (refused_count (fx_of provider) items)

  by_verdict :
      (items : List ProviderService) (db : Db) (verdict : Option String)
      → looks_malformed
          (live_count db)
          (length (normalize_all (fx_of provider) items ([], 0)).0)
          (normalize_all (fx_of provider) items ([], 0)).1
        ≡ verdict
      → (IsMalformed items db × KeptCatalog aborted db (sync_provider provider (listed items) db))
        ⊎ ((¬ IsMalformed items db) × IsFine (sync_provider provider (listed items) db))
  unfolding sync_provider take_upstream take_listing finish
  by_verdict items db (some reason) e =
      let (fit, refused) = normalize_all-counts (fx_of provider) items in
      inl (looks_malformed-some _ _ _ reason (rw (sym fit, sym refused) e), rw e (refl, refl, refl))
  by_verdict items db none e =
      let (fit, refused) = normalize_all-counts (fx_of provider) items in
      inr (
        looks_malformed-none _ _ _ (rw (sym fit, sym refused) e),
        rw e (take_listing-IsFine _ _ _ _ refl),
      )

  -- Whatever list a provider answers, one of two things holds. Either no row is fit, or of 10 rows or
  -- more the share refused is above 0.30, or of 20 services or more on offer less than half are
  -- left, and then the sync reports it as aborted and leaves every service and every category as it
  -- was. Or none of that holds, and then the sync reports that it is fine, where it returns. Fit
  -- rows are counted by their different external ids.
  pub sync_provider_judges :
      (items : List ProviderService) (db : Db)
      → (IsMalformed items db × KeptCatalog aborted db (sync_provider provider (listed items) db))
        ⊎ ((¬ IsMalformed items db) × IsFine (sync_provider provider (listed items) db))
  sync_provider_judges items db = by_verdict items db _ refl
