-- ===== src/CatalogSync/Kept.antt =====
-- The catalog sync of app/sync.py keeps whatever is stable: it writes to the catalog, the runs and the
-- audit trail only.
use smmfalcron.Prelude.{
  refl, inl, inr, String, Bool, not, Option, none, some, List, [], ◌∷◌, ◌&&◌, string_eq, length,
  select, Bool-cases,
}
use smmfalcron.Table.{Table, lookup}
use smmfalcron.Models.{Db, Provider, Category}
use smmfalcron.Env.{Env}
use smmfalcron.Session.{integrity_error, unexpected, write}
use smmfalcron.Catalog.{audit}
use smmfalcron.Session.Keeps.{
  Keeps, then-Keeps, bind-Keeps, read-Keeps, return-Keeps, raise_if-Keeps, if-Keeps, when-Keeps,
  attempted-Keeps, throw-Keeps,
}
use smmfalcron.Wallet.Stable.{Stable, write-Keeps}
use smmfalcron.Referrals.{rows}
use smmfalcron.Referrals.Kept.{audit-Keeps}
use smmfalcron.CatalogSync.Normalize.{
  NormalizedService, service_id_for, category_id_for, looks_malformed,
}
use smmfalcron.CatalogSync.Provide.{
  SyncReport, Upstream, failed, broken, listed, has_row, by_external, is_live, change_service,
  ensure_row, insert_service, retired, report_added, report_refreshed, report_retired,
  refresh_service, retire_all, normalize_all, add_service, take_row, take_rows, finished, finish,
  worth_noting, start_run, take_listing, take_upstream, sync_provider, report_or, sync_each,
  sync_all, needs_sync, fx_of, new_report, error, activates, add_new, refresh, activate_category,
}

-- The steps of a sync that write to the catalog.
pub record Syncing ⦃env : Env⦄ (I : Db → Type 0) (provider : Provider) : Type 0 where
  pub categories :
      (cid category : String) (active : Bool) (row : Option Category)
      → Keeps I (write (ensure_row cid category active row))
  pub inserts : (id cid : String) (n : NormalizedService) → Keeps I (add_new provider id cid n)
  pub refreshes : (n : NormalizedService) (id : String) → Keeps I (write (refresh n id))
  pub retires : (id : String) → Keeps I (write (change_service id retired))
  pub starts : Keeps I (write (start_run provider))
  pub finishes : (report : SyncReport) → Keeps I (write (finished provider report))
  pub audits :
      (actor action : String) (target reason : Option String)
      → Keeps I (audit actor action target reason)

module _ ⦃env : Env⦄ {I : Db → Type 0} (provider : Provider) (s : Syncing I provider) where
  refresh_service-Keeps :
      (n : NormalizedService) (id : String) (report : SyncReport)
      → Keeps I (refresh_service n id report)
  unfolding refresh_service
  refresh_service-Keeps n id report =
      bind-Keeps (read-Keeps {f = λ db. lookup id db.services}) λ before.
        then-Keeps (s.refreshes n id) (return-Keeps {a = report_refreshed id n before report})

  add_service-Keeps :
      (n : NormalizedService) (report : SyncReport) → Keeps I (add_service provider n report)
  unfolding add_service
  add_service-Keeps n report =
      let cid = category_id_for n.category in
      let id = service_id_for provider.id n.external_id in
      bind-Keeps (read-Keeps {f = λ db. lookup cid db.categories}) λ row.
        then-Keeps (s.categories cid n.category (activates provider n) row)
          (then-Keeps (s.inserts id cid n) (return-Keeps {a = report_added id n report}))

  take_row-Keeps :
      (n : NormalizedService) (known : Option String) (report : SyncReport)
      → Keeps I (take_row provider n known report)
  unfolding take_row
  take_row-Keeps n none report = add_service-Keeps n report
  take_row-Keeps n (some id) report = refresh_service-Keeps n id report

  take_rows-Keeps :
      (known : Table String String) (listing : Table String NormalizedService) (report : SyncReport)
      → Keeps I (take_rows provider known listing report)
  unfolding take_rows
  take_rows-Keeps known [] report = return-Keeps
  take_rows-Keeps known ((ext, n) ∷ listing) report =
      bind-Keeps (take_row-Keeps n (lookup ext known) report)
        λ further. take_rows-Keeps known listing further

  retire_all-Keeps :
      (listing : Table String NormalizedService) (known : Table String String) (report : SyncReport)
      → Keeps I (retire_all listing known report)
  unfolding retire_all
  retire_all-Keeps listing [] report = return-Keeps
  retire_all-Keeps listing ((ext, id) ∷ rest) report =
      if-Keeps (has_row (lookup ext listing)) (retire_all-Keeps listing rest report) (
        bind-Keeps (read-Keeps {f = λ db. lookup id db.services}) λ before.
          then-Keeps (s.retires id)
            (retire_all-Keeps listing rest (report_retired id before report)))

  finish-Keeps : (report : SyncReport) → Keeps I (finish provider report)
  unfolding finish
  finish-Keeps report = then-Keeps (s.finishes report) (
      then-Keeps
        (when-Keeps (worth_noting report)
          (s.audits "system" "provider.sync" (some provider.id) none))
        (return-Keeps {a = report}))

  take_listing-Keeps :
      (listing : Table String NormalizedService) (known : Table String String)
      (reason : Option String) (report : SyncReport)
      → Keeps I (take_listing provider listing known reason report)
  unfolding take_listing
  take_listing-Keeps listing known (some reason) report = finish-Keeps _
  take_listing-Keeps listing known none report =
      bind-Keeps (take_rows-Keeps known listing report)
        λ taken. bind-Keeps (retire_all-Keeps listing known taken) λ done. finish-Keeps done

  take_upstream-Keeps : (answer : Upstream) → Keeps I (take_upstream provider answer)
  unfolding take_upstream
  take_upstream-Keeps (failed message) = finish-Keeps _
  take_upstream-Keeps broken = throw-Keeps unexpected
  take_upstream-Keeps (listed items) =
      let listing = (normalize_all (fx_of provider) items ([], 0)).0 in
      let invalid = (normalize_all (fx_of provider) items ([], 0)).1 in
      bind-Keeps (read-Keeps {f = λ db. by_external provider.id db.services []}) λ known.
        bind-Keeps (read-Keeps {f = λ db. length (select (is_live provider.id) (rows db.services))})
          λ live.
            take_listing-Keeps listing known (looks_malformed live (length listing) invalid)
              (record (new_report provider.id) { skipped_invalid = invalid })

  pub sync_provider-Keeps : (answer : Upstream) → Keeps I (sync_provider provider answer)
  unfolding sync_provider
  sync_provider-Keeps answer = then-Keeps s.starts (take_upstream-Keeps answer)

module _ ⦃env : Env⦄ {I : Db → Type 0} where
  sync_each-Keeps :
      (upstream : String → Upstream) (ps : List Provider)
      → ((p : Provider) → Syncing I p)
      → Keeps I (sync_each upstream ps)
  unfolding sync_each
  sync_each-Keeps upstream [] s = return-Keeps
  sync_each-Keeps upstream (p ∷ ps) s =
      bind-Keeps (attempted-Keeps (sync_provider-Keeps p (s p) (upstream p.id))) λ out.
        bind-Keeps (sync_each-Keeps upstream ps s) λ reports.
          return-Keeps {a = report_or (record (new_report p.id) { status = error }) out ∷ reports}

  pub sync_all-Keeps :
      (upstream : String → Upstream) → ((p : Provider) → Syncing I p) → Keeps I (sync_all upstream)
  unfolding sync_all
  sync_all-Keeps upstream s =
      bind-Keeps (read-Keeps {f = λ db. select needs_sync (rows db.providers)})
        λ providers. sync_each-Keeps upstream providers s

module _ ⦃env : Env⦄ {I : Db → Type 0} (stable : Stable I) where
  ensure_row-Keeps :
      (cid category : String) (active : Bool) (row : Option Category)
      → Keeps I (write (ensure_row cid category active row))
  ensure_row-Keeps cid category active none =
      write-Keeps stable _ (λ _. refl) (λ _. refl) (λ _. refl)
  ensure_row-Keeps cid category active (some c) = elim (Bool-cases (active && not c.is_active)) [
    | inl on ↦
        rw on (write-Keeps stable (activate_category cid) (λ _. refl) (λ _. refl) (λ _. refl))
    | inr off ↦ rw off (write-Keeps stable (λ db. db) (λ _. refl) (λ _. refl) (λ _. refl))
  ]

  add_new-Keeps :
      (provider : Provider) (id cid : String) (n : NormalizedService)
      → Keeps I (add_new provider id cid n)
  unfolding add_new
  add_new-Keeps provider id cid n =
      bind-Keeps (read-Keeps {f = λ db. has_row (lookup id db.services)}) λ taken.
        then-Keeps (raise_if-Keeps taken integrity_error) (
          write-Keeps stable (insert_service id cid provider.id (activates provider n) n)
            (λ _. refl) (λ _. refl) (λ _. refl))

  -- What is stable withstands a sync too.
  pub Stable-Syncing : (provider : Provider) → Syncing I provider
  Stable-Syncing provider = record {
    categories = ensure_row-Keeps;
    inserts = add_new-Keeps provider;
    refreshes = λ n id. write-Keeps stable _ (λ _. refl) (λ _. refl) (λ _. refl);
    retires = λ id. write-Keeps stable _ (λ _. refl) (λ _. refl) (λ _. refl);
    starts = write-Keeps stable _ (λ _. refl) (λ _. refl) (λ _. refl);
    finishes = λ report. write-Keeps stable _ (λ _. refl) (λ _. refl) (λ _. refl);
    audits = audit-Keeps stable;
  }
