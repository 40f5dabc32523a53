-- ===== src/CatalogSync/Provide.antt =====
-- app/sync.py: `sync_provider` and `sync_all`. The texts of the single changes are for people, and the
-- report keeps their kinds only.
use smmfalcron.Prelude.{
  ℕ, String, Bool, true, false, not, Option, none, some, List, [], ◌∷◌, ◌++◌, ◌&&◌, ◌||◌, ◌==◌, ◌+◌,
  suc, string_eq, nat_eqb, select, length, append, truncate, join_with, if◌then◌else◌,
}
use smmfalcron.Prelude.Int.{pos, eqb_ℤ}
use smmfalcron.Table.{Table, lookup, put, adjust}
use smmfalcron.Models.{Db, Float, Provider, Category, Service, SyncRun}
use smmfalcron.Env.{Env}
use smmfalcron.Session.{
  Session, Outcome, returns, raises, integrity_error, ◌>>=◌, ◌>>◌, return, read, write, raise_if,
  when, attempted, throw, unexpected,
}
use smmfalcron.Catalog.{audit}
use smmfalcron.Referrals.{rows}
use smmfalcron.CatalogSync.Normalize.{
  ProviderService, NormalizedService, is_supported, service_id_for, category_id_for,
  normalize_service, looks_malformed,
}

-- `Change.kind`
pub data ChangeKind : Type 0 where
  new rate limits removed restored name capabilities : ChangeKind

-- `SyncReport.status`
pub data SyncStatus : Type 0 where
  ok aborted error : SyncStatus

abbrev pub status_text : SyncStatus → String
status_text ok = "ok"
status_text aborted = "aborted"
status_text error = "error"

abbrev is_ok : SyncStatus → Bool
is_ok ok = true
is_ok aborted = false
is_ok error = false

pub record SyncReport : Type 0 where
  pub provider_id : String
  pub status : SyncStatus
  pub detail : String
  pub added : ℕ
  pub updated : ℕ
  pub removed : ℕ
  pub restored : ℕ
  pub unchanged : ℕ
  pub skipped_invalid : ℕ
  pub unsupported_new : ℕ
  pub changes : List (String × ChangeKind)

abbrev pub new_report : String → SyncReport
new_report provider_id = record {
  provider_id = provider_id;
  status = ok;
  detail = "";
  added = 0;
  updated = 0;
  removed = 0;
  restored = 0;
  unchanged = 0;
  skipped_invalid = 0;
  unsupported_new = 0;
  changes = [];
}

-- The adapter's answer: `ProviderError` or `ValueError` with its text, another exception, or the list.
pub data Upstream : Type 0 where
  failed : String → Upstream
  broken : Upstream
  listed : List ProviderService → Upstream

abbrev pub has_row {ℓ} : {A : Type ℓ} → Option A → Bool
has_row none = false
has_row (some a) = true

-- `{s.provider_service_id: s for s in existing_rows}`: the last row wins.
unfoldable pub by_external :
    String → Table String Service → Table String String → Table String String
by_external provider_id [] known = known
by_external provider_id ((id, svc) ∷ t) known =
    by_external provider_id t
      (if svc.provider_id == provider_id then put svc.provider_service_id id known else known)

abbrev pub is_live : String → Service → Bool
is_live provider_id svc = svc.provider_id == provider_id && not svc.is_removed_upstream

abbrev pub change_service : String → (Service → Service) → Db → Db
change_service id f db = record db { services = adjust id f db.services }

abbrev pub add_category : String → String → Bool → Db → Db
add_category cid category active db =
    let row : Category = record {
      id = cid;
      name = truncate 80 category;
      sort_order = 1_000;
      is_active = active;
      markup_percent = none;
      markup_fixed_paise = none;
    } in
    record db { categories = put cid row db.categories }

abbrev pub activate_category : String → Db → Db
activate_category cid db = record db {
  categories = adjust cid (λ c. record c { is_active = true }) db.categories;
}

-- `_ensure_category`; the session holds each row once, so its cache does not show.
abbrev pub ensure_row : String → String → Bool → Option Category → Db → Db
ensure_row cid category active none = add_category cid category active
ensure_row cid category active (some c) =
    if active && not c.is_active then activate_category cid else λ db. db

-- `auto and n.supported`
abbrev pub activates : Provider → NormalizedService → Bool
activates provider n = provider.auto_activate_new && is_supported n.service_type

abbrev pub new_service : ℕ → String → String → String → Bool → NormalizedService → Service
new_service now id cid provider_id active n = record {
  id = id;
  category_id = cid;
  provider_id = provider_id;
  provider_service_id = n.external_id;
  name = n.name;
  service_type = n.service_type;
  min_qty = n.min_qty;
  max_qty = n.max_qty;
  rate_per_1000_paise = n.rate_per_1000_paise;
  markup_percent = none;
  markup_fixed_paise = none;
  is_active = active;
  is_refillable = n.refill;
  is_cancelable = n.cancel;
  external_name = some n.name;
  external_category = some n.category;
  is_removed_upstream = false;
  last_synced_at = some now;
}

abbrev pub insert_service : String → String → String → Bool → NormalizedService → Db → Db
insert_service id cid provider_id active n db = record db {
  services = put id (new_service db.now id cid provider_id active n) db.services;
}

abbrev same_bool : Bool → Bool → Bool
same_bool true b = b
same_bool false b = not b

abbrev is_name : Option String → String → Bool
is_name none s = false
is_name (some t) s = t == s

abbrev rate_differs : Service → NormalizedService → Bool
rate_differs svc n = not (eqb_ℤ svc.rate_per_1000_paise n.rate_per_1000_paise)

abbrev limits_differ : Service → NormalizedService → Bool
limits_differ svc n = not (eqb_ℤ svc.min_qty n.min_qty) || not (eqb_ℤ svc.max_qty n.max_qty)

abbrev capabilities_differ : Service → NormalizedService → Bool
capabilities_differ svc n =
    not (same_bool svc.is_refillable n.refill) || not (same_bool svc.is_cancelable n.cancel)

abbrev type_differs : Service → NormalizedService → Bool
type_differs svc n = not (svc.service_type == n.service_type)

abbrev name_differs : Service → NormalizedService → Bool
name_differs svc n = not (is_name svc.external_name n.name)

-- Whether the name was left as the provider gave it.
abbrev untouched : Service → Bool
untouched svc = not (has_row svc.external_name) || is_name svc.external_name svc.name

abbrev pub any_change : Service → NormalizedService → Bool
any_change svc n =
    svc.is_removed_upstream
    || (rate_differs svc n
        || (limits_differ svc n
            || (capabilities_differ svc n || (type_differs svc n || name_differs svc n))))

-- What an existing service becomes: it follows the provider, and is never switched on.
abbrev pub refreshed : ℕ → NormalizedService → Service → Service
refreshed now n svc = record svc {
  is_removed_upstream = false;
  rate_per_1000_paise = n.rate_per_1000_paise;
  min_qty = n.min_qty;
  max_qty = n.max_qty;
  is_refillable = n.refill;
  is_cancelable = n.cancel;
  service_type = n.service_type;
  is_active =
      if type_differs svc n && not (is_supported n.service_type) then false else svc.is_active;
  name = if name_differs svc n && untouched svc then n.name else svc.name;
  external_name = some n.name;
  external_category = some n.category;
  last_synced_at = some now;
}

abbrev noted_if : Bool → String → ChangeKind → List (String × ChangeKind)
noted_if false id kind = []
noted_if true id kind = (id, kind) ∷ []

abbrev changes_of : String → Service → NormalizedService → List (String × ChangeKind)
changes_of id svc n =
    noted_if svc.is_removed_upstream id restored
    ++ (noted_if (rate_differs svc n) id rate
        ++ (noted_if (limits_differ svc n) id limits
            ++ (noted_if (capabilities_differ svc n) id capabilities
                ++ noted_if (name_differs svc n) id name)))

abbrev one_if : Bool → ℕ
one_if true = 1
one_if false = 0

abbrev pub report_refreshed : String → NormalizedService → Option Service → SyncReport → SyncReport
report_refreshed id n none report = report
report_refreshed id n (some svc) report = record report {
  restored = report.restored + one_if svc.is_removed_upstream;
  updated = report.updated + one_if (any_change svc n);
  unchanged = report.unchanged + one_if (not (any_change svc n));
  changes = report.changes ++ changes_of id svc n;
}

abbrev pub report_added : String → NormalizedService → SyncReport → SyncReport
report_added id n report = record report {
  added = suc report.added;
  unsupported_new = report.unsupported_new + one_if (not (is_supported n.service_type));
  changes = report.changes ++ ((id, new) ∷ []);
}

-- A service that the provider no longer lists; one that was marked before is left alone.
abbrev pub retired : Service → Service
retired svc =
    if svc.is_removed_upstream
    then svc
    else record svc { is_removed_upstream = true; is_active = false }

abbrev pub report_retired : String → Option Service → SyncReport → SyncReport
report_retired id none report = report
report_retired id (some svc) report = if svc.is_removed_upstream then report else record report {
  removed = suc report.removed;
  changes = report.changes ++ noted_if svc.is_active id removed;
}

abbrev pub refresh : NormalizedService → String → Db → Db
refresh n id db = change_service id (refreshed db.now n) db

unfoldable pub refresh_service : NormalizedService → String → SyncReport → Session SyncReport
refresh_service n id report = do
  before ← read (λ db. lookup id db.services)
  write (refresh n id)
  return (report_refreshed id n before report)

-- The last loop, over the services that the provider had.
unfoldable pub retire_all :
    Table String NormalizedService → Table String String → SyncReport → Session SyncReport
retire_all listing [] report = return report
retire_all listing ((ext, id) ∷ rest) report =
    if has_row (lookup ext listing) then retire_all listing rest report else do
      before ← read (λ db. lookup id db.services)
      write (change_service id retired)
      retire_all listing rest (report_retired id before report)

module _ ⦃env : Env⦄ where
  -- The rows that are fit, by external id, where the last one wins; and how many are not.
  unfoldable pub normalize_all :
      Float
      → List ProviderService
      → Table String NormalizedService × ℕ
      → Table String NormalizedService × ℕ
  normalize_all fx [] acc = acc
  normalize_all fx (item ∷ items) (listing, invalid) = elim (normalize_service item fx) [
    | none ↦ normalize_all fx items (listing, suc invalid)
    | some n ↦ normalize_all fx items (put n.external_id n listing, invalid)
  ]

  -- The new row, active only where the provider was opted in and the platform supports its type.
  unfoldable pub add_new : Provider → String → String → NormalizedService → Session (Unit {0})
  add_new provider id cid n = do
    taken ← read (λ db. has_row (lookup id db.services))
    raise_if taken integrity_error
    write (insert_service id cid provider.id (activates provider n) n)

  unfoldable pub add_service : Provider → NormalizedService → SyncReport → Session SyncReport
  add_service provider n report = do
    let cid = category_id_for n.category
    let id = service_id_for provider.id n.external_id
    row ← read (λ db. lookup cid db.categories)
    write (ensure_row cid n.category (activates provider n) row)
    add_new provider id cid n
    return (report_added id n report)

  unfoldable pub take_row :
      Provider → NormalizedService → Option String → SyncReport → Session SyncReport
  take_row provider n none report = add_service provider n report
  take_row provider n (some id) report = refresh_service n id report

  unfoldable pub take_rows :
      Provider
      → Table String String
      → Table String NormalizedService
      → SyncReport
      → Session SyncReport
  take_rows provider known [] report = return report
  take_rows provider known ((ext, n) ∷ listing) report = do
    further ← take_row provider n (lookup ext known) report
    take_rows provider known listing further

  abbrev summary : SyncReport → String
  summary report =
      let head = join_with "" (
        report.provider_id
        ∷ ": "
        ∷ status_text report.status
        ∷ " — +"
        ∷ env.str_int (pos report.added)
        ∷ " new, ~"
        ∷ env.str_int (pos report.updated)
        ∷ " changed, -"
        ∷ env.str_int (pos report.removed)
        ∷ " removed, "
        ∷ env.str_int (pos report.restored)
        ∷ " restored, "
        ∷ env.str_int (pos report.skipped_invalid)
        ∷ " invalid"
        ∷ []) in
      if report.detail == "" then head else join_with "" (head ∷ " (" ∷ report.detail ∷ ")" ∷ [])

  abbrev finished_run : ℕ → SyncReport → SyncRun → SyncRun
  finished_run now report run = record run {
    status = status_text report.status;
    added = report.added;
    updated = report.updated;
    removed = report.removed;
    skipped_invalid = report.skipped_invalid;
    detail = if report.detail == "" then none else some (truncate 255 report.detail);
    finished_at = some now;
  }

  abbrev finish_newest : ℕ → SyncReport → List SyncRun → List SyncRun
  finish_newest now report [] = []
  finish_newest now report (run ∷ older) = finished_run now report run ∷ older

  abbrev pub finished : Provider → SyncReport → Db → Db
  finished provider report db = record db {
    sync_runs = finish_newest db.now report db.sync_runs;
    providers =
        adjust provider.id
          (λ p. record p {
            last_sync_at = some db.now;
            last_sync_status = some (truncate 160 (summary report));
          })
          db.providers;
  }

  abbrev pub worth_noting : SyncReport → Bool
  worth_noting report =
      is_ok report.status && not (nat_eqb (report.added + report.updated + report.removed) 0)

  -- `_finish`; the run is the newest row.
  unfoldable pub finish : Provider → SyncReport → Session SyncReport
  finish provider report = do
    write (finished provider report)
    when (worth_noting report) (audit "system" "provider.sync" (some provider.id) none)
    return report

  abbrev pub start_run : Provider → Db → Db
  start_run provider db =
      let run : SyncRun = record {
        provider_id = provider.id;
        status = "ok";
        added = 0;
        updated = 0;
        removed = 0;
        skipped_invalid = 0;
        detail = none;
        started_at = db.now;
        finished_at = none;
      } in
      record db { sync_runs = run ∷ db.sync_runs }

  -- The catalog is taken over, or kept as it was for the reason given.
  unfoldable pub take_listing :
      Provider
      → Table String NormalizedService
      → Table String String
      → Option String
      → SyncReport
      → Session SyncReport
  take_listing provider listing known (some reason) report =
      finish provider
        (record report { status = aborted; detail = append "kept last trusted snapshot: " reason })
  take_listing provider listing known none report = do
    taken ← take_rows provider known listing report
    done ← retire_all listing known taken
    finish provider done

  -- `float(provider.fx_to_inr or 1.0)`
  abbrev pub fx_of : Provider → Float
  fx_of provider = if env.is_zero provider.fx_to_inr then env.of_int (pos 1) else provider.fx_to_inr

  unfoldable pub take_upstream : Provider → Upstream → Session SyncReport
  take_upstream provider (failed message) = finish provider (record (new_report provider.id) {
    status = error;
    detail = append "provider request failed: " (truncate 120 message);
  })
  take_upstream provider broken = throw unexpected
  take_upstream provider (listed items) = do
    let (listing, invalid) = normalize_all (fx_of provider) items ([], 0)
    known ← read (λ db. by_external provider.id db.services [])
    live ← read (λ db. length (select (is_live provider.id) (rows db.services)))
    take_listing provider listing known (looks_malformed live (length listing) invalid)
        (record (new_report provider.id) { skipped_invalid = invalid })

  unfoldable pub sync_provider : Provider → Upstream → Session SyncReport
  unfolding finish
  sync_provider provider answer = do write (start_run provider); take_upstream provider answer

abbrev pub needs_sync : Provider → Bool
needs_sync p = p.is_active && not (p.adapter_type == "mock")

-- What a provider's sync comes to, with the report for one that raised.
abbrev pub report_or : SyncReport → Outcome SyncReport → SyncReport
report_or fallback (returns report) = report
report_or fallback (raises e) = fallback

module _ ⦃env : Env⦄ where
  -- The detail of an unexpected exception is the name of its class, and is left out.
  unfoldable pub sync_each : (String → Upstream) → List Provider → Session (List SyncReport)
  sync_each upstream [] = return []
  sync_each upstream (p ∷ ps) = do
    out ← attempted (sync_provider p (upstream p.id))
    reports ← sync_each upstream ps
    return (report_or (record (new_report p.id) { status = error }) out ∷ reports)

  unfoldable pub sync_all : (String → Upstream) → Session (List SyncReport)
  unfolding sync_each
  sync_all upstream = do
    providers ← read (λ db. select needs_sync (rows db.providers))
    sync_each upstream providers

-- All services of a provider, and the active ones.
unfoldable pub count_services : String → Db → ℕ × ℕ
count_services provider_id db =
    let own = select (λ svc. svc.provider_id == provider_id) (rows db.services) in
    (length own, length (select (λ (svc : Service). svc.is_active) own))
