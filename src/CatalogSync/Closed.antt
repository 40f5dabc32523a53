-- ===== src/CatalogSync/Closed.antt =====
-- What a sync of app/sync.py does to the services on offer: none is deleted, and none is switched on.
use mathlib.Core.Path.{subst}
use smmfalcron.Prelude.{
  ℕ, ◌≡◌, refl, sym, ap, ◌∙◌, inl, inr, String, Bool, true, false, not, Option, none, some,
  some-inj, ◌&&◌, ◌==◌, arith, string_eq, ==_iff, Bool-cases, Option-cases, if◌then◌else◌,
}
use smmfalcron.Table.{lookup, put, lookup-put, lookup-adjust}
use smmfalcron.Models.{Db, Provider, Category, Service}
use smmfalcron.Env.{Env}
use smmfalcron.Session.{write}
use smmfalcron.Session.Keeps.{Keeps}
use smmfalcron.Catalog.{audit}
use smmfalcron.CatalogSync.Normalize.{NormalizedService, is_supported}
use smmfalcron.CatalogSync.Provide.{
  Upstream, has_row, change_service, ensure_row, insert_service, new_service, refreshed, retired,
  activates, add_new, sync_provider,
}
use smmfalcron.CatalogSync.Kept.{Syncing, sync_provider-Keeps}

-- The services, next to those of an earlier database.
pub record Catalogued (before db : Db) : Type 0 where
  pub opens :
      (id : String) (svc : Service)
      → lookup id db.services ≡ some svc
      → svc.is_active ≡ true
      → (old : Service) × (lookup id before.services ≡ some old) × (old.is_active ≡ true)
  pub stays :
      (id : String) (old : Service)
      → lookup id before.services ≡ some old
      → (svc : Service) × (lookup id db.services ≡ some svc)
        × (svc.provider_id ≡ old.provider_id)
        × (svc.provider_service_id ≡ old.provider_service_id)

pub Catalogued-refl : (db : Db) → Catalogued db db
Catalogued-refl db = record {
  opens = λ id svc at on. (svc, at, on);
  stays = λ id old at. (old, at, refl, refl);
}

no_row : (same : Bool) (svc : Service) → (if same then none else none) ≡ some svc → ⊥
no_row true svc e = ground (arith, e)
no_row false svc e = ground (arith, e)

off-not-on : false ≡ true → ⊥
off-not-on e = ground (arith, e)

-- A switch that turns off where the test holds.
switched : (test on : Bool) → (if test then false else on) ≡ true → on ≡ true
switched true on e = ground (arith, e)
switched false on e = e

-- A change of a service that neither renames it nor switches it on.
record IsModest (f : Service → Service) : Type 0 where
  closed : (svc : Service) → (f svc).is_active ≡ true → svc.is_active ≡ true
  same_provider : (svc : Service) → (f svc).provider_id ≡ svc.provider_id
  same_external : (svc : Service) → (f svc).provider_service_id ≡ svc.provider_service_id

refreshed-IsModest : (now : ℕ) (n : NormalizedService) → IsModest (refreshed now n)
refreshed-IsModest now n = record {
  closed = λ svc e.
      switched (not (svc.service_type == n.service_type) && not (is_supported n.service_type))
        svc.is_active e;
  same_provider = λ svc. refl;
  same_external = λ svc. refl;
}

as_is : (svc : Service) → svc.is_removed_upstream ≡ true → retired svc ≡ svc
as_is svc gone = rw gone refl

marked :
    (svc : Service)
    → svc.is_removed_upstream ≡ false
    → retired svc ≡ record svc { is_removed_upstream = true; is_active = false }
marked svc there = rw there refl

retired-IsModest : IsModest retired
retired-IsModest = record {
  closed = λ svc e. elim (Bool-cases svc.is_removed_upstream) [
    | inl gone ↦ subst (λ (x : Service). x.is_active ≡ true) (as_is svc gone) e
    | inr there ↦
        absurd (off-not-on (subst (λ (x : Service). x.is_active ≡ true) (marked svc there) e))
  ];
  same_provider = λ svc. elim (Bool-cases svc.is_removed_upstream) [
    | inl gone ↦ ap (λ (x : Service). x.provider_id) (as_is svc gone)
    | inr there ↦ ap (λ (x : Service). x.provider_id) (marked svc there)
  ];
  same_external = λ svc. elim (Bool-cases svc.is_removed_upstream) [
    | inl gone ↦ ap (λ (x : Service). x.provider_service_id) (as_is svc gone)
    | inr there ↦ ap (λ (x : Service). x.provider_service_id) (marked svc there)
  ];
}

module _ (before : Db) where
  same-Catalogued :
      (db after : Db)
      → after.services ≡ db.services
      → Catalogued before db
      → Catalogued before after
  same-Catalogued db after e h = record {
    opens = λ id svc at on. h.opens id svc (ap (lookup id) (sym e) ∙ at) on;
    stays = λ id old at.
        let (svc, found, provider, external) = h.stays id old at in
        (svc, ap (lookup id) e ∙ found, provider, external);
  }

  module _ (id : String) (f : Service → Service) (db : Db) (modest : IsModest f)
      (h : Catalogued before db) where
    changed-opens :
        (j : String) (same : Bool) (row : Option Service)
        → lookup j db.services ≡ row
        → (svc : Service)
        → (if same then elim row [ none ↦ none | some v ↦ some (f v) ] else row) ≡ some svc
        → svc.is_active ≡ true
        → (old : Service) × (lookup j before.services ≡ some old) × (old.is_active ≡ true)
    changed-opens j same none at svc e on = absurd (no_row same svc e)
    changed-opens j true (some v) at svc e on =
        h.opens j v at (modest.closed v (ap (λ (x : Service). x.is_active) (some-inj e) ∙ on))
    changed-opens j false (some v) at svc e on =
        h.opens j v at (ap (λ (x : Service). x.is_active) (some-inj e) ∙ on)

  change_service-Catalogued :
      (id : String) (f : Service → Service) (db : Db)
      → IsModest f
      → Catalogued before db
      → Catalogued before (change_service id f db)
  change_service-Catalogued id f db modest h = record {
    opens = λ j svc at on.
        changed-opens id f db modest h j (id == j) (lookup j db.services) refl svc
          (sym (lookup-adjust id j f db.services) ∙ at) on;
    stays = λ j old at.
        let (svc, found, provider, external) = h.stays j old at in
        elim (Bool-cases (id == j)) [
          | inl same ↦ (
            f svc,
            lookup-adjust id j f db.services ∙ rw (same, found) refl,
            modest.same_provider svc ∙ provider,
            modest.same_external svc ∙ external,
          )
          | inr other ↦
              (svc, lookup-adjust id j f db.services ∙ rw (other, found) refl, provider, external)
        ];
  }

  -- A row under an id that was free, switched off.
  insert_service-Catalogued :
      (id cid provider_id : String) (n : NormalizedService) (db : Db)
      → lookup id db.services ≡ none
      → Catalogued before db
      → Catalogued before (insert_service id cid provider_id false n db)
  insert_service-Catalogued id cid provider_id n db free h = record {
    opens = λ j svc at on. elim (Bool-cases (id == j)) [
      | inl same ↦ absurd (
          off-not-on
            (ap (λ (x : Service). x.is_active) (some-inj (sym (inserted j same) ∙ at)) ∙ on))
      | inr other ↦ h.opens j svc (sym (elsewhere j other) ∙ at) on
    ];
    stays = λ j old at.
        let (svc, found, provider, external) = h.stays j old at in
        elim (Bool-cases (id == j)) [
          | inl same ↦ absurd (
              no_row true svc
                (sym free ∙ ap (λ k. lookup k db.services) ((==_iff id j).0 same) ∙ found))
          | inr other ↦ (svc, elsewhere j other ∙ found, provider, external)
        ];
  }
    where
      row : Service
      row = new_service db.now id cid provider_id false n

      inserted : (j : String) → (id == j) ≡ true → lookup j (put id row db.services) ≡ some row
      inserted j same = lookup-put id j row db.services ∙ rw same refl

      elsewhere :
          (j : String)
          → (id == j) ≡ false
          → lookup j (put id row db.services) ≡ lookup j db.services
      elsewhere j other = lookup-put id j row db.services ∙ rw other refl

module _ ⦃env : Env⦄ (before : Db) (provider : Provider)
    (careful : provider.auto_activate_new ≡ false) where
  ensure_row-Catalogued :
      (cid category : String) (active : Bool) (row : Option Category)
      → Keeps (Catalogued before) (write (ensure_row cid category active row))
  ensure_row-Catalogued cid category active none = record {
    kept = λ db h. same-Catalogued before db _ refl h;
  }
  ensure_row-Catalogued cid category active (some c) =
      elim (Bool-cases (active && not c.is_active)) [
        | inl on ↦ rw on (record { kept = λ db h. same-Catalogued before db _ refl h })
        | inr off ↦ rw off (record { kept = λ db h. h })
      ]

  never-activates : (n : NormalizedService) → activates provider n ≡ false
  never-activates n = rw careful refl

  has_row-none :
      (id : String) (db : Db)
      → has_row (lookup id db.services) ≡ false
      → lookup id db.services ≡ none
  has_row-none id db e = elim (Option-cases (lookup id db.services)) [
    | inl free ↦ free
    | inr (svc, at) ↦ absurd (off-not-on (sym e ∙ ap has_row at))
  ]

  add_new-Catalogued :
      (id cid : String) (n : NormalizedService)
      → Keeps (Catalogued before) (add_new provider id cid n)
  unfolding add_new
  add_new-Catalogued id cid n = record {
    kept = λ db h. elim (Bool-cases (has_row (lookup id db.services))) [
      | inl taken ↦ rw taken h
      | inr free ↦
          rw (free, never-activates n)
            (insert_service-Catalogued before id cid provider.id n db (has_row-none id db free) h)
    ];
  }

  audit-Catalogued :
      (actor action : String) (target reason : Option String)
      → Keeps (Catalogued before) (audit actor action target reason)
  unfolding audit
  audit-Catalogued actor action target reason = record {
    kept = λ db h. same-Catalogued before db _ refl h;
  }

  Catalogued-Syncing : Syncing (Catalogued before) provider
  Catalogued-Syncing = record {
    categories = ensure_row-Catalogued;
    inserts = add_new-Catalogued;
    refreshes = λ n id. record {
      kept = λ db h.
          change_service-Catalogued before id (refreshed db.now n) db (refreshed-IsModest db.now n)
            h;
    };
    retires = λ id. record {
      kept = λ db h. change_service-Catalogued before id retired db retired-IsModest h;
    };
    starts = record { kept = λ db h. same-Catalogued before db _ refl h };
    finishes = λ report. record { kept = λ db h. same-Catalogued before db _ refl h };
    audits = audit-Catalogued;
  }

module _ ⦃env : Env⦄ where
  -- Whatever a provider that is not opted in answers to a sync, afterwards every service that is
  -- active was active before, and every service that was there is there still, under its id, of the
  -- same provider and with the same external id; whether the sync returns or raises.
  pub sync_never_opens :
      (provider : Provider) (answer : Upstream) (db : Db)
      → provider.auto_activate_new ≡ false
      → Catalogued db (sync_provider provider answer db).1
  sync_never_opens provider answer db careful =
      (sync_provider-Keeps provider (Catalogued-Syncing db provider careful) answer).kept db
        (Catalogued-refl db)
