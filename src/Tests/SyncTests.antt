-- ===== src/Tests/SyncTests.antt =====
-- Witnesses for the catalog sync, on the market of the fixtures.
use smmfalcron.Prelude.{
  ◌≡◌, ◌⊎◌, refl, true, false, some, [], ◌∷◌, string_eq, truncate, chars, strip, any_char,
}
use smmfalcron.Prelude.Int.{pos}
use smmfalcron.Models.{Provider}
use smmfalcron.CatalogSync.Normalize.{
  ProviderService, clean_text, bad_id, not_finite, bad_rate, bad_range, normalized,
  normalize_service,
}
use smmfalcron.CatalogSync.Provide.{aborted, listed, sync_provider}
use smmfalcron.CatalogSync.Bounds.{IsSellable, normalize_service-IsSellable}
use smmfalcron.CatalogSync.Closed.{Catalogued, sync_never_opens}
use smmfalcron.CatalogSync.Aborted.{KeptCatalog, IsMalformed, IsFine, sync_provider_judges}
use smmfalcron.Tests.Fixtures.{test_env, panel, market}

abbrev cautious : Provider
cautious = record panel { auto_activate_new = false }

-- Likes at 50.00 per 1,000.
abbrev likes : ProviderService
likes = record {
  external_id = "78";
  name = "Likes";
  category = "Instagram";
  rate = 5_000_000;
  min_qty = pos 10;
  max_qty = pos 5_000;
  service_type = "Default";
  refill = false;
  cancel = true;
}

likes-accepted : normalize_service likes 100_000 ≡ some (normalized likes 100_000)
unfolding normalize_service clean_text bad_id not_finite bad_rate bad_range truncate strip chars
    any_char
likes-accepted = refl

normalize_service-IsSellable_example : IsSellable (normalized likes 100_000)
normalize_service-IsSellable_example =
    normalize_service-IsSellable likes 100_000 (normalized likes 100_000) likes-accepted

sync_never_opens_example : Catalogued market (sync_provider cautious (listed (likes ∷ [])) market).1
sync_never_opens_example = sync_never_opens cautious (listed (likes ∷ [])) market refl

sync_provider_judges_example :
    (IsMalformed cautious (likes ∷ []) market
      × KeptCatalog aborted market (sync_provider cautious (listed (likes ∷ [])) market))
    ⊎ ((¬ IsMalformed cautious (likes ∷ []) market)
        × IsFine cautious (sync_provider cautious (listed (likes ∷ [])) market))
sync_provider_judges_example = sync_provider_judges cautious (likes ∷ []) market
