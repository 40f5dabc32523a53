-- ===== src/CatalogSync/Bounds.antt =====
-- What a row of `normalize_service` (app/sync_normalize.py) is sure to be.
use smmfalcron.Prelude.{
  ℕ, ◌≡◌, ◌≢◌, refl, String, Bool, true, false, not, Option, none, some, some-inj, arith, string_eq,
  ◌==◌, ==_iff, ◌≤◌, ltb, chars, any_char, truncate, ◌||◌, if◌then◌else◌, suc, zero,
}
use mathlib.Core.Path.{subst}
use smmfalcron.Prelude.Int.{ℤ, pos, ◌≤ℤ◌, ◌<ℤ◌, ltb_ℤ, leb_ℤ, ltb_ℤ→ge, leb_ℤ→gt}
use smmfalcron.Models.{Float}
use smmfalcron.Env.{Env}
use smmfalcron.CatalogSync.Normalize.{
  ProviderService, NormalizedService, is_id_char, clean_text, bad_id, not_finite, bad_rate,
  bad_range, whole, paise_of, normalize_service,
}

chars-truncate : (n : ℕ) (s : String) → chars (truncate n s) ≤ n
unfolding chars truncate
chars-truncate zero s = omega arith
chars-truncate (suc n) String.[] = omega arith
chars-truncate (suc n) (String.◌∷◌ c s) = omega (arith, chars-truncate n s)

-- A row that may be sold.
pub record IsSellable (n : NormalizedService) : Type 0 where
  pub has_id : n.external_id ≢ ""
  pub short_id : chars n.external_id ≤ 24
  pub plain_id : any_char (λ c. not (is_id_char c)) n.external_id ≡ false
  pub has_name : n.name ≢ ""
  pub short_name : chars n.name ≤ 160
  pub costs : pos 0 <ℤ n.rate_per_1000_paise
  pub min_positive : pos 1 ≤ℤ n.min_qty
  pub min_le_max : n.min_qty ≤ℤ n.max_qty
  pub max_bound : n.max_qty ≤ℤ pos 1_000_000_000

or_false_left : (a b : Bool) → (a || b) ≡ false → a ≡ false
or_false_left true b e = e
or_false_left false b e = refl

or_false_right : (a b : Bool) → (a || b) ≡ false → b ≡ false
or_false_right true b e = ground (arith, e)
or_false_right false b e = e

not_empty : (s : String) → (s == "") ≡ false → s ≢ ""
not_empty s e same = ground (arith, e, (==_iff s "").1 same)

refused-none {ℓ} :
    {A : Type ℓ} (c : Bool) (rest : Option A) (a : A)
    → (if c then none else rest) ≡ some a
    → (c ≡ false) × (rest ≡ some a)
refused-none true rest a e = absurd (ground (arith, e))
refused-none false rest a e = (refl, e)

module _ ⦃env : Env⦄ where
  id-IsSellable :
      (ext : String)
      → bad_id ext ≡ false
      → (ext ≢ "") × (chars ext ≤ 24) × (any_char (λ c. not (is_id_char c)) ext ≡ false)
  unfolding bad_id
  id-IsSellable ext e =
      let tail = or_false_right (ext == "") _ e in
      (
        not_empty ext (or_false_left (ext == "") _ e),
        ground (arith, or_false_left (ltb 24 (chars ext)) _ tail),
        or_false_right (ltb 24 (chars ext)) _ tail,
      )

  range-IsSellable :
      (lo hi : ℤ) → bad_range lo hi ≡ false → (pos 1 ≤ℤ lo) × (lo ≤ℤ hi) × (hi ≤ℤ pos 1_000_000_000)
  unfolding bad_range
  range-IsSellable lo hi e =
      let tail = or_false_right (ltb_ℤ lo (pos 1)) _ e in
      (
        ltb_ℤ→ge lo (pos 1) (or_false_left (ltb_ℤ lo (pos 1)) _ e),
        ltb_ℤ→ge hi lo (or_false_left (ltb_ℤ hi lo) _ tail),
        ltb_ℤ→ge (pos 1_000_000_000) hi (or_false_right (ltb_ℤ hi lo) _ tail),
      )

  clean_text-short : (value : String) (n : ℕ) → chars (clean_text value n) ≤ n
  unfolding clean_text
  clean_text-short value n = chars-truncate n _

  -- A row that `normalize_service` lets through, whatever the provider wrote, has a non-empty
  -- external id of at most 24 plain characters, a non-empty name of at most 160, a positive rate,
  -- and quantities from at least 1 up to at most 10^9, in order.
  pub normalize_service-IsSellable :
      (item : ProviderService) (fx : Float) (n : NormalizedService)
      → normalize_service item fx ≡ some n
      → IsSellable n
  unfolding normalize_service
  normalize_service-IsSellable item fx n e =
      let (good_id, e1) = refused-none (bad_id (clean_text item.external_id 64)) _ n e in
      let (named, e2) = refused-none (clean_text item.name 160 == "") _ n e1 in
      let (finite, e3) = refused-none (not_finite item fx) _ n e2 in
      let (rated, e4) = refused-none (bad_rate item.rate fx) _ n e3 in
      let (ranged, e5) =
        refused-none (bad_range (whole item.min_qty) (whole item.max_qty)) _ n e4 in
      let (priced, e6) = refused-none (leb_ℤ (paise_of item.rate fx) (pos 0)) _ n e5 in
      let (has_id, short_id, plain_id) = id-IsSellable (clean_text item.external_id 64) good_id in
      let (min_positive, min_le_max, max_bound) =
        range-IsSellable (whole item.min_qty) (whole item.max_qty) ranged in
      subst IsSellable (some-inj e6) (record {
        has_id = has_id;
        short_id = short_id;
        plain_id = plain_id;
        has_name = not_empty (clean_text item.name 160) named;
        short_name = clean_text-short item.name 160;
        costs = leb_ℤ→gt (paise_of item.rate fx) (pos 0) priced;
        min_positive = min_positive;
        min_le_max = min_le_max;
        max_bound = max_bound;
      })
