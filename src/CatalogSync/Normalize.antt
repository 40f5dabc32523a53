-- ===== src/CatalogSync/Normalize.antt =====
-- app/sync_normalize.py: the rows of a provider, checked and cleaned.
use smmfalcron.Prelude.{
  ℕ, String, Bool, true, false, not, Option, none, some, [], ◌∷◌, ◌&&◌, ◌||◌, ◌==◌, ◌+◌, ◌*◌,
  string_eq, nat_eqb, ltb, leb, append, truncate, strip, chars, any_char, join_with, if◌then◌else◌,
}
use Prim.Native.Char.{code}
use smmfalcron.Prelude.Int.{ℤ, pos, ltb_ℤ, leb_ℤ}
use smmfalcron.Models.{Float}
use smmfalcron.Env.{Env}

-- A row as the adapter gives it (`ProviderService` of app/adapters/base.py).
pub record ProviderService : Type 0 where
  pub external_id : String
  pub name : String
  pub category : String
  pub rate : Float
  pub min_qty : ℤ
  pub max_qty : ℤ
  pub service_type : String
  pub refill : Bool
  pub cancel : Bool

pub record NormalizedService : Type 0 where
  pub external_id : String
  pub name : String
  pub category : String
  pub rate_per_1000_paise : ℤ
  pub min_qty : ℤ
  pub max_qty : ℤ
  pub service_type : String
  pub raw_type : String
  pub refill : Bool
  pub cancel : Bool

-- `SUPPORTED_TYPES`, the property `supported`
abbrev pub is_supported : String → Bool
is_supported t = t == "default" || (t == "comments" || t == "mentions")

-- The characters that pass the test, each replaced by the given text.
unfoldable pub replace_chars : (ℕ → Bool) → String → String → String
replace_chars p new String.[] = String.[]
replace_chars p new (String.◌∷◌ c s) =
    let rest = replace_chars p new s in if p (code c) then append new rest else String.◌∷◌ c rest

-- `re.sub(r"…+", new, s)`: each run of such characters becomes one text.
unfoldable pub replace_runs : (ℕ → Bool) → String → Bool → String → String
replace_runs p new inside String.[] = String.[]
replace_runs p new inside (String.◌∷◌ c s) =
    let within = replace_runs p new true s in
    let beyond = replace_runs p new false s in
    if p (code c) then (if inside then within else append new within) else String.◌∷◌ c beyond

-- `_CTRL`
abbrev pub is_control : ℕ → Bool
is_control c = leb c 31 || nat_eqb c 127

abbrev between : ℕ → ℕ → ℕ → Bool
between lo hi c = leb lo c && leb c hi

-- [a-z0-9]
abbrev pub is_lower_alnum : ℕ → Bool
is_lower_alnum c = between b'a' b'z' c || between b'0' b'9' c

-- `_ID_OK`: [A-Za-z0-9_.\-]
abbrev pub is_id_char : ℕ → Bool
is_id_char c =
    is_lower_alnum c
    || (between b'A' b'Z' c || (nat_eqb c b'_' || (nat_eqb c b'.' || nat_eqb c b'-')))

abbrev or_text : String → String → String
or_text s default = if s == "" then default else s

unfoldable pub service_id_for : String → String → String
service_id_for provider_id external_id =
    truncate 64 (join_with "" (provider_id ∷ "-" ∷ external_id ∷ []))

module _ ⦃env : Env⦄ where
  unfoldable pub clean_text : String → ℕ → String
  unfolding replace_chars replace_runs
  clean_text value max_len = truncate max_len (
      strip env.is_space (replace_runs env.is_space " " false (replace_chars is_control " " value)))

  -- `clean_text(raw, 64).lower().replace("_", " ")`
  abbrev type_label : String → String
  type_label raw = replace_chars (λ c. nat_eqb c b'_') " " (env.lower (clean_text raw 64))

  abbrev typed : String → String
  typed label =
      if label == "" || label == "default"
      then "default"
      else if label == "custom comments"
      then "comments"
      else if label == "mentions custom list" || label == "custom mentions"
      then "mentions"
      else "unsupported"

  unfoldable pub map_service_type : String → String
  map_service_type raw = typed (type_label raw)

  unfoldable pub category_id_for : String → String
  category_id_for category =
      let slug = truncate 18 (
        strip (λ c. nat_eqb c b'_')
          (replace_runs (λ c. not (is_lower_alnum c)) "_" false (env.lower category))) in
      let digest = truncate 6 (env.sha1_hex (env.lower (strip env.is_space category))) in
      join_with "" ("cat_" ∷ or_text slug "other" ∷ "_" ∷ digest ∷ [])

  -- `not ext or len(ext) > MAX_EXTERNAL_ID_LEN or not _ID_OK.match(ext)`
  unfoldable pub bad_id : String → Bool
  bad_id ext = ext == "" || (ltb 24 (chars ext) || any_char (λ c. not (is_id_char c)) ext)

  -- The numbers that the code cannot convert, or that are not finite.
  unfoldable pub not_finite : ProviderService → Float → Bool
  not_finite item fx =
      not (env.is_finite item.rate && env.is_finite fx)
      || not (env.is_finite (env.of_int item.min_qty) && env.is_finite (env.of_int item.max_qty))

  -- `rate_f < 0 or rate_f > MAX_RATE_PER_1000 or fx <= 0 or fx > 10_000`
  unfoldable pub bad_rate : Float → Float → Bool
  bad_rate rate fx =
      not (env.le (env.of_int (pos 0)) rate)
      || (not (env.le rate (env.of_int (pos 10_000_000)))
          || (env.le fx (env.of_int (pos 0)) || not (env.le fx (env.of_int (pos 10_000)))))

  -- `lo < 1 or hi < lo or hi > 1_000_000_000`
  unfoldable pub bad_range : ℤ → ℤ → Bool
  bad_range lo hi = ltb_ℤ lo (pos 1) || (ltb_ℤ hi lo || ltb_ℤ (pos 1_000_000_000) hi)

  -- `int(float(n))`
  abbrev pub whole : ℤ → ℤ
  whole n = env.trunc (env.of_int n)

  -- `int(round(rate_f * fx * 100))`
  abbrev pub paise_of : Float → Float → ℤ
  paise_of rate fx = env.round (env.mul (env.mul rate fx) (env.of_int (pos 100)))

  abbrev pub normalized : ProviderService → Float → NormalizedService
  normalized item fx = record {
    external_id = clean_text item.external_id 64;
    name = clean_text item.name 160;
    category = or_text (clean_text item.category 120) "Other";
    rate_per_1000_paise = paise_of item.rate fx;
    min_qty = whole item.min_qty;
    max_qty = whole item.max_qty;
    service_type = map_service_type (clean_text item.service_type 64);
    raw_type = clean_text item.service_type 64;
    refill = item.refill;
    cancel = item.cancel;
  }

  unfoldable pub normalize_service : ProviderService → Float → Option NormalizedService
  normalize_service item fx =
      if bad_id (clean_text item.external_id 64)
      then none
      else if clean_text item.name 160 == ""
      then none
      else if not_finite item fx
      then none
      else if bad_rate item.rate fx
      then none
      else if bad_range (whole item.min_qty) (whole item.max_qty)
      then none
      else if leb_ℤ (paise_of item.rate fx) (pos 0)
      then none
      else some (normalized item fx)

  abbrev fraction : ℕ → ℕ → Float
  fraction a b = env.div (env.of_int (pos a)) (env.of_int (pos b))

  -- `total >= 10 and invalid_count / total > 0.30`
  unfoldable pub too_many_invalid : ℕ → ℕ → Bool
  too_many_invalid valid invalid =
      leb 10 (valid + invalid) && not (env.le (fraction invalid (valid + invalid)) (fraction 3 10))

  -- `previous_count >= 20 and valid_count < previous_count * 0.5`, where the half is exact
  unfoldable pub too_few : ℕ → ℕ → Bool
  too_few previous valid = leb 20 previous && ltb (2 * valid) previous

  unfoldable pub looks_malformed : ℕ → ℕ → ℕ → Option String
  looks_malformed previous valid invalid =
      if nat_eqb valid 0
      then some "provider returned no valid services"
      else if too_many_invalid valid invalid
      then some (
          join_with "" (
            env.str_int (pos invalid)
            ∷ "/"
            ∷ env.str_int (pos (valid + invalid))
            ∷ " provider rows failed validation"
            ∷ []))
      else if too_few previous valid
      then some (
          join_with "" (
            "service count dropped from "
            ∷ env.str_int (pos previous)
            ∷ " to "
            ∷ env.str_int (pos valid)
            ∷ []))
      else none
