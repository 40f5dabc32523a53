-- ===== src/Pricing/Quotes.antt =====
-- `resolve_sell_rate` and `quote_order` of app/pricing.py.
use smmfalcron.Prelude.{
  ℕ, String, Bool, true, false, not, Option, none, some, List, ◌&&◌, ◌||◌, ◌==◌, string_eq, nat_eq,
  select, if◌then◌else◌,
}
use smmfalcron.Prelude.Int.{ℤ, pos, ◌-ℤ◌, leb_ℤ, ltb_ℤ, max_ℤ}
use smmfalcron.Table.{lookup}
use smmfalcron.Models.{
  Db, Float, Service, StarPrice, Layer, is_reseller_layer, Reseller, is_active_panel,
}
use smmfalcron.Env.{Env}
use smmfalcron.Session.{
  Session, value_error, ◌>>=◌, ◌>>◌, return, read, found_or, one_or_none, raise_if,
}
use smmfalcron.Pricing.Arithmetic.{
  whole, or_zero, or_nothing, margin_floor_per_1000, scale_to_qty, apply_markup, enforce_min_margin,
  apply_reseller_rate, setting_float, cap_discount_to_floor,
}
use smmfalcron.Pricing.Coupons.{Applied, apply_coupon}

-- (sell_per_1000_paise, layer_name, applied_percent, applied_fixed)
abbrev pub SellRate : Type 0
SellRate = ℤ × Layer × Float × ℤ

abbrev pub is_some {ℓ} : {A : Type ℓ} → Option A → Bool
is_some none = false
is_some (some a) = true

abbrev pub is_user : Option ℕ → ℕ → Bool
is_user none uid = false
is_user (some u) uid = u == uid

abbrev pub stars_for : String → ℕ → List StarPrice → List StarPrice
stars_for sid uid rows =
    select (λ s. s.service_id == sid && is_user s.user_id uid && s.is_active) rows

abbrev pub global_stars : String → List StarPrice → List StarPrice
global_stars sid rows =
    select (λ s. s.service_id == sid && not (is_some s.user_id) && s.is_active) rows

pub record PriceQuote : Type 0 where
  pub service_id : String
  pub quantity : ℤ
  pub cost_per_1000_paise : ℤ
  pub sell_per_1000_paise : ℤ
  pub cost_paise : ℤ
  pub subtotal_paise : ℤ
  pub discount_paise : ℤ
  pub charge_paise : ℤ
  pub layer : Layer
  pub markup_percent : Float
  pub markup_fixed_paise : ℤ
  pub coupon_code : Option String
  pub min_qty : ℤ
  pub max_qty : ℤ
  pub retail_per_1000_paise : ℤ
  pub reseller_discount_paise : ℤ

abbrev pub own_star : Service → List StarPrice → Option ℕ → Session (Option StarPrice)
own_star svc rows none = return none
own_star svc rows (some u) = one_or_none (stars_for svc.id u rows)

abbrev pub or_global : Service → List StarPrice → Option StarPrice → Session (Option StarPrice)
or_global svc rows none = one_or_none (global_stars svc.id rows)
or_global svc rows (some s) = return (some s)

-- The user's own star price, else the global one of the service.
unfoldable pub find_star : Service → Option ℕ → Session (Option StarPrice)
find_star svc uid = do
  rows ← read (λ db. db.star_prices)
  own ← own_star svc rows uid
  or_global svc rows own

-- `session.get(Reseller, user_id)`, for a signed-in user
abbrev pub panel_of : Option ℕ → Db → Option Reseller
panel_of none db = none
panel_of (some u) db = lookup u db.resellers

-- The markup of a layer, if the layer sets either part of it.
abbrev pub Markup : Type 0
Markup = Option Float × Option ℤ

abbrev pub sets : Markup → Bool
sets m = is_some m.0 || is_some m.1

abbrev pub category_markup : Service → Db → Markup
category_markup svc db = elim (lookup svc.category_id db.categories) [
  | none ↦ (none, none)
  | some c ↦ (c.markup_percent, c.markup_fixed_paise)
]

abbrev pub provider_markup : Service → Db → Markup
provider_markup svc db = elim (lookup svc.provider_id db.providers) [
  | none ↦ (none, none)
  | some p ↦ (p.markup_percent, p.markup_fixed_paise)
]

module _ ⦃env : Env⦄ where
  abbrev pub global_percent : Db → Float
  global_percent db = setting_float "global_markup_percent" (whole 25) db

  abbrev pub min_margin : Db → Float
  min_margin db = setting_float "min_margin_percent" (whole 5) db

  -- The rate of a layer of markup, with the least margin enforced.
  abbrev pub layered : ℤ → Markup → Float → Layer → SellRate
  layered cost m margin layer = (
    enforce_min_margin cost (apply_markup cost m.0 m.1) margin,
    layer,
    or_zero m.0,
    or_nothing m.1,
  )

  -- The layers below the star prices: the first that sets a markup decides.
  unfoldable pub markup_rate : Service → Db → SellRate
  markup_rate svc db =
      let cost = svc.rate_per_1000_paise in
      if sets (svc.markup_percent, svc.markup_fixed_paise)
      then layered cost (svc.markup_percent, svc.markup_fixed_paise) (min_margin db) Layer.service
      else if sets (category_markup svc db)
      then layered cost (category_markup svc db) (min_margin db) Layer.category
      else if sets (provider_markup svc db)
      then layered cost (provider_markup svc db) (min_margin db) Layer.provider
      else layered cost (some (global_percent db), some (pos 0)) (min_margin db) Layer.global_markup

  abbrev pub rate_from : Service → Option StarPrice → Db → SellRate
  rate_from svc none db = markup_rate svc db
  rate_from svc (some s) db = (
    enforce_min_margin svc.rate_per_1000_paise s.custom_rate_per_1000_paise (min_margin db),
    Layer.star,
    whole 0,
    pos 0,
  )

  unfoldable pub resolve_sell_rate : Service → Option ℕ → Session SellRate
  unfolding find_star
  resolve_sell_rate svc uid = do star ← find_star svc uid; read (rate_from svc star)

  -- An active reseller's rate and layer, in place of the retail ones.
  abbrev pub reseller_rate : Service → Option Reseller → ℤ → Layer → ℤ × Layer
  reseller_rate svc none retail layer = (retail, layer)
  reseller_rate svc (some r) retail layer =
      if is_active_panel r.status
      then (
        apply_reseller_rate svc.rate_per_1000_paise retail r.discount_bp,
        Layer.with_reseller layer,
      )
      else (retail, layer)

  -- A coupon's discount, held to the floor: no order may become a loss.
  abbrev pub floored : Service → ℤ → ℤ → Layer → Db → Applied → ℤ × Option String
  floored svc quantity subtotal layer db (discount, code, _) =
      let margin =
        if is_reseller_layer layer then env.larger (min_margin db) (whole 10) else min_margin db in
      let floor_charge =
        scale_to_qty (margin_floor_per_1000 svc.rate_per_1000_paise margin) quantity in
      let capped = cap_discount_to_floor subtotal discount floor_charge in
      (capped, if leb_ℤ capped (pos 0) then none else code)

  -- `if coupon_code and user_id is not None`
  unfoldable pub coupon_step :
      Service → ℤ → ℤ → Layer → Option ℕ → Option String → Session (ℤ × Option String)
  coupon_step svc quantity subtotal layer none code = return (pos 0, none)
  coupon_step svc quantity subtotal layer (some uid) none = return (pos 0, none)
  coupon_step svc quantity subtotal layer (some uid) (some code) =
      if code == "" then return (pos 0, none) else do
        applied ← apply_coupon (some code) uid subtotal
        read (λ db. floored svc quantity subtotal layer db applied)

  abbrev pub quote_of : Service → ℤ → SellRate → ℤ × Layer → ℤ × Option String → PriceQuote
  quote_of svc quantity (retail, _, percent, fixed) (sell, layer) (discount, code) =
      let subtotal = scale_to_qty sell quantity in
      record {
        service_id = svc.id;
        quantity = quantity;
        cost_per_1000_paise = svc.rate_per_1000_paise;
        sell_per_1000_paise = sell;
        cost_paise = scale_to_qty svc.rate_per_1000_paise quantity;
        subtotal_paise = subtotal;
        discount_paise = discount;
        charge_paise = max_ℤ (pos 0) (subtotal -ℤ discount);
        layer = layer;
        markup_percent = percent;
        markup_fixed_paise = fixed;
        coupon_code = code;
        min_qty = svc.min_qty;
        max_qty = svc.max_qty;
        retail_per_1000_paise = retail;
        reseller_discount_paise = max_ℤ (pos 0) (scale_to_qty retail quantity -ℤ subtotal);
      }

  -- What follows once the service is found to be on offer.
  unfoldable pub quote_service : Service → ℤ → Option ℕ → Option String → Session PriceQuote
  quote_service svc quantity uid code = do
    raise_if (ltb_ℤ quantity svc.min_qty || ltb_ℤ svc.max_qty quantity)
        (value_error "Quantity is out of range")
    rate ← resolve_sell_rate svc uid
    panel ← read (panel_of uid)
    let sold = reseller_rate svc panel rate.0 rate.1
    coupon ← coupon_step svc quantity (scale_to_qty sold.0 quantity) sold.1 uid code
    return (quote_of svc quantity rate sold coupon)

  unfoldable pub quote_order : String → ℤ → Option ℕ → Option String → Session PriceQuote
  unfolding quote_service
  quote_order service_id quantity uid code = do
    row ← read (λ db. lookup service_id db.services)
    svc ← found_or (value_error "Service is not available") row
    raise_if (not svc.is_active) (value_error "Service is not available")
    quote_service svc quantity uid code
