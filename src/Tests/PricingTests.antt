-- ===== src/Tests/PricingTests.antt =====
-- Witnesses for the properties of the quotes, on the platform of the fixtures.
use native.Mathlib.Nat.{le-div_iff_mul-le, div-mul-le_self}
use smmfalcron.Prelude.{
  ℕ, ◌≡◌, refl, [], ◌∷◌, ◌*◌, ◌/◌, ◌≤◌, suc, true, none, some, arith, nat_eq, string_eq, leb,
}
use smmfalcron.Prelude.Int.{ℤ, pos, negsuc, pos_part, ◌≤ℤ◌}
use smmfalcron.Prelude.{◌⊎◌}
use smmfalcron.Prelude.Int.{◌<ℤ◌, ◌+ℤ◌, ◌-ℤ◌, ◌*ℤ◌, max_ℤ}
use smmfalcron.Env.{IsOrdered}
use smmfalcron.Table.{lookup}
use smmfalcron.Models.{Db, Layer, Reseller, PanelStatus}
use smmfalcron.Session.{Outcome, returns, Ensures}
use smmfalcron.Catalog.{get_setting}
use smmfalcron.Pricing.Arithmetic.{
  whole, margin_floor_per_1000, scale_to_qty, apply_markup, enforce_min_margin, apply_reseller_rate,
  setting_float, cap_discount_to_floor,
}
use smmfalcron.Pricing.Quotes.{
  PriceQuote, min_margin, find_star, markup_rate, resolve_sell_rate, coupon_step, quote_service,
  quote_order,
}
use smmfalcron.Pricing.Margin.{cap_discount_bounds, cap_discount_largest}
use smmfalcron.Pricing.Rates.{resolve_sell_rate-margin, apply_reseller_rate-margin}
use smmfalcron.Pricing.NoLoss.{quote_no_loss}
use smmfalcron.Pricing.ResellerQuotes.{reseller_quoted_above_retail}
use smmfalcron.Tests.Fixtures.{fixed_point, test_env, market, followers}

leb→le : (m n : ℕ) → leb m n ≡ true → m ≤ n
leb→le m n h = ground arith

le→leb : (m n : ℕ) → m ≤ n → leb m n ≡ true
le→leb m n h = ground arith

of_int_order : (a b : ℤ) → a ≤ℤ b → leb (pos_part a * 100_000) (pos_part b * 100_000) ≡ true
of_int_order (pos a) (pos b) h = le→leb (a * 100_000) (b * 100_000) (omega (arith, h))
of_int_order (negsuc a) b h = le→leb 0 (pos_part b * 100_000) (omega arith)
of_int_order (pos a) (negsuc b) h = le→leb (a * 100_000) 0 (omega (arith, h))

div_order : (x y k : ℕ) → x ≤ y → x * 100_000 / (suc k * 100_000) ≤ y * 100_000 / (suc k * 100_000)
div_order x y k h =
    let unit = suc k * 100_000 in
    (le-div_iff_mul-le {k = unit} {x = x * 100_000 / unit} {y = y * 100_000} (omega arith)).1
      (omega (arith, h, div-mul-le_self (x * 100_000) unit))

fixed_point-IsOrdered : IsOrdered fixed_point
fixed_point-IsOrdered = record {
  of_int_mono = of_int_order;
  div_mono = λ x y n h. le→leb _ _ (div_order x y n (leb→le x y h));
  ceil_mono = λ x y h. omega (arith, leb→le x y h);
}

abbrev quoted : Outcome PriceQuote × Db
quoted = quote_order "svc-1" (pos 500) (some 2) none market

abbrev bob_quote : PriceQuote
bob_quote = record {
  service_id = "svc-1";
  quantity = pos 500;
  cost_per_1000_paise = pos 10_000;
  sell_per_1000_paise = pos 11_000;
  cost_paise = pos 5_000;
  subtotal_paise = pos 5_500;
  discount_paise = pos 0;
  charge_paise = pos 5_500;
  layer = Layer.with_reseller Layer.global_markup;
  markup_percent = 2_500_000;
  markup_fixed_paise = pos 0;
  coupon_code = none;
  min_qty = pos 100;
  max_qty = pos 10_000;
  retail_per_1000_paise = pos 12_500;
  reseller_discount_paise = pos 750;
}

quote_runs : quoted ≡ (returns bob_quote, market)
unfolding quote_order quote_service lookup resolve_sell_rate find_star markup_rate setting_float
    get_setting apply_reseller_rate enforce_min_margin apply_markup margin_floor_per_1000
    coupon_step scale_to_qty ◌+ℤ◌ ◌-ℤ◌ ◌*ℤ◌ max_ℤ
quote_runs = refl

quote_no_loss_example : (market ≡ market) × (pos 5_000 ≤ℤ pos 5_500)
quote_no_loss_example =
    quote_no_loss "svc-1" (pos 500) (some 2) none market fixed_point-IsOrdered quote_runs

resolve_sell_rate-margin_example :
    Ensures
      (λ rate after.
        (after ≡ market)
        × (margin_floor_per_1000 followers.rate_per_1000_paise (min_margin market) ≤ℤ rate.0))
      (resolve_sell_rate followers (some 1) market)
resolve_sell_rate-margin_example = resolve_sell_rate-margin followers (some 1) market

apply_reseller_rate-margin_example :
    margin_floor_per_1000 (pos 10_000) (whole 10)
    ≤ℤ apply_reseller_rate (pos 10_000) (pos 12_500) (pos 1_200)
apply_reseller_rate-margin_example =
    apply_reseller_rate-margin (pos 10_000) (pos 12_500) (pos 1_200)

-- Followers with a markup of five percent.
abbrev thin_market : Db
thin_market = record market {
  services = ("svc-1", record followers { markup_percent = some 500_000 }) ∷ [];
}

abbrev thin_quote : PriceQuote
thin_quote = record bob_quote {
  layer = Layer.with_reseller Layer.service;
  markup_percent = 500_000;
  retail_per_1000_paise = pos 10_500;
  reseller_discount_paise = pos 0;
}

thin_quote_runs :
    quote_order "svc-1" (pos 500) (some 2) none thin_market ≡ (returns thin_quote, thin_market)
unfolding quote_order quote_service lookup resolve_sell_rate find_star markup_rate setting_float
    get_setting apply_reseller_rate enforce_min_margin apply_markup margin_floor_per_1000
    coupon_step scale_to_qty ◌+ℤ◌ ◌-ℤ◌ ◌*ℤ◌ max_ℤ
thin_quote_runs = refl

floor_above : pos 10_500 <ℤ margin_floor_per_1000 (pos 10_000) (whole 10)
unfolding margin_floor_per_1000 max_ℤ
floor_above = omega arith

abbrev bob_panel : Reseller
bob_panel = record {
  user_id = 2;
  tier = "bronze";
  discount_bp = pos 1_200;
  status = PanelStatus.active;
  created_at = 5;
  updated_at = 5;
}

bobs_panel : lookup 2 thin_market.resellers ≡ some bob_panel
unfolding lookup
bobs_panel = refl

reseller_quoted_above_retail_example : (pos 10_500 <ℤ pos 11_000) × (pos 0 ≡ pos 0)
reseller_quoted_above_retail_example =
    reseller_quoted_above_retail 2 bob_panel thin_market bobs_panel refl "svc-1" (pos 500) none
      fixed_point-IsOrdered thin_quote_runs floor_above

abbrev BoundsOf : ℤ → ℤ → ℤ → Type 0
BoundsOf subtotal floor d =
    (pos 0 ≤ℤ d) × (d ≤ℤ pos 3_000) × ((d ≡ pos 0) ⊎ (max_ℤ floor (pos 0) ≤ℤ subtotal -ℤ d))

cap_discount_bounds_example :
    BoundsOf (pos 12_500) (pos 10_500) (cap_discount_to_floor (pos 12_500) (pos 3_000) (pos 10_500))
unfolding max_ℤ
cap_discount_bounds_example = cap_discount_bounds (pos 12_500) (pos 3_000) (pos 10_500)

kept : max_ℤ (pos 10_500) (pos 0) ≤ℤ pos 12_500 -ℤ pos 1_900
unfolding max_ℤ ◌-ℤ◌
kept = omega arith

cap_discount_largest_example :
    pos 1_900 ≤ℤ cap_discount_to_floor (pos 12_500) (pos 3_000) (pos 10_500)
cap_discount_largest_example =
    cap_discount_largest (pos 12_500) (pos 3_000) (pos 10_500) (pos 1_900) (omega arith) kept
