-- ===== src/Pricing/ResellerQuotes.antt =====
-- What app/pricing.py quotes a reseller where the retail rate has a smaller margin than theirs.
use mathlib.Core.Path.{subst}
use smmfalcron.Prelude.{
  ℕ, ◌≡◌, refl, ◌∙◌, ap, String, true, not, Option, some, ◌||◌, arith, string_eq, nat_eq,
}
use smmfalcron.Prelude.Int.{ℤ, pos, ◌<ℤ◌, ◌≤ℤ◌, ◌-ℤ◌, ltb_ℤ, max_ℤ, eq_of_parts, -ℤ_parts}
use smmfalcron.Table.{lookup}
use smmfalcron.Models.{Db, Service, Reseller, is_active_panel}
use smmfalcron.Env.{Env, IsOrdered}
use smmfalcron.Session.{returns, Ensures, return}
use smmfalcron.Session.Rules.{bind-Ensures, found_or-Ensures, raise_if-Ensures, any_Ensures}
use smmfalcron.Pricing.Arithmetic.{whole, margin_floor_per_1000, scale_to_qty}
use smmfalcron.Pricing.Quotes.{
  PriceQuote, SellRate, reseller_rate, panel_of, coupon_step, quote_of, resolve_sell_rate,
  quote_service, quote_order,
}
use smmfalcron.Pricing.Rates.{
  apply_reseller_rate-margin, resolve_sell_rate-margin, scale_to_qty_mono,
}

no_saving : (a b : ℤ) → a ≤ℤ b → max_ℤ (pos 0) (a -ℤ b) ≡ pos 0
no_saving a b h = eq_of_parts _ _ (ground (arith, h, -ℤ_parts a b))

module _ ⦃env : Env⦄ where
  abbrev reseller_floor : PriceQuote → ℤ
  reseller_floor q = margin_floor_per_1000 q.cost_per_1000_paise (whole 10)

  -- The rate keeps the reseller's margin, and the saving is that against the retail rate.
  abbrev Floored : PriceQuote → Db → Type 0
  Floored q after =
      (reseller_floor q ≤ℤ q.sell_per_1000_paise)
      × (q.reseller_discount_paise
          ≡ max_ℤ (pos 0) (
              scale_to_qty q.retail_per_1000_paise q.quantity
              -ℤ scale_to_qty q.sell_per_1000_paise q.quantity))

  module _ (uid : ℕ) (r : Reseller) (db : Db) (panel : lookup uid db.resellers ≡ some r)
      (active : is_active_panel r.status ≡ true) where
    reseller_rate-floored :
        (svc : Service) (rate : SellRate) (after : Db)
        → after ≡ db
        → margin_floor_per_1000 svc.rate_per_1000_paise (whole 10)
          ≤ℤ (reseller_rate svc (panel_of (some uid) after) rate.0 rate.1).0
    reseller_rate-floored svc rate after same =
        rw (ap (λ (d : Db). lookup uid d.resellers) same ∙ panel, active)
          (apply_reseller_rate-margin svc.rate_per_1000_paise rate.0 r.discount_bp)

    quote_service-Floored :
        (svc : Service) (quantity : ℤ) (code : Option String)
        → Ensures Floored (quote_service svc quantity (some uid) code db)
    unfolding quote_service
    quote_service-Floored svc quantity code =
        raise_if-Ensures Floored (ltb_ℤ quantity svc.min_qty || ltb_ℤ svc.max_qty quantity) _ _ db
          λ _.
            bind-Ensures Floored _ (resolve_sell_rate svc (some uid)) _ db
              (resolve_sell_rate-margin svc (some uid) db)
              λ rate after h.
                let sold = reseller_rate svc (panel_of (some uid) after) rate.0 rate.1 in
                bind-Ensures Floored (λ _ _. Unit {0})
                  (coupon_step svc quantity (scale_to_qty sold.0 quantity) sold.1 (some uid) code)
                  (λ coupon. return (quote_of svc quantity rate sold coupon)) after
                  (any_Ensures (
                    coupon_step svc quantity (scale_to_qty sold.0 quantity) sold.1 (some uid) code
                      after))
                  λ coupon last _. (reseller_rate-floored svc rate after h.0, refl)

    quote_order-Floored :
        (service_id : String) (quantity : ℤ) (code : Option String)
        → Ensures Floored (quote_order service_id quantity (some uid) code db)
    unfolding quote_order
    quote_order-Floored service_id quantity code =
        found_or-Ensures Floored _ (lookup service_id db.services) _ db λ svc _.
          raise_if-Ensures Floored (not svc.is_active) _ _ db
            λ _. quote_service-Floored svc quantity code

    -- On a platform whose float arithmetic keeps the order, where a quote's retail rate is below
    -- cost and ten percent, a user with an active reseller panel is quoted more than the retail
    -- rate, and no saving against it is shown.
    pub reseller_quoted_above_retail :
        (service_id : String) (quantity : ℤ) (code : Option String) {q : PriceQuote} {after : Db}
        → IsOrdered env.floats
        → quote_order service_id quantity (some uid) code db ≡ (returns q, after)
        → q.retail_per_1000_paise <ℤ reseller_floor q
        → (q.retail_per_1000_paise <ℤ q.sell_per_1000_paise) × (q.reseller_discount_paise ≡ pos 0)
    reseller_quoted_above_retail service_id quantity code {q} {after} laws e thin =
        let (floor, saving) =
          subst (Ensures Floored) e (quote_order-Floored service_id quantity code) in
        let dearer : q.retail_per_1000_paise <ℤ q.sell_per_1000_paise =
          omega (arith, thin, floor) in
        let more =
          scale_to_qty_mono q.retail_per_1000_paise q.sell_per_1000_paise q.quantity laws
            (omega (arith, dearer)) in
        (dearer, saving ∙ no_saving _ _ more)
