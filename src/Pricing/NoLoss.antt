-- ===== src/Pricing/NoLoss.antt =====
-- No quote of app/pricing.py is below cost: every layer, reseller rate and coupon keeps the floor.
use smmfalcron.Pricing.Rates.{
  margin_floor-ge, scale_to_qty_mono, resolve_sell_rate-margin, reseller_rate-ge-cost,
}
use smmfalcron.Pricing.Margin.{cap_discount_bounds}
use smmfalcron.Pricing.Coupons.{Applied, apply_coupon, apply_row, expired, used_up, used_by}
use mathlib.Core.Path.{subst, ◌∙◌}
use smmfalcron.Pricing.Quotes.{
  SellRate, min_margin, resolve_sell_rate, PriceQuote, reseller_rate, floored, coupon_step,
  quote_of, quote_service, quote_order, panel_of,
}
use smmfalcron.Prelude.{
  ℕ, ◌≡◌, refl, inl, inr, String, not, Option, none, some, ◌&&◌, ◌||◌, ◌==◌, string_eq, nat_eq,
  if◌then◌else◌, length, leb, nat_eqb, strip,
}
use smmfalcron.Prelude.Int.{
  ℤ, pos, ◌≤ℤ◌, ◌-ℤ◌, ltb_ℤ, max_ℤ, max-le-left, max-le-right, ≤ℤ_trans, sub_zero-ge, eqb_ℤ,
}
use smmfalcron.Table.{lookup}
use smmfalcron.Models.{Db, Service, Layer, is_reseller_layer, Coupon}
use smmfalcron.Env.{Env, IsOrdered}
use smmfalcron.Session.{returns, Ensures, ◌>>=◌, return}
use smmfalcron.Session.Rules.{bind-Ensures, found_or-Ensures, raise_if-Ensures, if-Ensures}
use smmfalcron.Pricing.Arithmetic.{
  whole, margin_floor_per_1000, scale_to_qty, cap_discount_to_floor,
}

module _ ⦃env : Env⦄ where
  floored-no_loss :
      (svc : Service) (quantity subtotal : ℤ) (layer : Layer) (db : Db) (applied : Applied)
      → IsOrdered env.floats
      → scale_to_qty svc.rate_per_1000_paise quantity ≤ℤ subtotal
      → scale_to_qty svc.rate_per_1000_paise quantity
        ≤ℤ subtotal -ℤ (floored svc quantity subtotal layer db applied).0
  floored-no_loss svc quantity subtotal layer db (discount, code, _) laws covered =
      let margin =
        if is_reseller_layer layer then env.larger (min_margin db) (whole 10) else min_margin db in
      let cost = svc.rate_per_1000_paise in
      let floor = scale_to_qty (margin_floor_per_1000 cost margin) quantity in
      let d = cap_discount_to_floor subtotal discount floor in
      elim (cap_discount_bounds subtotal discount floor).2 [
        | inl zero_d ↦ simp zero_d (sub_zero-ge (scale_to_qty cost quantity) subtotal covered)
        | inr kept ↦
            ≤ℤ_trans (scale_to_qty cost quantity) floor (subtotal -ℤ d)
              (scale_to_qty_mono cost (margin_floor_per_1000 cost margin) quantity laws
                (margin_floor-ge cost margin))
              (≤ℤ_trans floor (max_ℤ floor (pos 0)) (subtotal -ℤ d) (max-le-left floor (pos 0))
                kept)
      ]

  apply_row-reads :
      (c : Coupon) (user_id : ℕ) (subtotal : ℤ) (db : Db)
      → Ensures (λ _ after. after ≡ db) (apply_row c user_id subtotal db)
  unfolding apply_row
  apply_row-reads c user_id subtotal db =
      raise_if-Ensures (λ _ after. after ≡ db) (not c.is_active) _ _ db
        λ _.
          raise_if-Ensures (λ _ after. after ≡ db) (expired db.now c.expires_at) _ _ db
            λ _.
              raise_if-Ensures (λ _ after. after ≡ db)
                (not (eqb_ℤ c.min_order_paise (pos 0)) && ltb_ℤ subtotal c.min_order_paise) _ _ db
                λ _.
                  raise_if-Ensures (λ _ after. after ≡ db) (used_up c) _ _ db
                    λ _.
                      raise_if-Ensures (λ _ after. after ≡ db)
                        (not (nat_eqb c.per_user_limit 0)
                          && leb c.per_user_limit (length (used_by c.code user_id db.redemptions)))
                        _ _ db λ _. refl

  apply_coupon-reads :
      (code : Option String) (user_id : ℕ) (subtotal : ℤ) (db : Db)
      → Ensures (λ _ after. after ≡ db) (apply_coupon code user_id subtotal db)
  unfolding apply_coupon
  apply_coupon-reads none user_id subtotal db = refl
  apply_coupon-reads (some code) user_id subtotal db =
      if-Ensures (λ _ after. after ≡ db) (code == "") _ _ db (λ _. refl)
        λ _.
          found_or-Ensures (λ _ after. after ≡ db) _
            (lookup (env.upper (strip env.is_space code)) db.coupons) _ db
            λ c _. apply_row-reads c user_id subtotal db

  -- What a coupon step may do: nothing to the database, and a discount that leaves the cost covered.
  abbrev Spares : Service → ℤ → ℤ → Db → ℤ × Option String → Db → Type 0
  Spares svc quantity subtotal db coupon after =
      (after ≡ db) × (scale_to_qty svc.rate_per_1000_paise quantity ≤ℤ subtotal -ℤ coupon.0)

  module _ (svc : Service) (quantity subtotal : ℤ) (layer : Layer) (db : Db)
      (laws : IsOrdered env.floats)
      (covered : scale_to_qty svc.rate_per_1000_paise quantity ≤ℤ subtotal) where
    no_coupon : Spares svc quantity subtotal db (pos 0, none) db
    no_coupon = (refl, sub_zero-ge (scale_to_qty svc.rate_per_1000_paise quantity) subtotal covered)

    coupon_step-Spares :
        (uid : Option ℕ) (code : Option String)
        → Ensures
            (Spares svc quantity subtotal db)
            (coupon_step svc quantity subtotal layer uid code db)
    unfolding coupon_step
    coupon_step-Spares none code = no_coupon
    coupon_step-Spares (some uid) none = no_coupon
    coupon_step-Spares (some uid) (some code) =
        if-Ensures (Spares svc quantity subtotal db) (code == "") _ _ db (λ _. no_coupon)
          λ _.
            bind-Ensures (Spares svc quantity subtotal db) (λ _ after. after ≡ db)
              (apply_coupon (some code) uid subtotal) _ db
              (apply_coupon-reads (some code) uid subtotal db)
              λ applied after e.
                (e, floored-no_loss svc quantity subtotal layer after applied laws covered)

  -- What a quote promises: the database is as it was, and the charge covers the cost.
  abbrev Covers : Db → PriceQuote → Db → Type 0
  Covers db q after = (after ≡ db) × (q.cost_paise ≤ℤ q.charge_paise)

  sold-Covers :
      (svc : Service) (quantity : ℤ) (rate : SellRate) (sold : ℤ × Layer) (uid : Option ℕ)
      (code : Option String) (db after : Db)
      → IsOrdered env.floats
      → after ≡ db
      → svc.rate_per_1000_paise ≤ℤ sold.0
      → Ensures (Covers db) (
          (coupon_step svc quantity (scale_to_qty sold.0 quantity) sold.1 uid code >>= λ coupon.
          return (quote_of svc quantity rate sold coupon))
            after)
  sold-Covers svc quantity rate sold uid code db after laws e h =
      let cost = scale_to_qty svc.rate_per_1000_paise quantity in
      let subtotal = scale_to_qty sold.0 quantity in
      let covered = scale_to_qty_mono svc.rate_per_1000_paise sold.0 quantity laws h in
      bind-Ensures (Covers db) (Spares svc quantity subtotal after)
        (coupon_step svc quantity subtotal sold.1 uid code)
        (λ coupon. return (quote_of svc quantity rate sold coupon)) after
        (coupon_step-Spares svc quantity subtotal sold.1 after laws covered uid code)
        λ coupon last kept. (
          kept.0 ∙ e,
          ≤ℤ_trans cost (subtotal -ℤ coupon.0) (max_ℤ (pos 0) (subtotal -ℤ coupon.0)) kept.1
              (max-le-right (pos 0) (subtotal -ℤ coupon.0)),
        )

  quote_service-Covers :
      (svc : Service) (quantity : ℤ) (uid : Option ℕ) (code : Option String) (db : Db)
      → IsOrdered env.floats
      → Ensures (Covers db) (quote_service svc quantity uid code db)
  unfolding quote_service
  quote_service-Covers svc quantity uid code db laws =
      raise_if-Ensures (Covers db) (ltb_ℤ quantity svc.min_qty || ltb_ℤ svc.max_qty quantity) _ _ db
        λ _.
          bind-Ensures (Covers db) _ (resolve_sell_rate svc uid) _ db
            (resolve_sell_rate-margin svc uid db)
            λ rate after h.
              sold-Covers svc quantity rate (reseller_rate svc (panel_of uid after) rate.0 rate.1)
                uid code db after laws h.0
                (reseller_rate-ge-cost svc (panel_of uid after) rate.0 rate.1 (
                  ≤ℤ_trans svc.rate_per_1000_paise
                    (margin_floor_per_1000 svc.rate_per_1000_paise (min_margin db)) rate.0
                    (margin_floor-ge svc.rate_per_1000_paise (min_margin db)) h.1))

  quote_order-Covers :
      (service_id : String) (quantity : ℤ) (uid : Option ℕ) (code : Option String) (db : Db)
      → IsOrdered env.floats
      → Ensures (Covers db) (quote_order service_id quantity uid code db)
  unfolding quote_order
  quote_order-Covers service_id quantity uid code db laws =
      found_or-Ensures (Covers db) _ (lookup service_id db.services) _ db λ svc _.
        raise_if-Ensures (Covers db) (not svc.is_active) _ _ db
          λ _. quote_service-Covers svc quantity uid code db laws

  -- On a platform whose float arithmetic keeps the order, a quote that `quote_order` returns never
  -- charges less than the provider's cost for the quantity, whatever the markups, the reseller's
  -- discount and the coupon, and asking for it writes nothing.
  pub quote_no_loss :
      (service_id : String) (quantity : ℤ) (uid : Option ℕ) (code : Option String) (db : Db)
      {q : PriceQuote} {after : Db}
      → IsOrdered env.floats
      → quote_order service_id quantity uid code db ≡ (returns q, after)
      → (after ≡ db) × (q.cost_paise ≤ℤ q.charge_paise)
  quote_no_loss service_id quantity uid code db laws e =
      subst (Ensures (Covers db)) e (quote_order-Covers service_id quantity uid code db laws)
